-- ===== src/Registry.antt =====
-- tools/src/registry.ts: the log of devices. Its tree and inclusion proofs, the messages it signs,
-- and the checks of the statements a proof carries.
pub mod Merkle
pub mod Messages
pub mod Logs
pub mod Leaf
pub mod Status
pub mod Integrity
mod Tests
