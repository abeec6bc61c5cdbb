-- ===== src/Verify.antt =====
-- tools/src/verify.ts: the verifier. `Label` has the labels of a verdict, `Shape` checks the proof's
-- members, `Decode` and `Uncast` read them, `Evidence` weighs the attachments with `Verdicts`, `Level` and `Ceiling` are the level of
-- a proof, `Binding` compares the segments with those of a `Container`, `Retimed` their timing, and
-- `Judge`, `Clip` and `File` put these together.
pub mod Label
pub mod Decode
pub mod Uncast
pub mod Verdicts
pub mod Evidence
pub mod Level
pub mod Ceiling
pub mod Container
pub mod Binding
pub mod Retimed
pub mod Shape
pub mod Judge
pub mod Clip
pub mod File
mod Tests
