-- ===== src/Anchor.antt =====
-- tools/src/anchor.ts: a core hash in a batch whose root a contract recorded. Base64 decoding of a
-- string never throws, so the `catch` blocks of the source are not reached.
mod Tests
use vcap_spec.Prelude.{
  ℕ, ◌≡◌, ◌↔◌, refl, sym, ap, ◌∙◌, Bool, true, false, not, ◌||◌, Option, none, some, List, [], ◌∷◌,
  map, all, All, length, arith, if◌then◌else◌, ℤ, pos, eqb_ℤ, eqb_ℤ_iff, eqb_ℤ_refl, Option-cases,
  inl, inr,
}
use vcap_spec.Bytes.{Bytes, eq_bytes}
use vcap_spec.Bytes.Laws.{eq_bytes_iff, eq_bytes_self}
use vcap_spec.Text.{Text}
use vcap_spec.Node.{Node}
use vcap_spec.Registry.Merkle.{leaf_hash, verify_inclusion}
use vcap_spec.Registry.Merkle.Tree.{tree_root}
use vcap_spec.Registry.Merkle.Entries.{Entry, verify_inclusion-Entry}
use vcap_spec.Registry.Leaf.{has_32}
use vcap_spec.Registry.Leaf.Sound.{all-All}

pub record AnchorAttachment : Type 0 where
  pub chain : Text
  pub tx : Text
  pub block : ℤ
  pub anchor_id : ℤ
  pub index : ℤ
  pub tree_size : ℤ
  pub root : Text
  pub merkle_path : List Text

pub record ChainRead : Type 0 where
  pub root : Text
  pub tree_size : ℤ
  pub block_time : Option ℤ

pub data AnchorReason : Type 0 where
  bad_root bad_path not_reached differs_from_chain : AnchorReason

pub data AnchorOutcome : Type 0 where
  anchored : (on_chain : Bool) (block_time : Option ℤ) → AnchorOutcome
  anchor_refused : AnchorReason → AnchorOutcome

module _ (node : Node) where
  open node use {sha256, sha256_length, from_base64url}

  -- The comparison with what the chain recorded.
  compare_read : AnchorAttachment → Option ChainRead → AnchorOutcome
  compare_read attachment none = anchored false none
  compare_read attachment (some read) =
      if not (eqb_ℤ read.tree_size attachment.tree_size)
        || not (eq_bytes (from_base64url read.root) (from_base64url attachment.root))
      then anchor_refused differs_from_chain
      else anchored true read.block_time

  unfoldable pub verify_anchor : AnchorAttachment → Bytes → Option ChainRead → AnchorOutcome
  unfolding compare_read
  verify_anchor attachment core_hash read =
      let root = from_base64url attachment.root in
      let path = map from_base64url attachment.merkle_path in
      if not (has_32 root)
      then anchor_refused bad_root
      else if not (all has_32 path)
      then anchor_refused bad_path
      else if not (
          verify_inclusion sha256 (leaf_hash sha256 core_hash) attachment.index attachment.tree_size
            path root)
      then anchor_refused not_reached
      else compare_read attachment read

  -- The checks that need nothing but the proof.
  pub record Reaches (a : AnchorAttachment) (core_hash : Bytes) : Type 0 where
    pub root_size : has_32 (from_base64url a.root) ≡ true
    pub path_size : all has_32 (map from_base64url a.merkle_path) ≡ true
    pub in_batch :
        verify_inclusion sha256
          (leaf_hash sha256 core_hash)
          a.index
          a.tree_size
          (map from_base64url a.merkle_path)
          (from_base64url a.root)
        ≡ true

  -- Without a chain read, an anchor is accepted exactly if its path reaches its root, and it is never
  -- said to be on chain.
  pub verify_anchor-none_iff :
      (a : AnchorAttachment) (core_hash : Bytes) (on_chain : Bool) (time : Option ℤ)
      → (verify_anchor a core_hash none ≡ anchored on_chain time)
        ↔ (Reaches a core_hash × (on_chain ≡ false) × (time ≡ none))
  unfolding verify_anchor compare_read
  verify_anchor-none_iff a core_hash on_chain time = (
    λ h. (
      record {
        root_size = ground (arith, h);
        path_size = ground (arith, h);
        in_batch = ground (arith, h);
      },
      ground (arith, h),
      ground (arith, h),
    ),
    λ r. ground (arith, r.0.root_size, r.0.path_size, r.0.in_batch, r.1, r.2),
  )

  -- With a chain read, an anchor is accepted exactly if its path reaches its root and the chain
  -- recorded that root for that tree size; it is on chain then, at the block's time if that is known.
  pub verify_anchor-some_iff :
      (a : AnchorAttachment) (core_hash : Bytes) (read : ChainRead) (on_chain : Bool)
      (time : Option ℤ)
      → (verify_anchor a core_hash (some read) ≡ anchored on_chain time) ↔ (
          Reaches a core_hash
          × (read.tree_size ≡ a.tree_size)
          × (from_base64url read.root ≡ from_base64url a.root)
          × (on_chain ≡ true)
          × (time ≡ read.block_time))
  unfolding verify_anchor compare_read
  verify_anchor-some_iff a core_hash read on_chain time = (
    λ h. (
      record {
        root_size = ground (arith, h);
        path_size = ground (arith, h);
        in_batch = ground (arith, h);
      },
      (eqb_ℤ_iff read.tree_size a.tree_size).0 (ground (arith, h)),
      (eq_bytes_iff (from_base64url read.root) (from_base64url a.root)).0 (ground (arith, h)),
      ground (arith, h),
      ground (arith, h),
    ),
    λ r. ground (
      arith,
      r.0.root_size,
      r.0.path_size,
      r.0.in_batch,
      (eqb_ℤ_iff read.tree_size a.tree_size).1 r.1,
      (eq_bytes_iff (from_base64url read.root) (from_base64url a.root)).1 r.2,
      r.3,
      r.4,
    ),
  )

  -- When an anchor is accepted as on chain, and what the chain recorded is the size and the root of the
  -- tree of a batch, the anchor's index names an entry of the batch that is the core hash; or else
  -- SHA-256 collides on them or on what the verifier hashed.
  pub verify_anchor_sound :
      (a : AnchorAttachment) (core_hash : Bytes) (read : ChainRead) (time : Option ℤ)
      (batch : List Bytes)
      → verify_anchor a core_hash (some read) ≡ anchored true time
      → read.tree_size ≡ pos (length batch)
      → tree_root sha256 (map (leaf_hash sha256) batch) ≡ some (from_base64url read.root)
      → Entry sha256 core_hash a.index (map from_base64url a.merkle_path) batch
  verify_anchor_sound a core_hash read time batch h size top =
      let (r, n, root, _, _) = (verify_anchor-some_iff a core_hash read true time).0 h in
      verify_inclusion-Entry sha256 sha256_length core_hash a.index batch
        (map from_base64url a.merkle_path) (from_base64url a.root)
        (all-All (map from_base64url a.merkle_path) r.path_size) (top ∙ ap some root)
        (rw (sym n ∙ size) at r.in_batch)
