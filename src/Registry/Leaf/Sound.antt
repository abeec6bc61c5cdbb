-- ===== src/Registry/Leaf/Sound.antt =====
-- `verifyRegistry` of tools/src/registry.ts, over a log that is the tree of some entries.
use vcap_spec.Prelude.{◌≡◌, true, some, List, [], ◌∷◌, map, length, all, All, arith, pos, ==_iff}
use vcap_spec.Bytes.{Bytes}
use vcap_spec.Text.{Text}
use vcap_spec.Json.{jcs}
use vcap_spec.Node.{Node}
use vcap_spec.Registry.Logs.{TrustedLog}
use vcap_spec.Registry.Merkle.{leaf_hash}
use vcap_spec.Registry.Merkle.Tree.{tree_root}
use vcap_spec.Registry.Merkle.Sound.{Is32}
use vcap_spec.Registry.Merkle.Entries.{Entry, verify_inclusion-Entry}
use vcap_spec.Registry.Leaf.{
  leaf_json, RegistryAttachment, registry_ok, has_32, included, verify_registry,
}
use vcap_spec.Registry.Leaf.Included.{verify_registry_iff}

pub all-All : (hs : List Bytes) → all has_32 hs ≡ true → All Is32 hs
unfolding has_32
all-All [] h = tt
all-All (x ∷ r) h = ((==_iff (length x) 32).0 (ground (arith, h)), all-All r (ground (arith, h)))

module _ (node : Node) where
  open node use {sha256, sha256_length, from_base64url}

  -- When an attachment is accepted and its tree head is the size and the root of the tree of some
  -- entries, its index names one of them, and the canonical bytes of its leaf are that entry; or
  -- else SHA-256 gives one digest for the two, or for an input that the verifier hashed and
  -- another one, of a node of the tree.
  pub verify_registry_sound :
      (a : RegistryAttachment) (key_id : Text) (sig_pub : Bytes) (logs : List TrustedLog)
      (entries : List Bytes)
      → verify_registry node a key_id sig_pub logs
        ≡ some (registry_ok a.leaf.secure_hw a.leaf.registered_at a.tree_head.timestamp)
      → a.tree_head.tree_size ≡ pos (length entries)
      → tree_root sha256 (map (leaf_hash sha256) entries)
        ≡ some (from_base64url a.tree_head.root_hash)
      → Entry sha256
          (jcs (leaf_json a.leaf))
          a.leaf_index
          (map from_base64url a.inclusion_path)
          entries
  unfolding included
  verify_registry_sound a key_id sig_pub logs entries h size root =
      let r = (verify_registry_iff node a key_id sig_pub logs).0 h in
      verify_inclusion-Entry sha256 sha256_length (jcs (leaf_json a.leaf)) a.leaf_index entries
        (map from_base64url a.inclusion_path) (from_base64url a.tree_head.root_hash)
        (all-All (map from_base64url a.inclusion_path) r.path_size) root (rw size at r.in_tree)
