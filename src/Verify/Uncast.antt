-- ===== src/Verify/Uncast.antt =====
-- `verifyRegistry` of tools/src/registry.ts on an attachment outside the interface that
-- tools/src/verify.ts casts it to: the guards, in their order, on the members as they are parsed. `none`
-- is an error thrown by `u64be`, or what the model leaves out: a tree size or a time that `BigInt` would
-- convert, or a leaf with other members that a trusted log has in its tree.
use vcap_spec.Prelude.{
  ◌>>=◌, not, Bool, true, false, Option, none, some, List, [], ◌∷◌, all, if◌then◌else◌,
}
use vcap_spec.Bytes.{Bytes}
use vcap_spec.Text.{Text, text}
use vcap_spec.Json.{Items, nil, cons, Fields, member, jcs}
use vcap_spec.Node.{Node}
use vcap_spec.Core.{verify_es256}
use vcap_spec.Registry.Logs.{TrustedLog, find_log, log_key}
use vcap_spec.Registry.Leaf.{
  RegistryOutcome, registry_refused, has_32, verify_registry, not_trusted, unusable_key, bad_root,
  bad_path, head_signature, not_included, unreadable,
}
use vcap_spec.Registry.Integrity.{decode_sig}
use vcap_spec.Registry.Merkle.{leaf_hash, verify_inclusion}
use vcap_spec.Registry.Messages.{tree_head_message}
use vcap_spec.Verify.Decode.{str_of, int_of, obj_of, items_of, registry_attachment}

module _ (node : Node) where
  open node use {Key, sha256}

  decoded_path : Items → Option (List Bytes)
  decoded_path nil = some []
  decoded_path (cons v r) = do
    hash ← decode_sig node (some v)
    rest ← decoded_path r
    some (hash ∷ rest)

  -- The members under `try`; `none` is caught.
  decoded_head : Fields → Option (Bytes × Bytes × List Bytes)
  unfolding decoded_path
  decoded_head fs = do
    head ← obj_of (member (text "tree_head") fs)
    root ← decode_sig node (member (text "root_hash") head)
    signature ← decode_sig node (member (text "signature") head)
    items ← items_of (member (text "inclusion_path") fs)
    path ← decoded_path items
    some (root, signature, path)

  -- The leaf is hashed whole, and an index that is no integer is in no tree.
  leaf_included : Fields → Bytes → List Bytes → Option Bool
  leaf_included fs root path = do
    leaf ← member (text "leaf") fs
    head ← obj_of (member (text "tree_head") fs)
    size ← int_of (member (text "tree_size") head)
    some (elim (int_of (member (text "leaf_index") fs)) [
      | none ↦ false
      | some index ↦ verify_inclusion sha256 (leaf_hash sha256 (jcs leaf)) index size path root
    ])

  head_checked : Fields → Bytes → Bytes → List Bytes → Key → Option RegistryOutcome
  unfolding leaf_included
  head_checked fs root signature path key = do
    head ← obj_of (member (text "tree_head") fs)
    size ← int_of (member (text "tree_size") head)
    time ← int_of (member (text "timestamp") head)
    message ← tree_head_message size time root
    if not (verify_es256 node message signature key)
        then some (registry_refused head_signature true)
        else (do
          included ← leaf_included fs root path
          if included then none else some (registry_refused not_included true))

  key_checked : Fields → Key → Option RegistryOutcome
  unfolding decoded_head head_checked
  key_checked fs key = elim (decoded_head fs) [
    | none ↦ some (registry_refused unreadable true)
    | some (root, signature, path) ↦
        if not (has_32 root)
        then some (registry_refused bad_root true)
        else if not (all has_32 path)
        then some (registry_refused bad_path true)
        else head_checked fs root signature path key
  ]

  uncast : Fields → List TrustedLog → Option RegistryOutcome
  unfolding key_checked
  uncast fs logs = elim (do id ← str_of (member (text "log_id") fs); find_log id logs) [
    | none ↦ some (registry_refused not_trusted false)
    | some log ↦ elim (log_key node log) [
      | none ↦ some (registry_refused unusable_key false)
      | some key ↦ key_checked fs key
    ]
  ]

  -- `verifyRegistry(proof.registry as unknown as RegistryAttachment, …)`.
  unfoldable pub judge_registry : Fields → Text → Bytes → List TrustedLog → Option RegistryOutcome
  unfolding uncast
  judge_registry fs key_id spki logs = elim (registry_attachment fs) [
    | some attachment ↦ verify_registry node attachment key_id spki logs
    | none ↦ uncast fs logs
  ]
