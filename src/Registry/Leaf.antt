-- ===== src/Registry/Leaf.antt =====
-- `verifyRegistry` of tools/src/registry.ts: the inclusion of a device's key in a trusted log.
-- `none` is an error thrown by `u64be`; base64 decoding of a string never throws, so the `catch`
-- blocks of the source are not reached.
pub mod Included
pub mod Sound
use vcap_spec.Prelude.{
  ℕ, ◌+◌, ◌/◌, ◌%◌, Bool, true, false, not, Option, none, some, List, [], ◌∷◌, map, length, all,
  ltb, ◌==◌, if◌then◌else◌, ℤ,
}
use vcap_spec.Bytes.{Bytes, eq_bytes}
use vcap_spec.Text.{Text, text}
use vcap_spec.Json.{Json, num, str, obj, end, field, jcs}
use vcap_spec.Node.{Node}
use vcap_spec.Core.{verify_es256}
use vcap_spec.Registry.Merkle.{leaf_hash, verify_inclusion}
use vcap_spec.Registry.Messages.{tree_head_message}
use vcap_spec.Registry.Logs.{TrustedLog, find_log, log_key}

pub record RegistryLeaf : Type 0 where
  pub kind : Text
  pub key_id : Text
  pub public_key : Text
  pub secure_hw : Text
  pub attestation_digest : Text
  pub registered_at : ℤ

-- The leaf as the JSON value it is; the member `kind` is the source's `type`.
unfoldable pub leaf_json : RegistryLeaf → Json
leaf_json leaf = obj (
    field (text "type") (str leaf.kind) (
      field (text "key_id") (str leaf.key_id) (
        field (text "public_key") (str leaf.public_key) (
          field (text "secure_hw") (str leaf.secure_hw) (
            field (text "attestation_digest") (str leaf.attestation_digest)
              (field (text "registered_at") (num leaf.registered_at) end))))))

pub record TreeHead : Type 0 where
  pub tree_size : ℤ
  pub timestamp : ℤ
  pub root_hash : Text
  pub signature : Text

pub record RegistryAttachment : Type 0 where
  pub log_id : Text
  pub leaf_index : ℤ
  pub leaf : RegistryLeaf
  pub inclusion_path : List Text
  pub tree_head : TreeHead

pub data RegistryReason : Type 0 where
  not_trusted unusable_key unreadable bad_root bad_path head_signature not_included leaf_type
        bad_key_id another_key another_public_key :
      RegistryReason

pub data RegistryOutcome : Type 0 where
  registry_ok : (secure_hw : Text) (registered_at timestamp : ℤ) → RegistryOutcome
  registry_refused : (reason : RegistryReason) (trusted : Bool) → RegistryOutcome

-- `bytes.toString('hex')`.
unfoldable pub hex : Bytes → Text
hex [] = []
hex (b ∷ bs) = hex_digit (b / 16) ∷ hex_digit (b % 16) ∷ hex bs
  where
    hex_digit : ℕ → ℕ
    hex_digit d = if ltb d 10 then 48 + d else 87 + d

unfoldable pub has_32 : Bytes → Bool
has_32 hash = length hash == 32

module _ (node : Node) where
  open node use {Key, sha256, from_base64url, from_base64}

  unfoldable pub leaf_key_id : Text → Option Text
  leaf_key_id device_key_id =
      let bytes = from_base64url device_key_id in
      if length bytes == 32 then some (hex bytes) else none

  -- The leaf's binding to the key.
  check_binding : RegistryAttachment → Text → Bytes → RegistryOutcome
  check_binding attachment key_id sig_pub =
      if not (eq_bytes attachment.leaf.kind (text "key"))
      then registry_refused leaf_type true
      else elim (leaf_key_id key_id) [
        | none ↦ registry_refused bad_key_id true
        | some wanted ↦
            if not (eq_bytes attachment.leaf.key_id wanted)
            then registry_refused another_key true
            else if not (eq_bytes (from_base64 attachment.leaf.public_key) sig_pub)
            then registry_refused another_public_key true
            else registry_ok attachment.leaf.secure_hw attachment.leaf.registered_at
                attachment.tree_head.timestamp
      ]

  -- The inclusion under the root.
  unfoldable pub included : RegistryAttachment → Bool
  included attachment =
      verify_inclusion sha256 (leaf_hash sha256 (jcs (leaf_json attachment.leaf)))
        attachment.leaf_index attachment.tree_head.tree_size
        (map from_base64url attachment.inclusion_path)
        (from_base64url attachment.tree_head.root_hash)

  check_head : RegistryAttachment → Text → Bytes → Key → Option RegistryOutcome
  unfolding check_binding
  check_head attachment key_id sig_pub key =
      let head = attachment.tree_head in
      elim (tree_head_message head.tree_size head.timestamp (from_base64url head.root_hash)) [
        | none ↦ none
        | some message ↦
            if not (verify_es256 node message (from_base64url head.signature) key)
            then some (registry_refused head_signature true)
            else if not (included attachment)
            then some (registry_refused not_included true)
            else some (check_binding attachment key_id sig_pub)
      ]

  with_log : RegistryAttachment → Text → Bytes → TrustedLog → Option RegistryOutcome
  with_log attachment key_id sig_pub log = elim (log_key node log) [
    | none ↦ some (registry_refused unusable_key false)
    | some key ↦
        if not (has_32 (from_base64url attachment.tree_head.root_hash))
        then some (registry_refused bad_root true)
        else if not (all has_32 (map from_base64url attachment.inclusion_path))
        then some (registry_refused bad_path true)
        else check_head attachment key_id sig_pub key
  ]

  -- `expected` is the device's key id and the public key of the signature.
  unfoldable pub verify_registry :
      RegistryAttachment → Text → Bytes → List TrustedLog → Option RegistryOutcome
  unfolding with_log check_head
  verify_registry attachment key_id sig_pub logs = elim (find_log attachment.log_id logs) [
    | none ↦ some (registry_refused not_trusted false)
    | some log ↦ with_log attachment key_id sig_pub log
  ]
