-- ===== src/Registry/Tests.antt =====
-- A log of two entries and the statements it signs, with the stand-in for Node.
use vcap_spec.Prelude.{ℕ, ◌≡◌, refl, ◌↔◌, none, some, List, [], ◌∷◌, ◌++◌, replicate, pos}
use vcap_spec.Bytes.{Bytes, be, eq_bytes, write_uint, write_int}
use vcap_spec.Text.{Text, text, text_ltb, utf8}
use vcap_spec.Json.{
  num, str, Fields, end, field, jcs, member, stringify_int, stringify_text, join, insert_member,
  sort_members, member_texts, serialize,
}
use vcap_spec.Node.Stub.{stub, cut32, first_is}
use vcap_spec.Core.{verify_es256, public_key_from_spki}
use vcap_spec.Registry.Merkle.{leaf_hash, node_hash, walk, ends_at, verify_inclusion}
use vcap_spec.Registry.Merkle.Tree.{tree_root, root_from, next_level}
use vcap_spec.Registry.Messages.{
  tree_head_message, key_status_message, attestation_status_message, without_sig, integrity_message,
}
use vcap_spec.Registry.Logs.{TrustedLog, find_log, has, known, log_key, any_signed}
use vcap_spec.Registry.Leaf.{
  RegistryLeaf, leaf_json, RegistryAttachment, registry_ok, hex, has_32, leaf_key_id, included,
  verify_registry,
}
use vcap_spec.Registry.Leaf.Included.{Accepted, verify_registry_iff}
use vcap_spec.Registry.Merkle.Entries.{Entry}
use vcap_spec.Registry.Leaf.Sound.{verify_registry_sound}
use vcap_spec.Registry.Status.{KeyStatusStatement, status_ok, verify_key_status, status_code}
use vcap_spec.Registry.Integrity.{
  integrity_ok, verify_integrity, Relayed, verify_integrity_iff, decode_sig, safe_integer,
}

open_all : Unit {0}
unfolding be eq_bytes write_uint write_int text_ltb utf8 stringify_int stringify_text join
    insert_member sort_members member_texts serialize jcs member cut32 first_is verify_es256
    public_key_from_spki leaf_hash node_hash walk ends_at verify_inclusion tree_root root_from
    next_level tree_head_message key_status_message attestation_status_message without_sig
    integrity_message find_log has known log_key any_signed leaf_json hex has_32 leaf_key_id
    included verify_registry verify_key_status verify_integrity decode_sig status_code safe_integer
open_all = tt

-- Every message of a log begins with `v`, and so does a good signature here.
abbrev good : Text
good = 118 ∷ replicate 63 0

abbrev a_log : TrustedLog
a_log = record { log_id = text "log"; spki = 1 ∷ []; app_signing_digests = none }

abbrev a_leaf : RegistryLeaf
a_leaf = record {
  kind = text "key";
  key_id = replicate 64 48;
  public_key = text "pub";
  secure_hw = text "tee";
  attestation_digest = [];
  registered_at = pos 5;
}

abbrev leaf_bytes : Bytes
unfolding open_all
leaf_bytes = jcs (leaf_json a_leaf)

abbrev entries : List Bytes
entries = text "other" ∷ leaf_bytes ∷ []

abbrev root : Bytes
unfolding open_all
root = node_hash cut32 (leaf_hash cut32 (text "other")) (leaf_hash cut32 leaf_bytes)

abbrev other_hash : Bytes
unfolding open_all
other_hash = leaf_hash cut32 (text "other")

abbrev attachment : RegistryAttachment
attachment = record {
  log_id = text "log";
  leaf_index = pos 1;
  leaf = a_leaf;
  inclusion_path = other_hash ∷ [];
  tree_head = record { tree_size = pos 2; timestamp = pos 9; root_hash = root; signature = good };
}

in_log :
    verify_registry stub attachment (replicate 32 0) (text "pub") (a_log ∷ [])
    ≡ some (registry_ok (text "tee") (pos 5) (pos 9))
unfolding open_all
in_log = refl

verify_registry_iff_example :
    (verify_registry stub attachment (replicate 32 0) (text "pub") (a_log ∷ [])
      ≡ some (registry_ok (text "tee") (pos 5) (pos 9)))
    ↔ Accepted stub attachment (replicate 32 0) (text "pub") (a_log ∷ [])
verify_registry_iff_example =
    verify_registry_iff stub attachment (replicate 32 0) (text "pub") (a_log ∷ [])

verify_registry_sound_example :
    Entry cut32 (jcs (leaf_json a_leaf)) (pos 1) (other_hash ∷ []) entries
unfolding open_all
verify_registry_sound_example =
    verify_registry_sound stub attachment (replicate 32 0) (text "pub") (a_log ∷ []) entries in_log
      refl refl

abbrev statement : KeyStatusStatement
statement = record {
  log_id = text "log";
  at = pos 7;
  tree_size = pos 2;
  status = pos 1;
  signature = good;
}

revoked :
    verify_key_status stub statement (replicate 32 0) (pos 7) (a_log ∷ []) ≡ some (status_ok 1)
unfolding open_all
revoked = refl

abbrev body : Fields
body = field (text "source") (str (text "appAttest")) (
    field (text "verdict") (str (text "basic"))
      (field (text "evaluated_at") (num (pos 3)) (field (text "sig") (str good) end)))

relayed :
    verify_integrity stub body (replicate 32 4) (a_log ∷ [])
    ≡ integrity_ok (text "appAttest") (text "basic") (pos 3)
unfolding open_all
relayed = refl

verify_integrity_iff_example :
    (verify_integrity stub body (replicate 32 4) (a_log ∷ [])
      ≡ integrity_ok (text "appAttest") (text "basic") (pos 3))
    ↔ Relayed stub body (replicate 32 4) (a_log ∷ []) (text "appAttest") (text "basic") (pos 3)
verify_integrity_iff_example =
    verify_integrity_iff stub body (replicate 32 4) (a_log ∷ []) (text "appAttest") (text "basic")
      (pos 3)

abbrev head_bytes : Bytes
head_bytes = text "vcap/1.0/sth" ++ (replicate 7 0 ++ (2 ∷ (replicate 7 0 ++ (9 ∷ root))))

head_is : tree_head_message (pos 2) (pos 9) root ≡ some head_bytes
unfolding open_all
head_is = refl

abbrev status_bytes : Bytes
status_bytes =
    text "vcap/1.0/status"
    ++ (replicate 32 0 ++ (replicate 7 0 ++ (7 ∷ (replicate 7 0 ++ (2 ∷ 1 ∷ [])))))

abbrev code : ℕ
code = 1

abbrev key_bytes : Bytes
key_bytes = replicate 32 0

status_is : key_status_message key_bytes (pos 7) (pos 2) code ≡ some status_bytes
unfolding open_all
status_is = refl
