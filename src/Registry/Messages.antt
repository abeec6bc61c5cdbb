-- ===== src/Registry/Messages.antt =====
-- The messages of tools/src/registry.ts that a log signs. `none` is an error thrown by `u64be`, for a
-- number that is no uint64.
pub mod Layout
use vcap_spec.Prelude.{ℕ, ◌%◌, Option, none, some, [], ◌∷◌, ◌++◌, ◌>>=◌, if◌then◌else◌, ℤ}
use vcap_spec.Bytes.{Bytes, eq_bytes, write_int}
use vcap_spec.Text.{Text, text}
use vcap_spec.Json.{Json, obj, Fields, end, field, jcs}

abbrev pub sth_separator : Bytes
sth_separator = text "vcap/1.0/sth"

abbrev pub status_separator : Bytes
status_separator = text "vcap/1.0/status"

abbrev pub attestation_status_separator : Bytes
attestation_status_separator = text "vcap/1.0/attestation-status"

abbrev pub integrity_separator : Bytes
integrity_separator = text "vcap/1.0/integrity"

abbrev pub u64be : ℤ → Option Bytes
u64be = write_int 8

unfoldable pub tree_head_message : ℤ → ℤ → Bytes → Option Bytes
tree_head_message tree_size timestamp root = do
  size ← u64be tree_size
  time ← u64be timestamp
  some (sth_separator ++ (size ++ (time ++ root)))

-- `Buffer.from([status])` keeps the low byte.
unfoldable pub key_status_message : Bytes → ℤ → ℤ → ℕ → Option Bytes
key_status_message key_id at tree_size status = do
  time ← u64be at
  size ← u64be tree_size
  some (status_separator ++ (key_id ++ (time ++ (size ++ status % 256 ∷ []))))

unfoldable pub attestation_status_message : Bytes → Json → ℤ → Option Bytes
attestation_status_message core_hash entries fetched_at = do
  time ← u64be fetched_at
  some (attestation_status_separator ++ (core_hash ++ (jcs entries ++ time)))

-- `const { sig: _sig, ...rest } = body`.
unfoldable pub without_sig : Fields → Fields
without_sig end = end
without_sig (field k v fs) =
    let rest = without_sig fs in if eq_bytes k (text "sig") then rest else field k v rest

unfoldable pub integrity_message : Bytes → Fields → Bytes
integrity_message core_hash body =
    integrity_separator ++ (core_hash ++ jcs (obj (without_sig body)))
