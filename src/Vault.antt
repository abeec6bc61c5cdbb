-- ===== src/Vault.antt =====
-- tools/src/vault/format.ts: the manifest of an encrypted capture, its header, and its chunks. The
-- decoding of hexadecimal is Node's; `none` is an error thrown.
pub mod Chunks
pub mod Nonces
mod Tests
use vcap_spec.Prelude.{
  ℕ, zero, suc, ◌+◌, ◌-◌, ◌*◌, ◌/◌, ◌%◌, Bool, true, false, not, ◌&&◌, ◌||◌, Option, none, some,
  List, [], ◌∷◌, ◌++◌, length, all, ltb, leb, ◌==◌, if◌then◌else◌, ◌>>=◌, ℤ, pos, negsuc, ◌-ℤ◌,
  ltb_ℤ,
}
use vcap_spec.Bytes.{Bytes, eq_bytes, write_int}
use vcap_spec.Text.{Text, text}
use vcap_spec.Json.{Json, num, str, obj, Fields, end, field, member, join, sort_members}
use vcap_spec.Node.{Node}
use vcap_spec.Registry.Integrity.{safe_integer}

abbrev pub chunk_bytes : ℕ
chunk_bytes = 1048576

abbrev pub max_bytes : ℕ
max_bytes = 500000000

abbrev pub version : Text
version = text "vcap-vault/1"

-- `version` and `chunk_bytes` are of the one value their types allow.
pub record Manifest : Type 0 where
  pub object_id : Text
  pub capture_id : Text
  pub org_key_id : Text
  pub nonce_prefix : Text
  pub plaintext_bytes : ℕ
  pub enc : Text
  pub ciphertext : Text
  pub ciphertext_sha256 : Text

abbrev u32 : ℕ → Option Bytes
u32 n = write_int 4 (pos n)

abbrev u64 : ℕ → Option Bytes
u64 n = write_int 8 (pos n)

-- The names of an object, sorted and joined by commas.
names : Fields → List (Text × Text)
names end = []
names (field k v fs) = (k, []) ∷ names fs

paired : List Text → List (Text × Text)
paired [] = []
paired (k ∷ ks) = (k, []) ∷ paired ks

firsts : List (Text × Text) → List Text
firsts [] = []
firsts ((k, v) ∷ r) = k ∷ firsts r

-- `keys(value, expected)`, with the members.
keys : Option Json → List Text → Option Fields
unfolding names paired firsts
keys (some (obj fs)) expected =
    if eq_bytes (join (firsts (sort_members (names fs))))
      (join (firsts (sort_members (paired expected))))
    then some fs
    else none
keys _ expected = none

is_base64url : ℕ → Bool
is_base64url c =
    leb 65 c && leb c 90
    || (leb 97 c && leb c 122 || (leb 48 c && leb c 57 || (c == 95 || c == 45)))

is_hex : ℕ → Bool
is_hex c = leb 48 c && leb c 57 || leb 97 c && leb c 102

-- A string of `n` lowercase hexadecimal digits.
hex_member : Option Json → ℕ → Option Text
unfolding is_hex
hex_member (some (str t)) n = if length t == n && all is_hex t then some t else none
hex_member _ n = none

text_member : Option Json → Option Text
text_member (some (str t)) = some t
text_member _ = none

-- A safe integer from 0 to `MAX_BYTES`.
size_member : Option Json → Option ℕ
size_member value = elim (safe_integer value) [
  | some (pos n) ↦ if leb n max_bytes then some n else none
  | _ ↦ none
]

literal : Option Json → Json → Option Bool
literal (some (str t)) (str u) = if eq_bytes t u then some true else none
literal (some (num (pos n))) (num (pos m)) = if n == m then some true else none
literal _ _ = none

abbrev manifest_keys : List Text
manifest_keys =
    text "version"
    ∷ text "object_id"
    ∷ text "capture_id"
    ∷ text "org_key_id"
    ∷ text "nonce_prefix"
    ∷ text "plaintext_bytes"
    ∷ text "chunk_bytes"
    ∷ text "wrapped_key"
    ∷ text "ciphertext_sha256"
    ∷ []

pub chunk_count : Manifest → ℕ
chunk_count m =
    let n = (m.plaintext_bytes + (chunk_bytes - 1)) / chunk_bytes in if ltb n 1 then 1 else n

pub ciphertext_bytes : Manifest → ℕ
ciphertext_bytes m = m.plaintext_bytes + 16 * chunk_count m

-- Past the end it is not positive.
pub chunk_size : Manifest → ℕ → ℤ
chunk_size m index =
    let rest = pos m.plaintext_bytes -ℤ pos (index * chunk_bytes) in
    if ltb_ℤ (pos chunk_bytes) rest then pos chunk_bytes else rest

module _ (node : Node) (from_hex : Text → Bytes) where
  open node use {sha256, from_base64url, to_base64url}

  pub base64url : Text → ℕ → Option Bytes
  unfolding is_base64url
  base64url value bytes =
      if not (all is_base64url value)
      then none
      else if not (length (from_base64url value) == bytes)
          || not (eq_bytes (to_base64url (from_base64url value)) value)
      then none
      else some (from_base64url value)

  -- RFC 9180: an uncompressed point begins with 4.
  uncompressed : Bytes → Option Bool
  uncompressed (b ∷ r) = if b == 4 then some true else none
  uncompressed [] = none

  pub manifest : Json → Option Manifest
  unfolding keys hex_member text_member size_member literal uncompressed
  manifest value = do
    fs ← keys (some value) manifest_keys
    same_version ← literal (member (text "version") fs) (str version)
    same_chunk ← literal (member (text "chunk_bytes") fs) (num (pos chunk_bytes))
    size ← size_member (member (text "plaintext_bytes") fs)
    object ← hex_member (member (text "object_id") fs) 32
    org ← hex_member (member (text "org_key_id") fs) 64
    digest ← hex_member (member (text "ciphertext_sha256") fs) 64
    capture ← text_member (member (text "capture_id") fs)
    capture_bytes ← base64url capture 16
    prefix ← text_member (member (text "nonce_prefix") fs)
    prefix_bytes ← base64url prefix 8
    wrapped ← keys (member (text "wrapped_key") fs) (text "enc" ∷ text "ciphertext" ∷ [])
    enc ← text_member (member (text "enc") wrapped)
    enc_bytes ← base64url enc 65
    point ← uncompressed enc_bytes
    cipher ← text_member (member (text "ciphertext") wrapped)
    cipher_bytes ← base64url cipher 48
    some (record {
      object_id = object;
      capture_id = capture;
      org_key_id = org;
      nonce_prefix = prefix;
      plaintext_bytes = size;
      enc = enc;
      ciphertext = cipher;
      ciphertext_sha256 = digest;
    })

  pub header : Manifest → Option Bytes
  header m = do
    capture ← base64url m.capture_id 16
    prefix ← base64url m.nonce_prefix 8
    size ← u64 m.plaintext_bytes
    chunk ← u32 chunk_bytes
    some (
        text "vcap/1.0/vault/header"
        ++ 0
          ∷ (from_hex m.object_id
              ++ (capture ++ (from_hex m.org_key_id ++ (prefix ++ (size ++ chunk))))))

  pub nonce : Manifest → ℕ → Option Bytes
  nonce m index = do prefix ← base64url m.nonce_prefix 8; n ← u32 index; some (prefix ++ n)

  pub info : Manifest → Option Bytes
  info m = do h ← header m; some (text "vcap/1.0/vault" ++ 0 ∷ sha256 h)

  pub aad : Manifest → ℕ → Option Bytes
  aad m index = do
    h ← header m
    n ← u32 index
    some (
        text "vcap/1.0/vault/chunk"
        ++ 0 ∷ (sha256 h ++ (n ++ (if index == chunk_count m - 1 then 1 else 0) ∷ [])))
