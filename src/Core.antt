-- ===== src/Core.antt =====
-- tools/src/core.ts: the signed core of a proof, its hash, and ES256 signatures over it.
pub mod Members
pub mod LowS
pub mod Der
mod Tests
use vcap_spec.Prelude.{
  ℕ, zero, suc, ◌+◌, ◌-◌, ◌/◌, ◌%◌, Bool, true, false, ◌&&◌, Option, none, some, List, [], ◌∷◌,
  ◌++◌, length, take, drop, replicate, ltb, leb, ◌==◌, if◌then◌else◌, String, map, ◌>>=◌,
}
use vcap_spec.Bytes.{Bytes, be, of_be}
use vcap_spec.Text.{Text, text}
use vcap_spec.Json.{Json, obj, Fields, end, field, member, jcs}
use vcap_spec.Node.{Node}

abbrev pub core_keys : List Text
core_keys =
    text "v"
    ∷ text "capture_id"
    ∷ text "media"
    ∷ text "device"
    ∷ text "watermark"
    ∷ text "time"
    ∷ text "location"
    ∷ text "policy"
    ∷ []

-- `if (key in proof) core[key] = proof[key]`.
keep : Text → Option Json → Fields → Fields
keep key none core = core
keep key (some v) core = field key v core

keep_keys : List Text → Fields → Fields
keep_keys [] proof = end
keep_keys (key ∷ keys) proof = keep key (member key proof) (keep_keys keys proof)

unfoldable pub extract_core : Fields → Fields
unfolding keep_keys keep
extract_core proof = keep_keys core_keys proof

unfoldable pub core_bytes : Fields → Bytes
core_bytes proof = jcs (obj (extract_core proof))

module _ (node : Node) where
  open node use {Key, sha256, to_base64url, create_public_key, is_prime256v1, verify}

  unfoldable pub core_hash : Fields → Bytes
  core_hash proof = sha256 (core_bytes proof)

  unfoldable pub key_id : Bytes → Text
  key_id spki_der = to_base64url (sha256 spki_der)

  unfoldable pub verify_es256 : Bytes → Bytes → Key → Bool
  verify_es256 bytes sig key = length sig == 64 && verify bytes sig key

  only_p256 : Option Key → Option Key
  only_p256 none = none
  only_p256 (some key) = if is_prime256v1 key then some key else none

  unfoldable pub public_key_from_spki : Bytes → Option Key
  unfolding only_p256
  public_key_from_spki spki_der = only_p256 (create_public_key spki_der)

-- The order of the P-256 group.
abbrev pub order : ℕ
order = 0xFFFFFFFF00000000FFFFFFFFFFFFFFFFBCE6FAADA7179E84F3B9CAC2FC632551

abbrev pub half_order : ℕ
half_order = order / 2

-- `BigInt('0x' + hex)`, which throws on an empty buffer.
to_big : Bytes → Option ℕ
to_big [] = none
to_big (b ∷ bs) = some (of_be (b ∷ bs))

-- The number of hexadecimal digits.
hex_length : ℕ → ℕ → ℕ
hex_length zero n = 1
hex_length (suc fuel) n = let more = hex_length fuel (n / 16) in if ltb n 16 then 1 else more + 1

-- `Buffer.from(n.toString(16).padStart(64, '0'), 'hex')` of `order - s`. Of a negative number the
-- decoder takes the zeros in front of the sign, by pairs, and stops there.
to_buf32 : ℕ → Bytes
unfolding hex_length
to_buf32 s =
    if leb s order
    then be 32 (order - s)
    else replicate ((63 - hex_length (s - order) (s - order)) / 2) 0

pub is_low_s : Bytes → Option Bool
unfolding to_big
is_low_s sig = do s ← to_big (drop 32 sig); some (leb s half_order)

-- The other signature of the same message.
pub flip_s : Bytes → Option Bytes
unfolding to_big to_buf32
flip_s sig = do s ← to_big (drop 32 sig); some (take 32 sig ++ to_buf32 s)

-- `p1363ToDer`: the bytes without leading zeros, and a zero in front of a high bit.
strip_zeros : Bytes → Bytes
strip_zeros [] = []
strip_zeros (b ∷ []) = b ∷ []
strip_zeros (zero ∷ b ∷ r) = strip_zeros (b ∷ r)
strip_zeros (suc a ∷ b ∷ r) = suc a ∷ b ∷ r

pad_high : Bytes → Bytes
pad_high [] = []
pad_high (b ∷ r) = if leb 0x80 b then 0 ∷ b ∷ r else b ∷ r

pub der_int : Bytes → Bytes
unfolding strip_zeros pad_high
der_int b = let v = pad_high (strip_zeros b) in 0x02 ∷ length v % 256 ∷ v

pub p1363_to_der : Bytes → Bytes
p1363_to_der sig =
    let body = der_int (take 32 sig) ++ der_int (drop 32 sig) in 0x30 ∷ length body % 256 ∷ body
