-- ===== src/Node.antt =====
-- What the tools take from Node and from OpenSSL: SHA-256, the base64 codecs, and ECDSA keys.
-- A call that throws is `none`.
pub mod Stub
use vcap_spec.Prelude.{◌≡◌, Bool, Option, length}
use vcap_spec.Bytes.{Bytes}
use vcap_spec.Text.{Text}
use vcap_spec.Json.{Json}

pub record Node : Type 1 where
  pub Key : Type 0
  -- `createHash('sha256').update(bytes).digest()`.
  pub sha256 : Bytes → Bytes
  -- `Buffer.from(text, 'base64url')`, `bytes.toString('base64url')`, `Buffer.from(text, 'base64')`.
  pub from_base64url : Text → Bytes
  pub to_base64url : Bytes → Text
  pub from_base64 : Text → Bytes
  -- `Buffer.from(value, 'base64url')` of a value that is no string: the bytes of an array, or of an object
  -- that is like one, and `none` where it throws.
  pub from_value : Json → Option Bytes
  -- `createPublicKey({ key, format: 'der', type: 'spki' })`, and whether the key is on P-256.
  pub create_public_key : Bytes → Option Key
  pub is_prime256v1 : Key → Bool
  -- `createVerify('SHA256').update(bytes).verify({ key, dsaEncoding: 'ieee-p1363' }, sig)`.
  pub verify : Bytes → Bytes → Key → Bool
  -- A digest has 32 bytes.
  pub sha256_length : (b : Bytes) → length (sha256 b) ≡ 32
  -- Decoding gives back what was encoded.
  pub base64url_decode-encode : (b : Bytes) → from_base64url (to_base64url b) ≡ b
