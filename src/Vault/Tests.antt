-- ===== src/Vault/Tests.antt =====
-- A manifest of an object of two chunks; base64url moves each byte by 61 here.
use vcap_spec.Prelude.{ℕ, ◌+◌, ◌-◌, ◌≡◌, ◌≢◌, refl, some, none, [], ◌∷◌, replicate, pos, arith}
use vcap_spec.Bytes.{Bytes, eq_bytes, be, write_uint, write_int}
use vcap_spec.Text.{text, text_ltb}
use vcap_spec.Json.{Json, num, str, obj, end, field, member, join, insert_member, sort_members}
use vcap_spec.Node.{Node}
use vcap_spec.Node.Stub.{stub}
use vcap_spec.Registry.Integrity.{safe_integer}
use vcap_spec.Vault.{
  Manifest, chunk_count, ciphertext_bytes, manifest, header, nonce, aad, base64url,
}
use vcap_spec.Vault.Nonces.{manifest-chunks}

lowered : Bytes → Bytes
lowered [] = []
lowered (c ∷ t) = (c - 61) ∷ lowered t

raised : Bytes → Bytes
raised [] = []
raised (c ∷ t) = (c + 61) ∷ raised t

lowered-raised : (b : Bytes) → lowered (raised b) ≡ b
unfolding lowered raised
lowered-raised [] = refl
lowered-raised (c ∷ t) = let e : c + 61 - 61 ≡ c = omega arith in rw (e, lowered-raised t) refl

abbrev node : Node
node = record stub {
  from_base64url = lowered;
  to_base64url = raised;
  from_value = λ v. none;
  base64url_decode-encode = lowered-raised;
}

abbrev as_json : Json
as_json = obj (
    field (text "version") (str (text "vcap-vault/1")) (
      field (text "object_id") (str (replicate 32 48)) (
        field (text "capture_id") (str (replicate 16 65)) (
          field (text "org_key_id") (str (replicate 64 48)) (
            field (text "nonce_prefix") (str (replicate 8 65)) (
              field (text "plaintext_bytes") (num (pos 1048577)) (
                field (text "chunk_bytes") (num (pos 1048576)) (
                  field (text "ciphertext_sha256") (str (replicate 64 97)) (
                    field (text "wrapped_key")
                      (obj (
                        field (text "enc") (str (replicate 65 65))
                          (field (text "ciphertext") (str (replicate 48 65)) end)))
                      end)))))))))

abbrev sample : Manifest
sample = record {
  object_id = replicate 32 48;
  capture_id = replicate 16 65;
  org_key_id = replicate 64 48;
  nonce_prefix = replicate 8 65;
  plaintext_bytes = 1048577;
  enc = replicate 65 65;
  ciphertext = replicate 48 65;
  ciphertext_sha256 = replicate 64 97;
}

open_all : Unit {0}
unfolding eq_bytes be write_uint write_int text_ltb member join insert_member sort_members
    safe_integer lowered raised manifest base64url nonce chunk_count ciphertext_bytes
open_all = tt

valid : manifest node (λ t. t) as_json ≡ some sample
unfolding open_all
valid = refl

two_chunks : chunk_count sample ≡ 2
unfolding open_all
two_chunks = refl

abbrev second_nonce : Bytes
second_nonce = 4 ∷ 4 ∷ 4 ∷ 4 ∷ 4 ∷ 4 ∷ 4 ∷ 4 ∷ 0 ∷ 0 ∷ 0 ∷ 1 ∷ []

nonce_is : nonce node (λ t. t) sample 1 ≡ some second_nonce
unfolding open_all
nonce_is = refl

abbrev last_index : ℕ
last_index = 1

manifest-chunks_example :
    (header node (λ t. t) sample ≢ none)
    × (nonce node (λ t. t) sample 1 ≢ none)
    × (aad node (λ t. t) sample 1 ≢ none)
manifest-chunks_example =
    manifest-chunks node (λ t. t) as_json sample 1 valid (rw two_chunks (omega arith))
