-- ===== src/Node/Stub.antt =====
-- A stand-in for Node, at which the theorems are applied: digests are padded, texts are their bytes,
-- and a signature is valid if it begins with the first byte of what it signs.
use vcap_spec.Prelude.{
  ℕ, ◌≡◌, refl, Bool, false, none, some, [], ◌∷◌, ◌++◌, length, take, replicate, ◌==◌, arith,
  length-take, length-append, ◌%◌, pos,
}
use vcap_spec.Bytes.{Bytes}
use vcap_spec.Json.{num, arr, Items, nil, cons}
use vcap_spec.Node.{Node}

unfoldable pub cut32 : Bytes → Bytes
cut32 b = take 32 (b ++ replicate 32 0)

pub length-cut32 : (b : Bytes) → length (cut32 b) ≡ 32
unfolding cut32
length-cut32 b =
    omega (arith, length-take 32 (b ++ replicate 32 0), length-append {0} b (replicate 32 0))

unfoldable pub first_is : Bytes → Bytes → Bool
first_is [] s = false
first_is (b ∷ bs) [] = false
first_is (b ∷ bs) (s ∷ ss) = b == s

-- The items of an array, as bytes.
unfoldable pub octets : Items → Bytes
octets nil = []
octets (cons (num (pos n)) r) = n % 256 ∷ octets r
octets (cons v r) = 0 ∷ octets r

abbrev pub stub : Node
stub = record {
  Key = ℕ;
  sha256 = cut32;
  from_base64url = λ t. t;
  to_base64url = λ b. b;
  from_base64 = λ t. t;
  from_value = λ v. elim v [ arr xs ↦ some (octets xs) | _ ↦ none ];
  create_public_key = λ b. elim b [ [] ↦ none | k ∷ r ↦ some k ];
  is_prime256v1 = λ k. k == 1;
  verify = λ m s k. first_is m s;
  sha256_length = length-cut32;
  base64url_decode-encode = λ b. refl;
}
