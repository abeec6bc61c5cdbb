-- ===== src/Core/Tests.antt =====
-- The core of a small proof, a signature and its DER form.
use vcap_spec.Prelude.{
  ◌≡◌, refl, true, some, not, [], ◌∷◌, ◌++◌, pos, arith, replicate, leb, length,
}
use vcap_spec.Bytes.{Bytes, be, of_be, eq_bytes}
use vcap_spec.Text.{text}
use vcap_spec.Json.{null, num, Fields, end, field, member}
use vcap_spec.Core.{extract_core, half_order, is_low_s, flip_s, der_int, p1363_to_der}
use vcap_spec.Core.LowS.{HasS, flip_s_lem}
use vcap_spec.Core.Der.{IsMinimal, der_int_lem}

open_all : Unit {0}
unfolding extract_core member eq_bytes be of_be is_low_s flip_s der_int p1363_to_der
open_all = tt

abbrev sealed : Fields
sealed = field (text "sig") null (field (text "v") (num (pos 1)) (field (text "media") null end))

abbrev stripped : Fields
stripped = field (text "media") null (field (text "v") (num (pos 1)) end)

core_of : extract_core sealed ≡ field (text "v") (num (pos 1)) (field (text "media") null end)
unfolding open_all
core_of = refl

abbrev sig : Bytes
sig = replicate 32 7 ++ (replicate 31 0 ++ 5 ∷ [])

low_is : is_low_s sig ≡ some true
unfolding open_all
low_is = refl

der_of :
    p1363_to_der (replicate 32 0x80 ++ (replicate 31 0 ++ 5 ∷ []))
    ≡ 0x30 ∷ 38 ∷ 2 ∷ 33 ∷ 0 ∷ (replicate 32 0x80 ++ (2 ∷ 1 ∷ 5 ∷ []))
unfolding open_all
der_of = refl

has_five : HasS sig 5
unfolding open_all
has_five = record { size = refl; value = refl; low = omega arith; high = omega arith }

flip_s_lem_example :
    (t : Bytes) × (flip_s sig ≡ some t)
    × (is_low_s t ≡ some (not (leb 5 half_order)))
    × (is_low_s sig ≡ some (leb 5 half_order))
    × (flip_s t ≡ some sig)
flip_s_lem_example = flip_s_lem sig 5 (omega arith) has_five

der_int_lem_example :
    (body : Bytes) × (der_int (replicate 32 0x80) ≡ 0x02 ∷ length body ∷ body)
    × IsMinimal body
    × (of_be body ≡ of_be (replicate 32 0x80))
der_int_lem_example = der_int_lem (replicate 32 0x80) refl
