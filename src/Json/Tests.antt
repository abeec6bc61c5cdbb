-- ===== src/Json/Tests.antt =====
-- Canonical bytes of small values, and the theorem about them at one.
use vcap_spec.Prelude.{◌≡◌, ◌≢◌, refl, pos, negsuc, ap, arith, [], ◌∷◌}
use vcap_spec.Bytes.{eq_bytes}
use vcap_spec.Text.{text, text_ltb, utf8}
use vcap_spec.Json.{
  Json, null, num, str, arr, obj, nil, cons, end, field, stringify_int, stringify_text, join,
  insert_member, sort_members, member_texts, serialize, jcs,
}
use vcap_spec.Json.Order.{same_obj, swapped, jcs-Same}

open_all : Unit {0}
unfolding stringify_int stringify_text join insert_member sort_members member_texts serialize jcs
    text_ltb utf8
open_all = tt

abbrev sample : Json
sample = obj (
    field (text "b") (num (pos 1))
      (field (text "10") (arr (cons (num (negsuc 11)) (cons null nil))) end))

abbrev reordered : Json
reordered = obj (
    field (text "10") (arr (cons (num (negsuc 11)) (cons null nil)))
      (field (text "b") (num (pos 1)) end))

-- The names are in the order of their code units, whatever order they were written in.
sorted_names : jcs sample ≡ text "{\"10\":[-12,null],\"b\":1}"
unfolding open_all
sorted_names = refl

-- Quotes and control characters are escaped, a pair is kept, and half a pair is written `\ud800`.
escaped : serialize (str (34 ∷ 7 ∷ 0xD800 ∷ [])) ≡ text "\"\\\"\\u0007\\ud800\""
unfolding open_all
escaped = refl

pair_in_utf8 : utf8 (0xD83D ∷ 0xDE00 ∷ []) ≡ 0xF0 ∷ 0x9F ∷ 0x98 ∷ 0x80 ∷ []
unfolding open_all
pair_in_utf8 = refl

names_differ : text "b" ≢ text "10"
names_differ e = grind (arith, ap (λ t. eq_bytes t (text "b")) e)

jcs-Same_example : jcs sample ≡ jcs reordered
jcs-Same_example = jcs-Same (same_obj (swapped names_differ))
