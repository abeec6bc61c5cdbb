-- ===== src/Json/Parse/Tests.antt =====
-- Texts that the parser takes and refuses.
use vcap_spec.Prelude.{
  ◌≡◌, ◌⊎◌, ◌<◌, refl, true, false, Option, none, some, [], ◌∷◌, pos, negsuc, length, arith, String,
}
use vcap_spec.Bytes.{eq_bytes}
use vcap_spec.Text.{Text, text}
use vcap_spec.Json.{Json, bool, num, arr, obj, nil, cons, end, field}
use vcap_spec.Json.Parse.{Decoders, syntax_error, parsed, value, starts_with_bom, parse_proof_json}
use vcap_spec.Json.Parse.Sound.{parse_proof_json_sound}
use vcap_spec.Json.Parse.Yields.{IsProofJson}
use vcap_spec.Json.Parse.Total.{value_total}

-- A string literal is what stands between the quotes.
without_last : Text → Text
without_last [] = []
without_last (c ∷ []) = []
without_last (c ∷ d ∷ r) = c ∷ without_last (d ∷ r)

unquoted : Text → Option Text
unfolding without_last
unquoted [] = none
unquoted (c ∷ r) = some (without_last r)

abbrev ascii_decoders : Decoders
ascii_decoders = record { decode_utf8 = λ b. some b; parse_literal = unquoted }

abbrev read : String → Option Json
read s = parse_proof_json ascii_decoders (text s)

abbrev two_members : Json
two_members = obj (
    field (text "a") (num (negsuc 6))
      (field (text "b") (arr (cons (bool true) (cons (num (pos 0)) nil))) end))

reads_members : read " {\"a\": -7, \"b\":[true,-0]} " ≡ some two_members
unfolding parse_proof_json unquoted eq_bytes
reads_members = refl

refuses_twice : read "{\"a\":1,\"a\":1}" ≡ none
unfolding parse_proof_json unquoted eq_bytes
refuses_twice = refl

refuses_fraction : read "[4032.0]" ≡ none
unfolding parse_proof_json unquoted eq_bytes
refuses_fraction = refl

refuses_large : read "9007199254740992" ≡ none
unfolding parse_proof_json unquoted eq_bytes
refuses_large = refl

parse_proof_json_sound_example :
    (starts_with_bom (text " {\"a\": -7, \"b\":[true,-0]} ") ≡ false) × IsProofJson 0 two_members
parse_proof_json_sound_example =
    parse_proof_json_sound ascii_decoders (text " {\"a\": -7, \"b\":[true,-0]} ") two_members
      reads_members

value_total_example :
    (value ascii_decoders 9 0 (text "[12]") ≡ syntax_error)
    ⊎ ((v : Json) × (r : Text) × (value ascii_decoders 9 0 (text "[12]") ≡ parsed v r)
        × (length r < length (text "[12]")))
value_total_example = value_total ascii_decoders 9 0 (text "[12]") (omega arith)
