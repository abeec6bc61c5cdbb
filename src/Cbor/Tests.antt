-- ===== src/Cbor/Tests.antt =====
-- A map with an array and a date under a tag.
use vcap_spec.Prelude.{◌≡◌, ◌≤◌, refl, some, none, [], ◌∷◌, length, pos, negsuc}
use vcap_spec.Bytes.{Bytes, eq_bytes, of_be}
use vcap_spec.Text.{text}
use vcap_spec.Cbor.Weight.{weight, weight-decode_cbor}
use vcap_spec.Cbor.{
  Cbor, int, array, map_of, text_string, element, no_elements, entry, no_entries, decode_cbor,
}

abbrev a_map : Bytes
a_map = 0xA2 ∷ 0x61 ∷ 97 ∷ 0x82 ∷ 7 ∷ 0x38 ∷ 99 ∷ 0x61 ∷ 98 ∷ 0xC0 ∷ 0x61 ∷ 50 ∷ []

abbrev its_value : Cbor
its_value = map_of (
    entry (text "a") (array (element (int (pos 7)) (element (int (negsuc 99)) no_elements)))
      (entry (text "b") (text_string (text "2")) no_entries))

reads_map : decode_cbor (λ b. some b) a_map ≡ some its_value
unfolding decode_cbor of_be eq_bytes
reads_map = refl

twice : decode_cbor (λ b. some b) (0xA2 ∷ 0x61 ∷ 97 ∷ 7 ∷ 0x61 ∷ 97 ∷ 7 ∷ []) ≡ none
unfolding decode_cbor of_be eq_bytes
twice = refl

weight-decode_cbor_example : weight its_value ≤ length a_map
weight-decode_cbor_example = weight-decode_cbor (λ b. some b) a_map its_value reads_map
