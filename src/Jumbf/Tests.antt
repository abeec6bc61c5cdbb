-- ===== src/Jumbf/Tests.antt =====
-- A superbox with a label and one JSON box.
use vcap_spec.Prelude.{◌≡◌, refl, some, none, [], ◌∷◌, ◌++◌}
use vcap_spec.Bytes.{Bytes, eq_bytes, subarray, read_uint, of_be}
use vcap_spec.Text.{text}
use vcap_spec.Jumbf.{
  box_error, box_list, superbox, parse_superbox, super, no_nodes, content, super_children,
}

abbrev a_store : Bytes
a_store =
    0 ∷ 0 ∷ 0 ∷ 45 ∷ text "jumb"
    ++ (0 ∷ 0 ∷ 0 ∷ 27 ∷ text "jumd"
        ++ (text "0123456789abcdef" ++ (3 ∷ text "x" ++ (0 ∷ 0 ∷ 0 ∷ 0 ∷ 10 ∷ text "json{}"))))

parsed :
    parse_superbox (λ b. some b) a_store
    ≡ some (
        super
          (text "0123456789abcdef")
          3
          (some (text "x"))
          (content (text "json") (text "{}") no_nodes))
unfolding parse_superbox superbox box_list eq_bytes subarray read_uint of_be
parsed = refl

no_children : super_children (super [] 3 none (content (text "json") [] no_nodes)) ≡ []
unfolding super_children
no_children = refl

-- A box that declares more than there is.
cut_short : box_list (0 ∷ 0 ∷ 0 ∷ 9 ∷ text "json") 0 8 ≡ box_error
unfolding box_list eq_bytes subarray read_uint of_be
cut_short = refl
