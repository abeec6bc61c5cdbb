-- ===== src/Separation/Tests.antt =====
-- A message of one kind, twice.
use vcap_spec.Prelude.{◌≡◌, refl, some, replicate, pos}
use vcap_spec.Bytes.{Bytes, be, write_uint, write_int}
use vcap_spec.Registry.Messages.{tree_head_message}
use vcap_spec.Separation.{Signed, of_tree_head, tree_head, Signed-unique}
use vcap_spec.Text.{text}
use vcap_spec.Prelude.{◌++◌, ◌∷◌}

abbrev bytes : Bytes
bytes = text "vcap/1.0/sth" ++ (replicate 7 0 ++ (2 ∷ (replicate 7 0 ++ (9 ∷ replicate 32 3))))

built : tree_head_message (pos 2) (pos 9) (replicate 32 3) ≡ some bytes
unfolding tree_head_message be write_uint write_int
built = refl

head-Signed : Signed tree_head bytes
head-Signed = of_tree_head (pos 2) (pos 9) (replicate 32 3) bytes built

Signed-unique_example : tree_head ≡ tree_head
Signed-unique_example = Signed-unique tree_head tree_head bytes head-Signed head-Signed
