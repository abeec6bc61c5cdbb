-- ===== src/Registry/Merkle/Tests.antt =====
-- Inclusion in a tree of three leaves, with padding in the place of SHA-256.
use vcap_spec.Prelude.{◌≡◌, ◌≢◌, arith, refl, true, some, [], ◌∷◌, List, pos, ◌⊎◌}
use vcap_spec.Bytes.{Bytes, eq_bytes}
use vcap_spec.Node.Stub.{cut32, length-cut32}
use vcap_spec.Registry.Merkle.{leaf_hash, node_hash, out_of_fuel, walk, ends_at, verify_inclusion}
use vcap_spec.Registry.Merkle.Tree.{
  sibling, next_level, root_from, push_sibling, path_from, tree_root, audit_path,
}
use vcap_spec.Registry.Merkle.Complete.{verify_inclusion_complete}
use vcap_spec.Registry.Merkle.Fuel.{walk-ne-out_of_fuel}
use vcap_spec.Registry.Merkle.Sound.{Collision, verify_inclusion_sound}

open_all : Unit {0}
unfolding leaf_hash node_hash cut32 walk ends_at eq_bytes verify_inclusion sibling next_level
    root_from push_sibling path_from tree_root audit_path
open_all = tt

abbrev leaves : List Bytes
leaves = leaf_hash cut32 (7 ∷ []) ∷ leaf_hash cut32 (8 ∷ []) ∷ leaf_hash cut32 (9 ∷ []) ∷ []

abbrev top : Bytes
top =
    node_hash cut32 (node_hash cut32 (leaf_hash cut32 (7 ∷ [])) (leaf_hash cut32 (8 ∷ [])))
      (leaf_hash cut32 (9 ∷ []))

root_is : tree_root cut32 leaves ≡ some top
unfolding open_all
root_is = refl

accepted :
    verify_inclusion cut32
      (leaf_hash cut32 (9 ∷ []))
      (pos 2)
      (pos 3)
      (audit_path cut32 leaves 2)
      top
    ≡ true
unfolding open_all
accepted = refl

verify_inclusion_complete_example :
    verify_inclusion cut32
      (leaf_hash cut32 (9 ∷ []))
      (pos 2)
      (pos 3)
      (audit_path cut32 leaves 2)
      top
    ≡ true
verify_inclusion_complete_example =
    verify_inclusion_complete cut32 leaves 2 (leaf_hash cut32 (9 ∷ [])) top refl root_is

verify_inclusion_sound_example :
    (leaf_hash cut32 (9 ∷ []) ≡ leaf_hash cut32 (9 ∷ []))
    ⊎ Collision cut32 (leaf_hash cut32 (9 ∷ [])) 2 3 (audit_path cut32 leaves 2) leaves
unfolding open_all
verify_inclusion_sound_example =
    verify_inclusion_sound cut32 length-cut32 leaves 2 (leaf_hash cut32 (9 ∷ []))
      (leaf_hash cut32 (9 ∷ [])) top (audit_path cut32 leaves 2) (refl, (refl, (refl, tt)))
      (refl, tt) refl refl root_is accepted

walk-ne-out_of_fuel_example :
    walk cut32 3 (leaf_hash cut32 (9 ∷ [])) 2 3 (audit_path cut32 leaves 2) ≢ out_of_fuel
walk-ne-out_of_fuel_example =
    walk-ne-out_of_fuel cut32 3 (leaf_hash cut32 (9 ∷ [])) 2 3 (audit_path cut32 leaves 2)
      (omega arith) (omega arith)
