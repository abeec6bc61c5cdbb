-- ===== src/Registry/Merkle.antt =====
-- `leafHash`, `nodeHash` and `verifyInclusion` of tools/src/registry.ts. SHA-256 is Node's.
-- Children: the tree of RFC 6962 (`Tree`), the check on its paths (`Complete`), on any path (`Sound`,
-- `Entries`), and its loop (`Fuel`).
pub mod Tree
pub mod Complete
pub mod Sound
pub mod Entries
pub mod Fuel
mod Tests
use vcap_spec.Prelude.{
  ℕ, zero, suc, ◌+◌, ◌-◌, ◌/◌, ◌%◌, Bool, true, false, not, ◌&&◌, ◌||◌, List, [], ◌∷◌, ◌++◌, ltb,
  leb, ◌==◌, if◌then◌else◌, ℤ, pos, negsuc, ltb_ℤ,
}
use vcap_spec.Bytes.{Bytes, eq_bytes}

-- How the loop ends: the path is too short, or a hash is reached with the path's rest.
pub data Walk : Type 0 where
  out_of_fuel : Walk
  too_short : Walk
  reached : Bytes → List Bytes → Walk

unfoldable pub ends_at : Bytes → Walk → Bool
ends_at root (reached hash []) = eq_bytes hash root
ends_at root _ = false

module _ (sha256 : Bytes → Bytes) where
  unfoldable pub leaf_hash : Bytes → Bytes
  leaf_hash bytes = sha256 (0 ∷ bytes)

  unfoldable pub node_hash : Bytes → Bytes → Bytes
  node_hash left right = sha256 (1 ∷ (left ++ right))

  -- The `while` loop, on fuel. The path is what `step` has not yet passed.
  unfoldable pub walk : ℕ → Bytes → ℕ → ℕ → List Bytes → Walk
  walk zero hash position size path = out_of_fuel
  walk (suc fuel) hash position size path = elim (ltb 1 size) [
    | false ↦ reached hash path
    | true ↦ elim path [
      | [] ↦ too_short
      | sibling ∷ rest ↦ elim (position % 2 == 1 || ltb (position + 1) size) [
        | true ↦
            walk fuel (if position % 2 == 1 then node_hash sibling hash else node_hash hash sibling)
              (position / 2) ((size + 1) / 2) rest
        | false ↦ walk fuel hash (position / 2) ((size + 1) / 2) (sibling ∷ rest)
      ]
    ]
  ]

  -- `Number.isInteger` holds of every integer. The fuel is the tree size.
  unfoldable pub verify_inclusion : Bytes → ℤ → ℤ → List Bytes → Bytes → Bool
  verify_inclusion leaf (pos index) (pos tree_size) path root =
      if tree_size == 0 || leb tree_size index
      then false
      else ends_at root (walk tree_size leaf index tree_size path)
  verify_inclusion leaf _ _ path root = false
