-- ===== src/Registry/Merkle/Fuel.antt =====
-- The loop of `verifyInclusion` of tools/src/registry.ts, on its fuel.
use vcap_spec.Prelude.{
  ℕ, zero, suc, ◌+◌, ◌/◌, ◌%◌, ◌≤◌, ◌≢◌, sym, ◌∙◌, ◌||◌, List, [], ◌∷◌, ltb, ◌==◌, arith,
  Bool-cases, inl, inr,
}
use vcap_spec.Bytes.{Bytes}
use vcap_spec.Registry.Merkle.{out_of_fuel, walk}
use vcap_spec.Registry.Merkle.Complete.{walk-some, walk_none}

-- From a size of at least 1, on fuel of at least that size, the loop reaches a hash or finds the path
-- too short.
pub walk-ne-out_of_fuel :
    (sha256 : Bytes → Bytes) (fuel : ℕ) (hash : Bytes) (position size : ℕ) (path : List Bytes)
    → 1 ≤ size
    → size ≤ fuel
    → walk sha256 fuel hash position size path ≢ out_of_fuel
unfolding walk
walk-ne-out_of_fuel sha256 zero hash position size path h k = absurd (omega arith)
walk-ne-out_of_fuel sha256 (suc fuel) hash position size [] h k = λ e. ground (arith, e)
walk-ne-out_of_fuel sha256 (suc fuel) hash position size (s ∷ rest) h k =
    elim (Bool-cases (ltb 1 size)) [
      | inr small ↦ λ e. ground (arith, e, small)
      | inl large ↦ elim (Bool-cases (position % 2 == 1 || ltb (position + 1) size)) [
        | inl beside ↦ λ e.
            walk-ne-out_of_fuel sha256 fuel _ (position / 2) ((size + 1) / 2) rest (ground arith)
              (ground arith)
              (sym (walk-some sha256 fuel hash s position size rest (ground arith) beside) ∙ e)
        | inr alone ↦ λ e.
            walk-ne-out_of_fuel sha256 fuel hash (position / 2) ((size + 1) / 2) (s ∷ rest)
              (ground arith) (ground arith)
              (sym (walk_none sha256 fuel hash s position size rest (ground arith) alone) ∙ e)
      ]
    ]
