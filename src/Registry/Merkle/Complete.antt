-- ===== src/Registry/Merkle/Complete.antt =====
-- `verifyInclusion` of tools/src/registry.ts on the paths of a tree.
use vcap_spec.Prelude.{
  ℕ, zero, suc, ◌+◌, ◌/◌, ◌%◌, ◌≤◌, ◌<◌, ◌≡◌, ◌≢◌, refl, true, false, ◌||◌, some, List, [], ◌∷◌,
  length, get_elem?, ltb, lt-of_get_elem?, ◌==◌, arith, Option-cases, inl, inr, pos, ltb_iff,
}
use vcap_spec.Bytes.{Bytes}
use vcap_spec.Bytes.Laws.{eq_bytes_self}
use vcap_spec.Registry.Merkle.{too_short, reached, walk, ends_at, verify_inclusion}
use vcap_spec.Registry.Merkle.Tree.{
  sibling, next_level, length-next_level, above, get_elem?-next_level, root_from, path_from,
  tree_root, audit_path, sibling-none, sibling-some, path_from-none, path_from-some,
}

module _ (sha256 : Bytes → Bytes) where
  -- One round of the loop, for each case of the sibling.
  pub walk-some :
      (fuel : ℕ) (h s : Bytes) (p n : ℕ) (rest : List Bytes)
      → 1 < n
      → (p % 2 == 1 || ltb (p + 1) n) ≡ true
      → walk sha256 (suc fuel) h p n (s ∷ rest)
        ≡ walk sha256 fuel (above sha256 p h (some s)) (p / 2) ((n + 1) / 2) rest
  unfolding walk above
  walk-some fuel h s p n rest many there = rw ((ltb_iff 1 n).1 many, there, walk) refl

  pub walk_none :
      (fuel : ℕ) (h s : Bytes) (p n : ℕ) (rest : List Bytes)
      → 1 < n
      → (p % 2 == 1 || ltb (p + 1) n) ≡ false
      → walk sha256 (suc fuel) h p n (s ∷ rest)
        ≡ walk sha256 fuel h (p / 2) ((n + 1) / 2) (s ∷ rest)
  unfolding walk
  walk_none fuel h s p n rest many missing = rw ((ltb_iff 1 n).1 many, missing, walk) refl

  pub walk_empty :
      (fuel : ℕ) (h : Bytes) (p n : ℕ) → 1 < n → walk sha256 (suc fuel) h p n [] ≡ too_short
  unfolding walk
  walk_empty fuel h p n many = rw ((ltb_iff 1 n).1 many, walk) refl

  path_from-ne-nil :
      (fuel : ℕ) (hs : List Bytes) (p : ℕ)
      → length hs ≤ fuel
      → 1 < length hs
      → p < length hs
      → path_from sha256 fuel hs p ≢ []
  unfolding path_from
  path_from-ne-nil zero hs p le many h = absurd (omega arith)
  path_from-ne-nil (suc fuel) [] p le many h = absurd (omega arith)
  path_from-ne-nil (suc fuel) (a ∷ []) p le many h = absurd (omega arith)
  path_from-ne-nil (suc fuel) (a ∷ b ∷ r) p le many h =
      let hs = a ∷ b ∷ r in
      let n = length-next_level sha256 hs in
      elim (Option-cases (sibling hs p)) [
        | inl e ↦
            let (last, even, _) = sibling-none hs p h e in
            rw (path_from-none sha256 fuel a b r p e) (
              path_from-ne-nil fuel (next_level sha256 hs) (p / 2) (omega (arith, n))
                (omega (arith, n)) (omega (arith, n)))
        | inr (s, e) ↦ rw (path_from-some sha256 fuel a b r p s e) (cc)
      ]

  -- A path that is not empty, taken apart.
  walk_none_path :
      (fuel : ℕ) (h : Bytes) (p n : ℕ) (path : List Bytes)
      → path ≢ []
      → 1 < n
      → (p % 2 == 1 || ltb (p + 1) n) ≡ false
      → walk sha256 (suc fuel) h p n path ≡ walk sha256 fuel h (p / 2) ((n + 1) / 2) path
  walk_none_path fuel h p n [] full many missing = absurd (full refl)
  walk_none_path fuel h p n (s ∷ rest) full many missing = walk_none fuel h s p n rest many missing

  walk_complete :
      (fuel : ℕ) (hs : List Bytes) (p : ℕ) (h root : Bytes)
      → length hs ≤ fuel
      → get_elem? hs p ≡ some h
      → root_from sha256 fuel hs ≡ some root
      → walk sha256 fuel h p (length hs) (path_from sha256 fuel hs p) ≡ reached root []
  unfolding root_from above
  walk_complete fuel [] p h root le e r = cc
  walk_complete zero (a ∷ hs) p h root le e r = absurd (omega arith)
  walk_complete (suc fuel) (a ∷ []) zero h root le e r =
      unfold walk path_from in (ground (arith, e, r))
  walk_complete (suc fuel) (a ∷ []) (suc p) h root le e r = cc
  walk_complete (suc fuel) (a ∷ b ∷ r) p h root le e reach =
      let hs = a ∷ b ∷ r in
      let up = next_level sha256 hs in
      let n = length-next_level sha256 hs in
      let inside = lt-of_get_elem? hs p h e in
      let at_up = get_elem?-next_level sha256 hs p h e in
      elim (Option-cases (sibling hs p)) [
        | inl alone ↦
            let (last, even, test) = sibling-none hs p inside alone in
            let same = rw alone at at_up in
            let more =
              path_from-ne-nil fuel up (p / 2) (omega (arith, n)) (omega (arith, n))
                (omega (arith, n)) in
            rw
              (
                path_from-none sha256 fuel a b r p alone,
                walk_none_path fuel h p (length hs) (path_from sha256 fuel up (p / 2)) more
                    (omega arith) test,
                ← n,
              )
              (walk_complete fuel up (p / 2) h root (omega (arith, n)) same reach)
        | inr (s, beside) ↦
            let test = sibling-some hs p s inside beside in
            let over = rw beside at at_up in
            rw
              (
                path_from-some sha256 fuel a b r p s beside,
                walk-some fuel h s p (length hs) (path_from sha256 fuel up (p / 2)) (omega arith)
                    test,
                ← n,
              )
              (walk_complete fuel up (p / 2) (above sha256 p h (some s)) root (omega (arith, n))
                over reach)
      ]

  root_some :
      (fuel : ℕ) (hs : List Bytes)
      → 0 < length hs
      → length hs ≤ fuel
      → (root : Bytes) × (root_from sha256 fuel hs ≡ some root)
  unfolding root_from
  root_some fuel [] h le = absurd (omega arith)
  root_some fuel (a ∷ []) h le = (a, refl)
  root_some zero (a ∷ b ∷ r) h le = absurd (omega arith)
  root_some (suc fuel) (a ∷ b ∷ r) h le =
      let n = length-next_level sha256 (a ∷ b ∷ r) in
      root_some fuel (next_level sha256 (a ∷ b ∷ r)) (omega (arith, n)) (omega (arith, n))

  -- A tree with a leaf has a root.
  pub tree_root-some :
      (hs : List Bytes) → 0 < length hs → (root : Bytes) × (tree_root sha256 hs ≡ some root)
  unfolding tree_root
  tree_root-some hs h = root_some (length hs) hs h (omega arith)

  -- The audit path of every leaf of a tree is accepted at its index, with the tree's size and root.
  pub verify_inclusion_complete :
      (hs : List Bytes) (index : ℕ) (leaf root : Bytes)
      → get_elem? hs index ≡ some leaf
      → tree_root sha256 hs ≡ some root
      → verify_inclusion sha256 leaf (pos index) (pos (length hs)) (audit_path sha256 hs index) root
        ≡ true
  unfolding verify_inclusion tree_root audit_path ends_at
  verify_inclusion_complete hs index leaf root at top =
      let inside = lt-of_get_elem? hs index leaf at in
      rw (walk_complete (length hs) hs index leaf root (omega arith) at top)
        (ground (arith, eq_bytes_self root))
