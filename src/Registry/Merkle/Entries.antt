-- ===== src/Registry/Merkle/Entries.antt =====
-- `verifyInclusion` of tools/src/registry.ts in the tree of some entries, under their leaf hashes.
use vcap_spec.Prelude.{
  ℕ, zero, suc, ◌<◌, ◌≡◌, ◌≢◌, refl, ap, ◌⊎◌, true, some, List, [], ◌∷◌, map, length, All, arith, ℤ,
  pos, negsuc, get_elem?, Bool-cases, inl, inr, some-injective,
}
use vcap_spec.Bytes.{Bytes, eq_bytes}
use vcap_spec.Bytes.Laws.{eq_bytes_iff}
use vcap_spec.Registry.Merkle.{leaf_hash, verify_inclusion}
use vcap_spec.Registry.Merkle.Tree.{tree_root}
use vcap_spec.Registry.Merkle.Sound.{Is32, Collision, verify_inclusion_sound}

get_elem?-some {ℓ} :
    {A : Type ℓ} (xs : List A) (i : ℕ) → i < length xs → (x : A) × (get_elem? xs i ≡ some x)
get_elem?-some [] i h = absurd (omega arith)
get_elem?-some (x ∷ xs) zero h = (x, refl)
get_elem?-some (x ∷ xs) (suc i) h = get_elem?-some xs i (omega arith)

get_elem?-map {ℓ κ} :
    {A : Type ℓ} {B : Type κ} (f : A → B) (xs : List A) (i : ℕ) (x : A)
    → get_elem? xs i ≡ some x
    → get_elem? (map f xs) i ≡ some (f x)
get_elem?-map f [] i x h = cc
get_elem?-map f (y ∷ xs) zero x h = ap (λ z. some (f z)) (some-injective _ _ h)
get_elem?-map f (y ∷ xs) (suc i) x h = get_elem?-map f xs i x h

length-map {ℓ κ} :
    {A : Type ℓ} {B : Type κ} (f : A → B) (xs : List A) → length (map f xs) ≡ length xs
length-map f [] = refl
length-map f (x ∷ xs) = ap suc (length-map f xs)

module _ (sha256 : Bytes → Bytes) where
  -- An accepted path is for an index inside the tree.
  verify_inclusion_in_range :
      (leaf : Bytes) (index : ℤ) (n : ℕ) (path : List Bytes) (root : Bytes)
      → verify_inclusion sha256 leaf index (pos n) path root ≡ true
      → (i : ℕ) × (index ≡ pos i) × (i < n)
  unfolding verify_inclusion
  verify_inclusion_in_range leaf (pos i) n path root h = (i, refl, ground arith)
  verify_inclusion_in_range leaf (negsuc i) n path root h = cc

  All-leaf_hash :
      ((b : Bytes) → length (sha256 b) ≡ 32)
      → (leaves : List Bytes) → All Is32 (map (leaf_hash sha256) leaves)
  unfolding leaf_hash
  All-leaf_hash l [] = tt
  All-leaf_hash l (x ∷ r) = (l (0 ∷ x), All-leaf_hash l r)

  -- Two different leaves with one hash.
  abbrev pub LeafCollision : Bytes → Bytes → Type 0
  LeafCollision x y = (x ≢ y) × (leaf_hash sha256 x ≡ leaf_hash sha256 y)

  same_or_collision :
      (x y : Bytes) → leaf_hash sha256 x ≡ leaf_hash sha256 y → (x ≡ y) ⊎ LeafCollision x y
  same_or_collision x y e = elim (Bool-cases (eq_bytes x y)) [
    | inl same ↦ inl ((eq_bytes_iff x y).0 same)
    | inr other ↦ inr (λ q. cc ((eq_bytes_iff x y).1 q), e)
  ]

  -- The entry that an accepted index names, and whether it is `x`.
  abbrev pub Entry : Bytes → ℤ → List Bytes → List Bytes → Type 0
  Entry x index path entries =
      (i : ℕ) × (entry : Bytes) × (index ≡ pos i)
      × (get_elem? entries i ≡ some entry)
      × ((x ≡ entry)
          ⊎ LeafCollision x entry
          ⊎ Collision sha256 (leaf_hash sha256 x) i (length entries) path
              (map (leaf_hash sha256) entries))

  pub verify_inclusion-Entry :
      ((b : Bytes) → length (sha256 b) ≡ 32)
      → (x : Bytes) (index : ℤ) (entries path : List Bytes) (root : Bytes) → All Is32 path
      → tree_root sha256 (map (leaf_hash sha256) entries) ≡ some root
      → verify_inclusion sha256 (leaf_hash sha256 x) index (pos (length entries)) path root ≡ true
      → Entry x index path entries
  verify_inclusion-Entry l x index entries path root ap' top h =
      let hs = map (leaf_hash sha256) entries in
      let (i, at_index, inside) =
        verify_inclusion_in_range (leaf_hash sha256 x) index (length entries) path root h in
      let (entry, at) = get_elem?-some entries i inside in
      let n : length hs ≡ length entries = length-map (leaf_hash sha256) entries in
      let here : verify_inclusion sha256 (leaf_hash sha256 x) (pos i) (pos (length hs)) path root
          ≡ true =
        rw (← at_index, n) h in
      (
        i,
        entry,
        at_index,
        at,
        elim (verify_inclusion_sound sha256 l hs i (leaf_hash sha256 x) (leaf_hash sha256 entry)
            root path (All-leaf_hash l entries) ap' (unfold leaf_hash in l (0 ∷ x))
            (get_elem?-map (leaf_hash sha256) entries i entry at) top here) [
              | inl same ↦ elim (same_or_collision x entry same) [
                | inl e ↦ inl e
                | inr c ↦ inr (inl c)
              ]
              | inr c ↦ inr (inr (rw n at c))
            ],
      )
