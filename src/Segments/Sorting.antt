-- ===== src/Segments/Sorting.antt =====
-- The map and the sorted keys that `verifyChain` of tools/src/segments.ts walks.
use vcap_spec.Prelude.{
  ◌≡◌, refl, ◌∙◌, true, false, Option, none, some, List, [], ◌∷◌, arith, if◌then◌else◌, ℤ, ltb_ℤ,
  eqb_ℤ, eqb_ℤ_iff, eq_of_parts, Bool-cases, inl, inr,
}
use vcap_spec.Segments.{
  SegmentEntry, map_set, map_get, insert_entry, sort_entries, by_index, sorted,
}

-- The keys of two entries are in order.
abbrev Before : ℤ → ℤ → Type 0
Before j k = ltb_ℤ j k ≡ true

-- Of two integers that are not in order, the other is less or they are the same.
order_cases : (j k : ℤ) → ltb_ℤ j k ≡ false → eqb_ℤ j k ≡ false → ltb_ℤ k j ≡ true
order_cases j k h e = ground (arith, eq_of_parts j k, eqb_ℤ_iff j k)

module _ {ℓ} {V : Type ℓ} where
  abbrev pub IsDistinct : List (ℤ × V) → Type ℓ
  IsDistinct [] = Unit
  IsDistinct ((k, v) ∷ r) = (map_get k r ≡ none) × IsDistinct r

  abbrev pub IsIncreasing : List (ℤ × V) → Type 0
  IsIncreasing [] = Unit
  IsIncreasing ((k, v) ∷ []) = Unit
  IsIncreasing ((k, v) ∷ (j, w) ∷ r) = Before k j × IsIncreasing ((j, w) ∷ r)

  pub map_get-map_set :
      (k j : ℤ) (v : V) (m : List (ℤ × V))
      → map_get j (map_set k v m) ≡ (if eqb_ℤ k j then some v else map_get j m)
  unfolding map_get map_set
  map_get-map_set k j v [] = refl
  map_get-map_set k j v ((i, w) ∷ m) =
      ground (arith, eqb_ℤ_iff i k, eqb_ℤ_iff i j, eqb_ℤ_iff k j, map_get-map_set k j v m)

  map_set-IsDistinct :
      (k : ℤ) (v : V) (m : List (ℤ × V)) → IsDistinct m → IsDistinct (map_set k v m)
  unfolding map_set map_get
  map_set-IsDistinct k v [] h = (refl, tt)
  map_set-IsDistinct k v ((j, w) ∷ m) (fresh, h) = elim (Bool-cases (eqb_ℤ j k)) [
    | inl same ↦ let e = (eqb_ℤ_iff j k).0 same in rw same (rw e at fresh, h)
    | inr other ↦ rw other (
      ground (arith, fresh, map_get-map_set k j v m, eqb_ℤ_iff j k, eqb_ℤ_iff k j),
      map_set-IsDistinct k v m h,
    )
  ]

  map_get-insert_entry :
      (k j : ℤ) (v : V) (m : List (ℤ × V))
      → map_get k m ≡ none
      → map_get j (insert_entry k v m) ≡ (if eqb_ℤ k j then some v else map_get j m)
  unfolding map_get insert_entry
  map_get-insert_entry k j v [] fresh = refl
  map_get-insert_entry k j v ((i, w) ∷ m) fresh =
      ground (arith, eqb_ℤ_iff i k, eqb_ℤ_iff i j, eqb_ℤ_iff k j, map_get-insert_entry k j v m)

  map_get-sort_entries :
      (j : ℤ) (m : List (ℤ × V)) → IsDistinct m → map_get j (sort_entries m) ≡ map_get j m
  unfolding map_get sort_entries
  map_get-sort_entries j [] h = refl
  map_get-sort_entries j ((k, v) ∷ m) (fresh, h) =
      map_get-insert_entry k j v (sort_entries m) (map_get-sort_entries k m h ∙ fresh)
      ∙ rw (map_get-sort_entries j m h) refl

  insert_entry-IsIncreasing :
      (k : ℤ) (v : V) (m : List (ℤ × V))
      → map_get k m ≡ none
      → IsIncreasing m
      → IsIncreasing (insert_entry k v m)
  unfolding map_get insert_entry
  insert_entry-IsIncreasing k v [] fresh h = tt
  insert_entry-IsIncreasing k v ((j, w) ∷ []) fresh h = ground (arith, order_cases j k)
  insert_entry-IsIncreasing k v ((j, w) ∷ (i, x) ∷ m) fresh (before, h) =
      ground (arith, order_cases j k, order_cases i k, insert_entry-IsIncreasing k v ((i, x) ∷ m))

  sort_entries-IsIncreasing : (m : List (ℤ × V)) → IsDistinct m → IsIncreasing (sort_entries m)
  unfolding sort_entries
  sort_entries-IsIncreasing [] h = tt
  sort_entries-IsIncreasing ((k, v) ∷ m) (fresh, h) =
      insert_entry-IsIncreasing k v (sort_entries m) (map_get-sort_entries k m h ∙ fresh)
        (sort_entries-IsIncreasing m h)

-- The last entry that names an index.
pub last_entry : ℤ → List SegmentEntry → Option SegmentEntry → Option SegmentEntry
last_entry i [] found = found
last_entry i (s ∷ ss) found = last_entry i ss (if eqb_ℤ s.gop i then some s else found)

by_index-IsDistinct :
    (ss : List SegmentEntry) (m : List (ℤ × SegmentEntry))
    → IsDistinct m
    → IsDistinct (by_index ss m)
unfolding by_index
by_index-IsDistinct [] m h = h
by_index-IsDistinct (s ∷ ss) m h = by_index-IsDistinct ss _ (map_set-IsDistinct s.gop s m h)

map_get-by_index :
    (i : ℤ) (ss : List SegmentEntry) (m : List (ℤ × SegmentEntry))
    → map_get i (by_index ss m) ≡ last_entry i ss (map_get i m)
unfolding by_index last_entry
map_get-by_index i [] m = refl
map_get-by_index i (s ∷ ss) m =
    map_get-by_index i ss (map_set s.gop s m) ∙ rw (map_get-map_set s.gop i s m) refl

-- What the loop walks: increasing indices, and for each index the last entry that names it.
pub sorted_lem :
    (ss : List SegmentEntry)
    → IsIncreasing (sorted ss) × ((i : ℤ) → map_get i (sorted ss) ≡ last_entry i ss none)
unfolding sorted map_get
sorted_lem ss =
    let d = by_index-IsDistinct ss [] tt in
    (
      sort_entries-IsIncreasing (by_index ss []) d,
      λ i. map_get-sort_entries i (by_index ss []) d ∙ map_get-by_index i ss [],
    )
