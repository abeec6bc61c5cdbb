-- ===== src/Bmff/Walk.antt =====
-- `boxes` of tools/src/container.ts.
use vcap_spec.Prelude.{
  ℕ, zero, suc, ◌+◌, ◌-◌, ◌≤◌, ◌<◌, ◌≡◌, ◌⊎◌, ◌∙◌, ap, refl, ◌||◌, none, some, List, [], ◌∷◌,
  length, ltb, ◌==◌, arith, if◌then◌else◌, inl, inr, Option-cases, Bool-cases,
}
use vcap_spec.Bytes.{Bytes, read_uint}
use vcap_spec.Bytes.Laws.{read_uint-some}
use vcap_spec.Bmff.{
  Box, Walked, thrown, out_of_fuel, found, wide_size, box_size, header, keep_box, step, walk,
  of_walk, boxes,
}

-- The boxes stand one behind the other from `at` on, within `end`.
unfoldable pub Follow : ℕ → ℕ → List Box → Type 0
Follow at end [] = Unit
Follow at end (b ∷ bs) =
    (b.start ≡ at) × (at + 8 ≤ b.end) × (b.end ≤ end) × (at < b.payload) × Follow b.end end bs

-- The header of a box at `at` cannot be read: the file ends in its size of 64 bits.
unfoldable pub IsCutAt : Bytes → ℕ → Type 0
IsCutAt file at = (read_uint 4 file at ≡ some 1) × (length file < at + 16)

-- A walk that ends: with the boxes, or at a header that is cut.
abbrev Ends : Bytes → ℕ → ℕ → Walked → Type 0
Ends file at end out_of_fuel = ⊥
Ends file at end thrown = (k : ℕ) × (at ≤ k) × (k + 8 ≤ end) × IsCutAt file k
Ends file at end (found bs) = Follow at end bs

header_inv :
    (file : Bytes) (at end : ℕ)
    → at + 8 ≤ end
    → end ≤ length file
    → ((header file at end ≡ none) × IsCutAt file at)
      ⊎ ((size : ℕ) × (payload : ℕ) × (header file at end ≡ some (size, payload)) × (at < payload))
unfolding header box_size wide_size IsCutAt
header_inv file at end l m = elim (Option-cases (read_uint 4 file at)) [
  | inl e ↦ absurd (ground (arith, e, read_uint-some 4 file at (omega (arith, l, m))))
  | inr (size, e) ↦ elim (Bool-cases (size == 1)) [
    | inr k ↦ inr (if size == 0 then end - at else size, at + 8, ground (arith, e, k), omega arith)
    | inl k ↦
        let one : size ≡ 1 = ground (arith, k) in
        elim (Option-cases (read_uint 8 file (at + 8))) [
          | inr (wide, f) ↦ inr (wide, at + 16, ground (arith, e, k, f), omega arith)
          | inl f ↦ elim (Bool-cases (ltb (length file) (at + 16))) [
            | inl g ↦ inl (ground (arith, e, k, f), (e ∙ ap some one, ground (arith, g)))
            | inr g ↦
                let fits : at + 8 + 8 ≤ length file = ground (arith, g) in
                absurd (ground (arith, f, read_uint-some 8 file (at + 8) fits))
          ]
        ]
  ]
]

-- A box before a walk from its end.
keep_box-Ends :
    (file : Bytes) (at end : ℕ) (b : Box) (rest : Walked)
    → (b.start ≡ at) × (at + 8 ≤ b.end) × (b.end ≤ end) × (at < b.payload)
    → Ends file b.end end rest
    → Ends file at end (keep_box b rest)
unfolding keep_box Follow
keep_box-Ends file at end b out_of_fuel f e = e
keep_box-Ends file at end b thrown (s, l, m, p) (k, a, fits, cut) =
    (k, omega (arith, a, l), fits, cut)
keep_box-Ends file at end b (found bs) (s, l, m, p) e = (s, l, m, p, e)

walk-Ends :
    (fuel : ℕ) (file : Bytes) (at end : ℕ)
    → end ≤ length file
    → end - at < fuel
    → Ends file at end (walk fuel file at end)
unfolding walk
walk-Ends zero file at end l f = absurd (omega arith)
walk-Ends (suc fuel) file at end l f = elim (Bool-cases (ltb end (at + 8))) [
  | inl e ↦ rw e (unfold Follow in tt)
  | inr e ↦
      let fits : at + 8 ≤ end = ground (arith, e) in
      rw e (elim (header_inv file at end fits l) [
        | inl (h, cut) ↦ rw h (unfold step in (at, omega arith, fits, cut))
        | inr (size, payload, h, after) ↦ rw h (
            unfold step in
            elim (Bool-cases (ltb size 8 || ltb end (at + size))) [
              | inl g ↦ rw g (unfold Follow in tt)
              | inr g ↦
                  let eight : 8 ≤ size = ground (arith, g) in
                  let inside : at + size ≤ end = ground (arith, g) in
                  rw g (
                    keep_box-Ends file at end _ (walk fuel file (at + size) end)
                      (refl, omega (arith, eight), inside, after)
                      (walk-Ends fuel file (at + size) end l (omega (arith, f, eight, fits))))
            ])
      ])
]

-- The boxes directly inside a range of the file are read, one behind the other from its start on, each of
-- eight bytes at least and within the range; or a box whose size is one of 64 bits has its header cut by
-- the end of the file, and that is the only error thrown.
pub boxes_total :
    (file : Bytes) (start end : ℕ)
    → end ≤ length file
    → ((boxes file start end ≡ none) × ((k : ℕ) × (start ≤ k) × (k + 8 ≤ end) × IsCutAt file k))
      ⊎ ((bs : List Box) × (boxes file start end ≡ some bs) × Follow start end bs)
unfolding boxes of_walk
boxes_total file start end l =
    of_ends (walk (end - start + 1) file start end)
      (walk-Ends (end - start + 1) file start end l (omega arith))
  where
    of_ends :
        (w : Walked)
        → Ends file start end w
        → ((of_walk w ≡ none) × ((k : ℕ) × (start ≤ k) × (k + 8 ≤ end) × IsCutAt file k))
          ⊎ ((bs : List Box) × (of_walk w ≡ some bs) × Follow start end bs)
    of_ends out_of_fuel e = absurd e
    of_ends thrown e = inl (refl, e)
    of_ends (found bs) e = inr (bs, refl, e)
