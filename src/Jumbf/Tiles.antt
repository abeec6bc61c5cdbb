-- ===== src/Jumbf/Tiles.antt =====
-- `boxList` of tools/src/jumbf.ts.
use vcap_spec.Prelude.{
  ℕ, zero, suc, ◌+◌, ◌-◌, ◌≤◌, ◌<◌, ◌≡◌, ◌⊎◌, refl, Bool, true, false, not, ◌||◌, Option, none,
  some, List, [], ◌∷◌, ltb, ◌==◌, arith, if◌then◌else◌, inl, inr, Option-cases, Bool-cases,
}
use vcap_spec.Bytes.{Bytes, read_uint}
use vcap_spec.Jumbf.{
  Box, Listed, box_error, out_of_fuel, listed, extended, sized, framed, read_box, push, next_box,
  box_loop, box_list,
}

-- The boxes stand one behind the other from `at` to `end`, each with a header of eight bytes or more in it.
unfoldable pub Tiles : ℕ → ℕ → List Box → Type 0
Tiles at end [] = at ≡ end
Tiles at end (b ∷ bs) =
    (b.start ≡ at) × (at + 8 ≤ b.payload) × (b.payload ≤ b.end) × (b.end ≤ end) × Tiles b.end end bs

-- A box that is read at `at`.
Fits : ℕ → ℕ → Box → Type 0
Fits at end b = (b.start ≡ at) × (at + 8 ≤ b.payload) × (b.payload ≤ b.end) × (b.end ≤ end)

sized-payload :
    (buf : Bytes) (at end size : ℕ) (header : ℕ × ℕ)
    → sized buf at end size ≡ some header
    → at + 8 ≤ header.1
unfolding sized extended
sized-payload buf at end size header h = elim (Bool-cases (size == 1)) [
  | inr k ↦ ground (arith, k, h)
  | inl k ↦ elim (Bool-cases (ltb (end - at) 16)) [
    | inl l ↦ absurd (ground (arith, k, l, h))
    | inr l ↦ elim (Option-cases (read_uint 8 buf (at + 8))) [
      | inl r ↦ absurd (ground (arith, k, l, r, h))
      | inr (large, r) ↦ ground (arith, k, l, r, h)
    ]
  ]
]

framed-Fits :
    (buf : Bytes) (at end : ℕ) (header : ℕ × ℕ) (b : Box)
    → at < end
    → at + 8 ≤ header.1
    → framed buf at end header ≡ some b
    → Fits at end b
unfolding framed Fits
framed-Fits buf at end (size, payload) b l p h =
    elim (Bool-cases (ltb size (payload - at) || ltb (end - at) size)) [
      | inl k ↦ absurd (ground (arith, k, h))
      | inr k ↦
          (ground (arith, k, h), ground (arith, k, h), ground (arith, k, h), ground (arith, k, h))
    ]

read_box-Fits :
    (buf : Bytes) (at end : ℕ) (b : Box) → at < end → read_box buf at end ≡ some b → Fits at end b
unfolding read_box
read_box-Fits buf at end b l h = elim (Bool-cases (ltb (end - at) 8)) [
  | inl k ↦ absurd (ground (arith, k, h))
  | inr k ↦ elim (Option-cases (read_uint 4 buf at)) [
    | inl r ↦ absurd (ground (arith, k, r, h))
    | inr (size, r) ↦ elim (Option-cases (sized buf at end size)) [
      | inl s ↦ absurd (ground (arith, k, r, s, h))
      | inr (header, s) ↦
          framed-Fits buf at end header b l (sized-payload buf at end size header s)
            (ground (arith, k, r, s, h))
    ]
  ]
]

-- A list that ends, with its boxes in order.
Ends : ℕ → ℕ → Listed → Type 0
Ends at end box_error = Unit
Ends at end out_of_fuel = ⊥
Ends at end (listed bs) = Tiles at end bs

push-Ends :
    (at end : ℕ) (b : Box) (rest : Listed)
    → Fits at end b
    → Ends b.end end rest
    → Ends at end (push b rest)
unfolding push Ends Fits Tiles
push-Ends at end b box_error f e = tt
push-Ends at end b out_of_fuel f e = e
push-Ends at end b (listed bs) (s, p, l, k) e = (s, p, l, k, e)

box_loop-Ends :
    (fuel : ℕ) (buf : Bytes) (at end : ℕ)
    → at ≤ end
    → end - at < fuel
    → Ends at end (box_loop fuel buf at end)
unfolding box_loop Ends next_box Fits Tiles
box_loop-Ends zero buf at end l h = absurd (omega arith)
box_loop-Ends (suc fuel) buf at end l h =
    of_test (ltb at end) refl
      (λ b f. box_loop-Ends fuel buf b.end end (omega (arith, f)) (omega (arith, f)))
  where
    of_box :
        ((b : Box) → Fits at end b → Ends b.end end (box_loop fuel buf b.end end))
        → (o : Option Box) → read_box buf at end ≡ o
        → at < end
        → Ends at end (next_box o (λ k. box_loop fuel buf k end))
    of_box rec none e m = tt
    of_box rec (some b) e m =
        let f = read_box-Fits buf at end b m e in push-Ends at end b _ f (rec b f)

    of_test :
        (t : Bool)
        → ltb at end ≡ t
        → ((b : Box) → Fits at end b → Ends b.end end (box_loop fuel buf b.end end))
        → Ends at end (
            if not t
            then listed []
            else next_box (read_box buf at end) (λ k. box_loop fuel buf k end))
    of_test false e rec = ground (arith, e)
    of_test true e rec = of_box rec (read_box buf at end) refl (ground (arith, e))

-- Listing the boxes of a range ends, in an error or in boxes that tile the range: the first starts where the
-- range does, each where the one before it ends, the last ends where the range does, and each has its
-- payload in it, after a header of eight bytes or more.
pub box_list_total :
    (buf : Bytes) (start end : ℕ)
    → start ≤ end
    → (box_list buf start end ≡ box_error)
      ⊎ ((boxes : List Box) × (box_list buf start end ≡ listed boxes) × Tiles start end boxes)
unfolding box_list Ends
box_list_total buf start end l =
    of_ends (box_list buf start end) (box_loop-Ends (end - start + 1) buf start end l (omega arith))
  where
    of_ends :
        (w : Listed)
        → Ends start end w
        → (w ≡ box_error) ⊎ ((boxes : List Box) × (w ≡ listed boxes) × Tiles start end boxes)
    of_ends box_error e = inl refl
    of_ends out_of_fuel e = absurd e
    of_ends (listed bs) e = inr (bs, refl, e)
