-- ===== src/Bmff/Nals/Tiled.antt =====
-- `nalsOf` of tools/src/container.ts.
use vcap_spec.Prelude.{
  ℕ, zero, suc, ◌+◌, ◌≤◌, ◌<◌, ◌^◌, ◌≡◌, ◌↔◌, refl, sym, ap, ◌∙◌, some, List, [], ◌∷◌, ◌++◌, ◌||◌,
  length, take, drop, ltb, ◌==◌, All, arith, Option-cases, Bool-cases, inl, inr, length-append,
  length-take, length-drop, take-append_eq, drop-append_eq, take-append-drop,
}
use vcap_spec.Bytes.{Bytes, IsBytes, be, of_be}
use vcap_spec.Bytes.Laws.{length-be, of_be-be, be-of_be, of_be_lt, IsBytes-take, IsBytes-drop}
use vcap_spec.Bmff.Nals.{next_nal, nals_from, nals_of}

-- A unit that a prefix of the width can announce.
IsUnit : ℕ → Bytes → Type 0
IsUnit width nal = (0 < length nal) × (length nal < 256 ^ width)

-- The units behind one another, each after its length.
unfoldable pub framed : ℕ → List Bytes → Bytes
framed width [] = []
framed width (nal ∷ nals) = be width (length nal) ++ (nal ++ framed width nals)

unfoldable pub AreUnits : ℕ → List Bytes → Type 0
unfolding IsUnit
AreUnits width nals = All (IsUnit width) nals

next_nal_inv :
    (width : ℕ) (t nal rest : Bytes)
    → IsBytes t
    → next_nal width t ≡ some (nal, rest)
    → IsUnit width nal
      × IsBytes rest
      × (t ≡ be width (length nal) ++ (nal ++ rest))
      × (length rest < length t)
unfolding next_nal IsUnit
next_nal_inv width t nal rest b h = elim (Bool-cases (ltb (length t) width)) [
  | inl k ↦ absurd (ground (arith, k, h))
  | inr k ↦
      elim (Bool-cases
        (of_be (take width t) == 0 || ltb (length (drop width t)) (of_be (take width t)))) [
          | inl l ↦ absurd (ground (arith, k, l, h))
          | inr l ↦
              let wide : width ≤ length t = ground (arith, k) in
              let fits : width ≡ length (take width t) = omega (arith, length-take width t, wide) in
              let bound : of_be (take width t) < 256 ^ width =
                rw (← fits) at (of_be_lt (take width t) (IsBytes-take width t b)) in
              let is_nal : take (of_be (take width t)) (drop width t) ≡ nal =
                ground (arith, k, l, h) in
              let is_rest : drop (of_be (take width t)) (drop width t) ≡ rest =
                ground (arith, k, l, h) in
              let size : length nal ≡ of_be (take width t) =
                ap length (sym is_nal)
                ∙ length-take (of_be (take width t)) (drop width t)
                ∙ ground (arith, k, l) in
              let prefix : be width (length nal) ≡ take width t =
                rw size (be-of_be (take width t) width fits (IsBytes-take width t b)) in
              let parts : drop width t ≡ nal ++ rest =
                rw (← is_nal, ← is_rest) (sym (take-append-drop _ (drop width t))) in
              let big : 0 < of_be (take width t) = ground (arith, l) in
              (
                (omega (arith, big, size), omega (arith, bound, size)),
                rw (← is_rest) (IsBytes-drop _ (drop width t) (IsBytes-drop width t b)),
                sym (take-append-drop width t) ∙ rw (prefix, parts) refl,
                omega (
                  arith,
                  big,
                  size,
                  ap length parts,
                  length-append nal rest,
                  length-drop width t,
                ),
              )
        ]
]

next_nal-framed :
    (width : ℕ) (nal rest : Bytes)
    → IsUnit width nal
    → next_nal width (be width (length nal) ++ (nal ++ rest)) ≡ some (nal, rest)
unfolding next_nal IsUnit
next_nal-framed width nal rest (p, q) =
    let prefix = be width (length nal) in
    let wide : width ≡ length prefix = sym (length-be width (length nal)) in
    let all = length-append prefix (nal ++ rest) in
    let after = length-append nal rest in
    let size : of_be (take width (prefix ++ (nal ++ rest))) ≡ length nal =
      ap of_be (take-append_eq prefix (nal ++ rest) width wide) ∙ of_be-be width (length nal) q in
    let left = drop-append_eq prefix (nal ++ rest) width wide in
    let unit = take-append_eq nal rest (length nal) refl in
    let next = drop-append_eq nal rest (length nal) refl in
    rw (size, left) (ground (arith, p, wide, all, after, unit, next))

nals_from-next :
    (fuel width : ℕ) (t nal rest : Bytes) (nals : List Bytes)
    → 0 < length t
    → next_nal width t ≡ some (nal, rest)
    → nals_from fuel width rest ≡ some nals
    → nals_from (suc fuel) width t ≡ some (nal ∷ nals)
unfolding nals_from
nals_from-next fuel width [] nal rest nals l h k = absurd (omega arith)
nals_from-next fuel width (b ∷ bs) nal rest nals l h k = rw h (rw k refl)

length-framed :
    (width : ℕ) (nal rest : Bytes)
    → length (be width (length nal) ++ (nal ++ rest)) ≡ width + length nal + length rest
length-framed width nal rest = omega (
  arith,
  length-append (be width (length nal)) (nal ++ rest),
  length-append nal rest,
  length-be width (length nal),
)

nals_from-framed :
    (fuel width : ℕ) (nals : List Bytes)
    → AreUnits width nals
    → length (framed width nals) ≤ fuel
    → nals_from fuel width (framed width nals) ≡ some nals
unfolding framed AreUnits
nals_from-framed fuel width [] a l = unfold nals_from in refl
nals_from-framed zero width (nal ∷ nals) ((p, q), a) l =
    absurd (omega (arith, l, p, length-framed width nal (framed width nals)))
nals_from-framed (suc fuel) width (nal ∷ nals) ((p, q), a) l =
    let size = length-framed width nal (framed width nals) in
    nals_from-next fuel width _ nal (framed width nals) nals (omega (arith, p, size))
      (next_nal-framed width nal (framed width nals) (p, q))
      (nals_from-framed fuel width nals a (omega (arith, p, l, size)))

nals_from_inv :
    (fuel width : ℕ) (t : Bytes) (nals : List Bytes)
    → IsBytes t
    → nals_from fuel width t ≡ some nals
    → AreUnits width nals × (t ≡ framed width nals)
unfolding nals_from framed AreUnits
nals_from_inv fuel width [] nals b h =
    let same : [] ≡ nals = ground (arith, h) in rw (← same) (tt, refl)
nals_from_inv zero width (c ∷ cs) nals b h = absurd (cc)
nals_from_inv (suc fuel) width (c ∷ cs) nals b h = elim (Option-cases (next_nal width (c ∷ cs))) [
  | inl e ↦ absurd (ground (arith, e, h))
  | inr ((nal, rest), e) ↦ elim (Option-cases (nals_from fuel width rest)) [
    | inl f ↦ absurd (ground (arith, e, f, h))
    | inr (others, f) ↦
        let (is_unit, bytes, parts, less) = next_nal_inv width (c ∷ cs) nal rest b e in
        let (are, rest_is) = nals_from_inv fuel width rest others bytes f in
        let same : nal ∷ others ≡ nals = ground (arith, e, f, h) in
        rw (← same) ((is_unit, are), parts ∙ ap (λ r. be width (length nal) ++ (nal ++ r)) rest_is)
  ]
]

-- A sample of bytes is split into units exactly when it is these units behind one another, each after a
-- prefix of the width that gives its length, and no unit is empty.
pub nals_of_iff :
    (sample : Bytes) (width : ℕ) (nals : List Bytes)
    → IsBytes sample
    → (nals_of sample width ≡ some nals) ↔ (AreUnits width nals × (sample ≡ framed width nals))
unfolding nals_of
nals_of_iff sample width nals b = (
  λ h. nals_from_inv (length sample) width sample nals b h,
  λ a. rw a.1 (nals_from-framed (length (framed width nals)) width nals a.0 (omega arith)),
)
