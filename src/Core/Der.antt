-- ===== src/Core/Der.antt =====
-- `p1363ToDer` of tools/src/core.ts.
use vcap_spec.Prelude.{
  zero, suc, ◌+◌, ◌≤◌, ◌<◌, ◌≡◌, refl, sym, ◌∙◌, ◌⊎◌, inl, inr, [], ◌∷◌, length, leb, arith,
  Bool-cases, ◌%◌,
}
use vcap_spec.Bytes.{Bytes, of_be}
use vcap_spec.Bytes.Laws.{of_be-zero}
use vcap_spec.Core.{strip_zeros, pad_high, der_int}

-- The body of a DER integer that is not negative and has no byte too many.
abbrev pub IsMinimal : Bytes → Type 0
IsMinimal [] = ⊥
IsMinimal (a ∷ []) = a < 0x80
IsMinimal (a ∷ b ∷ r) = (a < 0x80) × ((0 < a) ⊎ (0x80 ≤ b))

-- No leading zero, unless it is the only byte.
abbrev IsStripped : Bytes → Type 0
IsStripped [] = ⊥
IsStripped (a ∷ []) = Unit
IsStripped (a ∷ b ∷ r) = 0 < a

strip_zeros-IsStripped : (b : Bytes) → 0 < length b → IsStripped (strip_zeros b)
unfolding strip_zeros
strip_zeros-IsStripped [] h = elim h [ ]
strip_zeros-IsStripped (b ∷ []) h = tt
strip_zeros-IsStripped (zero ∷ b ∷ r) h = strip_zeros-IsStripped (b ∷ r) (omega arith)
strip_zeros-IsStripped (suc a ∷ b ∷ r) h = omega arith

of_be-strip_zeros : (b : Bytes) → of_be (strip_zeros b) ≡ of_be b
unfolding strip_zeros
of_be-strip_zeros [] = refl
of_be-strip_zeros (b ∷ []) = refl
of_be-strip_zeros (zero ∷ b ∷ r) = of_be-strip_zeros (b ∷ r) ∙ sym (of_be-zero (b ∷ r))
of_be-strip_zeros (suc a ∷ b ∷ r) = refl

length-strip_zeros : (b : Bytes) → length (strip_zeros b) ≤ length b
unfolding strip_zeros
length-strip_zeros [] = omega arith
length-strip_zeros (b ∷ []) = omega arith
length-strip_zeros (zero ∷ b ∷ r) = omega (arith, length-strip_zeros (b ∷ r))
length-strip_zeros (suc a ∷ b ∷ r) = omega arith

pad_high-IsMinimal : (b : Bytes) → IsStripped b → IsMinimal (pad_high b)
unfolding pad_high
pad_high-IsMinimal [] h = h
pad_high-IsMinimal (a ∷ []) h = elim (Bool-cases (leb 0x80 a)) [
  | inl high ↦ rw high (omega arith, inr (ground arith))
  | inr low ↦ rw low (ground arith)
]
pad_high-IsMinimal (a ∷ b ∷ r) h = elim (Bool-cases (leb 0x80 a)) [
  | inl high ↦ rw high (omega arith, inr (ground arith))
  | inr low ↦ rw low (ground arith, inl h)
]

of_be-pad_high : (b : Bytes) → of_be (pad_high b) ≡ of_be b
unfolding pad_high
of_be-pad_high [] = refl
of_be-pad_high (b ∷ r) = ground (arith, of_be-zero (b ∷ r))

length-pad_high : (b : Bytes) → length (pad_high b) ≤ length b + 1
unfolding pad_high
length-pad_high [] = omega arith
length-pad_high (b ∷ r) = ground arith

-- A number of 32 bytes is written as the tag, a length, and a body of that length that is minimal
-- and stands for the same number.
pub der_int_lem :
    (b : Bytes)
    → length b ≡ 32
    → (body : Bytes) × (der_int b ≡ 0x02 ∷ length body ∷ body)
      × IsMinimal body
      × (of_be body ≡ of_be b)
unfolding der_int
der_int_lem b h =
    let v = pad_high (strip_zeros b) in
    let short : length v % 256 ≡ length v =
      omega (arith, length-pad_high (strip_zeros b), length-strip_zeros b) in
    (
      v,
      rw short refl,
      pad_high-IsMinimal (strip_zeros b) (strip_zeros-IsStripped b (omega arith)),
      of_be-pad_high (strip_zeros b) ∙ of_be-strip_zeros b,
    )
