-- ===== src/Json/Parse/Shrinks.antt =====
-- tools/src/json.ts: what each part of the parser that is no recursion leaves of the text.
use vcap_spec.Prelude.{
  ℕ, ◌+◌, ◌-◌, ◌*◌, ◌≤◌, ◌<◌, ◌≡◌, refl, Bool, true, false, Option, none, some, [], ◌∷◌, length,
  ltb, ◌==◌, if◌then◌else◌, arith, Option-cases, Bool-cases, inl, inr,
}
use vcap_spec.Text.{Text, text}
use vcap_spec.Json.{Items, Fields}
use vcap_spec.Json.Parse.{
  Parsed, syntax_error, out_of_fuel, parsed, and_then, space, prefixed, scan, digits, magnitude,
  has_more, checked_number, number, drop_prefix, word, expect, or_error, object, array, max_safe,
}

-- Fuel was left, and what is read leaves less than `n` characters.
unfoldable pub Shrinks {ℓ} : {A : Type ℓ} → ℕ → Parsed A → Type 0
Shrinks n syntax_error = Unit
Shrinks n out_of_fuel = ⊥
Shrinks n (parsed a r) = length r < n

module _ {ℓ κ} {A : Type ℓ} {B : Type κ} where
  pub and_then-Shrinks :
      (m n : ℕ) (p : Parsed A) (k : A → Text → Parsed B)
      → Shrinks m p
      → ((a : A) (r : Text) → length r < m → Shrinks n (k a r))
      → Shrinks n (and_then p k)
  unfolding Shrinks and_then
  and_then-Shrinks m n syntax_error k h f = tt
  and_then-Shrinks m n out_of_fuel k h f = absurd h
  and_then-Shrinks m n (parsed a r) k h f = f a r h

module _ {ℓ} {A : Type ℓ} where
  pub on_bool :
      (n : ℕ) (b : Bool) (x y : Parsed A)
      → Shrinks n x
      → Shrinks n y
      → Shrinks n (if b then x else y)
  on_bool n true x y h k = h
  on_bool n false x y h k = k

  pub weaken : (m n : ℕ) (p : Parsed A) → m ≤ n → Shrinks m p → Shrinks n p
  unfolding Shrinks
  weaken m n syntax_error l h = tt
  weaken m n out_of_fuel l h = h
  weaken m n (parsed a r) l h = omega arith

pub length-space : (t : Text) → length (space t) ≤ length t
unfolding space
length-space [] = omega arith
length-space (c ∷ r) = ground (arith, length-space r)

prefixed-some :
    (p : Text) (o : Option (Text × Text)) (inside r : Text)
    → prefixed p o ≡ some (inside, r)
    → (i : Text) × (o ≡ some (i, r))
unfolding prefixed
prefixed-some p none inside r h = absurd (cc)
prefixed-some p (some (i, s)) inside r h = (i, ground (arith, h))

pub length-scan : (t inside r : Text) → scan t ≡ some (inside, r) → length r < length t
unfolding scan prefixed
length-scan [] inside r h = absurd (cc)
length-scan (c ∷ []) inside r h = ground arith
length-scan (c ∷ d ∷ t) inside r h = elim (Bool-cases (c == 34)) [
  | inl e ↦ ground (arith, e, h)
  | inr e ↦ elim (Bool-cases (c == 92)) [
    | inl f ↦
        let step : prefixed (c ∷ d ∷ []) (scan t) ≡ some (inside, r) = ground (arith, e, f, h) in
        let (i, g) = prefixed-some (c ∷ d ∷ []) (scan t) inside r step in
        omega (arith, length-scan t i r g)
    | inr f ↦
        let step : prefixed (c ∷ []) (scan (d ∷ t)) ≡ some (inside, r) = ground (arith, e, f, h) in
        let (i, g) = prefixed-some (c ∷ []) (scan (d ∷ t)) inside r step in
        omega (arith, length-scan (d ∷ t) i r g)
  ]
]

length-digits : (n : ℕ) (t : Text) → length (digits n t).1 ≤ length t
unfolding digits
length-digits n [] = omega arith
length-digits n (c ∷ r) = ground (arith, length-digits (n * 10 + (c - 48)) r)

length-drop_prefix : (p t r : Text) → drop_prefix p t ≡ some r → length r + length p ≡ length t
unfolding drop_prefix
length-drop_prefix [] t r h = ground arith
length-drop_prefix (a ∷ p) [] r h = absurd (cc)
length-drop_prefix (a ∷ p) (c ∷ t) r h = ground (arith, length-drop_prefix p t r)

length-magnitude : (t : Text) (n : ℕ) (r : Text) → magnitude t ≡ some (n, r) → length r < length t
unfolding magnitude
length-magnitude [] n r h = absurd (cc)
length-magnitude (c ∷ t) n r h = ground (arith, length-digits (c - 48) t)

checked-Shrinks :
    (negative : Bool) (o : Option (ℕ × Text)) (m : ℕ)
    → ((n : ℕ) (r : Text) → o ≡ some (n, r) → length r < m)
    → Shrinks m (checked_number negative o)
unfolding Shrinks checked_number
checked-Shrinks negative none m h = tt
checked-Shrinks negative (some (n, r)) m h =
    on_bool m (has_more r) _ _ tt (on_bool m (ltb max_safe n) _ _ tt (h n r refl))

pub number-Shrinks : (t : Text) → Shrinks (length t) (number t)
unfolding Shrinks number checked_number magnitude
number-Shrinks [] = tt
number-Shrinks (c ∷ r) =
    on_bool (length (c ∷ r)) (c == 45) _ _
      (checked-Shrinks true (magnitude r) (length (c ∷ r))
        (λ n s e. omega (arith, length-magnitude r n s e)))
      (checked-Shrinks false (magnitude (c ∷ r)) (length (c ∷ r)) (length-magnitude (c ∷ r)))

pub word-Shrinks : (t : Text) → Shrinks (length t) (word t)
unfolding Shrinks word
word-Shrinks t = elim (Option-cases (drop_prefix (text "true") t)) [
  | inr (r, e) ↦ rw e (omega (arith, length-drop_prefix (text "true") t r e))
  | inl e ↦ elim (Option-cases (drop_prefix (text "false") t)) [
    | inr (r, f) ↦ rw (e, f) (omega (arith, length-drop_prefix (text "false") t r f))
    | inl f ↦ elim (Option-cases (drop_prefix (text "null") t)) [
      | inr (r, g) ↦ rw (e, f, g) (omega (arith, length-drop_prefix (text "null") t r g))
      | inl g ↦ rw (e, f, g) tt
    ]
  ]
]

pub expect-Shrinks : (c : ℕ) (t : Text) → Shrinks (length t) (expect c t)
unfolding Shrinks expect
expect-Shrinks c [] = tt
expect-Shrinks c (d ∷ r) = on_bool (length (d ∷ r)) (d == c) _ _ (omega arith) tt

pub object-Shrinks :
    (n : ℕ) (t : Text) (p : Parsed Fields)
    → length t < n
    → Shrinks (length t) p
    → Shrinks n (object t p)
unfolding Shrinks object
object-Shrinks n [] p l h = tt
object-Shrinks n (c ∷ r) p l h =
    on_bool n (c == 125) _ _ (omega arith)
      (and_then-Shrinks (length (c ∷ r)) n p _ h (λ fs rest k. omega arith))

pub array-Shrinks :
    (n : ℕ) (t : Text) (p : Parsed Items)
    → length t < n
    → Shrinks (length t) p
    → Shrinks n (array t p)
unfolding Shrinks array
array-Shrinks n [] p l h = tt
array-Shrinks n (c ∷ r) p l h =
    on_bool n (c == 93) _ _ (omega arith)
      (and_then-Shrinks (length (c ∷ r)) n p _ h (λ xs rest k. omega arith))

pub or_error-Shrinks :
    (n : ℕ) (o : Option Text) (r : Text) → length r < n → Shrinks n (or_error o r)
unfolding Shrinks or_error
or_error-Shrinks n none r l = tt
or_error-Shrinks n (some t) r l = l
