-- ===== src/Json/Parse/Yields.antt =====
-- tools/src/json.ts: the values that the parser may give, and what each part that is no recursion yields.
use vcap_spec.Prelude.{
  ℕ, zero, suc, ◌+◌, ◌≤◌, ◌<◌, ◌≡◌, refl, Bool, true, false, Option, none, some, List, [], ◌∷◌, ltb,
  ◌==◌, if◌then◌else◌, pos, negsuc, arith, Option-cases, inl, inr,
}
use vcap_spec.Text.{Text, text}
use vcap_spec.Json.{Json, null, bool, num, str, arr, obj, Items, nil, cons, Fields, end, field}
use vcap_spec.Json.Parse.{
  Parsed, syntax_error, out_of_fuel, parsed, and_then, max_safe, space, magnitude, has_more,
  checked_number, signed, drop_prefix, number, word, is_named, at_end,
}

-- A JSON value, at a depth, as the format wants it: no deeper than 64, no integer beyond 2^53 − 1 on
-- either side, and no name twice in an object.
unfoldable mutual
  pub IsProofJson : ℕ → Json → Type 0
  IsProofJson depth null = depth ≤ 64
  IsProofJson depth (bool b) = depth ≤ 64
  IsProofJson depth (num (pos n)) = (depth ≤ 64) × (n ≤ 9007199254740991)
  IsProofJson depth (num (negsuc n)) = (depth ≤ 64) × (n < 9007199254740991)
  IsProofJson depth (str t) = depth ≤ 64
  IsProofJson depth (arr xs) = (depth ≤ 64) × AreItems (depth + 1) xs
  IsProofJson depth (obj fs) = (depth ≤ 64) × AreFields (depth + 1) [] fs

  pub AreItems : ℕ → Items → Type 0
  AreItems depth nil = Unit
  AreItems depth (cons v xs) = IsProofJson depth v × AreItems depth xs

  pub AreFields : ℕ → List Text → Fields → Type 0
  AreFields depth seen end = Unit
  AreFields depth seen (field k v fs) =
      (is_named seen k ≡ false) × (IsProofJson depth v × AreFields depth (k ∷ seen) fs)

-- What is read, if anything is, satisfies `P`.
unfoldable pub Yields {ℓ κ} : {A : Type ℓ} → (A → Type κ) → Parsed A → Type κ
Yields P syntax_error = Unit
Yields P out_of_fuel = Unit
Yields P (parsed a r) = P a

module _ {ℓ κ} {A : Type ℓ} (P : A → Type κ) where
  pub on_bool :
      (b : Bool) (x y : Parsed A)
      → (b ≡ true → Yields P x)
      → (b ≡ false → Yields P y)
      → Yields P (if b then x else y)
  on_bool true x y h k = h refl
  on_bool false x y h k = k refl

  pub always : ((a : A) → P a) → (p : Parsed A) → Yields P p
  unfolding Yields
  always f syntax_error = tt
  always f out_of_fuel = tt
  always f (parsed a r) = f a

  pub yielded : (p : Parsed A) (a : A) (r : Text) → Yields P p → p ≡ parsed a r → P a
  unfolding Yields
  yielded syntax_error a r y e = absurd (cc)
  yielded out_of_fuel a r y e = absurd (cc)
  yielded (parsed b s) a r y e = let same : b ≡ a = cc in rw (← same) y

module _ {ℓ κ ℓ' κ'} {A : Type ℓ} {B : Type ℓ'} (P : A → Type κ) (Q : B → Type κ') where
  pub and_then-Yields :
      (p : Parsed A) (k : A → Text → Parsed B)
      → Yields P p
      → ((a : A) (r : Text) → P a → Yields Q (k a r))
      → Yields Q (and_then p k)
  unfolding Yields and_then
  and_then-Yields syntax_error k h f = tt
  and_then-Yields out_of_fuel k h f = tt
  and_then-Yields (parsed a r) k h f = f a r h

pub number-Yields :
    (depth : ℕ) → depth ≤ 64 → (t : Text) → Yields (λ n. IsProofJson depth (num n)) (number t)
unfolding Yields number checked_number signed IsProofJson
number-Yields depth d [] = tt
number-Yields depth d (c ∷ r) =
    on_bool _ (c == 45) _ _ (λ e. checked true (magnitude r))
      (λ e. checked false (magnitude (c ∷ r)))
  where
    small : (negative : Bool) (n : ℕ) → n ≤ max_safe → IsProofJson depth (num (signed negative n))
    small true zero l = (d, omega arith)
    small true (suc n) l = (d, omega arith)
    small false n l = (d, l)

    checked :
        (negative : Bool) (o : Option (ℕ × Text))
        → Yields (λ n. IsProofJson depth (num n)) (checked_number negative o)
    checked negative none = tt
    checked negative (some (n, s)) =
        on_bool _ (has_more s) _ _ (λ e. tt)
          (λ e. on_bool _ (ltb max_safe n) _ _ (λ f. tt) (λ f. small negative n (ground arith)))

pub word-Yields : (depth : ℕ) → depth ≤ 64 → (t : Text) → Yields (IsProofJson depth) (word t)
unfolding Yields word IsProofJson
word-Yields depth d t = elim (Option-cases (drop_prefix (text "true") t)) [
  | inr (r, e) ↦ rw e d
  | inl e ↦ elim (Option-cases (drop_prefix (text "false") t)) [
    | inr (r, f) ↦ rw (e, f) d
    | inl f ↦ elim (Option-cases (drop_prefix (text "null") t)) [
      | inr (r, g) ↦ rw (e, f, g) d
      | inl g ↦ rw (e, f, g) tt
    ]
  ]
]

pub at_end-some : (p : Parsed Json) (v : Json) → at_end p ≡ some v → (r : Text) × (p ≡ parsed v r)
unfolding at_end
at_end-some syntax_error v h = absurd (cc)
at_end-some out_of_fuel v h = absurd (cc)
at_end-some (parsed w r) v h = (r, of_rest (space r) w r h)
  where
    of_rest :
        (s : Text) (w : Json) (r : Text)
        → elim s [ [] ↦ some w | c ∷ q ↦ none ] ≡ some v
        → parsed w r ≡ parsed v r
    of_rest [] w r h = ground (arith, h)
    of_rest (c ∷ q) w r h = absurd (cc)
