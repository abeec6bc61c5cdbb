-- ===== src/Json/Parse/Total.antt =====
-- The recursion of `parseProofJson` in tools/src/json.ts.
use vcap_spec.Prelude.{
  ℕ, zero, suc, ◌+◌, ◌*◌, ◌≤◌, ◌<◌, ◌≡◌, ◌⊎◌, refl, ◌||◌, Option, none, some, List, [], ◌∷◌, length,
  ltb, ◌==◌, arith, inl, inr,
}
use vcap_spec.Text.{Text}
use vcap_spec.Json.{Json, Items, Fields}
use vcap_spec.Json.Parse.{
  Parsed, syntax_error, out_of_fuel, parsed, Decoders, max_depth, space, scan, is_digit, number,
  expect, is_named, literal, string, scalar, read_value, after_member, read_member, after_item,
  read_item, value, members, items,
}
use vcap_spec.Json.Parse.Shrinks.{
  Shrinks, and_then-Shrinks, array-Shrinks, expect-Shrinks, length-scan, length-space,
  number-Shrinks, object-Shrinks, on_bool, or_error-Shrinks, weaken, word-Shrinks,
}

module _ (decoders : Decoders) where
  open decoders use {parse_literal}

  string-Shrinks : (t : Text) → Shrinks (length t) (string decoders t)
  unfolding Shrinks string
  string-Shrinks [] = tt
  string-Shrinks (c ∷ r) =
      on_bool (length (c ∷ r)) (c == 34) _ _ (of_scan (scan r) (length-scan r)) tt
    where
      of_scan :
          (o : Option (Text × Text))
          → ((i s : Text) → o ≡ some (i, s) → length s < length r)
          → Shrinks (length (c ∷ r)) (literal decoders o)
      of_scan none f = tt
      of_scan (some (i, s)) f =
          or_error-Shrinks (length (c ∷ r)) (parse_literal (34 ∷ i)) s (omega (arith, f i s refl))

  scalar-Shrinks : (c : ℕ) (r : Text) → Shrinks (length (c ∷ r)) (scalar decoders c r)
  unfolding Shrinks scalar
  scalar-Shrinks c r =
      let n = length (c ∷ r) in
      on_bool n (c == 34) _ _
        (and_then-Shrinks n n (string decoders (c ∷ r)) _ (string-Shrinks (c ∷ r)) (λ s rest k. k))
        (on_bool n (c == 45 || is_digit c) _ _
          (and_then-Shrinks n n (number (c ∷ r)) _ (number-Shrinks (c ∷ r)) (λ s rest k. k))
          (word-Shrinks (c ∷ r)))

  -- The bodies, on reads that leave less.
  read_value-Shrinks :
      (n : ℕ) (ms : Text → Parsed Fields) (xs : Text → Parsed Items) (t : Text)
      → length t ≤ n
      → ((r : Text) → length r < length t → Shrinks (length r) (ms r))
      → ((r : Text) → length r < length t → Shrinks (length r) (xs r))
      → Shrinks n (read_value decoders ms xs t)
  unfolding Shrinks read_value
  read_value-Shrinks n ms xs [] l f g = tt
  read_value-Shrinks n ms xs (c ∷ r) l f g =
      let s : length (space r) < length (c ∷ r) = omega (arith, length-space r) in
      on_bool n (c == 123) _ _
        (object-Shrinks n (space r) (ms (space r)) (omega (arith, s, l)) (f (space r) s))
        (on_bool n (c == 91) _ _
          (array-Shrinks n (space r) (xs (space r)) (omega (arith, s, l)) (g (space r) s))
          (weaken _ n (scalar decoders c r) l (scalar-Shrinks c r)))

  after_member-Shrinks :
      (n : ℕ) (more : Text → Parsed Fields) (key : Text) (v : Json) (t : Text)
      → length t < n
      → ((r : Text) → length r < length t → Shrinks (length r) (more r))
      → Shrinks n (after_member decoders more key v t)
  unfolding Shrinks after_member
  after_member-Shrinks n more key v [] l f = tt
  after_member-Shrinks n more key v (c ∷ r) l f =
      on_bool n (c == 44) _ _
        (and_then-Shrinks (length r) n (more r) _ (f r (omega arith)) (λ fs rest k. omega arith))
        (on_bool n (c == 125) _ _ (omega arith) tt)

  after_item-Shrinks :
      (n : ℕ) (more : Text → Parsed Items) (v : Json) (t : Text)
      → length t < n
      → ((r : Text) → length r < length t → Shrinks (length r) (more r))
      → Shrinks n (after_item decoders more v t)
  unfolding Shrinks after_item
  after_item-Shrinks n more v [] l f = tt
  after_item-Shrinks n more v (c ∷ r) l f =
      on_bool n (c == 44) _ _
        (and_then-Shrinks (length r) n (more r) _ (f r (omega arith)) (λ fs rest k. omega arith))
        (on_bool n (c == 93) _ _ (omega arith) tt)

  read_member-Shrinks :
      (read : Text → Parsed Json) (more : List Text → Text → Parsed Fields) (seen : List Text)
      (t : Text)
      → ((r : Text) → length r < length t → Shrinks (length r) (read r))
      → ((s : List Text) (r : Text) → length r < length t → Shrinks (length r) (more s r))
      → Shrinks (length t) (read_member decoders read more seen t)
  unfolding Shrinks read_member
  read_member-Shrinks read more seen t f g =
      let n = length t in
      and_then-Shrinks (length (space t)) n (string decoders (space t)) _ (string-Shrinks (space t))
        (λ key r1 k1. on_bool n (is_named seen key) _ _ tt (
          and_then-Shrinks (length (space r1)) n (expect 58 (space r1)) _
            (expect-Shrinks 58 (space r1))
            (λ colon r2 k2.
              let l2 : length r2 < n = omega (arith, k1, k2, length-space t, length-space r1) in
              and_then-Shrinks (length r2) n (read r2) _ (f r2 l2) (λ v r3 k3.
                let l3 : length (space r3) < n = omega (arith, l2, k3, length-space r3) in
                after_member-Shrinks n (more (key ∷ seen)) key v (space r3) l3
                  (λ r k. g (key ∷ seen) r (omega arith))))))

  read_item-Shrinks :
      (read : Text → Parsed Json) (more : Text → Parsed Items) (t : Text)
      → Shrinks (length t) (read t)
      → ((r : Text) → length r < length t → Shrinks (length r) (more r))
      → Shrinks (length t) (read_item decoders read more t)
  unfolding Shrinks read_item
  read_item-Shrinks read more t f g =
      let n = length t in
      and_then-Shrinks n n (read t) _ f (λ v r1 k1.
        let l : length (space r1) < n = omega (arith, k1, length-space r1) in
        after_item-Shrinks n more v (space r1) l (λ r k. g r (omega arith)))

  mutual
    unfolding Shrinks value

    value-Shrinks :
        (fuel depth : ℕ) (t : Text)
        → 2 * length t + 1 ≤ fuel
        → Shrinks (length t) (value decoders fuel depth t)
    value-Shrinks zero depth t h = absurd (omega arith)
    value-Shrinks (suc fuel) depth t h = on_bool (length t) (ltb max_depth depth) _ _ tt (
        read_value-Shrinks (length t) (members decoders fuel depth []) (items decoders fuel depth)
          (space t) (length-space t)
          (λ r l. members-Shrinks fuel depth [] r (omega (arith, l, length-space t)))
          (λ r l. items-Shrinks fuel depth r (omega (arith, l, length-space t))))

    members-Shrinks :
        (fuel depth : ℕ) (seen : List Text) (t : Text)
        → 2 * length t + 2 ≤ fuel
        → Shrinks (length t) (members decoders fuel depth seen t)
    members-Shrinks zero depth seen t h = absurd (omega arith)
    members-Shrinks (suc fuel) depth seen t h =
        read_member-Shrinks (value decoders fuel (depth + 1)) (members decoders fuel depth) seen t
          (λ r l. value-Shrinks fuel (depth + 1) r (omega (arith, l)))
          (λ s r l. members-Shrinks fuel depth s r (omega (arith, l)))

    items-Shrinks :
        (fuel depth : ℕ) (t : Text)
        → 2 * length t + 2 ≤ fuel
        → Shrinks (length t) (items decoders fuel depth t)
    items-Shrinks zero depth t h = absurd (omega arith)
    items-Shrinks (suc fuel) depth t h =
        read_item-Shrinks (value decoders fuel (depth + 1)) (items decoders fuel depth) t
          (value-Shrinks fuel (depth + 1) t (omega arith))
          (λ r l. items-Shrinks fuel depth r (omega (arith, l)))

  -- With more fuel than twice the characters, reading a value at any depth ends: in an error, or in a value
  -- that takes at least one character.
  pub value_total :
      (fuel depth : ℕ) (t : Text)
      → 2 * length t + 1 ≤ fuel
      → (value decoders fuel depth t ≡ syntax_error)
        ⊎ ((v : Json) × (r : Text) × (value decoders fuel depth t ≡ parsed v r)
            × (length r < length t))
  unfolding Shrinks
  value_total fuel depth t h =
      of_shrinks (value decoders fuel depth t) (value-Shrinks fuel depth t h)
    where
      of_shrinks :
          (p : Parsed Json)
          → Shrinks (length t) p
          → (p ≡ syntax_error)
            ⊎ ((v : Json) × (r : Text) × (p ≡ parsed v r) × (length r < length t))
      of_shrinks syntax_error s = inl refl
      of_shrinks out_of_fuel s = absurd s
      of_shrinks (parsed v r) s = inr (v, r, refl, s)
