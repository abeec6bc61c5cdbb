-- ===== src/Timing/Fields.antt =====
-- tools/src/timing.ts: the fields of a timing record, each of a fixed width and written without loss.
use vcap_spec.Prelude.{
  ℕ, ◌+◌, ◌-◌, ◌^◌, ◌<◌, ◌≡◌, refl, sym, ap, ◌∙◌, ◌⊎◌, Option, some, List, [], ◌∷◌, ◌++◌, length,
  arith, ℤ, pos, negsuc, Option-cases, inl, inr, append_inj, append_assoc, some-injective,
}
use vcap_spec.Bytes.{Bytes, be, write_int}
use vcap_spec.Bytes.Laws.{length-be, be_inj, length-write_int, write_int_inj}
use vcap_spec.Timing.{int64, twos_complement, uint64, uint32, pairs}

-- A field of a fixed width that determines its value.
pub record Field (w : ℕ) (f : ℤ → Option Bytes) : Type 0 where
  pub width : (v : ℤ) (s : Bytes) → f v ≡ some s → length s ≡ w
  pub inj : (v u : ℤ) (s : Bytes) → f v ≡ some s → f u ≡ some s → v ≡ u

int64-write :
    (v : ℤ) (s : Bytes)
    → int64 v ≡ some s
    → (n : ℕ) × (n < 256 ^ 8)
      × (s ≡ be 8 n)
      × (((v ≡ pos n) × (n < 2 ^ 63))
          ⊎ ((k : ℕ) × (v ≡ negsuc k) × (k < 2 ^ 63) × (n + k + 1 ≡ 2 ^ 64)))
unfolding int64 twos_complement
int64-write (pos n) s h = (n, ground (arith, h), ground (arith, h), inl (refl, ground (arith, h)))
int64-write (negsuc k) s h = (
  2 ^ 64 - (k + 1),
  ground (arith, h),
  ground (arith, h),
  inr (k, refl, ground (arith, h), ground (arith, h)),
)

pub int64-Field : Field 8 int64
int64-Field = record {
  width = λ v s h. let (n, _, e, _) = int64-write v s h in rw e (length-be 8 n);
  inj = λ v u s h k.
      let (n, ln, e, a) = int64-write v s h in
      let (m, lm, f, b) = int64-write u s k in
      let same : n ≡ m = be_inj 8 n m ln lm (sym e ∙ f) in ground (arith, same, a, b);
}

uint64-write_int : (v : ℤ) (s : Bytes) → uint64 v ≡ some s → write_int 8 v ≡ some s
unfolding uint64
uint64-write_int v s h = ground arith

pub uint64-Field : Field 8 uint64
uint64-Field = record {
  width = λ v s h. length-write_int 8 v s (uint64-write_int v s h);
  inj = λ v u s h k. write_int_inj 8 v u s (uint64-write_int v s h) (uint64-write_int u s k);
}

uint32-write_int : (v : ℤ) (s : Bytes) → uint32 v ≡ some s → write_int 4 v ≡ some s
unfolding uint32
uint32-write_int v s h = ground arith

pub uint32-Field : Field 4 uint32
uint32-Field = record {
  width = λ v s h. length-write_int 4 v s (uint32-write_int v s h);
  inj = λ v u s h k. write_int_inj 4 v u s (uint32-write_int v s h) (uint32-write_int u s k);
}

module _ (w v : ℕ) (f g : ℤ → Option Bytes) (ff : Field w f) (gg : Field v g) where
  pairs_inv :
      (x y : ℤ) (xs ys : List ℤ) (b : Bytes)
      → pairs f g (x ∷ xs) (y ∷ ys) ≡ some b
      → (p q r : Bytes) × (f x ≡ some p)
        × (g y ≡ some q)
        × (pairs f g xs ys ≡ some r)
        × (b ≡ p ++ (q ++ r))
  unfolding pairs
  pairs_inv x y xs ys b h = elim (Option-cases (f x)) [
    | inl e ↦ absurd (ground (arith, e))
    | inr (p, e1) ↦ elim (Option-cases (g y)) [
      | inl e ↦ absurd (ground (arith, e1, e))
      | inr (q, e2) ↦ elim (Option-cases (pairs f g xs ys)) [
        | inl e ↦ absurd (ground (arith, e1, e2, e))
        | inr (r, e3) ↦ (p, q, r, e1, e2, e3, ground (arith, e1, e2, e3))
      ]
    ]
  ]

  -- As many pairs, and then anything: the pairs are the same, and so is what follows.
  pub pairs_inj :
      (xs ys xs' ys' : List ℤ) (b b' z z' : Bytes)
      → length xs ≡ length ys
      → length xs' ≡ length ys'
      → length xs ≡ length xs'
      → pairs f g xs ys ≡ some b
      → pairs f g xs' ys' ≡ some b'
      → b ++ z ≡ b' ++ z'
      → (xs ≡ xs') × (ys ≡ ys') × (z ≡ z')
  unfolding pairs
  pairs_inj [] [] [] [] b b' z z' l l' n h k e =
      let hb : [] ≡ b = some-injective _ _ h in
      let kb : [] ≡ b' = some-injective _ _ k in (refl, refl, rw (← hb, ← kb) at e)
  pairs_inj [] [] [] (y ∷ ys) b b' z z' l l' n h k e = absurd (omega arith)
  pairs_inj [] [] (x ∷ xs) ys' b b' z z' l l' n h k e = absurd (omega arith)
  pairs_inj [] (y ∷ ys) xs' ys' b b' z z' l l' n h k e = absurd (omega arith)
  pairs_inj (x ∷ xs) [] xs' ys' b b' z z' l l' n h k e = absurd (omega arith)
  pairs_inj (x ∷ xs) (y ∷ ys) [] ys' b b' z z' l l' n h k e = absurd (omega arith)
  pairs_inj (x ∷ xs) (y ∷ ys) (x' ∷ xs') [] b b' z z' l l' n h k e = absurd (omega arith)
  pairs_inj (x ∷ xs) (y ∷ ys) (x' ∷ xs') (y' ∷ ys') b b' z z' l l' n h k e =
      let (p, q, r, hp, hq, hr, eb) = pairs_inv x y xs ys b h in
      let (p', q', r', kp, kq, kr, eb') = pairs_inv x' y' xs' ys' b' k in
      let all : p ++ (q ++ (r ++ z)) ≡ p' ++ (q' ++ (r' ++ z')) =
        ground (arith, eb, eb', e, append3 p q r z, append3 p' q' r' z') in
      let (e1, r1) = append_inj p _ p' _ (ff.width x p hp ∙ sym (ff.width x' p' kp)) all in
      let (e2, r2) = append_inj q _ q' _ (gg.width y q hq ∙ sym (gg.width y' q' kq)) r1 in
      let (e3, e4, e5) =
        pairs_inj xs ys xs' ys' r r' z z' (omega arith) (omega arith) (omega arith) hr kr r2 in
      let ex = ff.inj x x' p hp (rw e1 kp) in
      let ey = gg.inj y y' q hq (rw e2 kq) in (rw (ex, e3) refl, rw (ey, e4) refl, e5)
    where
      append3 : (p q r z : Bytes) → (p ++ (q ++ r)) ++ z ≡ p ++ (q ++ (r ++ z))
      append3 p q r z = append_assoc p (q ++ r) z ∙ ap (λ t. p ++ t) (append_assoc q r z)
