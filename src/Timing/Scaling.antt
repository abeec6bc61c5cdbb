-- ===== src/Timing/Scaling.antt =====
-- `convertTiming` of tools/src/timing.ts.
use vcap_spec.Prelude.{
  ℕ, zero, suc, ◌-◌, ◌*◌, ◌/◌, ◌%◌, ◌<◌, ◌≤ℤ◌, ◌*ℤ◌, ◌↔◌, ◌⊎◌, ◌≡◌, refl, sym, ap, Option, none,
  some, List, [], ◌∷◌, ◌==◌, arith, ℤ, pos, negsuc, Option-cases, Bool-cases, inl, inr,
}
use native.Mathlib.Nat.{mul-div_cancel}
use vcap_spec.Timing.{TimingValues, Timescales, minus, rescale, scale, scale_all, convert_timing}

mul-mod : (b v : ℕ) → 0 < b → v * b % b ≡ 0
mul-mod b v h = grind arith

-- An exact quotient, multiplied back and divided by the other number.
exact_back :
    (v a b : ℕ) → 0 < a → 0 < b → v * b % a ≡ 0 → (v * b / a * a % b ≡ 0) × (v * b / a * a / b ≡ v)
exact_back v a b ha hb h =
    let back : v * b / a * a ≡ v * b = ground arith in rw back (mul-mod b v hb, mul-div_cancel v hb)

quotient_pos : (v a b : ℕ) → 0 < a → 0 < b → suc v * b % a ≡ 0 → (k : ℕ) × (suc v * b / a ≡ suc k)
quotient_pos v a b ha hb h =
    let (m, d) = exact_back (suc v) a b ha hb h in positive (suc v * b / a) a b v d
  where
    positive : (q a b v : ℕ) → q * a / b ≡ suc v → (k : ℕ) × (q ≡ suc k)
    positive zero a b v d = absurd (ground (arith, d))
    positive (suc k) a b v d = (k, refl)

rescale_back : (a b : ℕ) (v u : ℤ) → 0 < a → 0 < b → rescale a b v ≡ some u → rescale b a u ≡ some v
unfolding rescale minus
rescale_back a b (pos v) u ha hb h = elim (Bool-cases (v * b % a == 0)) [
  | inl e ↦
      let (m, d) = exact_back v a b ha hb (ground (arith, e)) in
      let is : pos (v * b / a) ≡ u = ground (arith, e) in rw (← is, m, d) refl
  | inr e ↦ absurd (ground (arith, e))
]
rescale_back a b (negsuc v) u ha hb h = elim (Bool-cases (suc v * b % a == 0)) [
  | inl e ↦
      let z : suc v * b % a ≡ 0 = ground (arith, e) in
      let (m, d) = exact_back (suc v) a b ha hb z in
      let (k, q) = quotient_pos v a b ha hb z in
      let is : minus (suc v * b / a) ≡ u = ground (arith, e) in
      let is' : negsuc k ≡ u = rw q at is in
      let m' = rw q at m in let d' = rw q at d in rw (← is', m', d') refl
  | inr e ↦ absurd (ground (arith, e))
]

exact_iff : (w a u : ℕ) → 0 < a → ((w % a ≡ 0) × (w / a ≡ u)) ↔ (u * a ≡ w)
exact_iff w a u h = (
  λ e. let back : w / a * a ≡ w = ground (arith, e.0) in rw (← e.1) back,
  λ e. rw (← e) (mul-mod a u h, mul-div_cancel u h),
)

times-pos : (v n : ℕ) → pos v *ℤ pos n ≡ pos (v * n)
unfolding ◌*ℤ◌
times-pos v n = ground arith

times-negsuc : (v n : ℕ) → negsuc v *ℤ pos n ≡ minus (suc v * n)
unfolding ◌*ℤ◌ minus
times-negsuc v n = ground arith

minus_inj : (m n : ℕ) → minus m ≡ minus n → m ≡ n
unfolding minus
minus_inj zero zero e = refl
minus_inj zero (suc n) e = cc
minus_inj (suc m) zero e = cc
minus_inj (suc m) (suc n) e = cc

minus_inv :
    (m : ℕ) (u : ℤ)
    → minus m ≡ u
    → ((m ≡ 0) × (u ≡ pos 0)) ⊎ ((k : ℕ) × (m ≡ suc k) × (u ≡ negsuc k))
unfolding minus
minus_inv zero u e = inl (refl, sym e)
minus_inv (suc k) u e = inr (k, refl, sym e)

prod_pos : (n m : ℕ) → 0 < m → (k : ℕ) × (suc n * m ≡ suc k)
prod_pos n m h = (suc n * m - 1, ground arith)

rescale_iff :
    (a b : ℕ) (v u : ℤ) → 0 < a → 0 < b → (rescale a b v ≡ some u) ↔ (u *ℤ pos a ≡ v *ℤ pos b)
unfolding rescale minus
rescale_iff a b (pos v) (pos u) ha hb =
    let (to, back) = exact_iff (v * b) a u ha in
    rw (times-pos u a, times-pos v b)
      (
        λ h. ap pos (to (ground (arith, h), ground (arith, h))),
        λ h. ground (arith, back (ground (arith, h))),
      )
rescale_iff a b (pos v) (negsuc u) ha hb =
    let (k, e) = prod_pos u a ha in
    rw (times-negsuc u a, times-pos v b, e) (λ h. absurd (ground (arith, h)), λ h. cc)
rescale_iff a b (negsuc v) (pos u) ha hb =
    let (k, e) = prod_pos v b hb in
    rw (times-pos u a, times-negsuc v b, e)
      (
        λ h.
            let z : suc v * b % a ≡ 0 = ground (arith, h) in
            let (q, f) = quotient_pos v a b ha hb z in absurd (ground (arith, h, f)),
        λ h. cc,
      )
rescale_iff a b (negsuc v) (negsuc u) ha hb =
    let (to, back) = exact_iff (suc v * b) a (suc u) ha in
    rw (times-negsuc u a, times-negsuc v b)
      (
        λ h.
            let z : suc v * b % a ≡ 0 = ground (arith, h) in
            let q : minus (suc v * b / a) ≡ minus (suc u) = ground (arith, h) in
            ap minus (to (z, minus_inj (suc v * b / a) (suc u) q)),
        λ h. let (z, q) = back (minus_inj (suc u * a) (suc v * b) h) in rw (z, q) refl,
      )

-- An instant is converted to another exactly if both timescales are positive and the two are one
-- instant: the ticks converted, times the timescale received, are the ticks received, times the one
-- that is signed.
pub scale_iff :
    (from to v u : ℤ)
    → (scale (some from) (some to) v ≡ some u)
      ↔ ((pos 1 ≤ℤ from) × (pos 1 ≤ℤ to) × (u *ℤ from ≡ v *ℤ to))
unfolding scale
scale_iff (pos (suc a)) (pos (suc b)) v u =
    let (to, back) = rescale_iff (suc a) (suc b) v u (omega arith) (omega arith) in
    (λ h. (omega arith, omega arith, to h), λ h. back h.2)
scale_iff (pos zero) to v u = (λ h. cc, λ h. absurd (let z = h.0 in omega arith))
scale_iff (negsuc a) to v u = (λ h. cc, λ h. absurd (let z = h.0 in omega arith))
scale_iff (pos (suc a)) (pos zero) v u = (λ h. cc, λ h. absurd (let z = h.1 in omega arith))
scale_iff (pos (suc a)) (negsuc b) v u = (λ h. cc, λ h. absurd (let z = h.1 in omega arith))

pub scale_back :
    (from to : Option ℤ) (v u : ℤ) → scale from to v ≡ some u → scale to from u ≡ some v
unfolding scale
scale_back (some (pos (suc a))) (some (pos (suc b))) v u h =
    rescale_back (suc a) (suc b) v u (omega arith) (omega arith) h
scale_back none to v u h = cc
scale_back (some (pos zero)) to v u h = cc
scale_back (some (negsuc a)) to v u h = cc
scale_back (some (pos (suc a))) none v u h = cc
scale_back (some (pos (suc a))) (some (pos zero)) v u h = cc
scale_back (some (pos (suc a))) (some (negsuc b)) v u h = cc

scale_all_back :
    (f g : ℤ → Option ℤ)
    → ((v u : ℤ) → f v ≡ some u → g u ≡ some v)
    → (xs ys : List ℤ) → scale_all f xs ≡ some ys
    → scale_all g ys ≡ some xs
unfolding scale_all
scale_all_back f g back [] [] h = refl
scale_all_back f g back [] (y ∷ ys) h = cc
scale_all_back f g back (x ∷ xs) ys h = elim (Option-cases (f x)) [
  | inl e ↦ absurd (ground (arith, e))
  | inr (y, e) ↦ elim (Option-cases (scale_all f xs)) [
    | inl k ↦ absurd (ground (arith, e, k))
    | inr (zs, k) ↦
        let is : y ∷ zs ≡ ys = ground (arith, e, k) in
        rw (← is, back x y e, scale_all_back f g back xs zs k) refl
  ]
]

-- What a conversion that succeeds has.
record Converted (t u : TimingValues) (received signed : Timescales) : Type 0 where
  video_dts :
      scale_all (scale (some received.video) (some signed.video)) t.video_dts ≡ some u.video_dts
  video_cts :
      scale_all (scale (some received.video) (some signed.video)) t.video_cts ≡ some u.video_cts
  video_end : scale (some received.video) (some signed.video) t.video_end ≡ some u.video_end
  audio_dts : scale_all (scale received.audio signed.audio) t.audio_dts ≡ some u.audio_dts
  audio_dur : scale_all (scale received.audio signed.audio) t.audio_dur ≡ some u.audio_dur

convert_timing_inv :
    (t u : TimingValues) (received signed : Timescales)
    → convert_timing t received signed ≡ some u
    → Converted t u received signed
unfolding convert_timing
convert_timing_inv t u received signed h =
    let video = scale (some received.video) (some signed.video) in
    let audio = scale received.audio signed.audio in
    elim (Option-cases (scale_all video t.video_dts)) [
      | inl e ↦ absurd (ground (arith, e))
      | inr (a, e1) ↦ elim (Option-cases (scale_all video t.video_cts)) [
        | inl e ↦ absurd (ground (arith, e1, e))
        | inr (b, e2) ↦ elim (Option-cases (video t.video_end)) [
          | inl e ↦ absurd (ground (arith, e1, e2, e))
          | inr (c, e3) ↦ elim (Option-cases (scale_all audio t.audio_dts)) [
            | inl e ↦ absurd (ground (arith, e1, e2, e3, e))
            | inr (d, e4) ↦ elim (Option-cases (scale_all audio t.audio_dur)) [
              | inl e ↦ absurd (ground (arith, e1, e2, e3, e4, e))
              | inr (f, e5) ↦
                  let is : record {
                    video_dts = a;
                    video_cts = b;
                    video_end = c;
                    audio_dts = d;
                    audio_dur = f;
                  }
                      ≡ u =
                    ground (arith, e1, e2, e3, e4, e5) in
                  record {
                    video_dts = rw (← is) e1;
                    video_cts = rw (← is) e2;
                    video_end = rw (← is) e3;
                    audio_dts = rw (← is) e4;
                    audio_dur = rw (← is) e5;
                  }
            ]
          ]
        ]
      ]
    ]

-- A conversion that succeeds is undone by the one between the same timescales the other way.
pub convert_timing_back :
    (t u : TimingValues) (received signed : Timescales)
    → convert_timing t received signed ≡ some u
    → convert_timing u signed received ≡ some t
unfolding convert_timing
convert_timing_back t u received signed h =
    let c = convert_timing_inv t u received signed h in
    let v = scale_back (some received.video) (some signed.video) in
    let a = scale_back received.audio signed.audio in
    rw
      (
        scale_all_back _ _ v t.video_dts u.video_dts c.video_dts,
        scale_all_back _ _ v t.video_cts u.video_cts c.video_cts,
        v t.video_end u.video_end c.video_end,
        scale_all_back _ _ a t.audio_dts u.audio_dts c.audio_dts,
        scale_all_back _ _ a t.audio_dur u.audio_dur c.audio_dur,
      )
      refl
