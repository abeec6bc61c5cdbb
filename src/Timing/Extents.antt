-- ===== src/Timing/Extents.antt =====
-- `videoExtent` of tools/src/timing.ts.
use vcap_spec.Prelude.{
  ◌<◌, ◌≤ℤ◌, ◌≡◌, refl, ◌⊎◌, inl, inr, some, List, [], ◌∷◌, All, length, arith, ℤ, ◌+ℤ◌, ◌-ℤ◌, none,
}
use mathlib.Core.List.{Memᴰ}
use vcap_spec.Timing.{TimingValues, earlier, later, next_dts, extent_loop, video_extent}

-- When each sample is shown, and until when.
pub spans : List ℤ → List ℤ → ℤ → List (ℤ × ℤ)
unfolding next_dts
spans [] cts video_end = []
spans (d ∷ ds) [] video_end = []
spans (d ∷ ds) (c ∷ cts) video_end =
    (d +ℤ c, d +ℤ c +ℤ (next_dts ds video_end -ℤ d)) ∷ spans ds cts video_end

earlier_le : (a s : ℤ) → (earlier (some a) s ≤ℤ a) × (earlier (some a) s ≤ℤ s)
unfolding earlier
earlier_le a s = ground arith

le-later : (b u : ℤ) → (b ≤ℤ later (some b) u) × (u ≤ℤ later (some b) u)
unfolding later
le-later b u = ground arith

earlier_or : (a s : ℤ) → (earlier (some a) s ≡ a) ⊎ (earlier (some a) s ≡ s)
unfolding earlier
earlier_or a s = ground arith

later_or : (b u : ℤ) → (later (some b) u ≡ b) ⊎ (later (some b) u ≡ u)
unfolding later
later_or b u = ground arith

≤ℤ_trans : (a b c : ℤ) → a ≤ℤ b → b ≤ℤ c → a ≤ℤ c
≤ℤ_trans a b c h k = omega arith

abbrev pub Within : ℤ → ℤ → ℤ × ℤ → Type 0
Within s e p = (s ≤ℤ p.0) × (p.1 ≤ℤ e)

-- The bounds are those of samples, or the ones at the start.
record Looped (a b s e : ℤ) (ps : List (ℤ × ℤ)) : Type 0 where
  low : s ≤ℤ a
  high : b ≤ℤ e
  within : All (Within s e) ps
  start_of : (s ≡ a) ⊎ ((p : ℤ × ℤ) × Memᴰ p ps × (s ≡ p.0))
  end_of : (e ≡ b) ⊎ ((p : ℤ × ℤ) × Memᴰ p ps × (e ≡ p.1))

looped :
    (ds cts : List ℤ) (v a b : ℤ)
    → length ds ≡ length cts
    → (s e : ℤ) × (extent_loop ds cts v (some a) (some b) ≡ some (some s, some e))
      × Looped a b s e (spans ds cts v)
unfolding extent_loop spans
looped [] [] v a b l = (
  a,
  b,
  refl,
  record {
    low = omega arith;
    high = omega arith;
    within = tt;
    start_of = inl refl;
    end_of = inl refl;
  },
)
looped [] (c ∷ cts) v a b l = absurd (omega arith)
looped (d ∷ ds) [] v a b l = absurd (omega arith)
looped (d ∷ ds) (c ∷ cts) v a b l =
    let shown = d +ℤ c in
    let until = shown +ℤ (next_dts ds v -ℤ d) in
    let (s, e, same, r) =
      looped ds cts v (earlier (some a) shown) (later (some b) until) (omega arith) in
    let (ea, es) = earlier_le a shown in
    let (lb, lu) = le-later b until in
    (
      s,
      e,
      same,
      record {
        low = ≤ℤ_trans s _ a r.low ea;
        high = ≤ℤ_trans b _ e lb r.high;
        within = ((≤ℤ_trans s _ shown r.low es, ≤ℤ_trans until _ e lu r.high), r.within);
        start_of = start_from r.start_of (earlier_or a shown);
        end_of = end_from r.end_of (later_or b until);
      },
    )
  where
    start_from :
        {a s z : ℤ} {q : ℤ × ℤ} {ps : List (ℤ × ℤ)}
        → (s ≡ z) ⊎ ((p : ℤ × ℤ) × Memᴰ p ps × (s ≡ p.0))
        → (z ≡ a) ⊎ (z ≡ q.0)
        → (s ≡ a) ⊎ ((p : ℤ × ℤ) × Memᴰ p (q ∷ ps) × (s ≡ p.0))
    start_from (inl h) (inl k) = inl (rw (h, k) refl)
    start_from {q = q} (inl h) (inr k) = inr (q, Memᴰ.head refl, rw (h, k) refl)
    start_from (inr (p, m, h)) k = inr (p, Memᴰ.tail m, h)

    end_from :
        {b e z : ℤ} {q : ℤ × ℤ} {ps : List (ℤ × ℤ)}
        → (e ≡ z) ⊎ ((p : ℤ × ℤ) × Memᴰ p ps × (e ≡ p.1))
        → (z ≡ b) ⊎ (z ≡ q.1)
        → (e ≡ b) ⊎ ((p : ℤ × ℤ) × Memᴰ p (q ∷ ps) × (e ≡ p.1))
    end_from (inl h) (inl k) = inl (rw (h, k) refl)
    end_from {q = q} (inl h) (inr k) = inr (q, Memᴰ.head refl, rw (h, k) refl)
    end_from (inr (p, m, h)) k = inr (p, Memᴰ.tail m, h)

covers :
    (ds cts : List ℤ) (v : ℤ)
    → length ds ≡ length cts
    → 0 < length ds
    → (s e : ℤ) × (extent_loop ds cts v none none ≡ some (some s, some e))
      × All (Within s e) (spans ds cts v)
      × ((p : ℤ × ℤ) × Memᴰ p (spans ds cts v) × (s ≡ p.0))
      × ((p : ℤ × ℤ) × Memᴰ p (spans ds cts v) × (e ≡ p.1))
unfolding extent_loop spans earlier later
covers [] cts v l n = absurd (omega arith)
covers (d ∷ ds) [] v l n = absurd (omega arith)
covers (d ∷ ds) (c ∷ cts) v l n =
    let shown = d +ℤ c in
    let until = shown +ℤ (next_dts ds v -ℤ d) in
    let (s, e, same, r) = looped ds cts v shown until (omega arith) in
    (s, e, same, ((r.low, r.high), r.within), first_start r.start_of, first_end r.end_of)
  where
    first_start :
        {s : ℤ} {q : ℤ × ℤ} {ps : List (ℤ × ℤ)}
        → (s ≡ q.0) ⊎ ((p : ℤ × ℤ) × Memᴰ p ps × (s ≡ p.0))
        → (p : ℤ × ℤ) × Memᴰ p (q ∷ ps) × (s ≡ p.0)
    first_start {q = q} (inl h) = (q, Memᴰ.head refl, h)
    first_start (inr (p, m, h)) = (p, Memᴰ.tail m, h)

    first_end :
        {e : ℤ} {q : ℤ × ℤ} {ps : List (ℤ × ℤ)}
        → (e ≡ q.1) ⊎ ((p : ℤ × ℤ) × Memᴰ p ps × (e ≡ p.1))
        → (p : ℤ × ℤ) × Memᴰ p (q ∷ ps) × (e ≡ p.1)
    first_end {q = q} (inl h) = (q, Memᴰ.head refl, h)
    first_end (inr (p, m, h)) = (p, Memᴰ.tail m, h)

-- Of a segment with a sample, and a composition offset for each, the extent starts where one of the
-- samples is first shown and ends where one of them ends, no sample is shown before that start, and
-- none ends after that end.
pub video_extent_lem :
    (t : TimingValues) (dts0 : ℤ)
    → length t.video_dts ≡ length t.video_cts
    → 0 < length t.video_dts
    → (s e : ℤ) × (video_extent t dts0 ≡ some (record { start = dts0 +ℤ s; end = dts0 +ℤ e }))
      × All (Within s e) (spans t.video_dts t.video_cts t.video_end)
      × ((p : ℤ × ℤ) × Memᴰ p (spans t.video_dts t.video_cts t.video_end) × (s ≡ p.0))
      × ((p : ℤ × ℤ) × Memᴰ p (spans t.video_dts t.video_cts t.video_end) × (e ≡ p.1))
unfolding video_extent
video_extent_lem t dts0 l n =
    let (s, e, same, within, first, last) = covers t.video_dts t.video_cts t.video_end l n in
    (s, e, rw same refl, within, first, last)
