-- ===== src/Bmff/Samples/Placed.antt =====
-- `samplesOf` of tools/src/container.ts.
use vcap_spec.Prelude.{
  ℕ, zero, suc, ◌+◌, ◌≡◌, refl, Bool, true, false, some, List, [], ◌∷◌, ◌++◌, length, ltb, ◌==◌,
  or_else, if◌then◌else◌, arith, Option-cases, Bool-cases, inl, inr,
}
use vcap_spec.Bytes.{Bytes}
use vcap_spec.Bmff.{Box}
use vcap_spec.Bmff.Samples.{
  Sample, Tables, sample_at, Placing, run_for, place_chunk, place_chunks, placed, tables_of,
  samples_of,
}

-- From the index `i` and the decode time `dts` on: each sample has the size, the duration and the
-- composition offset of its index, and is decoded when the one before it has ended.
unfoldable pub Timed : Tables → (i dts : ℕ) → List Sample → Type 0
Timed t i dts [] = Unit
Timed t i dts (s ∷ ss) = (s ≡ sample_at t i s.offset dts) × Timed t (suc i) (dts + s.duration) ss

total : List Sample → ℕ
total [] = 0
total (s ∷ ss) = s.duration + total ss

Timed-snoc :
    (t : Tables) (i j dts end : ℕ) (ss : List Sample) (s : Sample)
    → Timed t i dts ss
    → j ≡ i + length ss
    → end ≡ dts + total ss
    → s ≡ sample_at t j s.offset end
    → Timed t i dts (ss ++ s ∷ [])
unfolding Timed total
Timed-snoc t i j dts end [] s h e f k =
    let first : j ≡ i = omega (arith, e) in
    let start : end ≡ dts = omega (arith, f) in (rw (first, start) at k, tt)
Timed-snoc t i j dts end (u ∷ us) s (a, h) e f k = (
  a,
  Timed-snoc t (suc i) j (dts + u.duration) end us s h (omega (arith, e)) (omega (arith, f)) k,
)

total-snoc : (ss : List Sample) (s : Sample) → total (ss ++ s ∷ []) ≡ total ss + s.duration
unfolding total
total-snoc [] s = omega arith
total-snoc (u ∷ us) s = omega (arith, total-snoc us s)

abbrev IsPlaced : Tables → Placing → Type 0
IsPlaced t p = Timed t 0 0 p.samples × (p.dts ≡ total p.samples)

kept :
    (t : Tables) (b : Bool) (x p : Placing)
    → IsPlaced t p
    → IsPlaced t x
    → IsPlaced t (if b then x else p)
kept t true x p h k = k
kept t false x p h k = h

place_chunk-IsPlaced :
    (t : Tables) (left offset : ℕ) (p : Placing)
    → IsPlaced t p
    → IsPlaced t (place_chunk t left offset p)
unfolding place_chunk
place_chunk-IsPlaced t zero offset p h = h
place_chunk-IsPlaced t (suc left) offset p h =
    kept t (ltb (length p.samples) (length t.sizes)) _ p h (
      place_chunk-IsPlaced t left (offset + (sample_at t (length p.samples) offset p.dts).size)
        (record {
          samples = p.samples ++ sample_at t (length p.samples) offset p.dts ∷ [];
          dts = p.dts + (sample_at t (length p.samples) offset p.dts).duration;
        })
        (next (sample_at t (length p.samples) offset p.dts) (unfold sample_at in refl)))
  where
    next :
        (s : Sample)
        → s ≡ sample_at t (length p.samples) s.offset p.dts
        → IsPlaced t (record { samples = p.samples ++ s ∷ []; dts = p.dts + s.duration })
    next s e = (
      Timed-snoc t 0 (length p.samples) 0 p.dts p.samples s h.0 (omega arith) (omega (arith, h.1))
          e,
      omega (arith, h.1, total-snoc p.samples s),
    )

place_chunks-IsPlaced :
    (t : Tables) (chunk : ℕ) (offsets : List ℕ) (p : Placing)
    → IsPlaced t p
    → IsPlaced t (place_chunks t chunk offsets p)
unfolding place_chunks
place_chunks-IsPlaced t chunk [] p h = h
place_chunks-IsPlaced t chunk (offset ∷ offsets) p h =
    kept t (ltb (length p.samples) (length t.sizes)) _ p h (
      place_chunks-IsPlaced t (suc chunk) offsets
        (place_chunk t (or_else (run_for chunk t.runs) 0) offset p)
        (place_chunk-IsPlaced t (or_else (run_for chunk t.runs) 0) offset p h))

-- The samples that are read are as many as the sizes in the table, and each has the size, the duration and
-- the composition offset that the tables have at its index, and as its decode time the sum of the
-- durations of all samples before it.
pub samples_of_lem :
    (file : Bytes) (stbl : Box) (ss : List Sample)
    → samples_of file stbl ≡ some ss
    → (t : Tables) × (tables_of file stbl ≡ some t) × (length ss ≡ length t.sizes) × Timed t 0 0 ss
unfolding samples_of placed Timed total
samples_of_lem file stbl ss h = elim (Option-cases (tables_of file stbl)) [
  | inl e ↦ absurd (ground (arith, e, h))
  | inr (t, e) ↦
      let p = place_chunks t 1 t.chunks (record { samples = []; dts = 0 }) in
      let are : IsPlaced t p = place_chunks-IsPlaced t 1 t.chunks _ (tt, refl) in
      elim (Bool-cases (length p.samples == length t.sizes)) [
        | inr f ↦ absurd (ground (arith, e, f, h))
        | inl f ↦
            let same : p.samples ≡ ss = ground (arith, e, f, h) in
            (t, e, rw (← same) (ground (arith, f)), rw (← same) are.0)
      ]
]
