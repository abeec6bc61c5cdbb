-- ===== src/Bmff/Samples.antt =====
-- tools/src/container.ts: the sample tables, in `samplesOf`. An index `sample` out of a table is
-- `undefined` there and `none` here.
pub mod Placed
use vcap_spec.Prelude.{
  ◌>>=◌, ℕ, zero, suc, ◌+◌, ◌*◌, Bool, true, false, not, Option, none, some, List, [], ◌∷◌, ◌++◌,
  length, get_elem?, replicate, ltb, ◌==◌, leb, or_else, if◌then◌else◌, ℤ, pos,
}
use vcap_spec.Bytes.{Bytes, read_uint}
use vcap_spec.Text.{text}
use vcap_spec.Bmff.{Box, find, children, is_one, signed}

-- One sample, in decode order; `dts` and `duration` are never negative.
pub record Sample : Type 0 where
  pub offset : ℕ
  pub size : ℕ
  pub dts : ℕ
  pub duration : ℕ
  pub cts : ℤ

-- A loop that pushes what it reads at each index from `i` on.
unfoldable pub table {ℓ} : {A : Type ℓ} → (ℕ → Option A) → (count i : ℕ) → Option (List A)
table f zero i = some []
table f (suc count) i = do a ← f i; rest ← table f count (suc i); some (a ∷ rest)

-- A run-length coded table, written out.
unfoldable pub spread {ℓ} : {A : Type ℓ} → List (ℕ × A) → List A
spread [] = []
spread ((count, a) ∷ runs) = replicate count a ++ spread runs

-- `sizes[i]`.
size_at : Bytes → Box → ℕ → ℕ → Option ℕ
size_at file stsz uniform i =
    if not (uniform == 0) then some uniform else read_uint 4 file (stsz.payload + 12 + i * 4)

unfoldable pub sizes_of : Bytes → Box → Option (List ℕ)
unfolding size_at
sizes_of file stsz = do
  count ← read_uint 4 file (stsz.payload + 8)
  uniform ← read_uint 4 file (stsz.payload + 4)
  table (size_at file stsz uniform) count 0

-- The chunk offsets, of `width` bytes each.
unfoldable pub offsets_of : (width : ℕ) → Bytes → Box → Option (List ℕ)
offsets_of width file box = do
  count ← read_uint 4 file (box.payload + 4)
  table (λ i. read_uint width file (box.payload + 8 + i * width)) count 0

-- `co64` goes before `stco`; a table without either is refused.
unfoldable pub chunk_offsets : Bytes → (co64 stco : Option Box) → Option (List ℕ)
chunk_offsets file (some co64) stco = offsets_of 8 file co64
chunk_offsets file none (some stco) = offsets_of 4 file stco
chunk_offsets file none none = none

pair_at : Bytes → ℕ → Option (ℕ × ℕ)
pair_at file at = do a ← read_uint 4 file at; b ← read_uint 4 file (at + 4); some (a, b)

-- The runs of `stsc`: the first chunk, and the samples in each chunk from there on.
unfoldable pub runs_of : Bytes → Box → Option (List (ℕ × ℕ))
unfolding pair_at
runs_of file stsc = do
  count ← read_uint 4 file (stsc.payload + 4)
  table (λ i. pair_at file (stsc.payload + 8 + i * 12)) count 0

unfoldable pub deltas_of : Bytes → Box → Option (List ℕ)
unfolding pair_at
deltas_of file stts = do
  count ← read_uint 4 file (stts.payload + 4)
  runs ← table (λ i. pair_at file (stts.payload + 8 + i * 8)) count 0
  some (spread runs)

composed : Bool → ℕ × ℕ → ℕ × ℤ
composed true (count, offset) = (count, signed 4 offset)
composed false (count, offset) = (count, pos offset)

-- A run of `ctts`: unsigned offsets at version 0, signed at version 1.
composition_at : Bool → Bytes → ℕ → Option (ℕ × ℤ)
unfolding pair_at composed
composition_at is_signed file at = do run ← pair_at file at; some (composed is_signed run)

unfoldable pub compositions_of : Bytes → Option Box → Option (List ℤ)
unfolding composition_at
compositions_of file none = some []
compositions_of file (some ctts) = do
  count ← read_uint 4 file (ctts.payload + 4)
  runs ←
      table
        (λ i.
          composition_at (is_one (read_uint 1 file ctts.payload)) file (ctts.payload + 8 + i * 8))
        count 0
  some (spread runs)

pub record Tables : Type 0 where
  pub sizes : List ℕ
  pub chunks : List ℕ
  pub runs : List (ℕ × ℕ)
  pub deltas : List ℕ
  pub compositions : List ℤ

-- The last run that starts at the chunk or before, the chunks counted from 1.
unfoldable pub run_for : ℕ → List (ℕ × ℕ) → Option ℕ
run_for chunk [] = none
run_for chunk ((first, per_chunk) ∷ runs) = elim (run_for chunk runs) [
  | some n ↦ some n
  | none ↦ if leb first chunk then some per_chunk else none
]

last_delta : List ℕ → ℕ
last_delta [] = 0
last_delta (d ∷ []) = d
last_delta (d ∷ e ∷ ds) = last_delta (e ∷ ds)

-- The sample with the index `i`, at an offset.
unfoldable pub sample_at : Tables → (i offset dts : ℕ) → Sample
unfolding last_delta
sample_at t i offset dts = record {
  offset = offset;
  size = or_else (get_elem? t.sizes i) 0;
  dts = dts;
  duration = or_else (get_elem? t.deltas i) (last_delta t.deltas);
  cts = or_else (get_elem? t.compositions i) (pos 0);
}

-- The variables of the loop: the samples so far, and the decode time of the next one. The counter
-- `sample` is their number.
pub record Placing : Type 0 where
  pub samples : List Sample
  pub dts : ℕ

-- The samples of one chunk.
unfoldable pub place_chunk : Tables → (left offset : ℕ) → Placing → Placing
place_chunk t zero offset p = p
place_chunk t (suc left) offset p =
    let s = sample_at t (length p.samples) offset p.dts in
    let rest =
      place_chunk t left (offset + s.size)
        (record { samples = p.samples ++ s ∷ []; dts = p.dts + s.duration }) in
    if ltb (length p.samples) (length t.sizes) then rest else p

-- The chunks, the first with the number `chunk`.
unfoldable pub place_chunks : Tables → (chunk : ℕ) → List ℕ → Placing → Placing
place_chunks t chunk [] p = p
place_chunks t chunk (offset ∷ offsets) p =
    let rest =
      place_chunks t (suc chunk) offsets
        (place_chunk t (or_else (run_for chunk t.runs) 0) offset p) in
    if ltb (length p.samples) (length t.sizes) then rest else p

-- Where the chunk table places as many samples as there are.
unfoldable pub placed : Tables → Option (List Sample)
placed t =
    let p = place_chunks t 1 t.chunks (record { samples = []; dts = 0 }) in
    if not (length p.samples == length t.sizes) then none else some p.samples

unfoldable pub tables_of : Bytes → Box → Option Tables
tables_of file stbl = do
  kids ← children file stbl
  stsz ← find kids (text "stsz")
  stsc ← find kids (text "stsc")
  stts ← find kids (text "stts")
  sizes ← sizes_of file stsz
  chunks ← chunk_offsets file (find kids (text "co64")) (find kids (text "stco"))
  runs ← runs_of file stsc
  deltas ← deltas_of file stts
  compositions ← compositions_of file (find kids (text "ctts"))
  some (record {
    sizes = sizes;
    chunks = chunks;
    runs = runs;
    deltas = deltas;
    compositions = compositions;
  })

unfoldable pub samples_of : Bytes → Box → Option (List Sample)
samples_of file stbl = do t ← tables_of file stbl; placed t
