-- ===== src/Jpeg/Strip.antt =====
-- `stripC2paFromJpeg` of tools/src/canonical.ts.
use vcap_spec.Prelude.{
  ℕ, ◌+◌, ◌-◌, ◌≤◌, ◌<◌, ◌≡◌, refl, sym, ap, ◌∙◌, Bool, true, false, ◌&&◌, ◌||◌, some, List, [],
  ◌∷◌, ◌++◌, length, take, drop, ltb, leb, ◌==◌, any, arith, if◌then◌else◌, Bool-cases, inl, inr,
  take-append-drop, append_assoc, All, drop-drop, length-take, length-drop,
}
use vcap_spec.Bytes.{Bytes, subarray}
use vcap_spec.Jpeg.{
  JpegSegment, walked, jpeg_segments, jumbf_groups, dropped_starts, keep_from, stripped,
  strip_c2pa_from_jpeg,
}
use vcap_spec.Jpeg.Dropped.{drops}
use vcap_spec.Jpeg.Grouped.{NoneStarts, dropped_starts_lem}
use vcap_spec.Jpeg.Walk.{Ordered, jpeg_segments_total}

-- The bytes whose offset, from `i` on, is not cut.
pub outside : (ℕ → Bool) → ℕ → Bytes → Bytes
outside cut i [] = []
outside cut i (b ∷ bs) = if cut i then outside cut (i + 1) bs else b ∷ outside cut (i + 1) bs

-- Whether an offset is in a segment that begins at one of the dropped offsets.
is_cut : List ℕ → List JpegSegment → ℕ → Bool
is_cut dropped [] i = false
is_cut dropped (s ∷ ss) i =
    any (λ d. d == s.start) dropped && (leb s.start i && ltb i s.end) || is_cut dropped ss i

outside-append :
    (cut : ℕ → Bool) (i : ℕ) (xs ys : Bytes)
    → outside cut i (xs ++ ys) ≡ outside cut i xs ++ outside cut (i + length xs) ys
unfolding outside
outside-append cut i [] ys = let e : i + 0 ≡ i = omega arith in rw e refl
outside-append cut i (x ∷ xs) ys =
    let e : i + 1 + length xs ≡ i + length (x ∷ xs) = omega arith in
    let rest = outside-append cut (i + 1) xs ys in
    elim (Bool-cases (cut i)) [
      | inl h ↦ ground (arith, h, rest, e)
      | inr h ↦ ground (arith, h, rest, e)
    ]

outside-none :
    (cut : ℕ → Bool) (i : ℕ) (xs : Bytes)
    → ((j : ℕ) → i ≤ j → j < i + length xs → cut j ≡ false)
    → outside cut i xs ≡ xs
unfolding outside
outside-none cut i [] h = refl
outside-none cut i (x ∷ xs) h =
    let here : cut i ≡ false = h i (omega arith) (omega arith) in
    rw (here, outside-none cut (i + 1) xs (λ j a b. h j (omega arith) (omega arith))) refl

outside-all :
    (cut : ℕ → Bool) (i : ℕ) (xs : Bytes)
    → ((j : ℕ) → i ≤ j → j < i + length xs → cut j ≡ true)
    → outside cut i xs ≡ []
unfolding outside
outside-all cut i [] h = refl
outside-all cut i (x ∷ xs) h =
    let here : cut i ≡ true = h i (omega arith) (omega arith) in
    rw (here, outside-all cut (i + 1) xs (λ j a b. h j (omega arith) (omega arith))) refl

outside-same :
    (cut other : ℕ → Bool) (i : ℕ) (xs : Bytes)
    → ((j : ℕ) → i ≤ j → cut j ≡ other j)
    → outside cut i xs ≡ outside other i xs
unfolding outside
outside-same cut other i [] h = refl
outside-same cut other i (x ∷ xs) h =
    rw (h i (omega arith), outside-same cut other (i + 1) xs (λ j a. h j (omega arith))) refl

-- Nothing is cut before the first segment.
is_cut_before :
    (dropped : List ℕ) (pos n : ℕ) (ss : List JpegSegment) (i : ℕ)
    → Ordered pos n ss
    → i < pos
    → is_cut dropped ss i ≡ false
unfolding is_cut Ordered
is_cut_before dropped pos n [] i o l = refl
is_cut_before dropped pos n (s ∷ ss) i (a, b, c, d) l =
    ground (arith, is_cut_before dropped s.end n ss i d (omega arith))

earlier_start : (p q n : ℕ) (ss : List JpegSegment) → p ≤ q → Ordered q n ss → Ordered p n ss
unfolding Ordered
earlier_start p q n [] l o = tt
earlier_start p q n (s ∷ ss) l (a, b, c, d) = (omega arith, b, c, d)

-- A list from an offset on, split at two later ones.
split3 :
    (bytes : Bytes) (at start end : ℕ)
    → at ≤ start
    → start ≤ end
    → drop at bytes ≡ subarray bytes at start ++ (subarray bytes start end ++ drop end bytes)
unfolding subarray
split3 bytes at start end a b =
    let first = take-append-drop (start - at) (drop at bytes) in
    let second = take-append-drop (end - start) (drop start bytes) in
    let d1 : drop (start - at) (drop at bytes) ≡ drop start bytes =
      drop-drop at (start - at) start bytes (omega arith) in
    let d2 : drop (end - start) (drop start bytes) ≡ drop end bytes =
      drop-drop start (end - start) end bytes (omega arith) in
    let second' : take (end - start) (drop start bytes) ++ drop end bytes ≡ drop start bytes =
      rw d2 at second in
    let first' : take (start - at) (drop at bytes) ++ drop start bytes ≡ drop at bytes =
      rw d1 at first in
    rw second' (sym first')

length-subarray :
    (bytes : Bytes) (start end : ℕ)
    → start ≤ end
    → end ≤ length bytes
    → length (subarray bytes start end) ≡ end - start
unfolding subarray
length-subarray bytes start end a b =
    omega (arith, length-take (end - start) (drop start bytes), length-drop start bytes)

keep_from-outside :
    (bytes : Bytes) (at : ℕ) (dropped : List ℕ) (ss : List JpegSegment)
    → Ordered at (length bytes) ss
    → keep_from bytes at dropped ss ≡ outside (is_cut dropped ss) at (drop at bytes)
unfolding keep_from is_cut Ordered
keep_from-outside bytes at dropped [] o =
    sym (outside-none (is_cut dropped []) at (drop at bytes) (λ j a b. refl))
keep_from-outside bytes at dropped (s ∷ ss) (a, b, c, d) =
    elim (Bool-cases (any (λ d. d == s.start) dropped)) [
      | inl e ↦
          let cut = is_cut dropped (s ∷ ss) in
          let head = subarray bytes at s.start in
          let body = subarray bytes s.start s.end in
          let tail = drop s.end bytes in
          let n1 : at + length head ≡ s.start =
            omega (arith, length-subarray bytes at s.start a (omega arith)) in
          let n2 : s.start + length body ≡ s.end =
            omega (arith, length-subarray bytes s.start s.end (omega arith) c) in
          let kept : outside cut at head ≡ head = outside-none cut at head (λ j p q.
            ground (arith, n1, is_cut_before dropped s.end (length bytes) ss j d (omega arith))) in
          let gone : outside cut s.start body ≡ [] =
            outside-all cut s.start body (λ j p q. ground (arith, e, n2)) in
          let rest : outside cut s.end tail ≡ outside (is_cut dropped ss) s.end tail =
            outside-same cut (is_cut dropped ss) s.end tail (λ j p. ground arith) in
          let parts : outside cut at (head ++ (body ++ tail))
              ≡ head ++ outside (is_cut dropped ss) s.end tail =
            rw
              (
                outside-append cut at head (body ++ tail),
                n1,
                outside-append cut s.start body tail,
                n2,
                kept,
                gone,
                rest,
              )
              refl in
          let final = ap (λ z. head ++ z) (keep_from-outside bytes s.end dropped ss d) in
          rw (split3 bytes at s.start s.end a (omega arith), parts) (rw e final)
      | inr e ↦
          let same : (j : ℕ) → at ≤ j → is_cut dropped (s ∷ ss) j ≡ is_cut dropped ss j =
            λ j p. ground (arith, e) in
          rw (outside-same (is_cut dropped (s ∷ ss)) (is_cut dropped ss) at (drop at bytes) same) (
            rw e (
              keep_from-outside bytes at dropped ss
                (earlier_start at s.end (length bytes) ss (omega arith) d)))
    ]

-- Whether an offset is in a segment that the test names.
unfoldable pub covered : (JpegSegment → Bool) → List JpegSegment → ℕ → Bool
covered test [] i = false
covered test (s ∷ ss) i = test s && (leb s.start i && ltb i s.end) || covered test ss i

-- All begin before an offset.
abbrev Earlier : ℕ → List JpegSegment → Type 0
Earlier pos ss = All (λ (s : JpegSegment). s.start < pos) ss

NoneStarts-Earlier :
    (pos d : ℕ) (ss : List JpegSegment) → pos ≤ d → Earlier pos ss → NoneStarts d ss
NoneStarts-Earlier pos d [] l e = tt
NoneStarts-Earlier pos d (s ∷ ss) l (e, es) =
    (ground (arith, e, l), NoneStarts-Earlier pos d ss l es)

NoneStarts-Ordered :
    (pos n d : ℕ) (ss : List JpegSegment) → d < pos → Ordered pos n ss → NoneStarts d ss
unfolding Ordered
NoneStarts-Ordered pos n d [] l o = tt
NoneStarts-Ordered pos n d (s ∷ ss) l (a, b, c, o) =
    (ground (arith, a, l), NoneStarts-Ordered s.end n d ss (omega arith) o)

Earlier-snoc :
    (pos next : ℕ) (ss : List JpegSegment) (s : JpegSegment)
    → pos ≤ next
    → s.start < next
    → Earlier pos ss
    → Earlier next (ss ++ s ∷ [])
Earlier-snoc pos next [] s l k e = (k, tt)
Earlier-snoc pos next (t ∷ ss) s l k (e, es) =
    (omega (arith, e, l), Earlier-snoc pos next ss s l k es)

-- The segments that are cut are those that `drops` names.
is_cut-covered :
    (bytes : Bytes) (all before ss : List JpegSegment) (pos n i : ℕ)
    → all ≡ before ++ ss
    → Earlier pos before
    → Ordered pos n ss
    → is_cut (dropped_starts (jumbf_groups bytes all [])) ss i ≡ covered (drops bytes all) ss i
unfolding is_cut covered Ordered
is_cut-covered bytes all before [] pos n i e b o = refl
is_cut-covered bytes all before (s ∷ ss) pos n i e b (at, long, inside, o) =
    let named : any (λ d. d == s.start) (dropped_starts (jumbf_groups bytes all []))
        ≡ drops bytes all s =
      rw e (
        dropped_starts_lem bytes before ss s (NoneStarts-Earlier pos s.start before at b)
          (NoneStarts-Ordered s.end n s.start ss (omega arith) o)) in
    let rest =
      is_cut-covered bytes all (before ++ s ∷ []) ss s.end n i
        (e ∙ sym (append_assoc before (s ∷ []) ss))
        (Earlier-snoc pos s.end before s (omega arith) (omega arith) b) o in
    ground (arith, named, rest)

-- When the walk over the markers of a JPEG gives its segments, the stripped JPEG is exactly the bytes of the
-- file that lie in no segment that is dropped, in their order. A segment is dropped when it is an APP11
-- segment of a JUMBF box, and the type of its box, which the first of all segments with the number of the
-- box and a first packet shows, is that of a C2PA store or cannot be read.
pub strip_c2pa_lem :
    (bytes : Bytes) (segments : List JpegSegment)
    → jpeg_segments bytes ≡ walked segments
    → strip_c2pa_from_jpeg bytes ≡ some (outside (covered (drops bytes segments) segments) 0 bytes)
unfolding strip_c2pa_from_jpeg stripped
strip_c2pa_lem bytes segments h = elim (jpeg_segments_total bytes) [
  | inl e ↦ absurd (ground (arith, e, h))
  | inr (ss, e, o) ↦
      let same : ss ≡ segments = ground (arith, e, h) in
      let o' = rw same at o in
      let dropped = dropped_starts (jumbf_groups bytes segments []) in
      ap (stripped bytes) h
      ∙ ap some (
          keep_from-outside bytes 0 dropped segments
            (earlier_start 0 2 (length bytes) segments (omega arith) o')
          ∙ outside-same (is_cut dropped segments) (covered (drops bytes segments) segments) 0 bytes
              (λ j p. is_cut-covered bytes segments [] segments 2 (length bytes) j refl tt o'))
]
