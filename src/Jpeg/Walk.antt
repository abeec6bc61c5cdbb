-- ===== src/Jpeg/Walk.antt =====
-- `jpegSegments` of tools/src/jumbf.ts.
use vcap_spec.Prelude.{
  ℕ, zero, suc, ◌+◌, ◌≤◌, ◌<◌, ◌≡◌, ◌⊎◌, refl, Bool, true, false, not, ◌&&◌, ◌||◌, Option, none,
  some, List, [], ◌∷◌, length, ltb, leb, ◌==◌, arith, if◌then◌else◌, inl, inr,
}
use vcap_spec.Bytes.{Bytes, read_uint}
use vcap_spec.Jpeg.{
  JpegSegment, MarkerStep, stop, malformed, skip, segment, Walked, walk_malformed, out_of_fuel,
  walked, sized, marked, first_byte, continue, step_at, push, walk, jpeg_segments,
}

-- The segments follow one another from `pos` on, of four bytes at least, in `n` bytes.
unfoldable pub Ordered : ℕ → ℕ → List JpegSegment → Type 0
Ordered pos n [] = Unit
Ordered pos n (s ∷ ss) = (pos ≤ s.start) × (s.start + 4 ≤ s.end) × (s.end ≤ n) × Ordered s.end n ss

-- A step moves on, to no more than the end of the file.
Moves : ℕ → ℕ → MarkerStep → Type 0
Moves pos n stop = Unit
Moves pos n malformed = Unit
Moves pos n (skip k) = (0 < k) × (pos + k ≤ n)
Moves pos n (segment marker end) = (pos + 4 ≤ end) × (end ≤ n)

module _ (n pos : ℕ) where
  on_bool :
      (b : Bool) (x y : MarkerStep)
      → (b ≡ true → Moves pos n x)
      → (b ≡ false → Moves pos n y)
      → Moves pos n (if b then x else y)
  on_bool true x y h k = h refl
  on_bool false x y h k = k refl

sized-Moves : (n pos marker : ℕ) (o : Option ℕ) → Moves pos n (sized n pos marker o)
unfolding Moves sized
sized-Moves n pos marker none = tt
sized-Moves n pos marker (some size) =
    on_bool n pos (ltb size 2 || ltb n (pos + 2 + size)) _ _ (λ k. tt)
      (λ k. (ground arith, ground arith))

marked-Moves :
    (bytes : Bytes) (pos : ℕ) (o : Option ℕ)
    → pos + 4 ≤ length bytes
    → Moves pos (length bytes) (marked bytes pos o)
unfolding Moves marked
marked-Moves bytes pos none l = tt
marked-Moves bytes pos (some marker) l =
    let n = length bytes in
    on_bool n pos (marker == 0xFF) _ _ (λ k. (omega arith, omega arith))
      (λ k.
        on_bool n pos (marker == 0x01 || leb 0xD0 marker && leb marker 0xD7) _ _
          (λ k. (omega arith, omega arith))
          (λ k.
            on_bool n pos (marker == 0xDA) _ _ (λ k. tt)
              (λ k. sized-Moves n pos marker (read_uint 2 bytes (pos + 2)))))

step_at-Moves : (bytes : Bytes) (pos : ℕ) → Moves pos (length bytes) (step_at bytes pos)
unfolding Moves step_at
step_at-Moves bytes pos =
    let n = length bytes in
    on_bool n pos (ltb n (pos + 4)) _ _ (λ k. tt)
      (λ k. of_first (read_uint 1 bytes pos) (ground arith))
  where
    of_first :
        (o : Option ℕ) → pos + 4 ≤ length bytes → Moves pos (length bytes) (first_byte bytes pos o)
    of_first none l = tt
    of_first (some first) l =
        on_bool (length bytes) pos (not (first == 0xFF)) _ _ (λ k. tt)
          (λ k. marked-Moves bytes pos (read_uint 1 bytes (pos + 1)) l)

-- A walk that ends, with its segments in order.
pub Ends : ℕ → ℕ → Walked → Type 0
Ends pos n walk_malformed = Unit
Ends pos n out_of_fuel = ⊥
Ends pos n (walked ss) = Ordered pos n ss

later_start : (p q n : ℕ) (w : Walked) → p ≤ q → Ends q n w → Ends p n w
unfolding Ends Ordered
later_start p q n walk_malformed l e = tt
later_start p q n out_of_fuel l e = e
later_start p q n (walked []) l e = tt
later_start p q n (walked (s ∷ ss)) l (a, b, c, d) = (omega arith, b, c, d)

walk-Ends :
    (fuel : ℕ) (bytes : Bytes) (pos : ℕ)
    → length bytes < pos + fuel
    → 0 < fuel
    → Ends pos (length bytes) (walk fuel bytes pos)
unfolding walk continue push Ends Ordered Moves
walk-Ends zero bytes pos h l = absurd (omega arith)
walk-Ends (suc fuel) bytes pos h l =
    of_step (step_at bytes pos) (step_at-Moves bytes pos)
      (λ q a b. walk-Ends fuel bytes q (omega arith) (omega arith))
  where
    of_push :
        (marker end : ℕ) (w : Walked)
        → pos + 4 ≤ end
        → end ≤ length bytes
        → Ends end (length bytes) w
        → Ends pos (length bytes) (push (record { marker = marker; start = pos; end = end }) w)
    of_push marker end walk_malformed a b e = tt
    of_push marker end out_of_fuel a b e = e
    of_push marker end (walked ss) a b e = (omega arith, a, b, e)

    of_step :
        (s : MarkerStep)
        → Moves pos (length bytes) s
        → ((q : ℕ) → pos < q → q ≤ length bytes → Ends q (length bytes) (walk fuel bytes q))
        → Ends pos (length bytes) (continue s pos (walk fuel bytes))
    of_step stop m f = tt
    of_step malformed m f = tt
    of_step (skip k) (a, b) f =
        later_start pos (pos + k) _ _ (omega arith) (f (pos + k) (omega arith) b)
    of_step (segment marker end) (a, b) f = of_push marker end _ a b (f end (omega arith) b)

-- The walk over a JPEG ends, in an error or in the segments; these lie within the file, in order, from its
-- third byte on, each of four bytes at least, and none begins before the one before it has ended.
pub jpeg_segments_total :
    (bytes : Bytes)
    → (jpeg_segments bytes ≡ walk_malformed)
      ⊎ ((segments : List JpegSegment) × (jpeg_segments bytes ≡ walked segments)
          × Ordered 2 (length bytes) segments)
unfolding jpeg_segments Ends
jpeg_segments_total bytes =
    of_ends (jpeg_segments bytes) (walk-Ends (length bytes + 1) bytes 2 (omega arith) (omega arith))
  where
    of_ends :
        (w : Walked)
        → Ends 2 (length bytes) w
        → (w ≡ walk_malformed)
          ⊎ ((segments : List JpegSegment) × (w ≡ walked segments)
              × Ordered 2 (length bytes) segments)
    of_ends walk_malformed e = inl refl
    of_ends out_of_fuel e = absurd e
    of_ends (walked ss) e = inr (ss, refl, e)
