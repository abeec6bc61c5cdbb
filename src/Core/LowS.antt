-- ===== src/Core/LowS.antt =====
-- `isLowS` and `flipS` of tools/src/core.ts.
use vcap_spec.Prelude.{
  ℕ, ◌-◌, ◌<◌, ◌≡◌, refl, sym, ap, ◌∙◌, not, some, [], ◌∷◌, ◌++◌, length, take, drop, leb, arith,
  length-drop, length-take, length-append, take-append_eq, drop-append_eq, take-append-drop,
}
use vcap_spec.Bytes.{Bytes, IsBytes, be, of_be}
use vcap_spec.Bytes.Laws.{length-be, of_be-be, be-of_be, IsBytes-drop}
use vcap_spec.Core.{order, half_order, to_big, is_low_s, flip_s}

to_big-some : (b : Bytes) → 0 < length b → to_big b ≡ some (of_be b)
unfolding to_big
to_big-some [] h = absurd (omega arith)
to_big-some (x ∷ r) h = refl

-- The order is odd.
other_half : (s : ℕ) → 0 < s → s < order → leb (order - s) half_order ≡ not (leb s half_order)
other_half s low high = ground arith

-- The number `s` of a signature, in the range of the group.
pub record HasS (sig : Bytes) (s : ℕ) : Type 0 where
  pub size : length sig ≡ 64
  pub value : of_be (drop 32 sig) ≡ s
  pub low : 0 < s
  pub high : s < order

module _ (sig : Bytes) (s : ℕ) (h : HasS sig s) where
  big : to_big (drop 32 sig) ≡ some s
  big = to_big-some (drop 32 sig) (omega (arith, length-drop 32 sig, h.size)) ∙ ap some h.value

  is_low_s-HasS : is_low_s sig ≡ some (leb s half_order)
  unfolding is_low_s
  is_low_s-HasS = rw big refl

  flip_s-HasS : flip_s sig ≡ some (take 32 sig ++ be 32 (order - s))
  unfolding flip_s
  flip_s-HasS = rw big (ground (arith, h.high))

  flipped : Bytes
  flipped = take 32 sig ++ be 32 (order - s)

  HasS-flipped : HasS flipped (order - s)
  unfolding flipped
  HasS-flipped =
      let front : length (take 32 sig) ≡ 32 = omega (arith, length-take 32 sig, h.size) in
      let tail = drop-append_eq (take 32 sig) (be 32 (order - s)) 32 (sym front) in
      record {
        size = omega (
          arith,
          front,
          length-append {0} (take 32 sig) (be 32 (order - s)),
          length-be 32 (order - s),
        );
        value = rw tail (of_be-be 32 (order - s) (omega arith));
        low = omega (arith, h.high);
        high = omega (arith, h.low, h.high);
      }

  front-flipped : take 32 flipped ≡ take 32 sig
  unfolding flipped
  front-flipped =
      take-append_eq (take 32 sig) (be 32 (order - s)) 32
        (omega (arith, length-take 32 sig, h.size))

-- Of a signature whose `s` is in the range of the group, `flipS` gives one whose `s` is too; exactly
-- one of the two is low, and flipping again gives back the signature.
pub flip_s_lem :
    (sig : Bytes) (s : ℕ)
    → IsBytes sig
    → HasS sig s
    → (t : Bytes) × (flip_s sig ≡ some t)
      × (is_low_s t ≡ some (not (leb s half_order)))
      × (is_low_s sig ≡ some (leb s half_order))
      × (flip_s t ≡ some sig)
unfolding flipped
flip_s_lem sig s bytes h =
    let t = flipped sig s h in
    let h' = HasS-flipped sig s h in
    let back : order - (order - s) ≡ s = omega (arith, h.high) in
    let tail : be 32 s ≡ drop 32 sig = rw (← h.value) (
      be-of_be (drop 32 sig) 32 (omega (arith, length-drop 32 sig, h.size))
        (IsBytes-drop 32 sig bytes)) in
    (
      t,
      flip_s-HasS sig s h,
      is_low_s-HasS t (order - s) h' ∙ ap some (other_half s h.low h.high),
      is_low_s-HasS sig s h,
      flip_s-HasS t (order - s) h'
          ∙ rw (back, front-flipped sig s h, tail, take-append-drop 32 sig) refl,
    )
