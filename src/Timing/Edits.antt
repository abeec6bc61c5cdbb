-- ===== src/Timing/Edits.antt =====
-- `editTrims` of tools/src/timing.ts.
use vcap_spec.Prelude.{
  ℕ, zero, suc, ◌*◌, ◌≤◌, ◌≤ℤ◌, ◌≡◌, arith, ℤ, pos, negsuc, ◌-ℤ◌, ◌*ℤ◌, false, -ℤ_parts,
}
use vcap_spec.Timing.{Extent, MediaEdit, edit_trims}

mul_le : (a b n : ℕ) → a ≤ b → a * n ≤ b * n
mul_le a b zero h = omega arith
mul_le a b (suc n) h = omega (arith, mul_le a b n h)

scaled_le : (a b : ℤ) (n : ℕ) → a ≤ℤ b → a *ℤ pos n ≤ℤ b *ℤ pos n
unfolding ◌*ℤ◌
scaled_le (pos a) (pos b) n h = ground (arith, mul_le a b n (omega arith))
scaled_le (pos a) (negsuc b) n h = absurd (omega arith)
scaled_le (negsuc a) (pos b) n h = ground arith
scaled_le (negsuc a) (negsuc b) n h = ground (arith, mul_le (suc b) (suc a) n (omega arith))

minus_le : (a b c : ℤ) → a ≤ℤ b → a -ℤ c ≤ℤ b -ℤ c
minus_le a b c h = omega (arith, -ℤ_parts a c, -ℤ_parts b c)

-- An edit that does not trim an extent, of a movie with a timescale that is not negative, does not
-- trim an extent inside it.
pub edit_trims_inside :
    (edit : MediaEdit) (outer inner : Extent) (n : ℕ)
    → edit.movie_timescale ≡ pos n
    → outer.start ≤ℤ inner.start
    → inner.end ≤ℤ outer.end
    → edit_trims edit outer ≡ false
    → edit_trims edit inner ≡ false
unfolding edit_trims
edit_trims_inside edit outer inner n e s t h =
    let le =
      scaled_le (inner.end -ℤ edit.media_time) (outer.end -ℤ edit.media_time) n
        (minus_le inner.end outer.end edit.media_time t) in
    let goal = rw e at h in rw e (ground (arith, le, s, goal))
