-- ===== src/Verify/Retimed/Instants.antt =====
-- `clipTimingProblem` of tools/src/verify.ts.
use vcap_spec.Prelude.{
  true, false, Option, none, some, List, [], ◌∷◌, ◌>>=◌, ℤ, ◌≡◌, ◌↔◌, refl, sym, ap, ◌∙◌, subst,
  arith, All, pos, negsuc, ◌≤ℤ◌, ◌+ℤ◌, ◌-ℤ◌, ◌*ℤ◌, ltb_ℤ, leb_ℤ, leb_ℤ_iff, Option-cases,
  Bool-cases, inl, inr, some-injective,
}
use vcap_spec.Bytes.{Bytes}
use vcap_spec.Bytes.Laws.{eq_bytes_iff}
use vcap_spec.Text.{Text}
use vcap_spec.Node.{Node}
use vcap_spec.Segments.{SegmentEntry}
use vcap_spec.Timing.{
  TimingValues, Extent, MediaEdit, edit_trims, encoded, timing_record, convert_timing, ReceivedHash,
  differs, thrown, hash_is, received_timing_hash,
}
use vcap_spec.Timing.Record.{received_timing_hash_iff}
use vcap_spec.Verify.Container.{Segment, GopsReading}
use vcap_spec.Verify.Binding.{has_index}
use vcap_spec.Verify.Retimed.{
  SignedTiming, TimingProblem, signed_timescales, timing_of, trims, same_text, gop_problem,
  gops_problem, clip_timing_problem, timing_entries_complete,
}
use vcap_spec.Verify.Retimed.Whole.{IsWhole, timing_entries_complete_iff}

-- The edit of a track shows the whole extent on it: it starts no later, and from there lasts as long, but
-- for less than a tick of the movie.
unfoldable pub IsKept : Option MediaEdit → Option Extent → Type 0
IsKept (some edit) (some extent) =
    (edit.media_time ≤ℤ extent.start)
    × (((edit.duration +ℤ pos 1) *ℤ edit.media_timescale
          ≤ℤ (extent.end -ℤ edit.media_time) *ℤ edit.movie_timescale)
        → ⊥)
IsKept _ _ = Unit

IsKept-iff :
    (edit : Option MediaEdit) (extent : Option Extent)
    → (trims edit extent ≡ false) ↔ IsKept edit extent
unfolding trims edit_trims IsKept
IsKept-iff none extent = (λ h. tt, λ k. refl)
IsKept-iff (some edit) none = (λ h. tt, λ k. refl)
IsKept-iff (some edit) (some extent) =
    let long =
      leb_ℤ_iff ((edit.duration +ℤ pos 1) *ℤ edit.media_timescale)
        ((extent.end -ℤ edit.media_time) *ℤ edit.movie_timescale) in
    let early = ltb_ℤ_false extent.start edit.media_time in
    (
      λ h. (early.0 (ground (arith, h)), λ l. let e = long.1 l in ground (arith, e, h)),
      λ (s, l).
          elim (Bool-cases (
            leb_ℤ ((edit.duration +ℤ pos 1) *ℤ edit.media_timescale)
              ((extent.end -ℤ edit.media_time) *ℤ edit.movie_timescale))) [
                | inl e ↦ absurd (l (long.0 e))
                | inr e ↦ let f = early.1 s in ground (arith, e, f)
              ],
    )
  where
    ltb_ℤ_false : (a b : ℤ) → (ltb_ℤ a b ≡ false) ↔ (b ≤ℤ a)
    ltb_ℤ_false (pos a) (pos b) = (λ h. ground (arith, h), λ h. ground (arith, h))
    ltb_ℤ_false (pos a) (negsuc b) = (λ h. ground (arith, h), λ h. ground (arith, h))
    ltb_ℤ_false (negsuc a) (pos b) = (λ h. ground (arith, h), λ h. ground (arith, h))
    ltb_ℤ_false (negsuc a) (negsuc b) = (λ h. ground (arith, h), λ h. ground (arith, h))

module _ (node : Node) (read : GopsReading) (signed : SignedTiming)
    (entries : List SegmentEntry) where
  -- A GOP is shown as its entry says: its timing, in the signed timescales, has a record whose hash is that
  -- of the entry, and no edit trims inside it.
  pub record IsTimed (gop : Segment) (index : ℤ) : Type 0 where
    pub values : TimingValues
    pub converted :
        convert_timing gop.timing read.timescales (signed_timescales signed) ≡ some values
    pub bytes : Bytes
    pub written : timing_record values ≡ encoded bytes
    pub of_entry : timing_of entries index ≡ some (node.to_base64url (node.sha256 bytes))
    pub video_kept : IsKept read.video_edit (some gop.video_extent)
    pub audio_kept : IsKept read.audio_edit gop.audio_extent

  -- Every GOP that is verified.
  abbrev pub AreTimed : List ℤ → List Segment → Type 0
  AreTimed verified gops =
      All
        (λ gop.
          (index : ℤ)
          → gop.index ≡ some index
          → has_index index verified ≡ true
          → IsTimed gop index)
        gops

  same_text_iff : (t : Text) (o : Option Text) → (same_text t o ≡ true) ↔ (o ≡ some t)
  unfolding same_text
  same_text_iff t none = (λ e. absurd (cc), λ e. absurd (cc))
  same_text_iff t (some u) = (
    λ e. ap some (sym ((eq_bytes_iff t u).0 e)),
    λ e. (eq_bytes_iff t u).1 (sym (some-injective _ _ e)),
  )

  gop_problem_iff :
      (gop : Segment) (index : ℤ)
      → (gop_problem node read (signed_timescales signed) entries gop index ≡ some none)
        ↔ IsTimed gop index
  unfolding gop_problem
  gop_problem_iff gop index = (
    forward (received_timing_hash node gop.timing read.timescales (signed_timescales signed)) refl,
    back,
  )
    where
      forward :
          (r : ReceivedHash)
          → received_timing_hash node gop.timing read.timescales (signed_timescales signed) ≡ r
          → gop_problem node read (signed_timescales signed) entries gop index ≡ some none
          → IsTimed gop index
      forward thrown e h = absurd (ground (arith, e, h))
      forward differs e h = absurd (ground (arith, e, h))
      forward (hash_is d) e h =
          let (values, bytes, is_converted, is_written, is_hash) =
            (received_timing_hash_iff node gop.timing read.timescales (signed_timescales signed)
                d).0
              e in
          record {
            values = values;
            converted = is_converted;
            bytes = bytes;
            written = is_written;
            of_entry =
                (same_text_iff (node.to_base64url d) (timing_of entries index)).0
                  (ground (arith, e, h))
                ∙ ap (λ x. some (node.to_base64url x)) is_hash;
            video_kept =
                (IsKept-iff read.video_edit (some gop.video_extent)).0 (ground (arith, e, h));
            audio_kept = (IsKept-iff read.audio_edit gop.audio_extent).0 (ground (arith, e, h));
          }

      back :
          IsTimed gop index
          → gop_problem node read (signed_timescales signed) entries gop index ≡ some none
      back i =
          let received =
            (received_timing_hash_iff node gop.timing read.timescales (signed_timescales signed)
                (node.sha256 i.bytes)).1
              (i.values, i.bytes, i.converted, i.written, refl) in
          let same =
            (same_text_iff (node.to_base64url (node.sha256 i.bytes)) (timing_of entries index)).1
              i.of_entry in
          let video = (IsKept-iff read.video_edit (some gop.video_extent)).1 i.video_kept in
          let audio = (IsKept-iff read.audio_edit gop.audio_extent).1 i.audio_kept in
          ground (arith, received, same, video, audio)

  gops_problem_iff :
      (verified : List ℤ) (gops : List Segment)
      → (gops_problem node read (signed_timescales signed) entries verified gops ≡ some none)
        ↔ AreTimed verified gops
  unfolding gops_problem
  gops_problem_iff verified [] = (λ e. tt, λ a. refl)
  gops_problem_iff verified (gop ∷ gops) =
      let rest = gops_problem_iff verified gops in
      elim (Option-cases gop.index) [
        | inl n ↦ (
          λ h. (λ index e k. absurd (cc), rest.0 (ground (arith, n, h))),
          λ a. ground (arith, n, rest.1 a.1),
        )
        | inr (i, n) ↦ elim (Bool-cases (has_index i verified)) [
          | inr f ↦ (
            λ h. (
              λ index e k. absurd (not_verified i index f n e k),
              rest.0 (ground (arith, n, f, h)),
            ),
            λ a. ground (arith, n, f, rest.1 a.1),
          )
          | inl t ↦ (
            λ h.
                let (here, after) =
                  both (gop_problem node read (signed_timescales signed) entries gop i)
                    (gops_problem node read (signed_timescales signed) entries verified gops)
                    (ground (arith, n, t, h)) in
                let timed = (gop_problem_iff gop i).0 here in
                (
                  λ index e k. subst (IsTimed gop) (some-injective _ _ (sym n ∙ e)) timed,
                  rest.0 after,
                ),
            λ a. ground (arith, n, t, (gop_problem_iff gop i).1 (a.0 i n t), rest.1 a.1),
          )
        ]
      ]
    where
      not_verified :
          (i index : ℤ)
          → has_index i verified ≡ false
          → gop.index ≡ some i
          → gop.index ≡ some index
          → has_index index verified ≡ true
          → ⊥
      not_verified i index f n e k =
          let same : i ≡ index = some-injective _ _ (sym n ∙ e) in let f' = rw same at f in cc

      both :
          (p rest : Option (Option TimingProblem))
          → (do problem ← p; elim problem [ none ↦ rest | some why ↦ some (some why) ]) ≡ some none
          → (p ≡ some none) × (rest ≡ some none)
      both none rest h = absurd (cc)
      both (some none) rest h = (refl, h)
      both (some (some why)) rest h = absurd (cc)

  -- A clip's timing has no problem exactly when the entries are as many as the core counts, with different
  -- indices from 0 to below that count, and the timing of every verified GOP, in the signed timescales, has
  -- a record whose hash is the one in the GOP's entry, and the edits of the tracks show the whole of it.
  pub clip_timing_problem_iff :
      (verified : List ℤ) (count : ℤ)
      → (clip_timing_problem node read signed entries verified
            (timing_entries_complete entries count)
          ≡ some none)
        ↔ (IsWhole entries count × AreTimed verified read.gops)
  unfolding clip_timing_problem
  clip_timing_problem_iff verified count =
      let whole = timing_entries_complete_iff entries count in
      let timed = gops_problem_iff verified read.gops in
      elim (Bool-cases (timing_entries_complete entries count)) [
        | inl e ↦ (λ h. (whole.0 e, timed.0 (ground (arith, e, h))), λ a. rw e (timed.1 a.1))
        | inr e ↦ (
          λ h. absurd (ground (arith, e, h)),
          λ a. let t = whole.1 a.0 in absurd (ground (arith, e, t)),
        )
      ]
