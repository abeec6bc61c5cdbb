-- ===== src/Bmff/Gops/Parts.antt =====
-- The split of a video track into GOPs, in `readContainer` of tools/src/container.ts.
use vcap_spec.Prelude.{
  ℕ, zero, suc, ◌+◌, ◌-◌, ◌<◌, ◌≡◌, refl, sym, ap, subst, ◌∙◌, true, false, Option, none, some,
  List, [], ◌∷◌, ◌++◌, length, take, get_elem?, All, arith, Option-cases, Bool-cases, inl, inr,
  append_assoc, length-append, take-append_eq, drop-append_eq,
}
use vcap_spec.Bytes.{Bytes}
use vcap_spec.Node.{Node}
use vcap_spec.Verify.Container.{Segment}
use vcap_spec.Bmff.Tracks.{Track}
use vcap_spec.Bmff.Gops.{
  starts_from, members, next_start, segment_of, segment_in, segment_at, segments_of,
}
use vcap_spec.Bmff.Units.{AccessUnit}

head : List AccessUnit → Option AccessUnit
head [] = none
head (u ∷ us) = some u

-- A GOP may begin here: at an IDR or at the end.
OpensIdr : List AccessUnit → Type 0
OpensIdr [] = Unit
OpensIdr (u ∷ us) = u.idr ≡ true

abbrev NoIdr : List AccessUnit → Type 0
NoIdr us = All (λ (u : AccessUnit). u.idr ≡ false) us

get_elem?-append :
    (pre us : List AccessUnit) (i : ℕ) → i ≡ length pre → get_elem? (pre ++ us) i ≡ head us
unfolding head
get_elem?-append [] [] zero h = refl
get_elem?-append [] (u ∷ us) zero h = refl
get_elem?-append [] us (suc i) h = absurd (omega arith)
get_elem?-append (p ∷ pre) us zero h = absurd (omega arith)
get_elem?-append (p ∷ pre) us (suc i) h = get_elem?-append pre us i (omega arith)

-- The units from the end of `pre` to before `rest`.
members-append :
    (pre group rest : List AccessUnit) (from to : ℕ)
    → from ≡ length pre
    → to ≡ from + length group
    → members (pre ++ (group ++ rest)) from to ≡ group
unfolding members
members-append pre group rest from to e f =
    ap (take (to - from)) (drop-append_eq pre (group ++ rest) from e)
    ∙ take-append_eq group rest (to - from) (omega (arith, f))

next-append :
    (pre group rest : List AccessUnit) (from to : ℕ)
    → from ≡ length pre
    → to ≡ from + length group
    → get_elem? (pre ++ (group ++ rest)) to ≡ head rest
next-append pre group rest from to e f =
    ap (λ us. get_elem? us to) (sym (append_assoc pre group rest))
    ∙ get_elem?-append (pre ++ group) rest to (omega (arith, e, f, length-append pre group))

starts_from-idr :
    (i : ℕ) (u : AccessUnit) (us : List AccessUnit)
    → u.idr ≡ true
    → starts_from i (u ∷ us) ≡ i ∷ starts_from (suc i) us
unfolding starts_from
starts_from-idr i u us d = ground (arith, d)

starts_from-inner :
    (i : ℕ) (u : AccessUnit) (us : List AccessUnit)
    → u.idr ≡ false
    → 0 < i
    → starts_from i (u ∷ us) ≡ starts_from (suc i) us
unfolding starts_from
starts_from-inner i u us d l = ground (arith, d, l)

NoIdr-snoc :
    (us : List AccessUnit) (u : AccessUnit) → NoIdr us → u.idr ≡ false → NoIdr (us ++ u ∷ [])
NoIdr-snoc [] u n d = (d, tt)
NoIdr-snoc (v ∷ vs) u n d = (n.0, NoIdr-snoc vs u n.1 d)

module _ (node : Node) (file : Bytes) (video_track : Track) (audio_track : Option Track) where
  -- The segments are those of the GOPs that the units fall into: each is made of a first unit and all
  -- that follow up to the next IDR, with the first unit of the next.
  unfoldable pub IsSplit : List AccessUnit → List Segment → Type 0
  unfolding head OpensIdr
  IsSplit us [] = us ≡ []
  IsSplit us (s ∷ ss) =
      (first : AccessUnit) × (others : List AccessUnit) × (rest : List AccessUnit) × (us
        ≡ first ∷ (others ++ rest))
      × NoIdr others
      × OpensIdr rest
      × (segment_of node file video_track audio_track first others (head rest) ≡ some s)
      × IsSplit rest ss

  segment_at-append :
      (pre : List AccessUnit) (first : AccessUnit) (others rest : List AccessUnit) (from to : ℕ)
      → from ≡ length pre
      → to ≡ from + 1 + length others
      → segment_at node file video_track audio_track (pre ++ (first ∷ others ++ rest)) from to
        ≡ segment_of node file video_track audio_track first others (head rest)
  unfolding segment_at segment_in
  segment_at-append pre first others rest from to e f =
      ap
        (λ us.
          segment_in node file video_track audio_track us
            (get_elem? (pre ++ (first ∷ others ++ rest)) to))
        (members-append pre (first ∷ others) rest from to e (omega (arith, f)))
      ∙ ap (λ next. segment_of node file video_track audio_track first others next)
          (next-append pre (first ∷ others) rest from to e (omega (arith, f)))

  -- The GOP that is open, with `others` after its first unit, and the units that are still to come.
  segments_of-IsSplit :
      (us pre : List AccessUnit) (first : AccessUnit) (others : List AccessUnit) (from i : ℕ)
      (segments : List Segment)
      → NoIdr others
      → from ≡ length pre
      → i ≡ from + 1 + length others
      → segments_of node file video_track audio_track
          (pre ++ (first ∷ others ++ us))
          (from ∷ starts_from i us)
        ≡ some segments
      → IsSplit (first ∷ others ++ us) segments
  unfolding segments_of starts_from next_start IsSplit OpensIdr
  segments_of-IsSplit [] pre first others from i segments n e f h =
      let end : length (pre ++ (first ∷ others ++ [])) ≡ from + 1 + length others =
        omega (arith, e, length-append pre (first ∷ others ++ []), length-append others []) in
      let same = segment_at-append pre first others [] from _ e end in
      elim (Option-cases (segment_of node file video_track audio_track first others (head []))) [
        | inl k ↦ absurd (ground (arith, same, k, h))
        | inr (s, k) ↦
            let are : s ∷ [] ≡ segments = ground (arith, same, k, h) in
            rw (← are) (first, others, [], refl, n, tt, k, refl)
      ]
  segments_of-IsSplit (u ∷ us) pre first others from i segments n e f h = elim (Bool-cases u.idr) [
    | inr d ↦
        let starts = starts_from-inner i u us d (omega (arith, f)) in
        let moved : pre ++ (first ∷ others ++ u ∷ us) ≡ pre ++ (first ∷ (others ++ u ∷ []) ++ us) =
          ap (λ z. pre ++ (first ∷ z)) (sym (append_assoc others (u ∷ []) us)) in
        let split =
          segments_of-IsSplit us pre first (others ++ u ∷ []) from (suc i) segments
            (NoIdr-snoc others u n d) e (omega (arith, f, length-append others (u ∷ [])))
            (ap
                (λ z.
                  segments_of node file video_track audio_track z (from ∷ starts_from (suc i) us))
                (sym moved)
              ∙ ap
                  (λ z.
                    segments_of node file video_track audio_track
                      (pre ++ (first ∷ others ++ u ∷ us)) (from ∷ z))
                  (sym starts)
              ∙ h) in
        subst (λ z. IsSplit (first ∷ z) segments) (append_assoc others (u ∷ []) us) split
    | inl d ↦
        let starts = starts_from-idr i u us d in
        let same = segment_at-append pre first others (u ∷ us) from i e f in
        let whole =
          (ap
              (λ z.
                segments_of node file video_track audio_track (pre ++ (first ∷ others ++ u ∷ us))
                  (from ∷ z))
              (sym starts)
            ∙ h) in
        let moved : pre ++ (first ∷ others ++ u ∷ us) ≡ (pre ++ first ∷ others) ++ (u ∷ us) =
          sym (append_assoc pre (first ∷ others) (u ∷ us)) in
        elim (Option-cases
          (segment_of node file video_track audio_track first others (head (u ∷ us)))) [
            | inl k ↦ absurd (ground (arith, same, k, whole))
            | inr (s, k) ↦
                elim (Option-cases (
                  segments_of node file video_track audio_track (pre ++ (first ∷ others ++ u ∷ us))
                    (i ∷ starts_from (suc i) us))) [
                      | inl l ↦ absurd (ground (arith, same, k, l, whole))
                      | inr (ss, l) ↦
                          let are : s ∷ ss ≡ segments = ground (arith, same, k, l, whole) in
                          let next =
                            segments_of-IsSplit us (pre ++ first ∷ others) u [] i (suc i) ss tt
                              (omega (arith, e, f, length-append pre (first ∷ others)))
                              (omega arith)
                              (ap
                                  (λ z.
                                    segments_of node file video_track audio_track z
                                      (i ∷ starts_from (suc i) us))
                                  (sym moved)
                                ∙ l) in
                          rw (← are) (first, others, u ∷ us, refl, n, d, k, next)
                    ]
          ]
  ]

  -- The segments of a track are those of its GOPs: the units fall, in order and without a rest, into
  -- groups, each of a first unit and all that follow up to before the next with an IDR; every group but
  -- the first begins with an IDR; and each segment is that of its group and of the first unit after it.
  pub segments_of_lem :
      (us : List AccessUnit) (segments : List Segment)
      → segments_of node file video_track audio_track us (starts_from 0 us) ≡ some segments
      → IsSplit us segments
  unfolding starts_from segments_of IsSplit
  segments_of_lem [] segments h = let are : [] ≡ segments = ground (arith, h) in rw (← are) refl
  segments_of_lem (u ∷ us) segments h =
      let starts : starts_from 0 (u ∷ us) ≡ 0 ∷ starts_from 1 us = ground arith in
      segments_of-IsSplit us [] u [] 0 1 segments tt refl refl
        (ap (λ z. segments_of node file video_track audio_track (u ∷ us) z) (sym starts) ∙ h)
