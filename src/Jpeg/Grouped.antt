-- ===== src/Jpeg/Grouped.antt =====
-- The groups of JUMBF segments that `jumbfGroups` of tools/src/jumbf.ts makes, and the starts of those dropped.
use vcap_spec.Prelude.{
  ℕ, ◌≡◌, ◌⊎◌, refl, sym, ap, ◌∙◌, Bool, true, false, ◌||◌, Option, none, some, List, [], ◌∷◌, ◌++◌,
  All, ◌==◌, any, ◌>>=◌, arith, Bool-cases, Option-cases, inl, inr, some-injective,
}
use vcap_spec.Bytes.{Bytes, eq_bytes}
use vcap_spec.Jpeg.{
  JpegSegment, JumbfSegment, JumbfGroup, same_en, join_group, group_segment, jumbf_groups,
  packet_type, is_first, first_packet, group_type, is_dropped, starts_of, dropped_starts,
  store_type,
}
use vcap_spec.Jpeg.Dropped.{
  is_jumbf, box_number, sequence, is_it, shown_type, is_c2pa, drops, seg, group_segment_lem,
  in_group, in_box, same_en-is_it, first_packet-in_box, in_group-jumbf_groups,
}

has_start : ℕ → List ℕ → Bool
has_start d xs = any (λ x. x == d) xs

has_start-append :
    (d : ℕ) (xs ys : List ℕ) → has_start d (xs ++ ys) ≡ (has_start d xs || has_start d ys)
unfolding has_start
has_start-append d [] ys = refl
has_start-append d (x ∷ xs) ys = ground (arith, has_start-append d xs ys)

starts_of-snoc :
    (ss : List JumbfSegment) (s : JumbfSegment)
    → starts_of (ss ++ s ∷ []) ≡ starts_of ss ++ s.start ∷ []
unfolding starts_of
starts_of-snoc [] s = refl
starts_of-snoc (t ∷ ss) s = ap (λ z. t.start ∷ z) (starts_of-snoc ss s)

in_segments : ℕ → List JumbfSegment → Bool
unfolding has_start
in_segments d ss = has_start d (starts_of ss)

in_segments-snoc :
    (d : ℕ) (ss : List JumbfSegment) (s : JumbfSegment)
    → in_segments d (ss ++ s ∷ []) ≡ (in_segments d ss || s.start == d)
unfolding in_segments has_start
in_segments-snoc d ss s =
    let e = has_start-append d (starts_of ss) (s.start ∷ []) in
    let f = ap (has_start d) (starts_of-snoc ss s) in ground (arith, e, f)

-- No group has a segment with the start, one does that has no number, or one does that has the number.
abbrev Absent : ℕ → List JumbfGroup → Type 0
Absent d gs = All (λ (g : JumbfGroup). in_segments d g.segments ≡ false) gs

unfoldable Alone : ℕ → Bool → List JumbfGroup → Type 0
Alone d v [] = ⊥
Alone d v (g ∷ gs) =
    ((g.en ≡ none) × (is_dropped g ≡ v) × (in_segments d g.segments ≡ true) × Absent d gs)
    ⊎ ((in_segments d g.segments ≡ false) × Alone d v gs)

unfoldable Sole : ℕ → ℕ → List JumbfGroup → Type 0
Sole d n [] = ⊥
Sole d n (g ∷ gs) =
    ((g.en ≡ some n) × (in_segments d g.segments ≡ true) × Absent d gs)
    ⊎ ((is_it n g.en ≡ false) × (in_segments d g.segments ≡ false) × Sole d n gs)

Absent-join :
    (d : ℕ) (en : Option ℕ) (s : JumbfSegment) (gs : List JumbfGroup)
    → (s.start == d) ≡ false
    → Absent d gs
    → Absent d (join_group en s gs)
unfolding join_group in_segments has_start starts_of
Absent-join d en s [] l a = (ground (arith, l), tt)
Absent-join d en s (g ∷ gs) l (a, others) = elim (Bool-cases (same_en g.en en)) [
  | inl e ↦ rw e (let f = in_segments-snoc d g.segments s in ground (arith, f, l, a), others)
  | inr e ↦ rw e (a, Absent-join d en s gs l others)
]

Sole-join :
    (d n : ℕ) (en : Option ℕ) (s : JumbfSegment) (gs : List JumbfGroup)
    → (s.start == d) ≡ false
    → Sole d n gs
    → Sole d n (join_group en s gs)
unfolding join_group Sole
Sole-join d n en s [] l h = absurd h
Sole-join d n en s (g ∷ gs) l h = elim (Bool-cases (same_en g.en en)) [
  | inl e ↦
      let f = in_segments-snoc d g.segments s in
      rw e (elim h [
        | inl (i, m, a) ↦ inl (i, ground (arith, f, m), a)
        | inr (i, m, a) ↦ inr (i, ground (arith, f, l, m), a)
      ])
  | inr e ↦ rw e (elim h [
    | inl (i, m, a) ↦ inl (i, m, Absent-join d en s gs l a)
    | inr (i, m, a) ↦ inr (i, m, Sole-join d n en s gs l a)
  ])
]

same_en-none : (o en : Option ℕ) → o ≡ none → same_en o en ≡ false
unfolding same_en
same_en-none none en i = refl
same_en-none (some m) en i = absurd (cc)

Alone-join :
    (d : ℕ) (v : Bool) (en : Option ℕ) (s : JumbfSegment) (gs : List JumbfGroup)
    → (s.start == d) ≡ false
    → Alone d v gs
    → Alone d v (join_group en s gs)
unfolding join_group Alone same_en
Alone-join d v en s [] l h = absurd h
Alone-join d v en s (g ∷ gs) l (inl (i, k, m, a)) =
    rw (same_en-none g.en en i) (inl (i, k, m, Absent-join d en s gs l a))
Alone-join d v en s (g ∷ gs) l (inr (m, a)) = elim (Bool-cases (same_en g.en en)) [
  | inl e ↦ let f = in_segments-snoc d g.segments s in rw e (inr (ground (arith, f, l, m), a))
  | inr e ↦ rw e (inr (m, Alone-join d v en s gs l a))
]

-- The segment itself joins.
Sole-here :
    (d n : ℕ) (s : JumbfSegment) (gs : List JumbfGroup)
    → (s.start == d) ≡ true
    → Absent d gs
    → Sole d n (join_group (some n) s gs)
unfolding join_group Sole in_segments has_start starts_of same_en
Sole-here d n s [] l a = inl (refl, ground (arith, l), tt)
Sole-here d n s (g ∷ gs) l (a, others) = elim (Bool-cases (same_en g.en (some n))) [
  | inl e ↦
      let f = in_segments-snoc d g.segments s in
      rw e (inl (number_of g.en e, ground (arith, f, l), others))
  | inr e ↦ rw e (inr (sym (same_en-is_it n g.en) ∙ e, a, Sole-here d n s gs l others))
]
  where
    number_of : (o : Option ℕ) → same_en o (some n) ≡ true → o ≡ some n
    number_of none e = absurd (cc)
    number_of (some m) e = ap some (ground (arith, e))

Alone-here :
    (d : ℕ) (s : JumbfSegment) (gs : List JumbfGroup)
    → (s.start == d) ≡ true
    → Absent d gs
    → Alone d (is_dropped (record { en = none; segments = s ∷ [] })) (join_group none s gs)
unfolding join_group Alone in_segments has_start starts_of same_en
Alone-here d s [] l a = inl (refl, refl, ground (arith, l), tt)
Alone-here d s (g ∷ gs) l (a, others) = elim (Bool-cases (same_en g.en none)) [
  | inl e ↦ absurd (no_number g.en e)
  | inr e ↦ rw e (inr (a, Alone-here d s gs l others))
]
  where
    no_number : (o : Option ℕ) → same_en o none ≡ true → ⊥
    no_number none e = cc
    no_number (some m) e = cc

-- What that says of the dropped starts.
Absent-dropped :
    (d : ℕ) (gs : List JumbfGroup) → Absent d gs → has_start d (dropped_starts gs) ≡ false
unfolding dropped_starts has_start in_segments
Absent-dropped d [] a = refl
Absent-dropped d (g ∷ gs) (a, others) =
    let rest = Absent-dropped d gs others in
    let parts = has_start-append d (starts_of g.segments) (dropped_starts gs) in
    elim (Bool-cases (is_dropped g)) [
      | inl e ↦ rw e (ground (arith, parts, rest, a))
      | inr e ↦ rw e rest
    ]

-- Whether a group is dropped goes by its segments.
is_dropped_eq : (g h : JumbfGroup) → g.segments ≡ h.segments → is_dropped g ≡ is_dropped h
unfolding is_dropped group_type
is_dropped_eq g h e = rw e refl

Alone-dropped :
    (d : ℕ) (v : Bool) (gs : List JumbfGroup) → Alone d v gs → has_start d (dropped_starts gs) ≡ v
unfolding dropped_starts has_start in_segments Alone
Alone-dropped d v [] h = absurd h
Alone-dropped d v (g ∷ gs) h =
    let parts = has_start-append d (starts_of g.segments) (dropped_starts gs) in
    elim h [
      | inl (i, k, m, a) ↦
          let rest = Absent-dropped d gs a in
          elim (Bool-cases (is_dropped g)) [
            | inl e ↦ rw e (ground (arith, parts, m) ∙ (sym e ∙ k))
            | inr e ↦ rw e (rest ∙ (sym e ∙ k))
          ]
      | inr (m, a) ↦
          let rest = Alone-dropped d v gs a in
          elim (Bool-cases (is_dropped g)) [
            | inl e ↦ rw e (ground (arith, parts, m, rest))
            | inr e ↦ rw e rest
          ]
    ]

is_it_self : (n : ℕ) (o : Option ℕ) → o ≡ some n → is_it n o ≡ true
unfolding is_it
is_it_self n none i = absurd (cc)
is_it_self n (some m) i = let e : m ≡ n = some-injective _ _ i in ground (arith, e)

Sole-dropped :
    (d n : ℕ) (gs : List JumbfGroup)
    → Sole d n gs
    → has_start d (dropped_starts gs)
      ≡ is_dropped (record { en = some n; segments = in_group n gs })
unfolding dropped_starts has_start in_segments Sole in_group
Sole-dropped d n [] h = absurd h
Sole-dropped d n (g ∷ gs) h =
    let parts = has_start-append d (starts_of g.segments) (dropped_starts gs) in
    elim h [
      | inl (i, m, others) ↦
          let rest = Absent-dropped d gs others in
          let mine = same_en-is_it n g.en ∙ is_it_self n g.en i in
          let other = is_dropped_eq g (record { en = some n; segments = g.segments }) refl in
          rw mine (elim (Bool-cases (is_dropped g)) [
            | inl e ↦ rw e (ground (arith, parts, m) ∙ (sym e ∙ other))
            | inr e ↦ rw e (rest ∙ (sym e ∙ other))
          ])
      | inr (i, m, a) ↦
          let rest = Sole-dropped d n gs a in
          let not_mine = same_en-is_it n g.en ∙ i in
          rw not_mine (elim (Bool-cases (is_dropped g)) [
            | inl e ↦ rw e (ground (arith, parts, m) ∙ rest)
            | inr e ↦ rw e rest
          ])
    ]

-- No segment begins at the offset.
abbrev pub NoneStarts : ℕ → List JpegSegment → Type 0
NoneStarts d ss = All (λ (s : JpegSegment). (s.start == d) ≡ false) ss

module _ (d : ℕ) (P : List JumbfGroup → Type 0)
    (joins : (en : Option ℕ) (s : JumbfSegment) (gs : List JumbfGroup)
      → (s.start == d) ≡ false
      → P gs
      → P (join_group en s gs)) where
  -- What each join keeps, the walk over other segments keeps.
  kept :
      (bytes : Bytes) (ss : List JpegSegment) (gs : List JumbfGroup)
      → NoneStarts d ss
      → P gs
      → P (jumbf_groups bytes ss gs)
  unfolding jumbf_groups seg
  kept bytes [] gs a h = h
  kept bytes (s ∷ ss) gs (l, a) h = kept bytes ss (group_segment bytes s gs) a (
      rw (group_segment_lem bytes s gs) (elim (Bool-cases (is_jumbf bytes s)) [
        | inl e ↦ rw e (joins (box_number bytes s) (seg bytes s) gs l h)
        | inr e ↦ rw e h
      ]))

jumbf_groups-append :
    (bytes : Bytes) (xs ys : List JpegSegment) (gs : List JumbfGroup)
    → jumbf_groups bytes (xs ++ ys) gs ≡ jumbf_groups bytes ys (jumbf_groups bytes xs gs)
unfolding jumbf_groups
jumbf_groups-append bytes [] ys gs = refl
jumbf_groups-append bytes (x ∷ xs) ys gs =
    jumbf_groups-append bytes xs ys (group_segment bytes x gs)

self_start : (d : ℕ) → (d == d) ≡ true
self_start d = ground arith

is_dropped_c2pa :
    (g : JumbfGroup)
    → is_dropped g ≡ is_c2pa (do packet ← first_packet g.segments; packet_type packet)
unfolding is_dropped group_type is_c2pa
is_dropped_c2pa g = of_type (group_type g)
  where
    of_type :
        (o : Option Bytes) → elim o [ none ↦ true | some t ↦ eq_bytes t store_type ] ≡ is_c2pa o
    of_type none = refl
    of_type (some t) = refl

own_type :
    (bytes : Bytes) (s : JpegSegment)
    → (do packet ← first_packet (seg bytes s ∷ []); packet_type packet) ≡ shown_type bytes s
unfolding first_packet is_first shown_type seg is_it
own_type bytes s = elim (Option-cases (sequence bytes s)) [
  | inl e ↦ rw e refl
  | inr (z, e) ↦ elim (Bool-cases (z == 1)) [ inl f ↦ rw (e, f) refl | inr f ↦ rw (e, f) refl ]
]

-- Of segments with different starts, the starts that are dropped are those of the segments that `drops` names.
pub dropped_starts_lem :
    (bytes : Bytes) (before after : List JpegSegment) (s : JpegSegment)
    → NoneStarts s.start before
    → NoneStarts s.start after
    → any (λ d. d == s.start) (dropped_starts (jumbf_groups bytes (before ++ s ∷ after) []))
      ≡ drops bytes (before ++ s ∷ after) s
unfolding drops jumbf_groups has_start in_group
dropped_starts_lem bytes before after s p q =
    let d = s.start in
    let early = jumbf_groups bytes before [] in
    let absent : Absent d early =
      kept d (Absent d) (λ en t gs l a. Absent-join d en t gs l a) bytes before [] p tt in
    let final = jumbf_groups bytes (before ++ s ∷ after) [] in
    let walked : final ≡ jumbf_groups bytes after (group_segment bytes s early) =
      jumbf_groups-append bytes before (s ∷ after) [] in
    let here = group_segment_lem bytes s early in
    elim (Bool-cases (is_jumbf bytes s)) [
      | inr e ↦
          let stays : group_segment bytes s early ≡ early = here ∙ rw e refl in
          let none_here : Absent d final =
            rw (walked, stays)
              (kept d (Absent d) (λ en t gs l a. Absent-join d en t gs l a) bytes after early q
                absent) in
          rw e (Absent-dropped d final none_here)
      | inl e ↦ elim (Option-cases (box_number bytes s)) [
        | inl f ↦
            let joined : group_segment bytes s early ≡ join_group none (seg bytes s) early =
              here ∙ rw (e, f) refl in
            let alone = is_dropped (record { en = none; segments = seg bytes s ∷ [] }) in
            let is_alone : Alone d alone final =
              rw (walked, joined)
                (kept d (Alone d alone) (λ en t gs l a. Alone-join d alone en t gs l a) bytes after
                  (join_group none (seg bytes s) early) q
                  (Alone-here d (seg bytes s) early (unfold seg in self_start d) absent)) in
            rw (e, f)
              (Alone-dropped d alone final is_alone
                ∙ is_dropped_c2pa (record { en = none; segments = seg bytes s ∷ [] })
                ∙ ap is_c2pa (own_type bytes s))
        | inr (n, f) ↦
            let joined : group_segment bytes s early ≡ join_group (some n) (seg bytes s) early =
              here ∙ rw (e, f) refl in
            let is_sole : Sole d n final =
              rw (walked, joined)
                (kept d (Sole d n) (λ en t gs l a. Sole-join d n en t gs l a) bytes after
                  (join_group (some n) (seg bytes s) early) q
                  (Sole-here d n (seg bytes s) early (unfold seg in self_start d) absent)) in
            let all = in_group-jumbf_groups bytes n (before ++ s ∷ after) [] in
            let box : in_group n final ≡ in_box bytes n (before ++ s ∷ after) = all in
            rw (e, f)
              (Sole-dropped d n final is_sole
                ∙ is_dropped_c2pa (record { en = some n; segments = in_group n final })
                ∙ ap is_c2pa (
                    ap (λ xs. do packet ← first_packet xs; packet_type packet) box
                    ∙ first_packet-in_box bytes n (before ++ s ∷ after)))
      ]
    ]
