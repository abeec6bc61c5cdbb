-- ===== src/Jpeg/Dropped.antt =====
-- The segments that `stripC2paFromJpeg` of tools/src/canonical.ts drops, with no regard to how they are grouped.
use vcap_spec.Prelude.{
  ℕ, ◌+◌, ◌≡◌, refl, sym, ap, ◌∙◌, Bool, true, false, ◌&&◌, Option, none, some, List, [], ◌∷◌, ◌++◌,
  length, drop, leb, ◌==◌, ◌>>=◌, arith, if◌then◌else◌, Bool-cases, Option-cases, inl, inr,
  append_assoc, append-nil,
}
use vcap_spec.Bytes.{Bytes, eq_bytes, subarray, read_uint}
use vcap_spec.Jpeg.{
  JpegSegment, JumbfSegment, JumbfGroup, same_en, join_group, group_segment, jumbf_groups,
  packet_type, is_first, first_packet,
}

-- An APP11 segment whose payload begins with `JP`.
unfoldable pub is_jumbf : Bytes → JpegSegment → Bool
is_jumbf bytes s =
    s.marker == 0xEB && eq_bytes (subarray (subarray bytes (s.start + 4) s.end) 0 2) (74 ∷ 80 ∷ [])

-- The number of the box that it is a packet of, and the place of the packet in it, from 1.
unfoldable pub box_number : Bytes → JpegSegment → Option ℕ
box_number bytes s =
    let p = subarray bytes (s.start + 4) s.end in if leb 8 (length p) then read_uint 2 p 2 else none

unfoldable pub sequence : Bytes → JpegSegment → Option ℕ
sequence bytes s =
    let p = subarray bytes (s.start + 4) s.end in if leb 8 (length p) then read_uint 4 p 4 else none

unfoldable pub is_it : ℕ → Option ℕ → Bool
is_it n none = false
is_it n (some m) = m == n

-- The type that a packet shows, if it is the first of its box.
unfoldable pub shown_type : Bytes → JpegSegment → Option Bytes
shown_type bytes s =
    if is_it 1 (sequence bytes s)
    then packet_type (drop 8 (subarray bytes (s.start + 4) s.end))
    else none

-- The type of the box of a number: the one that the first of its segments with a first packet shows.
unfoldable pub box_type : Bytes → ℕ → List JpegSegment → Option Bytes
box_type bytes n [] = none
box_type bytes n (s ∷ ss) =
    let rest = box_type bytes n ss in
    if is_jumbf bytes s && (is_it n (box_number bytes s) && is_it 1 (sequence bytes s))
    then shown_type bytes s
    else rest

-- A C2PA store, or a type that cannot be read.
unfoldable pub is_c2pa : Option Bytes → Bool
is_c2pa none = true
is_c2pa (some t) = eq_bytes t (
    0x63 ∷ 0x32 ∷ 0x70 ∷ 0x61 ∷ 0x00 ∷ 0x11 ∷ 0x00 ∷ 0x10 ∷ 0x80 ∷ 0x00 ∷ 0x00 ∷ 0xAA ∷ 0x00 ∷ 0x38
    ∷ 0x9B ∷ 0x71 ∷ [])

-- A segment of a JUMBF box of that kind, among all the segments. One without a number is a box of its own.
unfoldable pub drops : Bytes → List JpegSegment → JpegSegment → Bool
drops bytes all s =
    is_jumbf bytes s
    && is_c2pa
        (elim (box_number bytes s) [ none ↦ shown_type bytes s | some n ↦ box_type bytes n all ])

unfoldable pub seg : Bytes → JpegSegment → JumbfSegment
seg bytes s = record {
  start = s.start;
  end = s.end;
  z = sequence bytes s;
  packet = drop 8 (subarray bytes (s.start + 4) s.end);
}

pub group_segment_lem :
    (bytes : Bytes) (s : JpegSegment) (gs : List JumbfGroup)
    → group_segment bytes s gs
      ≡ (if is_jumbf bytes s then join_group (box_number bytes s) (seg bytes s) gs else gs)
unfolding group_segment is_jumbf box_number sequence seg
group_segment_lem bytes s gs = elim (Bool-cases (s.marker == 0xEB)) [
  | inr e ↦ rw e refl
  | inl e ↦
      elim (Bool-cases
        (eq_bytes (subarray (subarray bytes (s.start + 4) s.end) 0 2) (74 ∷ 80 ∷ []))) [
          | inr f ↦ rw (e, f) refl
          | inl f ↦ rw (e, f) refl
        ]
]

-- The segments of the group of a number.
unfoldable pub in_group : ℕ → List JumbfGroup → List JumbfSegment
in_group n [] = []
in_group n (g ∷ gs) = if same_en g.en (some n) then g.segments else in_group n gs

unfoldable pub in_box : Bytes → ℕ → List JpegSegment → List JumbfSegment
in_box bytes n [] = []
in_box bytes n (s ∷ ss) =
    if is_jumbf bytes s && is_it n (box_number bytes s)
    then seg bytes s ∷ in_box bytes n ss
    else in_box bytes n ss

pub same_en-is_it : (n : ℕ) (o : Option ℕ) → same_en o (some n) ≡ is_it n o
unfolding same_en is_it
same_en-is_it n none = refl
same_en-is_it n (some m) = refl

same_en_left : (a b : Option ℕ) (n : ℕ) → same_en a b ≡ true → is_it n a ≡ is_it n b
unfolding same_en is_it
same_en_left none b n h = absurd (cc)
same_en_left (some a) none n h = absurd (cc)
same_en_left (some a) (some b) n h = let e : a ≡ b = ground (arith, h) in rw e refl

not_both : (a b : Option ℕ) (n : ℕ) → is_it n a ≡ true → same_en a b ≡ false → is_it n b ≡ false
unfolding same_en is_it
not_both none b n h e = absurd (cc)
not_both (some a) none n h e = refl
not_both (some a) (some b) n h e = ground (arith, h, e)

in_group-join_group :
    (n : ℕ) (en : Option ℕ) (s : JumbfSegment) (gs : List JumbfGroup)
    → in_group n (join_group en s gs) ≡ in_group n gs ++ (if is_it n en then s ∷ [] else [])
unfolding in_group join_group
in_group-join_group n en s [] = elim (Bool-cases (is_it n en)) [
  | inl e ↦ rw (same_en-is_it n en, e) refl
  | inr e ↦ rw (same_en-is_it n en, e) refl
]
in_group-join_group n en s (g ∷ gs) = elim (Bool-cases (same_en g.en en)) [
  | inl e ↦
      let same = same_en_left g.en en n e in
      elim (Bool-cases (is_it n en)) [
        | inl f ↦ rw (e, same_en-is_it n g.en, same, f) refl
        | inr f ↦ rw (e, same_en-is_it n g.en, same, f) (sym (append-nil (in_group n gs)))
      ]
  | inr e ↦ elim (Bool-cases (is_it n g.en)) [
    | inr f ↦ rw (e, same_en-is_it n g.en, f) (in_group-join_group n en s gs)
    | inl f ↦
        let other = not_both g.en en n f e in
        rw (e, same_en-is_it n g.en, f, other) (sym (append-nil g.segments))
  ]
]

pub first_packet-in_box :
    (bytes : Bytes) (n : ℕ) (ss : List JpegSegment)
    → (do packet ← first_packet (in_box bytes n ss); packet_type packet) ≡ box_type bytes n ss
unfolding in_box first_packet is_first box_type shown_type is_it seg
first_packet-in_box bytes n [] = refl
first_packet-in_box bytes n (s ∷ ss) =
    let rest = first_packet-in_box bytes n ss in
    elim (Bool-cases (is_jumbf bytes s)) [
      | inr e ↦ rw e rest
      | inl e ↦ elim (Bool-cases (is_it n (box_number bytes s))) [
        | inr f ↦ ground (arith, e, f, rest)
        | inl f ↦ elim (Option-cases (sequence bytes s)) [
          | inl z ↦ ground (arith, e, f, z, rest)
          | inr (k, z) ↦ ground (arith, e, f, z, rest)
        ]
      ]
    ]

-- The groups of a walk hold, under each number, its segments in order.
pub in_group-jumbf_groups :
    (bytes : Bytes) (n : ℕ) (ss : List JpegSegment) (gs : List JumbfGroup)
    → in_group n (jumbf_groups bytes ss gs) ≡ in_group n gs ++ in_box bytes n ss
unfolding jumbf_groups in_box
in_group-jumbf_groups bytes n [] gs = sym (append-nil (in_group n gs))
in_group-jumbf_groups bytes n (s ∷ ss) gs =
    let rest = in_group-jumbf_groups bytes n ss (group_segment bytes s gs) in
    elim (Bool-cases (is_jumbf bytes s)) [
      | inr e ↦
          let r2 = rw (group_segment_lem bytes s gs, e) at rest in
          rw (group_segment_lem bytes s gs, e) r2
      | inl e ↦
          let joined = in_group-join_group n (box_number bytes s) (seg bytes s) gs in
          rest
          ∙ ap (λ z. z ++ in_box bytes n ss)
              (ap (in_group n) (group_segment_lem bytes s gs ∙ rw e refl) ∙ joined)
          ∙ (elim (Bool-cases (is_it n (box_number bytes s))) [
            | inl f ↦
                rw (e, f) (append_assoc (in_group n gs) (seg bytes s ∷ []) (in_box bytes n ss))
            | inr f ↦ rw (e, f) (ap (λ z. z ++ in_box bytes n ss) (append-nil (in_group n gs)))
          ])
    ]
