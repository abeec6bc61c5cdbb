-- ===== src/Jpeg.antt =====
-- tools/src/canonical.ts, and the JPEG part of tools/src/jumbf.ts: the marker segments of a JPEG, the
-- JUMBF boxes in them, and the canonical bytes. A malformed JPEG is an error thrown, and the fuel bounds
-- the walk.
pub mod Walk
pub mod Dropped
pub mod Grouped
pub mod Strip
mod Tests
use vcap_spec.Prelude.{
  ℕ, zero, suc, ◌+◌, ◌-◌, ◌%◌, Bool, true, false, not, ◌&&◌, ◌||◌, Option, none, some, List, [],
  ◌∷◌, ◌++◌, length, drop, ltb, leb, ◌==◌, any, ◌>>=◌, if◌then◌else◌,
}
use vcap_spec.Bytes.{Bytes, eq_bytes, ascii, subarray, read_uint}
use vcap_spec.Text.{Text}
use vcap_spec.Node.{Node}

pub data Container : Type 0 where
  jpeg bmff unknown : Container

-- `JpegSegment`.
pub record JpegSegment : Type 0 where
  pub marker : ℕ
  pub start : ℕ
  pub end : ℕ

-- A step of the walk: its end, bytes that are no segment, a segment, or an error thrown.
pub data MarkerStep : Type 0 where
  stop malformed : MarkerStep
  skip : ℕ → MarkerStep
  segment : (marker end : ℕ) → MarkerStep

pub data Walked : Type 0 where
  walk_malformed out_of_fuel : Walked
  walked : List JpegSegment → Walked

-- A segment, with the length that it declares.
sized : ℕ → ℕ → ℕ → Option ℕ → MarkerStep
sized n pos marker none = malformed
sized n pos marker (some size) =
    if ltb size 2 || ltb n (pos + 2 + size) then malformed else segment marker (pos + 2 + size)

-- The step at a marker.
marked : Bytes → ℕ → Option ℕ → MarkerStep
unfolding sized
marked bytes pos none = malformed
marked bytes pos (some marker) =
    if marker == 0xFF
    then skip 1
    else if marker == 0x01 || leb 0xD0 marker && leb marker 0xD7
    then skip 2
    else if marker == 0xDA
    then stop
    else sized (length bytes) pos marker (read_uint 2 bytes (pos + 2))

-- The first byte of a marker.
first_byte : Bytes → ℕ → Option ℕ → MarkerStep
unfolding marked
first_byte bytes pos none = malformed
first_byte bytes pos (some first) =
    if not (first == 0xFF) then malformed else marked bytes pos (read_uint 1 bytes (pos + 1))

step_at : Bytes → ℕ → MarkerStep
unfolding first_byte
step_at bytes pos =
    if ltb (length bytes) (pos + 4) then stop else first_byte bytes pos (read_uint 1 bytes pos)

push : JpegSegment → Walked → Walked
push s (walked ss) = walked (s ∷ ss)
push s other = other

-- What a step does, on the walk from a later position.
continue : MarkerStep → ℕ → (ℕ → Walked) → Walked
unfolding push
continue stop pos later = walked []
continue malformed pos later = walk_malformed
continue (skip n) pos later = later (pos + n)
continue (segment marker end) pos later =
    push (record { marker = marker; start = pos; end = end }) (later end)

walk : ℕ → Bytes → ℕ → Walked
unfolding step_at continue
walk zero bytes pos = out_of_fuel
walk (suc fuel) bytes pos = continue (step_at bytes pos) pos (walk fuel bytes)

-- Every step moves on by a byte at least.
pub jpeg_segments : Bytes → Walked
unfolding walk
jpeg_segments bytes = walk (length bytes + 1) bytes 2

pub record JumbfSegment : Type 0 where
  pub start : ℕ
  pub end : ℕ
  pub z : Option ℕ
  pub packet : Bytes

pub record JumbfGroup : Type 0 where
  pub en : Option ℕ
  pub segments : List JumbfSegment

-- `JP`, in ASCII.
abbrev jp : Bytes
jp = 74 ∷ 80 ∷ []

-- `jumb` and `jumd`, in ASCII.
abbrev jumb : Bytes
jumb = 106 ∷ 117 ∷ 109 ∷ 98 ∷ []

abbrev jumd : Bytes
jumd = 106 ∷ 117 ∷ 109 ∷ 100 ∷ []

pub same_en : Option ℕ → Option ℕ → Bool
same_en (some a) (some b) = a == b
same_en _ _ = false

-- A segment joins the group of its number, or is a group of its own.
pub join_group : Option ℕ → JumbfSegment → List JumbfGroup → List JumbfGroup
unfolding same_en
join_group en s [] = record { en = en; segments = s ∷ [] } ∷ []
join_group en s (g ∷ gs) =
    if same_en g.en en
    then record { en = g.en; segments = g.segments ++ s ∷ [] } ∷ gs
    else g ∷ join_group en s gs

pub group_segment : Bytes → JpegSegment → List JumbfGroup → List JumbfGroup
unfolding join_group
group_segment bytes s groups =
    let payload = subarray bytes (s.start + 4) s.end in
    if not (s.marker == 0xEB)
    then groups
    else if not (eq_bytes (subarray payload 0 2) jp)
    then groups
    else (let en = if leb 8 (length payload) then read_uint 2 payload 2 else none in
        let z = if leb 8 (length payload) then read_uint 4 payload 4 else none in
        join_group en (record { start = s.start; end = s.end; z = z; packet = drop 8 payload })
          groups)

pub jumbf_groups : Bytes → List JpegSegment → List JumbfGroup → List JumbfGroup
unfolding group_segment
jumbf_groups bytes [] groups = groups
jumbf_groups bytes (s ∷ ss) groups = jumbf_groups bytes ss (group_segment bytes s groups)

-- The size of the box header that each packet begins with.
packet_header : Bytes → ℕ
packet_header packet = elim (read_uint 4 packet 0) [ none ↦ 8 | some n ↦ if n == 1 then 16 else 8 ]

pub packet_type : Bytes → Option Bytes
unfolding packet_header
packet_type packet =
    let header = packet_header packet in
    if ltb (length packet) 8 || not (eq_bytes (subarray packet 4 8) jumb)
    then none
    else if ltb (length packet) (header + 24)
        || not (eq_bytes (subarray packet (header + 4) (header + 8)) jumd)
    then none
    else some (subarray packet (header + 8) (header + 24))

is_first : JumbfSegment → Bool
is_first s = elim s.z [ none ↦ false | some n ↦ n == 1 ]

pub first_packet : List JumbfSegment → Option Bytes
unfolding is_first
first_packet [] = none
first_packet (s ∷ ss) = if is_first s then some s.packet else first_packet ss

pub group_type : JumbfGroup → Option Bytes
unfolding first_packet
group_type g = do packet ← first_packet g.segments; packet_type packet

is_z : ℕ → Option ℕ → Bool
is_z n none = false
is_z n (some z) = z == n

-- The packets after the first, each without the header it repeats.
later_packets : ℕ → ℕ → List JumbfSegment → Option Bytes
unfolding is_z
later_packets header n [] = some []
later_packets header n (s ∷ ss) = do
  rest ← later_packets header (n + 1) ss
  if is_z n s.z && leb header (length s.packet) then some (drop header s.packet ++ rest) else none

-- `none` is `null`.
pub reassemble : List JumbfSegment → Option Bytes
unfolding later_packets
reassemble [] = none
reassemble (s ∷ ss) =
    if ltb (length s.packet) 8 || not (is_z 1 s.z)
    then none
    else (do rest ← later_packets (packet_header s.packet) 2 ss; some (s.packet ++ rest))

-- `TYPE.store`: `c2pa`, and the suffix of a JUMBF type.
abbrev store_type : Bytes
store_type =
    0x63 ∷ 0x32 ∷ 0x70 ∷ 0x61 ∷ 0x00 ∷ 0x11 ∷ 0x00 ∷ 0x10 ∷ 0x80 ∷ 0x00 ∷ 0x00 ∷ 0xAA ∷ 0x00 ∷ 0x38
    ∷ 0x9B ∷ 0x71 ∷ []

-- A group of the store, or one whose type cannot be read.
pub is_dropped : JumbfGroup → Bool
unfolding group_type
is_dropped g = elim (group_type g) [ none ↦ true | some t ↦ eq_bytes t store_type ]

starts_of : List JumbfSegment → List ℕ
starts_of [] = []
starts_of (s ∷ ss) = s.start ∷ starts_of ss

pub dropped_starts : List JumbfGroup → List ℕ
unfolding starts_of
dropped_starts [] = []
dropped_starts (g ∷ gs) =
    let rest = dropped_starts gs in if is_dropped g then starts_of g.segments ++ rest else rest

-- The bytes from `at` on, without the segments that start at one of the offsets.
pub keep_from : Bytes → ℕ → List ℕ → List JpegSegment → Bytes
keep_from bytes at dropped [] = drop at bytes
keep_from bytes at dropped (s ∷ ss) =
    let kept = keep_from bytes at dropped ss in
    let cut = subarray bytes at s.start ++ keep_from bytes s.end dropped ss in
    if any (λ d. d == s.start) dropped then cut else kept

stripped : Bytes → Walked → Option Bytes
unfolding jumbf_groups dropped_starts keep_from
stripped bytes walk_malformed = none
stripped bytes out_of_fuel = none
stripped bytes (walked segments) =
    some (keep_from bytes 0 (dropped_starts (jumbf_groups bytes segments [])) segments)

-- `none` is an error thrown.
pub strip_c2pa_from_jpeg : Bytes → Option Bytes
unfolding jpeg_segments stripped
strip_c2pa_from_jpeg bytes = stripped bytes (jpeg_segments bytes)

-- `ftyp`, in ASCII.
abbrev ftyp : Bytes
ftyp = 102 ∷ 116 ∷ 121 ∷ 112 ∷ []

pub detect_container : Bytes → Container
detect_container bytes =
    if eq_bytes (subarray bytes 0 2) (0xFF ∷ 0xD8 ∷ [])
    then jpeg
    else if eq_bytes (ascii (subarray bytes 4 8)) ftyp
    then bmff
    else unknown

unfoldable pub canonical_bytes : Bytes → Option Bytes
unfolding strip_c2pa_from_jpeg detect_container
canonical_bytes media = elim (detect_container media) [
  | jpeg ↦ strip_c2pa_from_jpeg media
  | bmff ↦ some media
  | unknown ↦ some media
]

module _ (node : Node) where
  open node use {sha256, to_base64url}

  unfoldable pub media_hash : Bytes → Option Text
  media_hash media = do bytes ← canonical_bytes media; some (to_base64url (sha256 bytes))
