-- ===== src/Bmff/Tracks.antt =====
-- tools/src/container.ts: the tracks of a file, in `editsOf`, `codecOf` and `tracksOf`. Every error that
-- they throw is `none`: the reader takes each for a malformed container.
use vcap_spec.Prelude.{
  ◌>>=◌, ℕ, zero, suc, ◌+◌, ◌-◌, ◌*◌, ◌%◌, Bool, true, false, not, Option, none, some, List, [],
  ◌∷◌, length, ◌==◌, ◌||◌, if◌then◌else◌, ℤ, pos, ltb_ℤ, eqb_ℤ, ◌+ℤ◌,
}
use vcap_spec.Bytes.{Bytes, eq_bytes, read_uint}
use vcap_spec.Text.{Text, text}
use vcap_spec.Bmff.{Box, boxes, find, children, child, of_kind, is_one, read_signed}
use vcap_spec.Bmff.Samples.{Sample, samples_of}

pub data Kind : Type 0 where
  video audio other : Kind

-- What `editsOf` gives: the delay as a fraction, where the media starts, the media time and the duration
-- of the one media edit, and why the list is not supported.
pub record Edits : Type 0 where
  pub delay_num : ℤ
  pub delay_den : ℤ
  pub media_start : ℤ
  pub media_edit : Option (ℤ × ℤ)
  pub unsupported : Option Text

pub record Codec : Type 0 where
  pub kind : Kind
  pub length_size : ℕ
  pub hevc : Bool

pub record Track : Type 0 where
  pub codec : Codec
  pub timescale : ℤ
  pub movie_timescale : ℤ
  pub edits : Edits
  pub samples : List Sample

no_edits : Edits
no_edits = record {
  delay_num = pos 0;
  delay_den = pos 1;
  media_start = pos 0;
  media_edit = none;
  unsupported = none;
}

-- Why a media edit, the last one or not, is not supported.
unfoldable pub unsupported_edit : (rate : ℤ) (last : Bool) → Option Text
unsupported_edit rate last =
    if not (eqb_ℤ rate (pos 1))
    then some (text "edit list changes rate")
    else if not last
    then some (text "edit list has more than one edit after the leading delay")
    else none

-- A number of an entry: of 8 bytes at version 1, and of 4 else.
width_of : Bool → ℕ
width_of wide = if wide then 8 else 4

-- The entries from the `i`-th on: empty edits add to the delay, and the first media edit decides.
unfoldable pub edit_loop :
    Bytes → (wide : Bool) → (base : ℕ) → (movie : ℤ) → (left i : ℕ) → (delay : ℤ) → Option Edits
unfolding width_of
edit_loop file wide base movie zero i delay = some (record {
  delay_num = delay;
  delay_den = movie;
  media_start = pos 0;
  media_edit = none;
  unsupported = none;
})
edit_loop file wide base movie (suc left) i delay = do
  let size = (if wide then 20 else 12)
  let at = base + i * size
  duration ← read_uint (width_of wide) file at
  media_time ← read_signed (width_of wide) file (at + width_of wide)
  let rest = edit_loop file wide base movie left (suc i) (delay +ℤ pos duration)
  if ltb_ℤ media_time (pos 0) then rest else do
    rate ← read_signed 2 file (at + size - 4)
    some (record {
      delay_num = delay;
      delay_den = movie;
      media_start = media_time;
      media_edit = some (media_time, pos duration);
      unsupported = unsupported_edit rate (left == 0);
    })

edit_list : Bytes → ℤ → Box → Option Edits
edit_list file movie elst = do
  count ← read_uint 4 file (elst.payload + 4)
  edit_loop file (is_one (read_uint 1 file elst.payload)) (elst.payload + 8) movie count 0 (pos 0)

unfoldable pub edits_of : Bytes → Box → ℤ → Option Edits
unfolding edit_list no_edits
edits_of file trak movie = do
  edts ← child file trak (text "edts")
  elim edts [
    | none ↦ some no_edits
    | some edts ↦ do
      elst ← child file edts (text "elst")
      elim elst [ none ↦ some no_edits | some elst ↦ edit_list file movie elst ]
  ]

-- The width of a length prefix, from the byte of the configuration that has it; `some none` is to go on
-- with the next entry.
configured : Bytes → Box → (kind : Text) (offset : ℕ) (hevc : Bool) → Option (Option Codec)
configured file entry kind offset hevc = do
  inside ← boxes file (entry.payload + 78) entry.end
  elim (find inside kind) [
    | none ↦ some none
    | some config ↦ elim (read_uint 1 file (config.payload + offset)) [
      | none ↦ some none
      | some width ↦ some (some (record { kind = video; length_size = width % 4 + 1; hevc = hevc }))
    ]
  ]

unfoldable pub is_avc : Text → Bool
is_avc kind = eq_bytes kind (text "avc1") || eq_bytes kind (text "avc3")

unfoldable pub is_hevc : Text → Bool
is_hevc kind = eq_bytes kind (text "hvc1") || eq_bytes kind (text "hev1")

is_audio : Text → Bool
is_audio kind =
    eq_bytes kind (text "mp4a") || (eq_bytes kind (text "ac-3") || eq_bytes kind (text "Opus"))

-- One sample entry.
entry_codec : Bytes → Box → Option (Option Codec)
unfolding configured is_audio
entry_codec file entry =
    if is_avc entry.kind
    then configured file entry (text "avcC") 4 false
    else if is_hevc entry.kind
    then configured file entry (text "hvcC") 21 true
    else if is_audio entry.kind
    then some (some (record { kind = audio; length_size = 0; hevc = false }))
    else some none

-- The first entry that has a codec.
entries_codec : Bytes → List Box → Option Codec
unfolding entry_codec
entries_codec file [] = some (record { kind = other; length_size = 0; hevc = false })
entries_codec file (entry ∷ entries) =
    let rest = entries_codec file entries in
    do codec ← entry_codec file entry; elim codec [ none ↦ rest | some codec ↦ some codec ]

unfoldable pub codec_of : Bytes → Box → Option Codec
unfolding entries_codec
codec_of file stsd = do entries ← boxes file (stsd.payload + 8) stsd.end; entries_codec file entries

-- `if (!box) continue`.
unfoldable pub or_skip {ℓ} :
    {A : Type ℓ} → Option Box → (Box → Option (Option A)) → Option (Option A)
or_skip none k = some none
or_skip (some box) k = k box

-- The timescale of a header, after times of 8 bytes at version 1 and of 4 else.
unfoldable pub timescale_of : Bytes → Box → Option ℤ
timescale_of file box = do
  n ← read_uint 4 file (box.payload + (if is_one (read_uint 1 file box.payload) then 20 else 12))
  some (pos n)

-- A track, or none for one that lacks a box.
unfoldable pub track_of : Bytes → ℤ → Box → Option (Option Track)
track_of file movie trak = do
  mdia ← child file trak (text "mdia")
  or_skip mdia (λ mdia. do
    mdhd ← child file mdia (text "mdhd")
    minf ← child file mdia (text "minf")
    or_skip mdhd (λ mdhd. or_skip minf (λ minf. do
      timescale ← timescale_of file mdhd
      stbl ← child file minf (text "stbl")
      or_skip stbl (λ stbl. do
        stsd ← child file stbl (text "stsd")
        or_skip stsd (λ stsd. do
          codec ← codec_of file stsd
          samples ← samples_of file stbl
          edits ← edits_of file trak movie
          some (
              some (record {
                codec = codec;
                timescale = timescale;
                movie_timescale = movie;
                edits = edits;
                samples = samples;
              })))))))

some_of {ℓ} : {A : Type ℓ} → Option A → List A → List A
some_of none xs = xs
some_of (some x) xs = x ∷ xs

unfoldable pub tracks_in : Bytes → ℤ → List Box → Option (List Track)
unfolding some_of
tracks_in file movie [] = some []
tracks_in file movie (trak ∷ traks) = do
  track ← track_of file movie trak
  rest ← tracks_in file movie traks
  some (some_of track rest)

unfoldable pub tracks_of : Bytes → Option (List Track)
tracks_of file = do
  top ← boxes file 0 (length file)
  moov ← find top (text "moov")
  kids ← children file moov
  mvhd ← find kids (text "mvhd")
  movie ← timescale_of file mvhd
  tracks_in file movie (of_kind (text "trak") kids)
