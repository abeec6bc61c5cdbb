-- ===== src/Bmff/Presented.antt =====
-- tools/src/container.ts: the presentation of a file and the layout of its tracks, in `esdsOf` and
-- `presentationOf`. `none` is an error thrown.
use vcap_spec.Prelude.{
  ◌>>=◌, ℕ, ◌+◌, ◌*◌, ◌%◌, Bool, true, false, not, Option, none, some, List, [], ◌∷◌, ◌++◌, length,
  any, ltb, leb, ◌==◌, ◌&&◌, ◌||◌, or_else, if◌then◌else◌, pos,
}
use vcap_spec.Bytes.{Bytes, eq_bytes, subarray, read_uint}
use vcap_spec.Text.{Text, text}
use vcap_spec.Json.{stringify_int}
use vcap_spec.Node.{Node}
use vcap_spec.Verify.Container.{Presentation}
use vcap_spec.Bmff.{Box, boxes, find, children, child, of_kind, is_one, read_signed}
use vcap_spec.Bmff.Samples.{table}
use vcap_spec.Bmff.Tracks.{is_avc, is_hevc}
use vcap_spec.Bmff.Parameters.{presentation_message}

-- Where the boxes of a sound description begin, by its version.
sound_skip : ℕ → ℕ
sound_skip version = if version == 1 then 16 else if version == 2 then 36 else 0

wave_children : Bytes → Option Box → Option (List Box)
wave_children file none = some []
wave_children file (some wave) = children file wave

unfoldable pub esds_of : Bytes → Box → Option (List Box)
unfolding sound_skip wave_children
esds_of file entry =
    if not (eq_bytes entry.kind (text "mp4a")) || ltb entry.end (entry.payload + 28)
    then some []
    else do
      version ← read_uint 2 file (entry.payload + 8)
      let start = entry.payload + 28 + sound_skip version
      if ltb entry.end start then some [] else do
        kids ← boxes file start entry.end
        inner ← wave_children file (find kids (text "wave"))
        some (of_kind (text "esds") (kids ++ inner))

-- `box ? find(children(file, box), type) : undefined`.
child_of : Bytes → Option Box → Text → Option (Option Box)
child_of file none kind = some none
child_of file (some box) kind = child file box kind

-- The handler's type, or none that can be read.
handler_of : Bytes → Option Box → Text
handler_of file none = []
handler_of file (some hdlr) =
    if leb (hdlr.payload + 12) hdlr.end
    then subarray file (hdlr.payload + 8) (hdlr.payload + 12)
    else []

description_of : Bytes → Option Box → Option (Option Box)
unfolding child_of
description_of file mdia = do
  minf ← child_of file mdia (text "minf")
  stbl ← child_of file minf (text "stbl")
  child_of file stbl (text "stsd")

first_entry : Bytes → Option Box → Option (Option Box)
first_entry file none = some none
first_entry file (some stsd) = if ltb stsd.end (stsd.payload + 8) then some none else do
  entries ← boxes file (stsd.payload + 8) stsd.end
  elim entries [ [] ↦ some none | entry ∷ rest ↦ some (some entry) ]

entry_esds : Bytes → Option Box → Option (List Box)
entry_esds file none = some []
entry_esds file (some entry) = esds_of file entry

-- The `esds` boxes of the first sound track.
audio_esds_of : Bytes → List Box → Option (List Box)
unfolding child_of handler_of description_of first_entry entry_esds
audio_esds_of file [] = some []
audio_esds_of file (trak ∷ traks) =
    let rest = audio_esds_of file traks in
    do
      mdia ← child file trak (text "mdia")
      hdlr ← child_of file mdia (text "hdlr")
      if not (eq_bytes (handler_of file hdlr) (text "soun")) then rest else do
        stsd ← description_of file mdia
        entry ← first_entry file stsd
        entry_esds file entry

pub record Handler : Type 0 where
  pub handler : Text
  pub enabled : Bool
  pub entries : ℕ

-- Where the matrix of a header begins, if the header can be read.
matrix_at : Bytes → Option Box → Option ℕ
matrix_at file none = none
matrix_at file (some tkhd) =
    let at = tkhd.payload + (if is_one (read_uint 1 file tkhd.payload) then 52 else 40) in
    if leb (at + 44) tkhd.end then some at else none

is_enabled : Bytes → Option Box → Option ℕ → Bool
is_enabled file (some tkhd) (some at) = or_else (read_uint 1 file (tkhd.payload + 3)) 0 % 2 == 1
is_enabled file _ _ = true

entry_count : Bytes → Option Box → Option ℕ
entry_count file none = some 0
entry_count file (some stsd) =
    if leb (stsd.payload + 8) stsd.end then read_uint 4 file (stsd.payload + 4) else some 0

pub record Described : Type 0 where
  pub handler : Handler
  pub stsd : Option Box
  pub matrix : Option ℕ

described : Bytes → Box → Option Described
unfolding child_of handler_of description_of matrix_at is_enabled entry_count
described file trak = do
  tkhd ← child file trak (text "tkhd")
  mdia ← child file trak (text "mdia")
  hdlr ← child_of file mdia (text "hdlr")
  stsd ← description_of file mdia
  entries ← entry_count file stsd
  let at = matrix_at file tkhd
  some (record {
    handler = record {
      handler = handler_of file hdlr;
      enabled = is_enabled file tkhd at;
      entries = entries;
    };
    stsd = stsd;
    matrix = at;
  })

-- The first sample entry of a H.264 or H.265 codec.
video_entry : List Box → Option Box
video_entry [] = none
video_entry (entry ∷ entries) =
    if is_hevc entry.kind || is_avc entry.kind then some entry else video_entry entries

video_entry_of : Bytes → Option Box → Option (Option Box)
unfolding video_entry
video_entry_of file none = some none
video_entry_of file (some stsd) = do
  entries ← boxes file (stsd.payload + 8) stsd.end
  some (video_entry entries)

module _ (node : Node) where
  open node use {sha256}

  -- The presentation of a message, where there is one.
  shown : Bytes → ℕ → Option Bytes → Option (Option Presentation)
  shown file at none = some none
  shown file at (some message) = do
    matrix ← table (λ i. read_signed 4 file (at + 4 * i)) 9 0
    width ← read_uint 4 file (at + 36)
    height ← read_uint 4 file (at + 40)
    some (
        some (record {
          config = sha256 message;
          matrix = matrix;
          display = pos width ∷ pos height ∷ [];
        }))

  entry_presentation :
      Bytes → Box → Option ℕ → (audio_esds : List Box) → Option (Option Presentation)
  unfolding shown
  entry_presentation file entry at audio_esds = do
    let hevc = is_hevc entry.kind
    inside ← boxes file (entry.payload + 78) entry.end
    elim (find inside (if hevc then text "hvcC" else text "avcC")) [
      | none ↦ some none
      | some config ↦ elim at [
        | none ↦ some none
        | some at ↦ shown file at (presentation_message file entry config hevc audio_esds)
      ]
    ]

  -- The tracks in turn: what each has, and the presentation of the first video entry.
  tracks_shown :
      Bytes
      → (audio_esds : List Box) → List Box
      → (seen : Bool) → Option (Option Presentation × List Handler)
  unfolding described video_entry_of entry_presentation
  tracks_shown file audio_esds [] seen = some (none, [])
  tracks_shown file audio_esds (trak ∷ traks) seen =
      let later = tracks_shown file audio_esds traks in
      do
        d ← described file trak
        entry ← (if seen then some none else video_entry_of file d.stsd)
        elim entry [
          | none ↦ do
            (presentation, handlers) ← later seen
            some (presentation, d.handler ∷ handlers)
          | some entry ↦ do
            presentation ← entry_presentation file entry d.matrix audio_esds
            (none_later, handlers) ← later true
            some (presentation, d.handler ∷ handlers)
        ]

of_handler : Text → List Handler → List Handler
of_handler kind [] = []
of_handler kind (h ∷ hs) =
    let rest = of_handler kind hs in if eq_bytes h.handler kind then h ∷ rest else rest

-- Why the tracks are not those that a segment hash covers.
unfoldable pub layout_of : List Handler → Option Text
unfolding of_handler
layout_of handlers =
    let videos = of_handler (text "vide") handlers in
    let audios = of_handler (text "soun") handlers in
    if not (length videos == 1)
    then some (stringify_int (pos (length videos)) ++ text " video tracks")
    else if ltb 1 (length audios)
    then some (stringify_int (pos (length audios)) ++ text " audio tracks")
    else if any (λ h. not (h.entries == 1)) (videos ++ audios)
    then some (text "a video or audio track with more than one sample description")
    else if any
        (λ h.
          not (eq_bytes h.handler (text "vide"))
          && (not (eq_bytes h.handler (text "soun")) && h.enabled))
        handlers
    then some (text "an enabled track that no segment hash covers")
    else none

module _ (node : Node) where
  unfoldable pub presentation_of : Bytes → Option (Option Presentation × Option Text)
  unfolding audio_esds_of tracks_shown
  presentation_of file = do
    top ← boxes file 0 (length file)
    moov ← find top (text "moov")
    kids ← children file moov
    let traks = of_kind (text "trak") kids
    audio_esds ← audio_esds_of file traks
    (presentation, handlers) ← tracks_shown node file audio_esds traks false
    some (presentation, layout_of handlers)
