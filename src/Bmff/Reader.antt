-- ===== src/Bmff/Reader.antt =====
-- tools/src/container.ts: `readContainer` and `containerSegments`.
pub mod Answered
use vcap_spec.Prelude.{
  ◌>>=◌, ◌-◌, Bool, true, false, not, ◌&&◌, Option, none, some, List, [], ◌∷◌, length, leb,
  if◌then◌else◌, ℤ,
}
use vcap_spec.Bytes.{Bytes, eq_bytes, subarray}
use vcap_spec.Text.{Text, text}
use vcap_spec.Node.{Node}
use vcap_spec.Timing.{MediaEdit}
use vcap_spec.Verify.Container.{
  Segment, Presentation, GopsReading, unreadable, gops_read, ReaderResult, answered,
  malformed_container, failed,
}
use vcap_spec.Bmff.{boxes, find}
use vcap_spec.Bmff.Gops.{starts_from, segments_of}
use vcap_spec.Bmff.Units.{units_of}
use vcap_spec.Bmff.Tracks.{Kind, video, audio, other, Track, tracks_of}
use vcap_spec.Bmff.Presented.{presentation_of}

unfoldable pub is_bmff : Bytes → Bool
is_bmff file = leb 8 (length file) && eq_bytes (subarray file 4 8) (text "ftyp")

is_kind : Kind → Kind → Bool
is_kind video video = true
is_kind audio audio = true
is_kind other other = true
is_kind _ _ = false

-- The first track of a kind.
unfoldable pub track_for : Kind → List Track → Option Track
unfolding is_kind
track_for kind [] = none
track_for kind (t ∷ ts) = if is_kind t.codec.kind kind then some t else track_for kind ts

unsupported_of : Option Track → Option Text
unsupported_of none = none
unsupported_of (some t) = t.edits.unsupported

-- `video.unsupportedEdit ?? audio?.unsupportedEdit`.
unfoldable pub refused_edit : Track → Option Track → Option Text
unfolding unsupported_of
refused_edit video_track audio_track = elim video_track.edits.unsupported [
  | some why ↦ some why
  | none ↦ unsupported_of audio_track
]

timescale_of : Option Track → Option ℤ
timescale_of none = none
timescale_of (some t) = some t.timescale

media_edit_of : Option Track → Option MediaEdit
media_edit_of none = none
media_edit_of (some t) = do
  (media_time, duration) ← t.edits.media_edit
  some (record {
    media_time = media_time;
    duration = duration;
    movie_timescale = t.movie_timescale;
    media_timescale = t.timescale;
  })

module _ (node : Node) where
  gops_reading :
      Track → Option Track → Option Presentation × Option Text → List Segment → GopsReading
  unfolding timescale_of media_edit_of
  gops_reading video_track audio_track (presentation, layout) gops = record {
    gops = gops;
    presentation = presentation;
    layout = layout;
    timescales = record { video = video_track.timescale; audio = timescale_of audio_track };
    video_edit = media_edit_of (some video_track);
    audio_edit = media_edit_of audio_track;
  }

  unfoldable pub gops_of : Bytes → Track → Option Track → Option (List Segment)
  gops_of file video_track audio_track = do
    units ← units_of file video_track video_track.samples
    segments_of node file video_track audio_track units (starts_from 0 units)

  bound_reading :
      Bytes → Track → Option Track → Option (Option Presentation × Option Text) → ReaderResult
  unfolding gops_reading
  bound_reading file video_track audio_track none = failed
  bound_reading file video_track audio_track (some bound) =
      elim (gops_of file video_track audio_track) [
        | none ↦ malformed_container
        | some gops ↦ answered (gops_read (gops_reading video_track audio_track bound gops))
      ]

  tracks_reading : Bytes → List Track → ReaderResult
  unfolding bound_reading
  tracks_reading file tracks = elim (track_for video tracks) [
    | none ↦ answered (unreadable (text "no H.264 or H.265 video track"))
    | some video_track ↦ elim (refused_edit video_track (track_for audio tracks)) [
      | some why ↦ answered (unreadable why)
      | none ↦ bound_reading file video_track (track_for audio tracks) (presentation_of node file)
    ]
  ]

  unfoldable pub read_container : Bytes → ReaderResult
  unfolding tracks_reading
  read_container file =
      if not (is_bmff file)
      then answered (unreadable (text "not an ISO-BMFF file"))
      else elim (boxes file 0 (length file)) [
        | none ↦ failed
        | some top ↦ elim (find top (text "moov")) [
          | none ↦ answered (unreadable (text "no moov: not a progressive ISO-BMFF file"))
          | some moov ↦ elim (tracks_of file) [
            | none ↦ malformed_container
            | some tracks ↦ tracks_reading file tracks
          ]
        ]
      ]

  segments_or : ReaderResult → Option (List Segment)
  segments_or (answered (gops_read r)) = some r.gops
  segments_or _ = none

  -- The GOPs of a file that is known to be a readable video; `none` is an error thrown.
  unfoldable pub container_segments : Bytes → Option (List Segment)
  unfolding segments_or
  container_segments file = segments_or (read_container file)
