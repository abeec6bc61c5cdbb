-- ===== src/Bmff/Reader/Answered.antt =====
-- What stands behind an answer of `readContainer` of tools/src/container.ts.
use vcap_spec.Prelude.{
  Option, none, some, List, ◌≡◌, length, arith, Option-cases, Bool-cases, inl, inr,
}
use vcap_spec.Bytes.{Bytes}
use vcap_spec.Text.{Text, text}
use vcap_spec.Node.{Node}
use vcap_spec.Verify.Container.{Segment, Presentation, GopsReading, gops_read, answered}
use vcap_spec.Bmff.{boxes, find}
use vcap_spec.Bmff.Tracks.{video, audio, Track, tracks_of}
use vcap_spec.Bmff.Presented.{presentation_of}
use vcap_spec.Bmff.Units.{AccessUnit, units_of}
use vcap_spec.Bmff.Gops.Parts.{IsSplit, segments_of_lem}
use vcap_spec.Bmff.Reader.{
  track_for, refused_edit, gops_reading, gops_of, bound_reading, tracks_reading, is_bmff,
  read_container,
}

-- The GOPs of an answer are those of the first video track of the file.
unfoldable pub IsRead : Node → Bytes → List Segment → Type 0
IsRead node file gops =
    (tracks : List Track) × (video_track : Track) × (units : List AccessUnit) × (tracks_of file
      ≡ some tracks)
    × (track_for video tracks ≡ some video_track)
    × (units_of file video_track video_track.samples ≡ some units)
    × IsSplit node file video_track (track_for audio tracks) units gops

module _ (node : Node) (file : Bytes) where
  gops_of_inv :
      (video_track : Track) (audio_track : Option Track) (gops : List Segment)
      → gops_of node file video_track audio_track ≡ some gops
      → (units : List AccessUnit) × (units_of file video_track video_track.samples ≡ some units)
        × IsSplit node file video_track audio_track units gops
  unfolding gops_of
  gops_of_inv video_track audio_track gops h =
      elim (Option-cases (units_of file video_track video_track.samples)) [
        | inl e ↦ absurd (ground (arith, e, h))
        | inr (units, e) ↦ (
          units,
          e,
          segments_of_lem node file video_track audio_track units gops (ground (arith, e, h)),
        )
      ]

  bound_reading_inv :
      (video_track : Track) (audio_track : Option Track)
      (bound : Option (Option Presentation × Option Text)) (r : GopsReading)
      → bound_reading node file video_track audio_track bound ≡ answered (gops_read r)
      → gops_of node file video_track audio_track ≡ some r.gops
  unfolding bound_reading gops_reading
  bound_reading_inv video_track audio_track none r h = absurd (cc)
  bound_reading_inv video_track audio_track (some (presentation, layout)) r h =
      elim (Option-cases (gops_of node file video_track audio_track)) [
        | inl e ↦ absurd (ground (arith, e, h))
        | inr (gops, e) ↦ ground (arith, e, h)
      ]

  tracks_reading_inv :
      (tracks : List Track) (r : GopsReading)
      → tracks_reading node file tracks ≡ answered (gops_read r)
      → (video_track : Track) × (track_for video tracks ≡ some video_track)
        × (gops_of node file video_track (track_for audio tracks) ≡ some r.gops)
  unfolding tracks_reading
  tracks_reading_inv tracks r h = elim (Option-cases (track_for video tracks)) [
    | inl e ↦ absurd (ground (arith, e, h))
    | inr (v, e) ↦ elim (Option-cases (refused_edit v (track_for audio tracks))) [
      | inr (why, f) ↦ absurd (ground (arith, e, f, h))
      | inl f ↦ (
        v,
        e,
        bound_reading_inv v (track_for audio tracks) (presentation_of node file) r
            (ground (arith, e, f, h)),
      )
    ]
  ]

  pub read_container-IsRead :
      (r : GopsReading)
      → read_container node file ≡ answered (gops_read r)
      → IsRead node file r.gops
  unfolding read_container IsRead
  read_container-IsRead r h = elim (Bool-cases (is_bmff file)) [
    | inr b ↦ absurd (ground (arith, b, h))
    | inl b ↦ elim (Option-cases (boxes file 0 (length file))) [
      | inl t ↦ absurd (ground (arith, b, t, h))
      | inr (top, t) ↦ elim (Option-cases (find top (text "moov"))) [
        | inl m ↦ absurd (ground (arith, b, t, m, h))
        | inr (moov, m) ↦ elim (Option-cases (tracks_of file)) [
          | inl k ↦ absurd (ground (arith, b, t, m, k, h))
          | inr (tracks, k) ↦
              let (v, e, g) = tracks_reading_inv tracks r (ground (arith, b, t, m, k, h)) in
              let (units, u, split) = gops_of_inv v (track_for audio tracks) r.gops g in
              (tracks, v, units, k, e, u, split)
        ]
      ]
    ]
  ]
