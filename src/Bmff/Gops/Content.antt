-- ===== src/Bmff/Gops/Content.antt =====
-- What the segment of a GOP says of its samples, in `readContainer` of tools/src/container.ts.
use vcap_spec.Prelude.{
  ◌≡◌, refl, sym, ap, ◌∙◌, Option, none, some, List, [], ◌∷◌, ◌++◌, length, or_else, if◌then◌else◌,
  arith, Option-cases, Bool-cases, inl, inr, append-nil, append_assoc, pos,
}
use vcap_spec.Bytes.{Bytes}
use vcap_spec.Node.{Node}
use vcap_spec.Timing.{video_extent}
use vcap_spec.Verify.Container.{Segment}
use vcap_spec.Bmff.Samples.{Sample}
use vcap_spec.Bmff.Tracks.{Track}
use vcap_spec.Bmff.Gops.{
  timing_values, last_of, segment_from, named, index_of, capture_of, segment_of,
}
use vcap_spec.Bmff.Units.{
  AccessUnit, Instant, instant_of, sample_bytes, gather_units, instant_at, nothing_gathered, Heard,
  in_interval, hear, hear_all, heard_in,
}
use vcap_spec.Bmff.Gops.Gathering.{
  composition_offsets, decode_times, gather_units-Adds, video_content, video_names,
}

-- The frames of a track in the interval, one after another.
unfoldable pub frames_content : Bytes → Track → Instant → Option Instant → List Sample → Bytes
frames_content file track from to [] = []
frames_content file track from to (s ∷ ss) =
    let rest = frames_content file track from to ss in
    if in_interval from to (instant_of track s.dts)
    then or_else (sample_bytes file s) [] ++ rest
    else rest

hear_all-content :
    (file : Bytes) (track : Track) (from : Instant) (to : Option Instant) (ss : List Sample)
    (g h : Heard)
    → hear_all file track from to ss g ≡ some h
    → h.content ≡ g.content ++ frames_content file track from to ss
unfolding hear_all frames_content
hear_all-content file track from to [] g h e =
    let same : g ≡ h = ground (arith, e) in
    ap (λ (x : Heard). x.content) (sym same) ∙ sym (append-nil g.content)
hear_all-content file track from to (s ∷ ss) g h e =
    elim (Bool-cases (in_interval from to (instant_of track s.dts))) [
      | inr k ↦
          hear_all-content file track from to ss g h (ground (arith, k, e))
          ∙ ap (λ z. g.content ++ z) (ground (arith, k))
      | inl k ↦ elim (Option-cases (sample_bytes file s)) [
        | inl m ↦ absurd (ground (arith, k, m, e))
        | inr (b, m) ↦
            hear_all-content file track from to ss (hear g s b) h (ground (arith, k, m, e))
            ∙ unfold hear in
              append_assoc g.content b (frames_content file track from to ss)
              ∙ ap (λ z. g.content ++ z) (ground (arith, k, m))
      ]
    ]

-- The audio frames of a GOP: those from its first sample's time to before that of the next GOP's.
unfoldable pub audio_content : Bytes → Track → Option Track → AccessUnit → Option AccessUnit → Bytes
audio_content file video_track none first next = []
audio_content file video_track (some track) first next =
    frames_content file track (instant_of video_track first.sample.dts)
      (instant_at video_track next) track.samples

heard_in-content :
    (file : Bytes) (video_track : Track) (audio_track : Option Track) (first : AccessUnit)
    (next : Option AccessUnit) (h : Heard)
    → heard_in file video_track audio_track first next ≡ some h
    → h.content ≡ audio_content file video_track audio_track first next
unfolding heard_in audio_content
heard_in-content file video_track none first next h e = ground (arith, e)
heard_in-content file video_track (some track) first next h e =
    hear_all-content file track (instant_of video_track first.sample.dts)
      (instant_at video_track next) track.samples _ h e

-- The segment of a GOP has the hash of all units of its samples that are no vcap SEI, in order, and then of
-- the audio frames that begin in its interval; it counts the vcap SEI, takes its index and its capture
-- from the first, and has the decode times and the composition offsets of its samples.
pub segment_of_lem :
    (node : Node) (file : Bytes) (video_track : Track) (audio_track : Option Track)
    (first : AccessUnit) (others : List AccessUnit) (next : Option AccessUnit) (s : Segment)
    → segment_of node file video_track audio_track first others next ≡ some s
    → (s.content_hash
        ≡ node.sha256 (
            video_content video_track.codec.hevc (first ∷ others)
            ++ audio_content file video_track audio_track first next))
      × (s.sei_count ≡ length (video_names video_track.codec.hevc (first ∷ others)))
      × (s.index ≡ index_of (named (video_names video_track.codec.hevc (first ∷ others))))
      × (s.capture_id ≡ capture_of (named (video_names video_track.codec.hevc (first ∷ others))))
      × (s.timing.video_dts ≡ decode_times first.sample.dts (first ∷ others))
      × (s.timing.video_cts ≡ composition_offsets (first ∷ others))
unfolding segment_of segment_from timing_values
segment_of_lem node file video_track audio_track first others next s e =
    let hevc = video_track.codec.hevc in
    let dts0 = first.sample.dts in
    elim (Option-cases (gather_units hevc dts0 (first ∷ others) nothing_gathered)) [
      | inl k ↦ absurd (ground (arith, k, e))
      | inr (g, k) ↦ elim (Option-cases (heard_in file video_track audio_track first next)) [
        | inl m ↦ absurd (ground (arith, k, m, e))
        | inr (h, m) ↦
            let timing = timing_values dts0 (last_of first others).sample g h in
            elim (Option-cases (video_extent timing (pos dts0))) [
              | inl n ↦ absurd (ground (arith, k, m, n, e))
              | inr (x, n) ↦
                  let same : segment_from node first g h timing x ≡ s =
                    ground (arith, k, m, n, e) in
                  let (content, seis, dts, cts) =
                    gather_units-Adds hevc dts0 (first ∷ others) nothing_gathered g k in
                  let heard = heard_in-content file video_track audio_track first next h m in
                  rw (← same) (
                    rw (content, heard) refl,
                    ap length seis,
                    ap (λ z. index_of (named z)) seis,
                    ap (λ z. capture_of (named z)) seis,
                    dts,
                    cts,
                  )
            ]
      ]
    ]
