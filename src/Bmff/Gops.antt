-- ===== src/Bmff/Gops.antt =====
-- tools/src/container.ts: the GOPs of a video track and the hash of what each holds, in `readContainer`.
-- `none` is `ContainerMalformed`.
pub mod Parts
pub mod Gathering
pub mod Content
use vcap_spec.Prelude.{
  ◌>>=◌, ℕ, suc, ◌+◌, ◌-◌, ◌==◌, Bool, true, false, ◌||◌, Option, none, some, List, [], ◌∷◌, ◌++◌,
  length, take, drop, get_elem?, if◌then◌else◌, ℤ, pos, ◌-ℤ◌,
}
use vcap_spec.Bytes.{Bytes}
use vcap_spec.Node.{Node}
use vcap_spec.Timing.{TimingValues, Extent, video_extent, audio_extent}
use vcap_spec.Verify.Container.{Segment}
use vcap_spec.Bmff.Samples.{Sample}
use vcap_spec.Bmff.Tracks.{Track}
use vcap_spec.Bmff.Units.{AccessUnit, Gathered, nothing_gathered, gather_units, Heard, heard_in}

-- Where the GOPs begin: at the first sample and at each IDR, the samples counted from `i`.
unfoldable pub starts_from : ℕ → List AccessUnit → List ℕ
starts_from i [] = []
starts_from i (u ∷ us) =
    let rest = starts_from (suc i) us in if u.idr || i == 0 then i ∷ rest else rest

-- `videoEnd` is the end of the last sample.
unfoldable pub timing_values : (dts0 : ℕ) (last : Sample) → Gathered → Heard → TimingValues
timing_values dts0 last g h = record {
  video_dts = g.dts;
  video_cts = g.cts;
  video_end = pos (last.dts + last.duration) -ℤ pos dts0;
  audio_dts = h.dts;
  audio_dur = h.dur;
}

unfoldable pub last_of : AccessUnit → List AccessUnit → AccessUnit
last_of u [] = u
last_of u (v ∷ vs) = last_of v vs

unfoldable pub named : List (Bytes × ℕ) → Option (Bytes × ℕ)
named [] = none
named (s ∷ ss) = some s

audio_part : TimingValues → Option ℕ → Option Extent
audio_part timing none = none
audio_part timing (some first) = audio_extent timing (pos first)

is_named : Option (Bytes × ℕ) → Bool
is_named none = false
is_named (some s) = true

unfoldable pub index_of : Option (Bytes × ℕ) → Option ℤ
index_of none = none
index_of (some (capture_id, index)) = some (pos index)

unfoldable pub capture_of : Option (Bytes × ℕ) → Option Bytes
capture_of none = none
capture_of (some (capture_id, index)) = some capture_id

-- The samples of a GOP: those from its start to before the next.
unfoldable pub members : List AccessUnit → (from to : ℕ) → List AccessUnit
members units from to = take (to - from) (drop from units)

-- `starts[gop + 1] ?? units.length`.
unfoldable pub next_start : List AccessUnit → List ℕ → ℕ
next_start units [] = length units
next_start units (to ∷ rest) = to

module _ (node : Node) where
  open node use {sha256}

  unfoldable pub segment_from : AccessUnit → Gathered → Heard → TimingValues → Extent → Segment
  unfolding audio_part is_named
  segment_from first g h timing extent = record {
    index = index_of (named g.seis);
    capture_id = capture_of (named g.seis);
    sei_count = length g.seis;
    opens_with_idr = first.idr;
    problem = g.problem;
    content_hash = sha256 (g.content ++ h.content);
    range_start = g.start;
    range_end = g.end;
    located = is_named (named g.seis);
    video_bytes = length g.content;
    audio_bytes = length h.content;
    audio_frames = h.frames;
    timing = timing;
    video_extent = extent;
    audio_extent = audio_part timing h.first;
  }

  -- The segment of a GOP with a first sample and others, before the GOP that `next` begins.
  unfoldable pub segment_of :
      Bytes
      → Track
      → Option Track
      → AccessUnit
      → List AccessUnit
      → Option AccessUnit
      → Option Segment
  unfolding timing_values
  segment_of file video_track audio_track first others next = do
    let dts0 = first.sample.dts
    g ← gather_units video_track.codec.hevc dts0 (first ∷ others) nothing_gathered
    h ← heard_in file video_track audio_track first next
    let timing = timing_values dts0 (last_of first others).sample g h
    extent ← video_extent timing (pos dts0)
    some (segment_from first g h timing extent)

  -- `none` for a GOP without a sample, of which there is none.
  unfoldable pub segment_in :
      Bytes → Track → Option Track → List AccessUnit → Option AccessUnit → Option Segment
  segment_in file video_track audio_track [] next = none
  segment_in file video_track audio_track (first ∷ others) next =
      segment_of file video_track audio_track first others next

  unfoldable pub segment_at :
      Bytes → Track → Option Track → List AccessUnit → (from to : ℕ) → Option Segment
  segment_at file video_track audio_track units from to =
      segment_in file video_track audio_track (members units from to) (get_elem? units to)

  unfoldable pub segments_of :
      Bytes → Track → Option Track → List AccessUnit → List ℕ → Option (List Segment)
  segments_of file video_track audio_track units [] = some []
  segments_of file video_track audio_track units (from ∷ starts) = do
    s ← segment_at file video_track audio_track units from (next_start units starts)
    rest ← segments_of file video_track audio_track units starts
    some (s ∷ rest)
