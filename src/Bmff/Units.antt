-- ===== src/Bmff/Units.antt =====
-- tools/src/container.ts: the video samples split into NAL units, and what the samples and the audio
-- frames of a GOP add up to, in `readContainer`. `none` is `ContainerMalformed`.
use vcap_spec.Prelude.{
  ◌>>=◌, ℕ, ◌+◌, Bool, not, ◌&&◌, Option, none, some, List, [], ◌∷◌, ◌++◌, length, any, ltb, min,
  or_else, if◌then◌else◌, ℤ, pos, ◌+ℤ◌, ◌-ℤ◌, ◌*ℤ◌, ltb_ℤ,
}
use vcap_spec.Bytes.{Bytes, subarray}
use vcap_spec.Text.{Text}
use vcap_spec.Bmff.Samples.{Sample}
use vcap_spec.Bmff.Tracks.{Track}
use vcap_spec.Bmff.Nals.{nals_of, is_idr}
use vcap_spec.Bmff.Sei.{Sei, no_sei, bad_sei, vcap_sei, sei_of}

-- A video sample, split.
pub record AccessUnit : Type 0 where
  pub sample : Sample
  pub nals : List Bytes
  pub idr : Bool

-- A time on the movie's timeline, as a fraction of a second.
pub record Instant : Type 0 where
  pub num : ℤ
  pub den : ℤ

unfoldable pub before : Instant → Instant → Bool
before a b = ltb_ℤ (a.num *ℤ b.den) (b.num *ℤ a.den)

unfoldable pub instant_of : Track → (dts : ℕ) → Instant
instant_of track dts = record {
  num =
      (track.edits.delay_num *ℤ track.timescale)
      +ℤ ((pos dts -ℤ track.edits.media_start) *ℤ track.edits.delay_den);
  den = track.edits.delay_den *ℤ track.timescale;
}

-- The bytes of a sample, which lie in the file.
unfoldable pub sample_bytes : Bytes → Sample → Option Bytes
sample_bytes file s =
    if ltb (length file) (s.offset + s.size)
    then none
    else some (subarray file s.offset (s.offset + s.size))

unfoldable pub unit_of : Bytes → Track → Sample → Option AccessUnit
unit_of file track s = do
  bytes ← sample_bytes file s
  nals ← nals_of bytes track.codec.length_size
  some (record { sample = s; nals = nals; idr = any (is_idr track.codec.hevc) nals })

unfoldable pub units_of : Bytes → Track → List Sample → Option (List AccessUnit)
units_of file track [] = some []
units_of file track (s ∷ ss) = do
  u ← unit_of file track s
  us ← units_of file track ss
  some (u ∷ us)

-- What the samples of a GOP add up to: the timing values, the vcap SEI, the first problem, the range of
-- the bytes, and the content that is hashed.
pub record Gathered : Type 0 where
  pub dts : List ℤ
  pub cts : List ℤ
  pub seis : List (Bytes × ℕ)
  pub problem : Option Text
  pub start : ℕ
  pub end : ℕ
  pub content : Bytes

abbrev max_safe : ℕ
max_safe = 9007199254740991

abbrev pub nothing_gathered : Gathered
nothing_gathered = record {
  dts = [];
  cts = [];
  seis = [];
  problem = none;
  start = max_safe;
  end = 0;
  content = [];
}

-- `problem ??= sei`.
unfoldable pub first_problem : Option Text → Text → Text
first_problem none reason = reason
first_problem (some earlier) reason = earlier

unfoldable pub gather_sei : Bytes → Gathered → Sei → Gathered
unfolding first_problem
gather_sei nal g (bad_sei reason) = record {
  dts = g.dts;
  cts = g.cts;
  seis = g.seis;
  problem = some (first_problem g.problem reason);
  start = g.start;
  end = g.end;
  content = g.content;
}
gather_sei nal g (vcap_sei capture_id index) = record {
  dts = g.dts;
  cts = g.cts;
  seis = g.seis ++ (capture_id, index) ∷ [];
  problem = g.problem;
  start = g.start;
  end = g.end;
  content = g.content;
}
gather_sei nal g no_sei = record {
  dts = g.dts;
  cts = g.cts;
  seis = g.seis;
  problem = g.problem;
  start = g.start;
  end = g.end;
  content = g.content ++ nal;
}

unfoldable pub gather_nals : (hevc : Bool) → List Bytes → Gathered → Option Gathered
gather_nals hevc [] g = some g
gather_nals hevc (nal ∷ nals) g = do
  sei ← sei_of nal hevc
  gather_nals hevc nals (gather_sei nal g sei)

-- The sample's own values, before its units.
unfoldable pub gather_sample : (dts0 : ℕ) → Sample → Gathered → Gathered
gather_sample dts0 s g = record {
  dts = g.dts ++ (pos s.dts -ℤ pos dts0) ∷ [];
  cts = g.cts ++ s.cts ∷ [];
  seis = g.seis;
  problem = g.problem;
  start = min g.start s.offset;
  end = if ltb g.end (s.offset + s.size) then s.offset + s.size else g.end;
  content = g.content;
}

unfoldable pub gather_units :
    (hevc : Bool) → (dts0 : ℕ) → List AccessUnit → Gathered → Option Gathered
gather_units hevc dts0 [] g = some g
gather_units hevc dts0 (u ∷ us) g = do
  h ← gather_nals hevc u.nals (gather_sample dts0 u.sample g)
  gather_units hevc dts0 us h

-- The audio frames of a GOP: their bytes, number, first decode time, and timing values.
pub record Heard : Type 0 where
  pub content : Bytes
  pub frames : ℕ
  pub first : Option ℕ
  pub dts : List ℤ
  pub dur : List ℤ

-- The half-open interval of a GOP, to the end of the track for the last.
unfoldable pub in_interval : Instant → Option Instant → Instant → Bool
in_interval from none at = not (before at from)
in_interval from (some to) at = not (before at from) && before at to

abbrev pub nothing_heard : Heard
nothing_heard = record { content = []; frames = 0; first = none; dts = []; dur = [] }

unfoldable pub hear : Heard → Sample → Bytes → Heard
hear h s bytes = record {
  content = h.content ++ bytes;
  frames = h.frames + 1;
  first = some (or_else h.first s.dts);
  dts = h.dts ++ (pos s.dts -ℤ pos (or_else h.first s.dts)) ∷ [];
  dur = h.dur ++ pos s.duration ∷ [];
}

unfoldable pub hear_all :
    Bytes → Track → Instant → Option Instant → List Sample → Heard → Option Heard
hear_all file track from to [] h = some h
hear_all file track from to (s ∷ ss) h =
    if not (in_interval from to (instant_of track s.dts))
    then hear_all file track from to ss h
    else do bytes ← sample_bytes file s; hear_all file track from to ss (hear h s bytes)

unfoldable pub instant_at : Track → Option AccessUnit → Option Instant
instant_at track none = none
instant_at track (some u) = some (instant_of track u.sample.dts)

unfoldable pub heard_in :
    Bytes → Track → Option Track → AccessUnit → Option AccessUnit → Option Heard
heard_in file video_track none first next = some nothing_heard
heard_in file video_track (some track) first next =
    hear_all file track (instant_of video_track first.sample.dts) (instant_at video_track next)
      track.samples nothing_heard
