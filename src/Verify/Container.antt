-- ===== src/Verify/Container.antt =====
-- What tools/src/verify.ts reads of a container: the types of tools/src/container.ts. The reader is a
-- parameter of the verifier, which Bmff has.
use vcap_spec.Prelude.{ℕ, Bool, Option, List, ℤ}
use vcap_spec.Bytes.{Bytes}
use vcap_spec.Text.{Text}
use vcap_spec.Timing.{TimingValues, Timescales, Extent, MediaEdit}

pub record Segment : Type 0 where
  pub index : Option ℤ
  pub capture_id : Option Bytes
  pub sei_count : ℕ
  pub opens_with_idr : Bool
  pub problem : Option Text
  pub content_hash : Bytes
  pub range_start : ℕ
  pub range_end : ℕ
  pub located : Bool
  pub video_bytes : ℕ
  pub audio_bytes : ℕ
  pub audio_frames : ℕ
  pub timing : TimingValues
  pub video_extent : Extent
  pub audio_extent : Option Extent

pub record Presentation : Type 0 where
  pub config : Bytes
  pub matrix : List ℤ
  pub display : List ℤ

-- A reading of kind `gops`.
pub record GopsReading : Type 0 where
  pub gops : List Segment
  pub presentation : Option Presentation
  pub layout : Option Text
  pub timescales : Timescales
  pub video_edit : Option MediaEdit
  pub audio_edit : Option MediaEdit

pub data ContainerReading : Type 0 where
  unreadable : (reason : Text) → ContainerReading
  gops_read : GopsReading → ContainerReading

-- What the reader does: it answers, or throws `ContainerMalformed`, or another error.
pub data ReaderResult : Type 0 where
  malformed_container failed : ReaderResult
  answered : ContainerReading → ReaderResult
