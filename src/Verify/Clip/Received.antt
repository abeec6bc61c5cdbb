-- ===== src/Verify/Clip/Received.antt =====
-- A clip, from the verdict in tools/src/verify.ts down to the samples that tools/src/container.ts reads.
use vcap_spec.Prelude.{some, List, All, ◌≡◌, ◌∙◌, sym, false, ℤ, negsuc}
use vcap_spec.Bytes.{Bytes}
use vcap_spec.Segments.{SegmentEntry}
use vcap_spec.Verify.Container.{GopsReading}
use vcap_spec.Verify.Judge.{Verdict, verified_clip, Tools, Input, Context}
use vcap_spec.Verify.Shape.{SignedSegments}
use vcap_spec.Verify.Binding.{signed_hashes}
use vcap_spec.Verify.Binding.Accounted.{Accounted}
use vcap_spec.Verify.Clip.{judge_segments}
use vcap_spec.Verify.Clip.Chained.{IsSigned}
use vcap_spec.Verify.Clip.Frames.{judge_segments-clip}
use vcap_spec.Verify.Decode.{segment_entries}
use vcap_spec.Bmff.Reader.{read_container}
use vcap_spec.Bmff.Reader.Answered.{IsRead, read_container-IsRead}

-- With the reader of this library, a clip that is not the original file is verified only when the samples
-- of the file's video track, in order and all of them, fall into GOPs, each of which has the content of the
-- segment that it names, with the increasing indices of the verdict, in a message of this capture that is
-- signed under the core's key.
pub judge_segments-IsRead :
    (tools : Tools) (c : Context tools) (input : Input tools) (signed : SignedSegments)
    (media : Bytes) (v : Verdict)
    → tools.read_container media ≡ read_container tools.node media
    → judge_segments tools c input signed media false ≡ some v
    → v.outcome ≡ verified_clip
    → (entries : List SegmentEntry) × (read : GopsReading) × (found : List ℤ) × (segment_entries
          signed.entries
        ≡ some entries)
      × IsRead tools.node media read.gops
      × Accounted tools.node
          (tools.node.from_base64url c.shaped.capture_id)
          (signed_hashes entries)
          (negsuc 0)
          found
          read.gops
      × All (IsSigned tools.node (tools.node.from_base64url c.shaped.capture_id) c.key) read.gops
      × (v.segments ≡ some found)
judge_segments-IsRead tools c input signed media v reader h e =
    let (entries, read, found, is_entries, answer, are, segments) =
      judge_segments-clip tools c input signed media v h e in
    (
      entries,
      read,
      found,
      is_entries,
      read_container-IsRead tools.node media read (sym reader ∙ answer),
      are.accounted,
      are.sealed,
      segments,
    )
