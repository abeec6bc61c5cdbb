-- ===== src/Verify/Tests/Clips.antt =====
-- A video of one segment, in a file that is not the original.
use vcap_spec.Prelude.{
  ◌≡◌, ◌↔◌, refl, true, false, none, some, List, [], ◌∷◌, replicate, or_else, any, ℤ, pos, negsuc,
  ◌-ℤ◌, ◌*ℤ◌, ◌+ℤ◌,
}
use vcap_spec.Bytes.{Bytes, eq_bytes, be, write_uint, write_int}
use vcap_spec.Text.{text}
use vcap_spec.Json.{Json, obj, str, num, end, field, nil, cons, member}
use vcap_spec.Node.Stub.{stub, cut32, first_is}
use vcap_spec.Core.{verify_es256}
use vcap_spec.Segments.{
  SegmentEntry, map_set, map_get, insert_entry, sort_entries, sorted, is_complete, segment_message,
  expected_prev, check_entry, chain_loop, verify_chain,
}
use vcap_spec.Timing.{
  TimingValues, Timescales, concat, timing_root, timing_record, received_timing_hash,
  convert_timing, fields, scale, scale_all, uint32, uint64, pairs,
}
use vcap_spec.Verify.Decode.{str_of, int_of, obj_of, segment_entries}
use vcap_spec.Verify.Label.{sort_labels}
use vcap_spec.Verify.Verdicts.{no_timestamp, no_anchor, not_registered}
use vcap_spec.Verify.Container.{Segment, GopsReading, gops_read, answered}
use vcap_spec.Verify.Binding.{
  located, not_increasing, repeated, ours, has_index, add_index, signed_hashes, bind_segments,
}
use vcap_spec.Verify.Binding.Accounted.{Accounted}
use vcap_spec.Verify.Binding.Verified.{bind_segments_lem}
use vcap_spec.Verify.Retimed.{
  SignedTiming, clip_timing_problem, timing_entries_complete, entries_root, presentation_differs,
  keyed, signed_timescales, timing_of,
}
use vcap_spec.Verify.Retimed.Whole.{IsWhole}
use vcap_spec.Verify.Retimed.Instants.{AreTimed, clip_timing_problem_iff}
use vcap_spec.Verify.Shape.{SignedSegments, not_evaluated_keys}
use vcap_spec.Verify.Judge.{
  Tools, Input, Verdict, Context, verified_clip, tampered_proof, fail, in_both, clip_verdict,
}
use vcap_spec.Verify.Clip.{judge_segments, credited}
use vcap_spec.Verify.Clip.Frames.{AreSigned, judge_segments-clip}
use vcap_spec.Verify.Tests.{no_certificates, no_trust, ascii_decoders}

unfoldable pub open_all : Unit {0}
unfolding judge_segments eq_bytes be write_uint write_int member cut32 first_is verify_es256 map_set
    map_get insert_entry sort_entries sorted is_complete segment_message expected_prev check_entry
    chain_loop verify_chain concat timing_root timing_record received_timing_hash str_of int_of
    obj_of segment_entries sort_labels has_index add_index bind_segments ours clip_timing_problem
    timing_entries_complete entries_root presentation_differs keyed signed_timescales
    not_evaluated_keys fail in_both clip_verdict signed_hashes timing_of convert_timing fields scale
    scale_all uint32 uint64 pairs credited ◌-ℤ◌ ◌*ℤ◌ ◌+ℤ◌
open_all = tt

abbrev id : Bytes
id = replicate 16 5

abbrev values : TimingValues
values = record {
  video_dts = [];
  video_cts = [];
  video_end = pos 0;
  audio_dts = [];
  audio_dur = [];
}

abbrev gop : Segment
gop = record {
  index = some (pos 0);
  capture_id = some id;
  sei_count = 1;
  opens_with_idr = true;
  problem = none;
  content_hash = replicate 32 1;
  range_start = 0;
  range_end = 9;
  located = true;
  video_bytes = 9;
  audio_bytes = 0;
  audio_frames = 0;
  timing = values;
  video_extent = record { start = pos 0; end = pos 0 };
  audio_extent = none;
}

abbrev scales : Timescales
scales = record { video = pos 1; audio = none }

abbrev a_reading : GopsReading
a_reading = record {
  gops = gop ∷ [];
  presentation =
      some (record { config = replicate 43 65; matrix = pos 1 ∷ []; display = pos 4 ∷ pos 3 ∷ [] });
  layout = none;
  timescales = scales;
  video_edit = none;
  audio_edit = none;
}

abbrev entry : SegmentEntry
entry = record {
  gop = pos 0;
  hash = replicate 32 1;
  prev = replicate 32 0;
  sig = 118 ∷ replicate 63 0;
  timing = some (replicate 32 0);
}

abbrev entry_json : Json
entry_json = obj (
    field (text "gop") (num (pos 0)) (
      field (text "hash") (str (replicate 32 1)) (
        field (text "prev") (str (replicate 32 0)) (
          field (text "sig") (str (118 ∷ replicate 63 0))
            (field (text "timing") (str (replicate 32 0)) end)))))

abbrev signed_timing : SignedTiming
signed_timing = record { video_timescale = pos 1; audio_timescale = none; root = replicate 32 0 }

abbrev signed : SignedSegments
signed = record {
  entries = cons entry_json nil;
  count = pos 1;
  presentation = record {
    config = replicate 43 65;
    matrix = pos 1 ∷ [];
    display = pos 4 ∷ pos 3 ∷ [];
  };
  timing = signed_timing;
}

abbrev tools : Tools
tools = record {
  node = stub;
  certificates = no_certificates;
  decoders = ascii_decoders;
  read_container = λ media. answered (gops_read a_reading);
}

abbrev input : Input tools
input = record {
  recompute_segments = true;
  trust = no_trust;
  clock = some (pos 0);
  key_status = none;
  chain_read = none;
}

abbrev context : Context tools
context = record {
  proof = end;
  shaped = record {
    capture_id = id;
    hash = [];
    platform = text "web";
    secure_hw = text "none";
    key_id = [];
    sig_value = [];
    sig_pub = [];
    sig_alg = text "ES256";
    segments = some signed;
  };
  spki = [];
  key = 1;
  hash = [];
  evidence = record {
    labels = [];
    anchor = no_anchor;
    timestamp = no_timestamp;
    registry = not_registered;
    device_integrity = false;
    location = record { claimed = text "none"; level = text "none" };
    signers = [];
  };
}

named : any (ours id) (gop ∷ []) ≡ true
unfolding open_all
named = refl

bind_segments_lem_example :
    (bind_segments stub (gops_read a_reading) id (entry ∷ []) ≡ located (pos 0 ∷ []) [])
    ↔ Accounted stub id (signed_hashes (entry ∷ [])) (negsuc 0) (pos 0 ∷ []) (gop ∷ [])
bind_segments_lem_example = bind_segments_lem stub a_reading id (entry ∷ []) named (pos 0 ∷ [])

-- A second copy of the segment.
repeated_gop :
    bind_segments stub (gops_read (record a_reading { gops = gop ∷ gop ∷ [] })) id (entry ∷ [])
    ≡ located [] (not_increasing 1 (pos 0) ∷ repeated (pos 0) ∷ [])
unfolding open_all
repeated_gop = refl

clip_timing_problem_iff_example :
    (clip_timing_problem stub a_reading signed_timing
        (entry ∷ [])
        (pos 0 ∷ [])
        (timing_entries_complete (entry ∷ []) (pos 1))
      ≡ some none)
    ↔ (IsWhole (entry ∷ []) (pos 1)
        × AreTimed stub a_reading signed_timing (entry ∷ []) (pos 0 ∷ []) (gop ∷ []))
clip_timing_problem_iff_example =
    clip_timing_problem_iff stub a_reading signed_timing (entry ∷ []) (pos 0 ∷ []) (pos 1)

in_time :
    clip_timing_problem stub a_reading signed_timing (entry ∷ []) (pos 0 ∷ []) true ≡ some none
unfolding open_all
in_time = refl

verdict : Verdict
verdict = or_else (judge_segments tools context input signed [] false) (fail tampered_proof)

judged : judge_segments tools context input signed [] false ≡ some verdict
unfolding open_all verdict
judged = refl

is_clip : verdict.outcome ≡ verified_clip
unfolding open_all verdict
is_clip = refl

judge_segments-clip_example :
    (entries : List SegmentEntry) × (read : GopsReading) × (found : List ℤ) × (segment_entries
        signed.entries
      ≡ some entries)
    × (tools.read_container [] ≡ answered (gops_read read))
    × AreSigned tools context signed entries read found
    × (verdict.segments ≡ some found)
judge_segments-clip_example =
    judge_segments-clip tools context input signed [] verdict judged is_clip
