-- ===== src/Verify/Tests/Received.antt =====
-- A clip read from a file.
use vcap_spec.Prelude.{
  ◌≡◌, refl, false, true, some, none, List, [], ◌∷◌, All, ◌++◌, replicate, or_else, ℤ, pos, negsuc,
}
use vcap_spec.Text.{Text, text}
use vcap_spec.Json.{Json, obj, num, str, cons, nil, field, end}
use vcap_spec.Node.Stub.{stub}
use vcap_spec.Segments.{SegmentEntry}
use vcap_spec.Verify.Container.{GopsReading}
use vcap_spec.Verify.Verdicts.{no_anchor, no_timestamp, not_registered}
use vcap_spec.Verify.Decode.{segment_entries}
use vcap_spec.Verify.Binding.{signed_hashes}
use vcap_spec.Verify.Binding.Accounted.{Accounted}
use vcap_spec.Verify.Shape.{SignedSegments}
use vcap_spec.Verify.Judge.{Tools, Input, Verdict, Context, verified_clip, tampered_proof, fail}
use vcap_spec.Verify.Clip.{judge_segments}
use vcap_spec.Verify.Clip.Chained.{IsSigned}
use vcap_spec.Verify.Clip.Received.{judge_segments-IsRead}
use vcap_spec.Verify.Tests.{no_certificates, no_trust, ascii_decoders}
use vcap_spec.Verify.Tests.Clips.{open_all}
use vcap_spec.Bmff.Reader.{read_container}
use vcap_spec.Bmff.Reader.Answered.{IsRead}
use vcap_spec.Timing.{int64, edit_trims}
use vcap_spec.Bmff.Tests
use vcap_spec.Bmff.Tests.{file, capture}

abbrev tools : Tools
tools = record {
  node = stub;
  certificates = no_certificates;
  decoders = ascii_decoders;
  read_container = read_container stub;
}

abbrev input : Input tools
input = record {
  recompute_segments = true;
  trust = no_trust;
  clock = some (pos 0);
  key_status = none;
  chain_read = none;
}

-- The hash of the timing record, which is its 32 bytes here.
abbrev timing_text : Text
timing_text = 0 ∷ 0 ∷ 0 ∷ 1 ∷ replicate 23 0 ++ (1 ∷ replicate 4 0)

abbrev entry_json : Json
entry_json = obj (
    field (text "gop") (num (pos 0)) (
      field (text "hash") (str (0x65 ∷ 1 ∷ 2 ∷ replicate 29 0)) (
        field (text "prev") (str (replicate 32 0)) (
          field (text "sig") (str (118 ∷ replicate 63 0))
            (field (text "timing") (str timing_text) end)))))

abbrev signed : SignedSegments
signed = record {
  entries = cons entry_json nil;
  count = pos 1;
  presentation = record {
    config = 0 ∷ 0 ∷ 0 ∷ 2 ∷ 0 ∷ 0 ∷ 0 ∷ 1 ∷ 0x67 ∷ 0 ∷ 0 ∷ 0 ∷ 1 ∷ 0x68 ∷ replicate 18 0;
    matrix = replicate 9 (pos 0);
    display = pos 0 ∷ pos 0 ∷ [];
  };
  timing = record { video_timescale = pos 1; audio_timescale = none; root = timing_text };
}

abbrev context : Context tools
context = record {
  proof = end;
  shaped = record {
    capture_id = capture;
    hash = [];
    platform = text "web";
    secure_hw = text "none";
    key_id = [];
    sig_value = [];
    sig_pub = [];
    sig_alg = text "ES256";
    segments = some signed;
  };
  spki = [];
  key = 1;
  hash = [];
  evidence = record {
    labels = [];
    anchor = no_anchor;
    timestamp = no_timestamp;
    registry = not_registered;
    device_integrity = false;
    location = record { claimed = text "none"; level = text "none" };
    signers = [];
  };
}

verdict : Verdict
verdict = or_else (judge_segments tools context input signed file false) (fail tampered_proof)

judged : judge_segments tools context input signed file false ≡ some verdict
unfolding open_all Tests.open_all file verdict int64 edit_trims
judged = refl

is_clip : verdict.outcome ≡ verified_clip
unfolding open_all Tests.open_all file verdict int64 edit_trims
is_clip = refl

judge_segments-IsRead_example :
    (entries : List SegmentEntry) × (read : GopsReading) × (found : List ℤ) × (segment_entries
        signed.entries
      ≡ some entries)
    × IsRead stub file read.gops
    × Accounted stub capture (signed_hashes entries) (negsuc 0) found read.gops
    × All (IsSigned stub capture 1) read.gops
    × (verdict.segments ≡ some found)
judge_segments-IsRead_example =
    judge_segments-IsRead tools context input signed file verdict refl judged is_clip
