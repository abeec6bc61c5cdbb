-- ===== src/Verify/Tests.antt =====
-- Proofs that the verifier judges: a picture, and what its evidence gives, with the stand-in for Node.
mod Clips
mod Casts
mod Received
mod Levels
mod Files
use vcap_spec.Prelude.{
  ℕ, ◌+◌, ◌≡◌, ◌≢◌, ◌↔◌, ◌⊎◌, refl, Bool, true, false, Option, none, some, List, [], ◌∷◌, ◌++◌,
  replicate, or_else, ℤ, pos, negsuc, if◌then◌else◌, length, ltb,
}
use vcap_spec.Bytes.{Bytes, ascii, eq_bytes, subarray, read_uint}
use vcap_spec.Text.{Text, text, text_ltb, utf8}
use vcap_spec.Json.{
  Json, obj, str, num, Fields, end, field, Items, nil, member, jcs, serialize, stringify_text,
  stringify_int, join, insert_member, sort_members, member_texts,
}
use vcap_spec.Core.{public_key_from_spki, verify_es256, core_bytes, extract_core, key_id, core_hash}
use vcap_spec.Jpeg.{media_hash, canonical_bytes}
use vcap_spec.Verify.Decode.{str_of, int_of, obj_of, items_of, has_key}
use vcap_spec.Verify.Shape.{Shaped, shape_problem, not_evaluated_keys, major_of}
use vcap_spec.Verify.Container.{malformed_container}
use vcap_spec.Verify.Label.{includes, same_label, sort_labels}
use vcap_spec.Verify.Level.{claimed_level, instant_of, is_trusted, rank}
use vcap_spec.Verify.Ceiling.{level, ceiling_of}
use vcap_spec.Json.Parse.{Decoders, parse_proof_json}
use vcap_spec.Node.Stub.{stub, cut32, first_is}
use vcap_spec.Verify.Evidence.{
  anchor_outcome, timestamp_outcome, registry_outcome, integrity_outcome, location_outcome,
  signing_logs, device_clock_of,
}
use vcap_spec.Verify.Verdicts.{
  Certificates, Trust, ChainOutcome, no_timestamp, no_anchor, not_registered, new_date, is_empty,
}
use vcap_spec.Verify.Judge.{
  Tools, Input, Verdict, fail, authentic, Outcome, signed_core, gather, claims_of,
  authentic_verdict,
}
use vcap_spec.Verify.File.{judge}
use vcap_spec.Verify.File.Authentic.{IsSigned, judge-authentic}

-- Bytes are read as the characters, and a string literal is what stands between the quotes.
without_last : Text → Text
without_last [] = []
without_last (c ∷ []) = []
without_last (c ∷ d ∷ r) = c ∷ without_last (d ∷ r)

unquoted : Text → Option Text
unfolding without_last
unquoted [] = none
unquoted (c ∷ r) = some (without_last r)

abbrev ascii_decoders : Decoders
ascii_decoders = record { decode_utf8 = λ b. some b; parse_literal = unquoted }

abbrev no_chain : ChainOutcome
no_chain = record {
  proven = text "none";
  evidence_invalid = false;
  expired_since = false;
  serials = [];
  app_signing_digests = none;
}

abbrev no_certificates : Certificates
no_certificates = record {
  Root = Unit {0};
  validate_chain = λ items spki roots instant now. no_chain;
  leaf_spki = λ leaf. none;
  verify_timestamp_token = λ token hash roots. no_timestamp;
}

abbrev tools : Tools
tools = record {
  node = stub;
  certificates = no_certificates;
  decoders = ascii_decoders;
  read_container = λ media. malformed_container;
}

abbrev no_trust : Trust no_certificates
no_trust = record { attestation_roots = []; logs = []; tsa_roots = [] }

abbrev input : Input tools
input = record {
  recompute_segments = true;
  trust = no_trust;
  clock = some (pos 0);
  key_status = none;
  chain_read = none;
}

-- Media whose hash is a text of 32 characters here.
abbrev media : Bytes
media = text "mmmmmmmmmmmmmmmmmmmmmmmmmmmmmmmm"

abbrev key_text : Text
key_text = 1 ∷ replicate 31 48

-- The proof of that picture. The core begins with `{`, and so does a good signature here.
abbrev payload : Bytes
payload =
    text
      "{\"v\":\"vcap/1.0\",\"capture_id\":\"aaaaaaaaaaaaaaaa\",\"media\":{\"hash\":\"mmmmmmmmmmmmmmmmmmmmmmmmmmmmmmmm\",\"mime\":\"image/jpeg\",\"w\":4,\"h\":3},\"device\":{\"platform\":\"web\",\"secure_hw\":\"none\",\"key_id\":\""
    ++ (key_text
        ++ (text "\"},\"time\":{\"device_clock\":7},\"sig\":{\"alg\":\"ES256\",\"value\":\"{"
            ++ (replicate 63 48 ++ (text "\",\"pub\":\"" ++ (key_text ++ text "\"}}")))))

read_payload : Option Json
read_payload = parse_proof_json ascii_decoders payload

open_all : Unit {0}
unfolding judge parse_proof_json unquoted eq_bytes subarray read_uint major_of str_of int_of obj_of
    items_of has_key member shape_problem not_evaluated_keys signed_core public_key_from_spki ascii
    verify_es256 first_is core_bytes extract_core jcs utf8 serialize stringify_text stringify_int
    join insert_member sort_members member_texts text_ltb key_id cut32 core_hash media_hash
    canonical_bytes gather anchor_outcome timestamp_outcome registry_outcome integrity_outcome
    location_outcome signing_logs device_clock_of level claims_of claimed_level instant_of
    is_trusted new_date is_empty ceiling_of includes same_label sort_labels rank fail
    authentic_verdict
open_all = tt

-- What the verdict on it is.
verdict : Verdict
verdict = or_else (judge tools payload media none [] input) (fail authentic)

judged : judge tools payload media none [] input ≡ some verdict
unfolding open_all verdict
judged = refl

is_authentic : verdict.outcome ≡ authentic
unfolding open_all verdict
is_authentic = refl

judge-authentic_example :
    (proof : Fields) × (shaped : Shaped) × (parse_proof_json ascii_decoders payload
      ≡ some (obj proof))
    × (major_of proof ≡ some (text "1"))
    × (shape_problem stub proof ≡ some shaped)
    × IsSigned tools proof shaped
    × (media_hash stub media ≡ some shaped.hash)
judge-authentic_example =
    judge-authentic tools payload media none [] input verdict judged is_authentic
