-- ===== src/Verify/File.antt =====
-- `verifyFile`, `verdictOfFile`, `judge` and `verifySegments` of tools/src/verify.ts. `none` is an error
-- thrown, or an attachment or an entry outside the model, which Judge and Clip name.
pub mod Authentic
pub mod Best
use vcap_spec.Prelude.{
  ℕ, Bool, true, false, not, ◌&&◌, ◌||◌, Option, none, some, List, [], ◌∷◌, ◌++◌, ltb, leb, ◌>>=◌,
  if◌then◌else◌, ℤ,
}
use vcap_spec.Bytes.{Bytes, eq_bytes}
use vcap_spec.Text.{Text, text}
use vcap_spec.Json.{Json, obj, Fields}
use vcap_spec.Json.Parse.{parse_proof_json}
use vcap_spec.Core.{core_hash, public_key_from_spki}
use vcap_spec.Jpeg.{media_hash}
use vcap_spec.Carrier.{
  ProofSource, from_trailer, from_sidecar, from_manifest, Alternate, Extracted, Extraction,
  no_proof, proof_corrupted, proof_nested, proof_unsupported, proof_found, Unreadable, Sources,
  extract_proof, unreadable_alternate,
}
use vcap_spec.Segments.{SegmentEntry, ChainStatus, complete, clip, tampered, verify_chain}
use vcap_spec.Verify.Label
use vcap_spec.Verify.Label.{Label}
use vcap_spec.Verify.Shape.{Shaped, shape_problem, major_of}
use vcap_spec.Verify.Judge.{
  Outcome, no_proof_found, corrupted_proof, nested_proof, unsupported_format_version,
  tampered_proof, frames_not_compared, verified_clip, authentic, Verdict, Tools, Input, Evidence,
  Context, fail, red_verdict, signed_core, gather, authentic_verdict,
}
use vcap_spec.Verify.Clip.{judge_segments}

-- `OUTCOME_RANK`.
unfoldable pub outcome_rank : Outcome → ℕ
outcome_rank authentic = 3
outcome_rank verified_clip = 2
outcome_rank frames_not_compared = 1
outcome_rank _ = 0

-- The files of `FileInput`.
pub record Files : Type 0 where
  pub file : Bytes
  pub sidecar : Option Bytes
  pub external_store : Option Bytes

pub sourced : ProofSource → Verdict → Verdict
sourced source v = record {
  outcome = v.outcome;
  labels = v.labels;
  not_evaluated = v.not_evaluated;
  core_hash = v.core_hash;
  segments = v.segments;
  level = v.level;
  location = v.location;
  frames_name_capture = v.frames_name_capture;
  proof_source = some source;
}

depth_of : ProofSource → ℕ
depth_of (from_manifest manifest depth) = depth
depth_of _ = 0

is_held_against : Outcome → Bool
is_held_against tampered_proof = true
is_held_against frames_not_compared = true
is_held_against _ = false

-- The proof of a source capture, over a file that it does not prove.
of_source : ProofSource → Verdict → Verdict
unfolding depth_of is_held_against
of_source source v =
    if leb 1 (depth_of source) && is_held_against v.outcome
    then record {
      outcome = no_proof_found;
      labels = [];
      not_evaluated = [];
      core_hash = v.core_hash;
      segments = none;
      level = none;
      location = none;
      frames_name_capture = v.frames_name_capture;
      proof_source = some source;
    }
    else v

-- The other verdict, when it ranks strictly above.
better : Verdict → Verdict → Verdict
better other v = if ltb (outcome_rank v.outcome) (outcome_rank other.outcome) then other else v

module _ (tools : Tools) where
  open tools use {node, certificates, decoders}
  open tools.node use {from_base64url, to_base64url}

  -- From the media on.
  judge_media : Context tools → Input tools → Bytes → Bool → Option Verdict
  judge_media c input media media_matches = elim c.shaped.segments [
    | some signed ↦ judge_segments tools c input signed media media_matches
    | none ↦
        if media_matches
        then authentic_verdict tools c input c.evidence.labels none none
        else some (red_verdict tools c.proof c.hash none none)
  ]

  judge_signed :
      Fields
      → Shaped
      → tools.node.Key
      → Bytes
      → Option ℕ
      → List Label
      → Input tools
      → Option Verdict
  unfolding judge_media
  judge_signed proof shaped key media flags labels input =
      let spki = from_base64url shaped.sig_pub in
      let hash = core_hash node proof in
      elim (media_hash node media) [
        | none ↦ some (fail no_proof_found)
        | some read ↦ do
          evidence ← gather tools proof hash spki labels flags input shaped
          judge_media
              (record {
                proof = proof;
                shaped = shaped;
                spki = spki;
                key = key;
                hash = hash;
                evidence = evidence;
              })
              input media (eq_bytes read shaped.hash)
      ]

  -- From the shape on.
  judge_proof : Fields → Bytes → Option ℕ → List Label → Input tools → Option Verdict
  unfolding judge_signed
  judge_proof proof media flags labels input = elim (shape_problem node proof) [
    | none ↦ some (fail no_proof_found)
    | some shaped ↦ elim (signed_core tools proof shaped) [
      | none ↦ some (red_verdict tools proof (core_hash node proof) none none)
      | some key ↦ judge_signed proof shaped key media flags labels input
    ]
  ]

  judge_object : Fields → Bytes → Option ℕ → List Label → Input tools → Option Verdict
  unfolding judge_proof
  judge_object proof media flags labels input = elim (major_of proof) [
    | none ↦ some (fail no_proof_found)
    | some major ↦
        if eq_bytes major (text "1")
        then judge_proof proof media flags labels input
        else some (fail unsupported_format_version)
  ]

  unfoldable pub judge : Bytes → Bytes → Option ℕ → List Label → Input tools → Option Verdict
  unfolding judge_object
  judge payload media flags labels input = elim (parse_proof_json decoders payload) [
    | some (obj proof) ↦ judge_object proof media flags labels input
    | _ ↦ some (fail no_proof_found)
  ]

  module _ (sources : Sources) where
    -- The sidecar that differs, judged too.
    with_alternate : Extracted → Input tools → Verdict → Option Verdict
    unfolding of_source sourced
    with_alternate e input v = elim e.alternate [
      | none ↦ some (of_source e.source v)
      | some a ↦ do
        other ← judge a.payload e.media none a.labels input
        let judged = sourced from_sidecar other
        some (
            if ltb (outcome_rank v.outcome) (outcome_rank judged.outcome)
            then judged
            else of_source e.source v)
    ]

    judge_extraction : Extraction → Input tools → Option Verdict
    unfolding with_alternate sourced
    judge_extraction no_proof input = some (fail no_proof_found)
    judge_extraction proof_corrupted input = some (fail corrupted_proof)
    judge_extraction proof_nested input = some (fail nested_proof)
    judge_extraction (proof_unsupported major) input = some (fail unsupported_format_version)
    judge_extraction (proof_found e) input = do
      v ← judge e.payload e.media e.flags e.labels input
      with_alternate e input (sourced e.source v)

    unfoldable pub verdict_of_file : Files → Input tools → Option Verdict
    unfolding judge_extraction
    verdict_of_file files input = do
      extraction ← extract_proof sources files.file files.sidecar files.external_store
      judge_extraction extraction input

    unfoldable pub verify_file : Files → Input tools → Option Verdict
    unfolding better sourced
    verify_file files input = do
      verdict ← verdict_of_file files input
      unreadable ← unreadable_alternate sources files.file files.sidecar files.external_store
      elim unreadable [
        | none ↦ some verdict
        | some alt ↦ do
          other ← judge alt.payload alt.media none alt.labels input
          some (better (sourced from_sidecar other) verdict)
      ]

-- `SegmentsInput`.
pub record SegmentsInput : Type 0 where
  pub capture_id : Text
  pub pub_key : Text
  pub segment_count : ℤ
  pub segments : List SegmentEntry

outcome_of : ChainStatus → Outcome
outcome_of complete = authentic
outcome_of clip = verified_clip
outcome_of tampered = tampered_proof

module _ (tools : Tools) where
  open tools use {node}
  open tools.node use {from_base64url}

  pub verify_segments : SegmentsInput → Verdict
  unfolding outcome_of
  verify_segments input = elim (public_key_from_spki node (from_base64url input.pub_key)) [
    | none ↦ fail tampered_proof
    | some key ↦
        let chain =
          verify_chain node (from_base64url input.capture_id) input.segment_count input.segments
            key in
        record {
          outcome = outcome_of chain.status;
          labels = [];
          not_evaluated = [];
          core_hash = none;
          segments = some chain.verified;
          level = none;
          location = none;
          frames_name_capture = none;
          proof_source = none;
        }
  ]
