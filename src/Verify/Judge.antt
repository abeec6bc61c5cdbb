-- ===== src/Verify/Judge.antt =====
-- `judge` of tools/src/verify.ts: the verdict on a proof over the media that it speaks of. `none` is an
-- error thrown, or a registry attachment that Uncast leaves out. The text of a reason is left out, and `core_hash` is the digest, in place of its
-- hexadecimal digits. The container reader of tools/src/container.ts is a function.
use vcap_spec.Prelude.{
  ℕ, ◌+◌, ◌*◌, ◌/◌, ◌%◌, Bool, true, false, ◌&&◌, ◌||◌, Option, none, some, List, [], ◌∷◌, ◌++◌,
  ◌==◌, length, ◌>>=◌, if◌then◌else◌, ℤ, ltb_ℤ,
}
use vcap_spec.Bytes.{Bytes, eq_bytes}
use vcap_spec.Text.{Text, text}
use vcap_spec.Json.{Json, bool, nil, cons, Fields, member}
use vcap_spec.Json.Parse.{Decoders}
use vcap_spec.Node.{Node}
use vcap_spec.Core.{core_bytes, key_id, verify_es256, public_key_from_spki}
use vcap_spec.Registry.Logs.{TrustedLog}
use vcap_spec.Registry.Status.{KeyStatusStatement}
use vcap_spec.Anchor.{ChainRead}
use vcap_spec.Carrier.{ProofSource}
use vcap_spec.Verify.Label.{Label, sort_labels}
use vcap_spec.Verify.Decode.{obj_of, items_of, has_key}
use vcap_spec.Verify.Evidence.{
  LocationVerdict, device_clock_of, signing_logs, anchor_outcome, timestamp_outcome,
  registry_outcome, integrity_outcome, location_outcome,
}
use vcap_spec.Verify.Verdicts.{
  Date, TimestampVerdict, no_timestamp, stamped, AnchorVerdict, anchor_holds, RegistryVerdict,
  Certificates, Trust,
}
use vcap_spec.Verify.Level.{LevelVerdict}
use vcap_spec.Verify.Ceiling.{Claims, level}
use vcap_spec.Verify.Container.{ReaderResult}
use vcap_spec.Verify.Binding.{has_index}
use vcap_spec.Verify.Shape.{Shaped, not_evaluated_keys}

pub data Outcome : Type 0 where
  no_proof_found corrupted_proof nested_proof unsupported_format_version : Outcome
  tampered_proof frames_not_compared verified_clip authentic : Outcome

pub record Verdict : Type 0 where
  pub outcome : Outcome
  pub labels : List Label
  pub not_evaluated : List Text
  pub core_hash : Option Bytes
  pub segments : Option (List ℤ)
  pub level : Option LevelVerdict
  pub location : Option LocationVerdict
  pub frames_name_capture : Option Bool
  pub proof_source : Option ProofSource

-- What the verifier uses: Node, the certificates, and `readContainer`.
pub record Tools : Type 1 where
  pub node : Node
  pub certificates : Certificates
  pub decoders : Decoders
  pub read_container : Bytes → ReaderResult

-- `FileInput`, without the file, the sidecar and the external store.
pub record Input (tools : Tools) : Type 0 where
  pub recompute_segments : Bool
  pub trust : Trust tools.certificates
  pub clock : Date
  pub key_status : Option KeyStatusStatement
  pub chain_read : Option ChainRead

unfoldable pub fail : Outcome → Verdict
fail outcome = record {
  outcome = outcome;
  labels = [];
  not_evaluated = [];
  core_hash = none;
  segments = none;
  level = none;
  location = none;
  frames_name_capture = none;
  proof_source = none;
}

-- What the branches of the verdict share, and the evidence.
pub record Evidence : Type 0 where
  pub labels : List Label
  pub anchor : AnchorVerdict
  pub timestamp : TimestampVerdict
  pub registry : RegistryVerdict
  pub device_integrity : Bool
  pub location : LocationVerdict
  pub signers : List TrustedLog

pub record Context (tools : Tools) : Type 0 where
  pub proof : Fields
  pub shaped : Shaped
  pub spki : Bytes
  pub key : tools.node.Key
  pub hash : Bytes
  pub evidence : Evidence

absent_label : Text → Label → Fields → List Label
absent_label key label proof = if has_key key proof then [] else label ∷ []

-- A token and a verified anchor that disagree: the token does not hold.
reconcile : TimestampVerdict → AnchorVerdict → TimestampVerdict × List Label
reconcile (stamped gen from to) (anchor_holds (some block)) =
    if ltb_ℤ block gen || (ltb_ℤ block from || ltb_ℤ to block)
    then (no_timestamp, Label.no_trusted_time ∷ Label.timestamp_evidence_invalid ∷ [])
    else (stamped gen from to, [])
reconcile timestamp _ = (timestamp, [])

clock_labels : Option ℤ → List Label
clock_labels none = Label.capture_time_not_declared ∷ []
clock_labels (some clock) = []

gen_time_of : TimestampVerdict → Option ℤ
gen_time_of no_timestamp = none
gen_time_of (stamped gen from to) = some gen

is_pseudonymous : Fields → Bool
is_pseudonymous proof =
    elim (do policy ← obj_of (member (text "policy") proof); member (text "pseudonymous") policy) [
      | some (bool true) ↦ true
      | _ ↦ false
    ]

-- The bits 1 and 2 of the footer's flags.
flags_labels : Option ℕ → Fields → List Label
unfolding is_pseudonymous
flags_labels none proof = []
flags_labels (some flags) proof =
    let expected =
      (if has_key (text "segments") proof then 2 else 0)
      + (if is_pseudonymous proof then 4 else 0) in
    if flags / 2 % 4 * 2 == expected then [] else Label.flags_disagree ∷ []

-- The first item of a chain.
first_item : Option Json → Option Json
first_item chain = do items ← items_of chain; elim items [ nil ↦ none | cons leaf r ↦ some leaf ]

unfoldable pub in_both : List ℤ → List ℤ → List ℤ
in_both [] other = []
in_both (i ∷ is) other = let rest = in_both is other in if has_index i other then i ∷ rest else rest

module _ (tools : Tools) where
  open tools use {node, certificates, decoders}
  open tools.node use {Key, from_base64url, sha256}
  open tools.certificates use {leaf_spki}

  -- The attestation leaf, when there is one that can be read, has the signing key.
  leaf_agrees : Fields → Bytes → Bool
  unfolding first_item
  leaf_agrees proof spki =
      elim (do leaf ← first_item (member (text "attestation") proof); leaf_spki leaf) [
        | none ↦ true
        | some key ↦ eq_bytes key spki
      ]

  -- The checks of the core's signature and of the key. `none` is *tampered*.
  unfoldable pub signed_core : Fields → Shaped → Option Key
  unfolding leaf_agrees
  signed_core proof shaped =
      let spki = from_base64url shaped.sig_pub in
      let signature = from_base64url shaped.sig_value in
      do
        key ← public_key_from_spki node spki
        if eq_bytes shaped.sig_alg (text "ES256")
              && (length signature == 64
                  && (verify_es256 node (core_bytes proof) signature key
                      && (eq_bytes shaped.key_id (key_id node spki) && leaf_agrees proof spki)))
            then some key
            else none

  -- The attachments, in the order of the source.
  unfoldable pub gather :
      Fields → Bytes → Bytes → List Label → Option ℕ → Input tools → Shaped → Option Evidence
  unfolding absent_label reconcile clock_labels gen_time_of flags_labels
  gather proof hash spki labels flags input shaped = do
    let absent =
        absent_label (text "attestation") Label.origin_not_attested proof
        ++ absent_label (text "watermark") Label.no_watermark proof
    let (anchor, l1) = anchor_outcome node proof hash input.chain_read
    let (token, l2) = timestamp_outcome node certificates proof hash input.trust
    let (timestamp, l3) = reconcile token anchor
    let clock = device_clock_of proof
    let l4 = clock_labels clock
    (registry, l5) ←
        registry_outcome node proof shaped.key_id spki input.trust.logs clock
          (gen_time_of timestamp)
    let signers = signing_logs proof input.trust.logs
    let (integrity, l6) = integrity_outcome node proof shaped.platform hash signers
    let (location, l7) = location_outcome node proof hash signers
    let l8 = (if has_key (text "watermark") proof then Label.watermark_not_evaluated ∷ [] else [])
    some (record {
      labels =
          labels
          ++ (absent
              ++ (l1
                  ++ (l2
                      ++ (l3
                          ++ (l4 ++ (l5 ++ (l6 ++ (l7 ++ (l8 ++ flags_labels flags proof)))))))));
      anchor = anchor;
      timestamp = timestamp;
      registry = registry;
      device_integrity = integrity;
      location = location;
      signers = signers;
    })

  -- A red verdict, with the segments that are known.
  unfoldable pub red_verdict : Fields → Bytes → Option (List ℤ) → Option Bool → Verdict
  red_verdict proof hash segments frames = record {
    outcome = tampered_proof;
    labels = [];
    not_evaluated = not_evaluated_keys proof;
    core_hash = some hash;
    segments = segments;
    level = none;
    location = none;
    frames_name_capture = frames;
    proof_source = none;
  }

  -- A verdict without a level.
  unfoldable pub clip_verdict :
      Context tools → Outcome → List Label → List ℤ → Option Bool → Verdict
  clip_verdict c outcome labels segments frames = record {
    outcome = outcome;
    labels = sort_labels labels;
    not_evaluated = not_evaluated_keys c.proof;
    core_hash = some c.hash;
    segments = some segments;
    level = none;
    location = some c.evidence.location;
    frames_name_capture = frames;
    proof_source = none;
  }

  unfoldable pub claims_of : Context tools → Claims
  claims_of c = record {
    platform = c.shaped.platform;
    secure_hw = c.shaped.secure_hw;
    key_id = c.shaped.key_id;
    clock = device_clock_of c.proof;
    attestation = items_of (member (text "attestation") c.proof);
    attestation_status = obj_of (member (text "attestation_status") c.proof);
  }

  unfoldable pub authentic_verdict :
      Context tools → Input tools → List Label → Option (List ℤ) → Option Bool → Option Verdict
  unfolding claims_of
  authentic_verdict c input labels segments frames = do
    reached ←
        level node certificates (claims_of c) c.spki c.hash labels input.trust c.evidence.signers
          input.clock c.evidence.registry input.key_status c.evidence.anchor c.evidence.timestamp
          c.evidence.device_integrity
    some (record {
      outcome = authentic;
      labels = reached.labels;
      not_evaluated = not_evaluated_keys c.proof;
      core_hash = some c.hash;
      segments = segments;
      level = some reached;
      location = some c.evidence.location;
      frames_name_capture = frames;
      proof_source = none;
    })
