-- ===== src/Verify/Evidence.antt =====
-- The evidence of tools/src/verify.ts: what each attachment gives, with the labels it adds.
use vcap_spec.Prelude.{
  ◌>>=◌, ℕ, Bool, true, false, not, ◌&&◌, Option, none, some, List, [], ◌∷◌, ◌++◌, ◌==◌, ltb,
  if◌then◌else◌, ℤ, ltb_ℤ,
}
use vcap_spec.Bytes.{Bytes, eq_bytes}
use vcap_spec.Text.{Text, text}
use vcap_spec.Json.{nil, cons, Fields, member}
use vcap_spec.Node.{Node}
use vcap_spec.Registry.Logs.{TrustedLog, find_log}
use vcap_spec.Registry.Leaf.{RegistryOutcome, registry_ok, registry_refused}
use vcap_spec.Registry.Integrity.{
  IntegrityOutcome, integrity_ok, integrity_refused, verify_integrity,
}
use vcap_spec.Location.{
  CorroborationOutcome, corroborated, refused, verify_location_corroboration, integer,
}
use vcap_spec.Anchor.{AnchorOutcome, ChainRead, anchored, anchor_refused, verify_anchor}
use vcap_spec.Verify.Uncast.{judge_registry}
use vcap_spec.Verify.Label.{Label}
use vcap_spec.Verify.Decode.{str_of, int_of, obj_of, items_of, anchor_attachment}
use vcap_spec.Verify.Verdicts.{
  AnchorVerdict, Certificates, RegistryVerdict, TimestampVerdict, Trust, anchor_holds, is_empty,
  is_some, no_anchor, no_timestamp, not_registered, registered, stamped,
}

-- `time !== null && head > time`.
is_after : ℤ → Option ℤ → Bool
is_after head none = false
is_after head (some time) = ltb_ℤ time head

unfoldable pub named_logs : Text → List TrustedLog → List TrustedLog
named_logs id [] = []
named_logs id (log ∷ logs) =
    let rest = named_logs id logs in if eq_bytes log.log_id id then log ∷ rest else rest

-- The logs that the registry attachment names, or all of them.
or_all : List TrustedLog → List TrustedLog → List TrustedLog
or_all [] logs = logs
or_all (l ∷ ls) logs = l ∷ ls

named_by : Option Text → List TrustedLog → List TrustedLog
named_by none logs = []
named_by (some id) logs = named_logs id logs

unfoldable pub signing_logs : Fields → List TrustedLog → List TrustedLog
unfolding or_all named_by
signing_logs proof logs = elim (obj_of (member (text "registry") proof)) [
  | none ↦ logs
  | some attachment ↦ or_all (named_by (str_of (member (text "log_id") attachment)) logs) logs
]

-- `time.device_clock`.
unfoldable pub device_clock_of : Fields → Option ℤ
device_clock_of proof = elim (obj_of (member (text "time") proof)) [
  | none ↦ none
  | some time ↦ int_of (member (text "device_clock") time)
]

integrity_label : Text → Label
integrity_label verdict =
    if eq_bytes verdict (text "hardware")
    then Label.integrity_hardware
    else if eq_bytes verdict (text "basic")
    then Label.integrity_basic
    else if eq_bytes verdict (text "failed")
    then Label.integrity_failed
    else Label.integrity_unevaluated

-- `PROVES_DEVICE_INTEGRITY.get(source) === platform`.
proves_integrity : Text → Text → Bool
proves_integrity source platform =
    eq_bytes source (text "playIntegrity") && eq_bytes platform (text "android")

of_integrity : Text → IntegrityOutcome → Bool × List Label
unfolding integrity_label proves_integrity
of_integrity platform (integrity_ok source verdict at) = (
  eq_bytes verdict (text "hardware") && proves_integrity source platform,
  integrity_label verdict ∷ [],
)
of_integrity platform (integrity_refused reason trusted evaluated) = (
  false,
  Label.integrity_unevaluated
      ∷ (if trusted && evaluated then Label.integrity_evidence_invalid ∷ [] else []),
)

of_anchor : AnchorOutcome → AnchorVerdict × List Label
of_anchor (anchored on_chain block_time) =
    (anchor_holds block_time, if on_chain then [] else Label.anchoring_not_verified ∷ [])
of_anchor (anchor_refused reason) =
    (no_anchor, Label.not_anchored ∷ Label.anchor_evidence_invalid ∷ [])

-- What a corroboration does to the level: whether it is corroborated, and the labels.
of_corroboration : CorroborationOutcome → Bool × List Label
of_corroboration (corroborated method result radius) =
    if eq_bytes result (text "match")
    then (true, [])
    else if eq_bytes result (text "no-match")
    then (false, Label.location_contradicted ∷ [])
    else (false, [])
of_corroboration (refused reason evaluated trusted) = (
  false,
  (if not evaluated
        then Label.corroboration_not_evaluated
        else if trusted
        then Label.corroboration_evidence_invalid
        else Label.corroboration_not_verified)
      ∷ [],
)

-- `LOCATION_RANK`.
location_rank : Text → ℕ
location_rank level =
    if eq_bytes level (text "declared")
    then 1
    else if eq_bytes level (text "corroborated")
    then 2
    else if eq_bytes level (text "authenticated")
    then 3
    else 0

-- `claim.level`, when it is one of `LOCATION_LEVELS`.
claimed_location : Fields → Text
unfolding location_rank
claimed_location claim = elim (str_of (member (text "level") claim)) [
  | none ↦ text "declared"
  | some level ↦ if location_rank level == 0 then text "declared" else level
]

evidence_listed : Fields → List Label
evidence_listed claim = elim (items_of (member (text "evidence") claim)) [
  | none ↦ []
  | some items ↦ elim items [ nil ↦ [] | cons v r ↦ Label.location_evidence_not_evaluated ∷ [] ]
]

pub record LocationVerdict : Type 0 where
  pub claimed : Text
  pub level : Text

weigh_location : Fields → Bool × List Label → LocationVerdict × List Label
unfolding claimed_location evidence_listed location_rank
weigh_location claim (raised, labels) =
    let claimed = claimed_location claim in
    let level = if raised then text "corroborated" else text "declared" in
    (
      record { claimed = claimed; level = level },
      labels
          ++ (evidence_listed claim
              ++ ((if raised then Label.location_corroborated else Label.location_declared_only)
                  ∷ (if ltb (location_rank level) (location_rank claimed)
                      then Label.location_claimed_above ∷ []
                      else []))),
    )

-- A position is two coordinates.
declares_position : Fields → Bool
declares_position claim = elim (integer (member (text "lat_udeg") claim)) [
  | none ↦ false
  | some lat ↦ elim (integer (member (text "lon_udeg") claim)) [ none ↦ false | some lon ↦ true ]
]

no_position : Option Fields → LocationVerdict × List Label
no_position attachment = (
  record { claimed = text "none"; level = text "none" },
  elim attachment [ none ↦ [] | some a ↦ Label.corroboration_not_evaluated ∷ [] ],
)

module _ (node : Node) where
  open node use {from_base64url}

  -- Whether the device's integrity is proven.
  unfoldable pub integrity_outcome : Fields → Text → Bytes → List TrustedLog → Bool × List Label
  unfolding of_integrity
  integrity_outcome proof platform core_hash signers =
      elim (obj_of (member (text "integrity") proof)) [
        | none ↦ (false, Label.integrity_unevaluated ∷ [])
        | some attachment ↦
            of_integrity platform (verify_integrity node attachment core_hash signers)
      ]

  unfoldable pub anchor_outcome : Fields → Bytes → Option ChainRead → AnchorVerdict × List Label
  unfolding of_anchor
  anchor_outcome proof core_hash read = elim (obj_of (member (text "anchor") proof)) [
    | none ↦ (no_anchor, Label.not_anchored ∷ [])
    | some fs ↦ elim (anchor_attachment fs) [
      | none ↦ (no_anchor, Label.not_anchored ∷ Label.anchor_evidence_invalid ∷ [])
      | some attachment ↦ of_anchor (verify_anchor node attachment core_hash read)
    ]
  ]

  corroboration : Option Fields → Bytes → List TrustedLog → Bool × List Label
  unfolding of_corroboration
  corroboration none core_hash signers = (false, [])
  corroboration (some attachment) core_hash signers =
      of_corroboration (verify_location_corroboration node attachment core_hash signers)

  unfoldable pub location_outcome : Fields → Bytes → List TrustedLog → LocationVerdict × List Label
  unfolding corroboration weigh_location declares_position no_position
  location_outcome proof core_hash signers =
      let attachment = obj_of (member (text "location_corroboration") proof) in
      elim (obj_of (member (text "location") proof)) [
        | none ↦ no_position attachment
        | some claim ↦
            if declares_position claim
            then weigh_location claim (corroboration attachment core_hash signers)
            else no_position attachment
      ]

  -- The tree head, against the declared and the trusted time.
  of_registry :
      Option (List Text) → Option ℤ → Option ℤ → RegistryOutcome → RegistryVerdict × List Label
  of_registry digests device_clock gen_time (registry_ok secure_hw registered_at head) =
      let after_clock = is_after head device_clock in
      let after_token = is_after head gen_time in
      (
        registered secure_hw (is_some device_clock && (not after_clock && not after_token)) digests,
        (if after_clock then Label.registered_after_capture ∷ [] else [])
            ++ (if after_token then Label.registered_after_trusted_time ∷ [] else []),
      )
  of_registry digests device_clock gen_time (registry_refused reason trusted) = (
    not_registered,
    if not trusted
        then Label.log_not_trusted ∷ []
        else Label.key_not_in_log ∷ Label.registry_evidence_invalid ∷ [],
  )

  digests_of : Option TrustedLog → Option (List Text)
  digests_of none = none
  digests_of (some log) = log.app_signing_digests

  -- `none` is that of `judge_registry`.
  unfoldable pub registry_outcome :
      Fields
      → Text
      → Bytes
      → List TrustedLog
      → Option ℤ
      → Option ℤ
      → Option (RegistryVerdict × List Label)
  unfolding of_registry digests_of is_after
  registry_outcome proof key_id spki logs device_clock gen_time =
      elim (obj_of (member (text "registry") proof)) [
        | none ↦ some (not_registered, Label.key_not_in_log ∷ [])
        | some fs ↦ do
          outcome ← judge_registry node fs key_id spki logs
          let log = do id ← str_of (member (text "log_id") fs); find_log id logs
          some (of_registry (digests_of log) device_clock gen_time outcome)
      ]

module _ (node : Node) (certificates : Certificates) where
  open node use {from_base64url}
  open certificates use {verify_timestamp_token}

  of_token : TimestampVerdict → TimestampVerdict × List Label
  of_token no_timestamp =
      (no_timestamp, Label.no_trusted_time ∷ Label.timestamp_evidence_invalid ∷ [])
  of_token (stamped gen_time valid_from valid_to) = (stamped gen_time valid_from valid_to, [])

  unfoldable pub timestamp_outcome :
      Fields → Bytes → Trust certificates → TimestampVerdict × List Label
  unfolding of_token
  timestamp_outcome proof core_hash trust =
      elim (do
        attachment ← obj_of (member (text "timestamp") proof)
        str_of (member (text "tsr") attachment)) [
          | none ↦ (no_timestamp, Label.no_trusted_time ∷ [])
          | some tsr ↦
              if is_empty trust.tsa_roots
              then (no_timestamp, Label.trusted_time_not_evaluated ∷ [])
              else of_token (verify_timestamp_token (from_base64url tsr) core_hash trust.tsa_roots)
        ]
