-- ===== src/Verify/Ceiling.antt =====
-- `level` of tools/src/verify.ts: what the evidence proves at the proven instant, and the ceiling. Each
-- block of the source is a function that gives the labels it pushes. `none` is an error thrown.
pub mod Intact
pub mod Green
pub mod Thrown
use vcap_spec.Prelude.{
  ℕ, Bool, true, false, not, ◌&&◌, ◌||◌, Option, none, some, List, [], ◌∷◌, ◌++◌, ltb, ◌==◌, any,
  all, if◌then◌else◌, ◌>>=◌, ℤ, ltb_ℤ,
}
use vcap_spec.Bytes.{Bytes, eq_bytes}
use vcap_spec.Text.{Text, text}
use vcap_spec.Json.{Items, Fields}
use vcap_spec.Node.{Node}
use vcap_spec.Registry.Logs.{TrustedLog, has}
use vcap_spec.Registry.Status.{
  KeyStatusStatement, KeyStatusOutcome, status_ok, status_refused, verify_key_status,
}
use vcap_spec.Verify.Label
use vcap_spec.Verify.Label.{Label, includes, remove_first, sort_labels}
use vcap_spec.Verify.Verdicts.{
  Date, ChainOutcome, TimestampVerdict, AnchorVerdict, RegistryVerdict, not_registered, registered,
  Certificates, Trust, is_empty,
}
use vcap_spec.Verify.Level.{
  Source, device_clock, Ceiling, green, amber, red, LevelVerdict, rank, claimed_level, instant_of,
  is_trusted, Revoked, FrozenStatus, not_checked, checked, frozen_revocation,
}

-- What the level reads of the proof.
pub record Claims : Type 0 where
  pub platform : Text
  pub secure_hw : Text
  pub key_id : Text
  pub clock : Option ℤ
  pub attestation : Option Items
  pub attestation_status : Option Fields

-- `checked.status` is 2, 0, or 1; a statement that does not hold up is no check.
status_labels : KeyStatusOutcome → List Label
status_labels (status_ok status) =
    if status == 2
    then Label.key_revoked ∷ []
    else if status == 0
    then Label.revocation_not_checked ∷ []
    else []
status_labels (status_refused reason) = Label.revocation_not_checked ∷ []

-- The loop over a checked snapshot: every revocation is after the trusted instant.
revoked_after : Option ℤ → Revoked → Bool
revoked_after none r = false
revoked_after (some t) r = elim r.revoked_at [
  | none ↦ false
  | some at ↦ not r.retroactive && ltb_ℤ t at
]

-- What a block gives: the proven level, and the labels it pushes.
abbrev pub Step : Type 0
Step = Text × List Label

frozen_step : FrozenStatus → Option ℤ → Text → Step
unfolding revoked_after
frozen_step not_checked instant proven = (proven, Label.chain_revocation_not_checked ∷ [])
frozen_step (checked [] incomplete) instant proven =
    (proven, if incomplete then Label.chain_revocation_not_checked ∷ [] else [])
frozen_step (checked (r ∷ rs) incomplete) instant proven =
    if all (revoked_after instant) (r ∷ rs)
    then (proven, Label.attestation_key_revoked_after ∷ [])
    else (text "none", Label.attestation_key_revoked ∷ [])

unfoldable pub above : Text → Text → Bool
above x y = ltb (rank y) (rank x)

is_device_clock : Source → Bool
is_device_clock device_clock = true
is_device_clock _ = false

-- The chain's level, when it is evaluated.
chain_step : Bool → Source → Option ChainOutcome → Step
unfolding is_device_clock
chain_step no_roots source none = (text "none", [])
chain_step no_roots source (some chain) =
    if no_roots then (text "none", Label.attestation_not_evaluated ∷ []) else (
      chain.proven,
      (if eq_bytes chain.proven (text "none")
            then Label.origin_not_attested
              ∷ (if chain.evidence_invalid then Label.attestation_evidence_invalid ∷ [] else [])
            else [])
          ++ (if chain.expired_since && is_device_clock source
              then Label.chain_expired ∷ []
              else []),
    )

-- Whether a chain is evidence.
chain_holds : Bool → Option ChainOutcome → Bool
chain_holds no_roots none = false
chain_holds no_roots (some chain) = not no_roots && not chain.evidence_invalid

-- The registry's word for an iOS key.
enclave : Text → RegistryVerdict → Option ChainOutcome → Bool
enclave platform (registered secure_hw before digests) none =
    eq_bytes platform (text "ios") && eq_bytes secure_hw (text "secureEnclave")
enclave platform _ _ = false

-- The level that the registry's record gives, and its label in place of the absence.
from_registry : Bool → Text → List Label → Step
from_registry true proven labels = (
  text "secureEnclave",
  remove_first Label.origin_not_attested (labels ++ Label.level_from_registry ∷ []),
)
from_registry false proven labels = (proven, labels)

registry_above : RegistryVerdict → Text → Bool
registry_above not_registered attested = false
registry_above (registered secure_hw before digests) attested = above secure_hw attested

claimed_above_registry : Text → Text → RegistryVerdict → Bool
claimed_above_registry platform claimed not_registered = false
claimed_above_registry platform claimed (registered secure_hw before digests) =
    eq_bytes platform (text "ios") && above claimed secure_hw

inconsistent : Text → Text → RegistryVerdict → Bool → Text → Bool
unfolding registry_above claimed_above_registry
inconsistent platform claimed registry holds attested =
    holds && above claimed attested
    || (holds && registry_above registry attested
        || claimed_above_registry platform claimed registry)

-- The app that created the key, against those that the log admits.
app_labels : RegistryVerdict → Option ChainOutcome → List Label
app_labels (registered secure_hw before (some (d ∷ ds))) (some chain) =
    elim chain.app_signing_digests [
      | none ↦ Label.app_not_checked ∷ []
      | some carried ↦ if any (has (d ∷ ds)) carried then [] else Label.app_not_admitted ∷ []
    ]
app_labels (registered secure_hw before _) _ = Label.app_not_checked ∷ []
app_labels not_registered _ = []

attested_level : Option ChainOutcome → Text
attested_level none = text "none"
attested_level (some chain) = chain.proven

abbrev pub amber_causes : List Label
amber_causes =
    Label.inconsistent_claim ∷ Label.chain_revocation_not_checked ∷ Label.revocation_not_checked
    ∷ Label.chain_expired ∷ Label.registry_evidence_invalid ∷ Label.app_not_checked
    ∷ Label.app_not_admitted ∷ Label.integrity_failed ∷ Label.integrity_not_proven
    ∷ Label.presentation_differs ∷ Label.timing_differs ∷ []

pub before_capture : RegistryVerdict → Bool
before_capture not_registered = false
before_capture (registered secure_hw before digests) = before

unfoldable pub ceiling_of : Text → RegistryVerdict → Source → List Label → Ceiling
unfolding before_capture
ceiling_of proven registry source labels =
    if includes Label.attestation_key_revoked labels || includes Label.key_revoked labels
    then red
    else if not (eq_bytes proven (text "none"))
        && (before_capture registry
            && (is_trusted source && not (any (λ cause. includes cause labels) amber_causes)))
    then green
    else amber

module _ (node : Node) (certificates : Certificates) where
  open node use {from_base64url}
  open certificates use {validate_chain}

  -- The online key status. An invalid date is the instant of no statement.
  unfoldable pub key_status_labels :
      RegistryVerdict
      → Option KeyStatusStatement
      → Text
      → Date
      → List TrustedLog
      → Option (List Label)
  unfolding status_labels
  key_status_labels not_registered statement key_id at signers = some []
  key_status_labels (registered h b d) none key_id at signers =
      some (Label.revocation_not_checked ∷ [])
  key_status_labels (registered h b d) (some statement) key_id none signers =
      some (Label.revocation_not_checked ∷ [])
  key_status_labels (registered h b d) (some statement) key_id (some at) signers = do
    outcome ← verify_key_status node statement (from_base64url key_id) at signers
    some (status_labels outcome)

  chain_of : Claims → Bytes → Trust certificates → Date → Date → Option ChainOutcome
  chain_of claims spki trust instant now = elim claims.attestation [
    | none ↦ none
    | some chain ↦
        if eq_bytes claims.platform (text "android")
        then some (validate_chain chain spki trust.attestation_roots instant now)
        else none
  ]

  frozen_of : Claims → Bytes → List TrustedLog → Option ChainOutcome → FrozenStatus
  frozen_of claims core_hash signers chain = elim claims.attestation_status [
    | none ↦ not_checked
    | some status ↦
        frozen_revocation node status core_hash signers
          (elim chain [ none ↦ [] | some c ↦ c.serials ])
  ]

  -- The blocks after the chain, on the level it proves and the labels so far.
  settle :
      Claims
      → Bytes
      → List TrustedLog
      → RegistryVerdict
      → Bool
      → Bool
      → ℤ
      → Source
      → Option ChainOutcome
      → Text
      → List Label
      → LevelVerdict
  unfolding frozen_step chain_holds inconsistent app_labels attested_level frozen_of
  settle claims core_hash signers registry device_integrity no_roots instant source chain proven
        labels =
      let holds = chain_holds no_roots chain in
      let (proven2, frozen) =
        (if holds
          then frozen_step (frozen_of claims core_hash signers chain)
              (if is_trusted source then some instant else none) proven
          else (proven, [])) in
      let claimed = claimed_level claims.platform claims.secure_hw in
      let attested = if holds then attested_level chain else text "none" in
      let claim =
        if inconsistent claims.platform claimed registry holds attested
        then Label.inconsistent_claim ∷ []
        else [] in
      let app = if holds then app_labels registry chain else [] in
      let intact =
        if not (eq_bytes proven2 (text "none")) && not device_integrity
        then Label.integrity_not_proven ∷ []
        else [] in
      let all_labels = labels ++ (frozen ++ (claim ++ (app ++ intact))) in
      record {
        claimed = claimed;
        proven = proven2;
        ceiling = ceiling_of proven2 registry source all_labels;
        instant = instant;
        source = source;
        labels = sort_labels all_labels;
      }

  unfoldable pub level :
      Claims
      → Bytes
      → Bytes
      → List Label
      → Trust certificates
      → List TrustedLog
      → Date
      → RegistryVerdict
      → Option KeyStatusStatement
      → AnchorVerdict
      → TimestampVerdict
      → Bool
      → Option LevelVerdict
  unfolding key_status_labels chain_of chain_step enclave from_registry settle
  level claims spki core_hash labels trust signers now registry key_status anchor timestamp
        device_integrity =
      do
        let (instant, source) = instant_of timestamp anchor claims.clock now
        let no_roots = is_empty trust.attestation_roots
        status ←
            key_status_labels registry key_status claims.key_id
              (if is_trusted source then instant else now) signers
        let chain = chain_of claims spki trust instant now
        let (proven, pushed) = chain_step no_roots source chain
        let so_far = labels ++ (status ++ pushed)
        -- `toISOString` throws on an invalid date.
        at ← instant
        let (proven2, all_labels) =
            from_registry (enclave claims.platform registry chain) proven so_far
        some (
            settle claims core_hash signers registry device_integrity no_roots at source chain
              proven2 all_labels)
