-- ===== src/Verify/Verdicts.antt =====
-- tools/src/verify.ts: the verdicts on each kind of evidence, and the trust that they rest on. The checks of
-- certificates and time-stamp tokens are those of tools/src/attestation.ts and tools/src/rfc3161.ts, as
-- functions.
use vcap_spec.Prelude.{
  Bool, true, false, ◌&&◌, Option, none, some, List, [], ◌∷◌, if◌then◌else◌, ℤ, pos, negsuc, leb_ℤ,
}
use vcap_spec.Bytes.{Bytes}
use vcap_spec.Text.{Text}
use vcap_spec.Json.{Json, Items}
use vcap_spec.Registry.Logs.{TrustedLog}

-- A `Date`, by its milliseconds; `none` is an invalid one.
abbrev pub Date : Type 0
Date = Option ℤ

-- `new Date(ms)`: out of range, it is invalid.
unfoldable pub new_date : ℤ → Date
new_date ms =
    if leb_ℤ (negsuc 8639999999999999) ms && leb_ℤ ms (pos 8640000000000000) then some ms else none

-- What `validateChain` says of a chain.
pub record ChainOutcome : Type 0 where
  pub proven : Text
  pub evidence_invalid : Bool
  pub expired_since : Bool
  pub serials : List Text
  pub app_signing_digests : Option (List Text)

pub data TimestampVerdict : Type 0 where
  no_timestamp : TimestampVerdict
  stamped : (gen_time valid_from valid_to : ℤ) → TimestampVerdict

pub data AnchorVerdict : Type 0 where
  no_anchor : AnchorVerdict
  anchor_holds : (block_time : Option ℤ) → AnchorVerdict

pub data RegistryVerdict : Type 0 where
  not_registered : RegistryVerdict
  registered :
      (secure_hw : Text) (before_capture : Bool) (app_signing_digests : Option (List Text))
      → RegistryVerdict

-- The certificates: `validateChain`, `leafSpki`, and `verifyTimestampToken`.
pub record Certificates : Type 1 where
  pub Root : Type 0
  pub validate_chain : Items → Bytes → List Root → Date → Date → ChainOutcome
  pub leaf_spki : Json → Option Bytes
  pub verify_timestamp_token : Bytes → Bytes → List Root → TimestampVerdict

-- `trust`, with an absent bundle as an empty one.
pub record Trust (certificates : Certificates) : Type 0 where
  pub attestation_roots : List certificates.Root
  pub logs : List TrustedLog
  pub tsa_roots : List certificates.Root

unfoldable pub is_empty {ℓ} : {A : Type ℓ} → List A → Bool
is_empty [] = true
is_empty (x ∷ xs) = false

unfoldable pub is_some {ℓ} : {A : Type ℓ} → Option A → Bool
is_some none = false
is_some (some a) = true
