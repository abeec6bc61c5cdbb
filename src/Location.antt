-- ===== src/Location.antt =====
-- tools/src/location.ts: what a registry says about the place of a capture. The attachment is a JSON
-- object.
pub mod Corroborated
mod Tests
use vcap_spec.Prelude.{
  ℕ, zero, suc, Bool, true, false, not, ◌&&◌, Option, none, some, List, [], ◌∷◌, ◌++◌,
  if◌then◌else◌, ℤ, pos, negsuc,
}
use vcap_spec.Bytes.{Bytes, eq_bytes}
use vcap_spec.Text.{Text, text}
use vcap_spec.Json.{Json, num, obj, Fields, member, jcs}
use vcap_spec.Node.{Node}
use vcap_spec.Registry.Messages.{without_sig}
use vcap_spec.Registry.Logs.{TrustedLog, known, any_signed}
use vcap_spec.Registry.Integrity.{decode_sig}

abbrev pub location_separator : Bytes
location_separator = text "vcap/1.0/location"

abbrev pub corroboration_methods : List Text
corroboration_methods =
    text "camara-location-verification"
    ∷ text "camara-number-verification"
    ∷ text "camara-sim-swap"
    ∷ []

abbrev pub corroboration_results : List Text
corroboration_results = text "match" ∷ text "no-match" ∷ text "unknown" ∷ []

unfoldable pub corroboration_message : Bytes → Fields → Bytes
corroboration_message core_hash attachment =
    location_separator ++ (core_hash ++ jcs (obj (without_sig attachment)))

pub data CorroborationReason : Type 0 where
  no_log_key unknown_method not_base64url not_signed unknown_result at_not_integer no_radius :
      CorroborationReason

pub data CorroborationOutcome : Type 0 where
  corroborated : (method result : Text) (radius_m : Option ℤ) → CorroborationOutcome
  refused : (reason : CorroborationReason) (evaluated trusted : Bool) → CorroborationOutcome

-- The value, when `Number.isInteger` holds of it.
unfoldable pub integer : Option Json → Option ℤ
integer (some (num n)) = some n
integer _ = none

-- Not an integer, or less than 1.
unfoldable pub no_zone : Option ℤ → Bool
no_zone (some (pos (suc n))) = false
no_zone _ = true

-- The checks of a statement that is signed.
signed_content : Text → Fields → CorroborationOutcome
signed_content method attachment =
    elim (known corroboration_results (member (text "result") attachment)) [
      | none ↦ refused unknown_result true true
      | some result ↦ elim (integer (member (text "at") attachment)) [
        | none ↦ refused at_not_integer true true
        | some at ↦
            let radius = integer (member (text "radius_m") attachment) in
            if eq_bytes method (text "camara-location-verification") && no_zone radius
            then refused no_radius true true
            else corroborated method result radius
      ]
    ]

module _ (node : Node) where
  -- The checks from the method on.
  check_method : Fields → Bytes → List TrustedLog → CorroborationOutcome
  unfolding signed_content
  check_method attachment core_hash logs =
      elim (known corroboration_methods (member (text "method") attachment)) [
        | none ↦ refused unknown_method false false
        | some method ↦ elim (decode_sig node (member (text "sig") attachment)) [
          | none ↦ refused not_base64url true false
          | some signature ↦
              if not (any_signed node logs (corroboration_message core_hash attachment) signature)
              then refused not_signed true false
              else signed_content method attachment
        ]
      ]

  unfoldable pub verify_location_corroboration :
      Fields → Bytes → List TrustedLog → CorroborationOutcome
  unfolding check_method
  verify_location_corroboration attachment core_hash [] = refused no_log_key false false
  verify_location_corroboration attachment core_hash (log ∷ logs) =
      check_method attachment core_hash (log ∷ logs)
