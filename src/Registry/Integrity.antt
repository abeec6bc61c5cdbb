-- ===== src/Registry/Integrity.antt =====
-- `verifyIntegrity` of tools/src/registry.ts. The attachment is the JSON object that is signed.
use vcap_spec.Prelude.{
  ◌+◌, ◌^◌, ◌≡◌, ◌↔◌, Bool, true, false, not, Option, none, some, List, [], ◌∷◌, ltb, arith,
  if◌then◌else◌, ℤ, pos, negsuc, Option-cases, inl, inr,
}
use vcap_spec.Bytes.{Bytes}
use vcap_spec.Text.{Text, text}
use vcap_spec.Json.{Json, num, str, Fields, member}
use vcap_spec.Node.{Node}
use vcap_spec.Registry.Messages.{integrity_message}
use vcap_spec.Registry.Logs.{TrustedLog, known, any_signed, any_signed_iff, SignedBy}

abbrev pub integrity_verdicts : List Text
integrity_verdicts = text "hardware" ∷ text "basic" ∷ text "unevaluated" ∷ text "failed" ∷ []

abbrev pub integrity_sources : List Text
integrity_sources = text "playIntegrity" ∷ text "appAttest" ∷ text "none" ∷ []

pub data IntegrityReason : Type 0 where
  unknown_source not_base64url not_signed unknown_verdict not_an_integer : IntegrityReason

pub data IntegrityOutcome : Type 0 where
  integrity_ok : (source verdict : Text) (evaluated_at : ℤ) → IntegrityOutcome
  integrity_refused : (reason : IntegrityReason) (trusted evaluated : Bool) → IntegrityOutcome

-- `Number.isSafeInteger`, with the number.
unfoldable pub safe_integer : Option Json → Option ℤ
safe_integer (some (num (pos n))) = if ltb n (2 ^ 53) then some (pos n) else none
safe_integer (some (num (negsuc n))) = if ltb (n + 1) (2 ^ 53) then some (negsuc n) else none
safe_integer _ = none

-- The last two checks, of a statement that is signed.
signed_content : Text → Fields → IntegrityOutcome
signed_content source body = elim (known integrity_verdicts (member (text "verdict") body)) [
  | none ↦ integrity_refused unknown_verdict true true
  | some verdict ↦ elim (safe_integer (member (text "evaluated_at") body)) [
    | none ↦ integrity_refused not_an_integer true true
    | some at ↦ integrity_ok source verdict at
  ]
]

module _ (node : Node) where
  open node use {from_base64url, from_value}

  -- `Buffer.from(attachment.sig, 'base64url')`; it throws without the member.
  unfoldable pub decode_sig : Option Json → Option Bytes
  decode_sig (some (str t)) = some (from_base64url t)
  decode_sig (some value) = from_value value
  decode_sig none = none

  unfoldable pub verify_integrity : Fields → Bytes → List TrustedLog → IntegrityOutcome
  unfolding signed_content
  verify_integrity body core_hash logs =
      elim (known integrity_sources (member (text "source") body)) [
        | none ↦ integrity_refused unknown_source false false
        | some source ↦ elim (decode_sig (member (text "sig") body)) [
          | none ↦ integrity_refused not_base64url true true
          | some signature ↦
              if not (any_signed node logs (integrity_message core_hash body) signature)
              then integrity_refused not_signed false true
              else signed_content source body
        ]
      ]

  -- What an accepted statement has.
  pub record Relayed (body : Fields) (core_hash : Bytes) (logs : List TrustedLog)
      (source verdict : Text) (at : ℤ) : Type 0 where
    pub known_source : known integrity_sources (member (text "source") body) ≡ some source
    pub signature : Bytes
    pub decoded : decode_sig (member (text "sig") body) ≡ some signature
    pub signed : SignedBy node logs (integrity_message core_hash body) signature
    pub known_verdict : known integrity_verdicts (member (text "verdict") body) ≡ some verdict
    pub at_integer : safe_integer (member (text "evaluated_at") body) ≡ some at

  -- A relayed verdict is reported exactly if its source and verdict are of the known ones, its time is
  -- a safe integer, and a trusted log with a usable key signed the whole body but `sig`, for this core.
  pub verify_integrity_iff :
      (body : Fields) (core_hash : Bytes) (logs : List TrustedLog) (source verdict : Text) (at : ℤ)
      → (verify_integrity body core_hash logs ≡ integrity_ok source verdict at)
        ↔ Relayed body core_hash logs source verdict at
  unfolding verify_integrity signed_content
  verify_integrity_iff body core_hash logs source verdict at = (relayed, reported)
    where
      relayed :
          verify_integrity body core_hash logs ≡ integrity_ok source verdict at
          → Relayed body core_hash logs source verdict at
      relayed h = elim (Option-cases (known integrity_sources (member (text "source") body))) [
        | inl e ↦ absurd (ground (arith, e))
        | inr (s, e1) ↦ elim (Option-cases (decode_sig (member (text "sig") body))) [
          | inl e ↦ absurd (ground (arith, e1, e))
          | inr (g, e2) ↦
              elim (Option-cases (known integrity_verdicts (member (text "verdict") body))) [
                | inl e ↦ absurd (ground (arith, e1, e2, e))
                | inr (v, e3) ↦
                    elim (Option-cases (safe_integer (member (text "evaluated_at") body))) [
                      | inl e ↦ absurd (ground (arith, e1, e2, e3, e))
                      | inr (t, e4) ↦ record {
                        known_source = ground (arith, e1, e2, e3, e4);
                        signature = g;
                        decoded = e2;
                        signed =
                            (any_signed_iff node logs (integrity_message core_hash body) g).0
                              (ground (arith, e1, e2, e3, e4));
                        known_verdict = ground (arith, e1, e2, e3, e4);
                        at_integer = ground (arith, e1, e2, e3, e4);
                      }
                    ]
              ]
        ]
      ]

      reported :
          Relayed body core_hash logs source verdict at
          → verify_integrity body core_hash logs ≡ integrity_ok source verdict at
      reported r = ground (
        arith,
        r.known_source,
        r.decoded,
        (any_signed_iff node logs (integrity_message core_hash body) r.signature).1 r.signed,
        r.known_verdict,
        r.at_integer,
      )
