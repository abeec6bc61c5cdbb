-- ===== src/Registry/Logs.antt =====
-- The logs a verifier trusts (tools/src/trust.ts), and the search of them in tools/src/registry.ts.
use vcap_spec.Prelude.{
  ◌≡◌, refl, ◌↔◌, Bool, true, false, ◌||◌, Option, none, some, List, [], ◌∷◌, arith, if◌then◌else◌,
  Option-cases, inl, inr, Bool-cases,
}
use mathlib.Core.List.{Memᴰ}
use vcap_spec.Bytes.{Bytes, eq_bytes}
use vcap_spec.Text.{Text}
use vcap_spec.Node.{Node}
use vcap_spec.Core.{public_key_from_spki, verify_es256}
use vcap_spec.Json.{Json, str}

pub record TrustedLog : Type 0 where
  pub log_id : Text
  pub spki : Text
  pub app_signing_digests : Option (List Text)

-- `logs.find((candidate) => candidate.log_id === id)`.
unfoldable pub find_log : Text → List TrustedLog → Option TrustedLog
find_log id [] = none
find_log id (log ∷ logs) = if eq_bytes log.log_id id then some log else find_log id logs

-- The membership test of a `Set` of strings: the string itself, when it is one of them.
unfoldable pub has : List Text → Text → Bool
has [] t = false
has (s ∷ set) t = eq_bytes s t || has set t

unfoldable pub known : List Text → Option Json → Option Text
known set (some (str t)) = if has set t then some t else none
known set _ = none

module _ (node : Node) where
  open node use {Key, from_base64}

  -- `publicKeyFromSpki(Buffer.from(log.spki, 'base64'))`.
  unfoldable pub log_key : TrustedLog → Option Key
  log_key log = public_key_from_spki node (from_base64 log.spki)

  accepts : Bytes → Bytes → Option Key → Bool
  accepts message signature none = false
  accepts message signature (some key) = verify_es256 node message signature key

  -- `logs.some((log) => key !== null && verifyEs256(message, signature, key))`.
  unfoldable pub any_signed : List TrustedLog → Bytes → Bytes → Bool
  unfolding accepts
  any_signed [] message signature = false
  any_signed (log ∷ logs) message signature =
      accepts message signature (log_key log) || any_signed logs message signature

  -- One of the logs has a usable key, and its signature on the message is good.
  pub record SignedBy (logs : List TrustedLog) (message signature : Bytes) : Type 0 where
    pub log : TrustedLog
    pub trusted : Memᴰ log logs
    pub key : Key
    pub usable : log_key log ≡ some key
    pub good : verify_es256 node message signature key ≡ true

  pub any_signed_iff :
      (logs : List TrustedLog) (message signature : Bytes)
      → (any_signed logs message signature ≡ true) ↔ SignedBy logs message signature
  unfolding any_signed accepts
  any_signed_iff logs message signature = (found logs, signed_here logs)
    where
      found :
          (ls : List TrustedLog)
          → any_signed ls message signature ≡ true
          → SignedBy ls message signature
      found [] h = absurd (ground arith)
      found (log ∷ ls) h = elim (Option-cases (log_key log)) [
        | inl e ↦
            let r = found ls (ground (arith, e)) in
            record {
              log = r.log;
              trusted = Memᴰ.tail r.trusted;
              key = r.key;
              usable = r.usable;
              good = r.good;
            }
        | inr (k, e) ↦ elim (Bool-cases (verify_es256 node message signature k)) [
          | inl g ↦ record { log = log; trusted = Memᴰ.head refl; key = k; usable = e; good = g }
          | inr g ↦
              let r = found ls (ground (arith, e, g)) in
              record {
                log = r.log;
                trusted = Memᴰ.tail r.trusted;
                key = r.key;
                usable = r.usable;
                good = r.good;
              }
        ]
      ]

      at_key :
          (ls : List TrustedLog) (log : TrustedLog) (k : Key)
          → Memᴰ log ls
          → log_key log ≡ some k
          → verify_es256 node message signature k ≡ true
          → any_signed ls message signature ≡ true
      at_key [] log k m e g = elim m [ ]
      at_key (l ∷ ls) log k (Memᴰ.head eq) e g =
          let e' : log_key l ≡ some k = rw (← eq, e) refl in rw (e', g) refl
      at_key (l ∷ ls) log k (Memᴰ.tail m) e g = ground (arith, at_key ls log k m e g)

      signed_here :
          (ls : List TrustedLog)
          → SignedBy ls message signature
          → any_signed ls message signature ≡ true
      signed_here ls s = at_key ls s.log s.key s.trusted s.usable s.good
