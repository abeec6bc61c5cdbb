-- ===== src/Registry/Status.antt =====
-- `verifyKeyStatus` of tools/src/registry.ts. `none` is an error thrown by `u64be`; base64 decoding
-- of a string never throws, so the `catch` of the source is not reached.
pub mod Unwritable
use vcap_spec.Prelude.{
  ℕ, ◌≡◌, refl, ◌↔◌, true, not, Option, none, some, List, leb, arith, if◌then◌else◌, ℤ, pos, negsuc,
  eqb_ℤ, eqb_ℤ_iff, Option-cases, inl, inr,
}
use vcap_spec.Bytes.{Bytes}
use vcap_spec.Text.{Text}
use vcap_spec.Node.{Node}
use vcap_spec.Core.{verify_es256}
use vcap_spec.Registry.Messages.{key_status_message}
use vcap_spec.Registry.Logs.{TrustedLog, find_log, log_key}

pub record KeyStatusStatement : Type 0 where
  pub log_id : Text
  pub at : ℤ
  pub tree_size : ℤ
  pub status : ℤ
  pub signature : Text

pub data KeyStatusReason : Type 0 where
  not_trusted unusable_key other_instant unknown_status signature_invalid : KeyStatusReason

pub data KeyStatusOutcome : Type 0 where
  status_ok : ℕ → KeyStatusOutcome
  status_refused : KeyStatusReason → KeyStatusOutcome

-- 0, 1 or 2.
unfoldable pub status_code : ℤ → Option ℕ
status_code (pos n) = if leb n 2 then some n else none
status_code (negsuc n) = none

module _ (node : Node) where
  open node use {Key, from_base64url}

  unfoldable pub signed_status : KeyStatusStatement → Bytes → ℕ → Key → Option KeyStatusOutcome
  signed_status statement key_id status key =
      elim (key_status_message key_id statement.at statement.tree_size status) [
        | none ↦ none
        | some message ↦
            if verify_es256 node message (from_base64url statement.signature) key
            then some (status_ok status)
            else some (status_refused signature_invalid)
      ]

  unfoldable pub with_log : KeyStatusStatement → Bytes → ℤ → TrustedLog → Option KeyStatusOutcome
  with_log statement key_id at log = elim (log_key node log) [
    | none ↦ some (status_refused unusable_key)
    | some key ↦
        if not (eqb_ℤ statement.at at)
        then some (status_refused other_instant)
        else elim (status_code statement.status) [
          | none ↦ some (status_refused unknown_status)
          | some status ↦ signed_status statement key_id status key
        ]
  ]

  -- The instant `at` is `at.getTime()`.
  unfoldable pub verify_key_status :
      KeyStatusStatement → Bytes → ℤ → List TrustedLog → Option KeyStatusOutcome
  unfolding with_log signed_status
  verify_key_status statement key_id at logs = elim (find_log statement.log_id logs) [
    | none ↦ some (status_refused not_trusted)
    | some log ↦ with_log statement key_id at log
  ]

  -- What an accepted statement has.
  pub record Answers (statement : KeyStatusStatement) (key_id : Bytes) (at : ℤ)
      (logs : List TrustedLog) (status : ℕ) : Type 0 where
    pub log : TrustedLog
    pub trusted : find_log statement.log_id logs ≡ some log
    pub key : Key
    pub usable : log_key node log ≡ some key
    pub this_instant : statement.at ≡ at
    pub code : status_code statement.status ≡ some status
    pub message : Bytes
    pub built : key_status_message key_id statement.at statement.tree_size status ≡ some message
    pub signed : verify_es256 node message (from_base64url statement.signature) key ≡ true

  -- A status is reported exactly if the log that the statement names is trusted and its key usable,
  -- the statement is about the instant asked for, its code is 0, 1 or 2 and is the one reported, and
  -- the log's key signed the message on this key id, instant, tree size and code.
  pub verify_key_status_iff :
      (statement : KeyStatusStatement) (key_id : Bytes) (at : ℤ) (logs : List TrustedLog)
      (status : ℕ)
      → (verify_key_status statement key_id at logs ≡ some (status_ok status))
        ↔ Answers statement key_id at logs status
  unfolding verify_key_status with_log signed_status
  verify_key_status_iff statement key_id at logs status = (answers, reported)
    where
      answers :
          verify_key_status statement key_id at logs ≡ some (status_ok status)
          → Answers statement key_id at logs status
      answers h = elim (Option-cases (find_log statement.log_id logs)) [
        | inl e ↦ absurd (ground (arith, e))
        | inr (log, e1) ↦ elim (Option-cases (log_key node log)) [
          | inl e ↦ absurd (ground (arith, e1, e))
          | inr (key, e2) ↦ elim (Option-cases (status_code statement.status)) [
            | inl e ↦ absurd (ground (arith, e1, e2, e))
            | inr (code, e3) ↦
                elim (Option-cases
                  (key_status_message key_id statement.at statement.tree_size code)) [
                    | inl e ↦ absurd (ground (arith, e1, e2, e3, e))
                    | inr (m, e4) ↦
                        let c : code ≡ status = ground (arith, e1, e2, e3, e4) in
                        record {
                          log = log;
                          trusted = e1;
                          key = key;
                          usable = e2;
                          this_instant = (eqb_ℤ_iff _ _).0 (ground (arith, e1, e2, e3, e4));
                          code = rw (← c, e3) refl;
                          message = m;
                          built = rw (← c, e4) refl;
                          signed = ground (arith, e1, e2, e3, e4);
                        }
                  ]
          ]
        ]
      ]

      reported :
          Answers statement key_id at logs status
          → verify_key_status statement key_id at logs ≡ some (status_ok status)
      reported a = ground (
        arith,
        a.trusted,
        a.usable,
        (eqb_ℤ_iff statement.at at).1 a.this_instant,
        a.code,
        a.built,
        a.signed,
      )
