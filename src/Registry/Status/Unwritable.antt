-- ===== src/Registry/Status/Unwritable.antt =====
-- The errors that `verifyKeyStatus` of tools/src/registry.ts throws.
use vcap_spec.Prelude.{
  ℕ, ◌^◌, ◌<◌, none, some, List, ◌≡◌, refl, ◌↔◌, ◌⊎◌, arith, Option-cases, inl, inr, ℤ, pos, negsuc,
  eqb_ℤ_iff,
}
use vcap_spec.Bytes.{Bytes, write_int, write_uint}
use vcap_spec.Node.{Node}
use vcap_spec.Registry.Logs.{TrustedLog, find_log, log_key}
use vcap_spec.Registry.Messages.{key_status_message}
use vcap_spec.Registry.Status.{
  KeyStatusStatement, status_code, verify_key_status, signed_status, with_log,
}

unfoldable pub IsUint64 : ℤ → Type 0
IsUint64 (pos n) = n < 256 ^ 8
IsUint64 (negsuc n) = ⊥

-- A statement on that instant, of a trusted log with a usable key and with a known code, that no log can
-- have signed: its date or its tree size is no uint64.
pub record Unwritable (node : Node) (logs : List TrustedLog) (at : ℤ)
    (statement : KeyStatusStatement) : Type 0 where
  pub this_instant : statement.at ≡ at
  pub log : TrustedLog
  pub trusted : find_log statement.log_id logs ≡ some log
  pub key : node.Key
  pub usable : log_key node log ≡ some key
  pub status : ℕ
  pub code : status_code statement.status ≡ some status
  pub too_large : (¬ IsUint64 statement.at) ⊎ (¬ IsUint64 statement.tree_size)

write-none_iff : (z : ℤ) → (write_int 8 z ≡ none) ↔ (¬ IsUint64 z)
unfolding write_int write_uint IsUint64
write-none_iff (pos n) = (
  λ h d. absurd (ground (arith, d, h)),
  λ h. elim (Option-cases (write_int 8 (pos n))) [
    | inl e ↦ e
    | inr (x, e) ↦ absurd (h (ground (arith, e)))
  ],
)
write-none_iff (negsuc n) = ((λ _ h. h), (λ _. refl))

message-none_iff :
    (key_id : Bytes) (at size : ℤ) (status : ℕ)
    → (key_status_message key_id at size status ≡ none) ↔ ((¬ IsUint64 at) ⊎ (¬ IsUint64 size))
unfolding key_status_message
message-none_iff key_id at size status = (
  λ h. elim (Option-cases (write_int 8 at)) [
    | inl e ↦ inl ((write-none_iff at).0 e)
    | inr (time, e) ↦ elim (Option-cases (write_int 8 size)) [
      | inl e2 ↦ inr ((write-none_iff size).0 e2)
      | inr (bytes, e2) ↦ absurd (ground (arith, e, e2, h))
    ]
  ],
  λ h. elim h [
    | inl b ↦ let e = (write-none_iff at).1 b in ground (arith, e)
    | inr b ↦
        let e = (write-none_iff size).1 b in
        elim (Option-cases (write_int 8 at)) [
          | inl e1 ↦ ground (arith, e1)
          | inr (time, e1) ↦ ground (arith, e, e1)
        ]
  ],
)

-- `verifyKeyStatus` throws exactly on such a statement.
pub verify_key_status-none_iff :
    (node : Node) (statement : KeyStatusStatement) (key_id : Bytes) (at : ℤ)
    (logs : List TrustedLog)
    → (verify_key_status node statement key_id at logs ≡ none) ↔ Unwritable node logs at statement
unfolding verify_key_status with_log signed_status
verify_key_status-none_iff node statement key_id at logs = (
  thrown,
  λ u.
      let e = (message-none_iff key_id statement.at statement.tree_size u.status).1 u.too_large in
      ground (arith, u.trusted, u.usable, (eqb_ℤ_iff statement.at at).1 u.this_instant, u.code, e),
)
  where
    thrown :
        verify_key_status node statement key_id at logs ≡ none → Unwritable node logs at statement
    thrown h = elim (Option-cases (find_log statement.log_id logs)) [
      | inl e ↦ absurd (ground (arith, e, h))
      | inr (log, e1) ↦ elim (Option-cases (log_key node log)) [
        | inl e ↦ absurd (ground (arith, e1, e, h))
        | inr (key, e2) ↦ elim (Option-cases (status_code statement.status)) [
          | inl e ↦ absurd (ground (arith, e1, e2, e, h))
          | inr (code, e3) ↦
              elim (Option-cases
                (key_status_message key_id statement.at statement.tree_size code)) [
                  | inr (m, e) ↦ absurd (ground (arith, e1, e2, e3, e, h))
                  | inl e4 ↦ record {
                    log = log;
                    trusted = e1;
                    key = key;
                    usable = e2;
                    this_instant = (eqb_ℤ_iff _ _).0 (ground (arith, e1, e2, e3, e4, h));
                    status = code;
                    code = e3;
                    too_large =
                        (message-none_iff key_id statement.at statement.tree_size code).0 e4;
                  }
                ]
        ]
      ]
    ]
