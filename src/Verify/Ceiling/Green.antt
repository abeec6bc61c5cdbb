-- ===== src/Verify/Ceiling/Green.antt =====
-- The green ceiling of `level` in tools/src/verify.ts.
use vcap_spec.Prelude.{
  ◌>>=◌, ℕ, Bool, true, false, Option, none, some, List, [], ◌∷◌, ◌++◌, ◌≡◌, ◌≢◌, refl, sym, ap,
  ◌∙◌, arith, if◌then◌else◌, ℤ, Option-cases, inl, inr,
}
use vcap_spec.Bytes.{Bytes}
use vcap_spec.Text.{Text, text}
use vcap_spec.Node.{Node}
use vcap_spec.Registry.Logs.{TrustedLog}
use vcap_spec.Registry.Status.{
  KeyStatusStatement, KeyStatusOutcome, status_ok, status_refused, verify_key_status,
}
use vcap_spec.Verify.Label.{Label, includes, same_label}
use vcap_spec.Verify.Verdicts.{
  Date, ChainOutcome, TimestampVerdict, AnchorVerdict, RegistryVerdict, not_registered, registered,
  Certificates, Trust, is_empty,
}
use vcap_spec.Verify.Level.{Source, green, LevelVerdict, claimed_level, instant_of, is_trusted}
use vcap_spec.Verify.Ceiling.{
  Claims, status_labels, frozen_step, chain_step, chain_holds, before_capture, key_status_labels,
  chain_of, frozen_of, settle, level, enclave, app_labels, attested_level, inconsistent,
  from_registry,
}
use vcap_spec.Verify.Ceiling.Intact.{
  apart_checked, apart_revoked, ceiling_of_green, intact_of, remove_first-includes, self, without,
  without_last,
}

-- The labels of the key status stay.
status_of :
    (l : Label) (raised : Bool) (proven : Text) (labels status pushed : List Label)
    → same_label Label.origin_not_attested l ≡ false
    → includes l (from_registry raised proven (labels ++ (status ++ pushed))).1 ≡ false
    → includes l status ≡ false
unfolding from_registry
status_of l true proven labels status pushed n h =
    let kept =
      rw
        (remove_first-includes Label.origin_not_attested l
          ((labels ++ (status ++ pushed)) ++ Label.level_from_registry ∷ []) n)
        at h in
    let (all_of, _) = without l (labels ++ (status ++ pushed)) _ kept in
    let (_, rest) = without l labels _ all_of in (without l status _ rest).0
status_of l false proven labels status pushed n h =
    let (_, rest) = without l labels _ h in (without l status _ rest).0

module _ (node : Node) (certificates : Certificates) where
  open node use {from_base64url}

  settle_green :
      (claims : Claims) (core_hash : Bytes) (signers : List TrustedLog) (registry : RegistryVerdict)
      (device_integrity no_roots : Bool) (instant : ℤ) (source : Source)
      (chain : Option ChainOutcome) (proven : Text) (labels : List Label)
      → (settle node certificates claims core_hash signers registry device_integrity no_roots
          instant source chain proven labels).ceiling
        ≡ green
      → (is_trusted source ≡ true)
        × (before_capture registry ≡ true)
        × (device_integrity ≡ true)
        × (includes Label.revocation_not_checked labels ≡ false)
        × (includes Label.key_revoked labels ≡ false)
  unfolding settle
  settle_green claims core_hash signers registry device_integrity no_roots instant source chain
        proven labels h =
      let holds = chain_holds no_roots chain in
      let attested = if holds then attested_level chain else text "none" in
      let (proven2, frozen) =
        (if holds
          then frozen_step (frozen_of node certificates claims core_hash signers chain)
              (if is_trusted source then some instant else none) proven
          else (proven, [])) in
      let claim =
        if inconsistent claims.platform (claimed_level claims.platform claims.secure_hw) registry
          holds attested
        then Label.inconsistent_claim ∷ []
        else [] in
      let (unproven, early, trusted, clear) = ceiling_of_green _ registry source _ h in
      (
        trusted,
        early,
        intact_of _ device_integrity unproven (
            without_last Label.integrity_not_proven labels frozen claim
              (if holds then app_labels registry chain else []) _ clear.integrity),
        (without Label.revocation_not_checked labels _ clear.revocation).0,
        (without Label.key_revoked labels _ clear.key).0,
      )

  -- A key status that the log signs for the instant, and that is neither 2 nor 0.
  key_status_good :
      (registry : RegistryVerdict) (key_status : Option KeyStatusStatement) (key_id : Text)
      (at : Date) (signers : List TrustedLog) (ls : List Label)
      → before_capture registry ≡ true
      → key_status_labels node certificates registry key_status key_id at signers ≡ some ls
      → includes Label.revocation_not_checked ls ≡ false
      → includes Label.key_revoked ls ≡ false
      → (statement : KeyStatusStatement) × (instant : ℤ) × (status : ℕ) × (key_status
          ≡ some statement)
        × (at ≡ some instant)
        × (verify_key_status node statement (from_base64url key_id) instant signers
            ≡ some (status_ok status))
        × (status ≢ 0)
        × (status ≢ 2)
  unfolding key_status_labels before_capture status_labels includes
  key_status_good not_registered key_status key_id at signers ls early h r k = absurd (cc)
  key_status_good (registered hw b d) none key_id at signers ls early h r k =
      absurd (ground (arith, self Label.revocation_not_checked))
  key_status_good (registered hw b d) (some st) key_id none signers ls early h r k =
      absurd (ground (arith, self Label.revocation_not_checked))
  key_status_good (registered hw b d) (some st) key_id (some at) signers ls early h r k =
      let (status, ok, n0, n2) =
        of_outcome (verify_key_status node st (from_base64url key_id) at signers) ls h r k in
      (st, at, status, refl, refl, ok, n0, n2)
    where
      of_outcome :
          (o : Option KeyStatusOutcome) (ls : List Label)
          → (do outcome ← o; some (status_labels outcome)) ≡ some ls
          → includes Label.revocation_not_checked ls ≡ false
          → includes Label.key_revoked ls ≡ false
          → (status : ℕ) × (o ≡ some (status_ok status)) × (status ≢ 0) × (status ≢ 2)
      of_outcome none ls h r k = absurd (cc)
      of_outcome (some (status_refused reason)) ls h r k =
          absurd (ground (arith, self Label.revocation_not_checked))
      of_outcome (some (status_ok s)) ls h r k = (
        s,
        refl,
        λ e. ground (arith, self Label.revocation_not_checked),
        λ e. ground (arith, self Label.key_revoked),
      )

  -- A green ceiling takes a token or an anchored time, a key that the log registered before the capture
  -- and whose status it signed for that very instant, as neither revoked nor unknown, and a proven
  -- device integrity, whatever the other evidence is.
  pub level-green :
      (claims : Claims) (spki core_hash : Bytes) (labels : List Label) (trust : Trust certificates)
      (signers : List TrustedLog) (now : Date) (registry : RegistryVerdict)
      (key_status : Option KeyStatusStatement) (anchor : AnchorVerdict)
      (timestamp : TimestampVerdict) (device_integrity : Bool) (v : LevelVerdict)
      → level node certificates claims spki core_hash labels trust signers now registry key_status
          anchor timestamp device_integrity
        ≡ some v
      → v.ceiling ≡ green
      → (is_trusted v.source ≡ true)
        × (before_capture registry ≡ true)
        × (device_integrity ≡ true)
        × ((statement : KeyStatusStatement) × (status : ℕ) × (key_status ≡ some statement)
            × (verify_key_status node statement (from_base64url claims.key_id) v.instant signers
                ≡ some (status_ok status))
            × (status ≢ 0)
            × (status ≢ 2))
  unfolding level
  level-green claims spki core_hash labels trust signers now registry key_status anchor timestamp
        device_integrity v h g =
      let (instant, source) = instant_of timestamp anchor claims.clock now in
      elim (Option-cases (
        key_status_labels node certificates registry key_status claims.key_id
          (if is_trusted source then instant else now) signers)) [
            | inl e ↦ absurd (ground (arith, e))
            | inr (status, e) ↦ elim (Option-cases instant) [
              | inl n ↦ absurd (ground (arith, e, n))
              | inr (at, n) ↦
                  let chain = chain_of node certificates claims spki trust instant now in
                  let (proven, pushed) =
                    chain_step (is_empty trust.attestation_roots) source chain in
                  let (proven2, so_far) =
                    from_registry (enclave claims.platform registry chain) proven
                      (labels ++ (status ++ pushed)) in
                  let final =
                    settle node certificates claims core_hash signers registry device_integrity
                      (is_empty trust.attestation_roots) at source chain proven2 so_far in
                  let same : final ≡ v = ground (arith, e, n, h) in
                  let (trusted, early, intact, unchecked, revoked) =
                    settle_green claims core_hash signers registry device_integrity _ at source
                      chain proven2 so_far (ap (λ w. w.ceiling) same ∙ g) in
                  let unchecked' =
                    status_of Label.revocation_not_checked (enclave claims.platform registry chain)
                      proven labels status pushed apart_checked unchecked in
                  let revoked' =
                    status_of Label.key_revoked (enclave claims.platform registry chain) proven
                      labels status pushed apart_revoked revoked in
                  let (statement, i, code, given, instant_is, ok, n0, n2) =
                    key_status_good registry key_status claims.key_id _ signers status early e
                      unchecked' revoked' in
                  let when : i ≡ v.instant =
                    ground (arith, trusted, n, instant_is, ap (λ w. w.instant) same) in
                  (
                    ap (λ w. is_trusted w.source) (sym same) ∙ trusted,
                    early,
                    intact,
                    (statement, code, given, rw when at ok, n0, n2),
                  )
            ]
          ]
