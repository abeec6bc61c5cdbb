-- ===== src/Verify/Label.antt =====
-- The labels of tools/src/verify.ts and tools/src/carrier.ts, and `labels.sort()`.
use vcap_spec.Prelude.{Bool, false, ◌||◌, List, [], ◌∷◌, ◌++◌, ◌≡◌, refl, if◌then◌else◌, arith}
use vcap_spec.Bytes.{eq_bytes}
use vcap_spec.Text.{Text, text, text_ltb}

pub data Label : Type 0 where
  origin_not_attested no_watermark capture_time_not_declared no_trusted_time : Label
  timestamp_evidence_invalid trusted_time_not_evaluated not_anchored anchor_evidence_invalid : Label
  anchoring_not_verified log_not_trusted key_not_in_log registry_evidence_invalid : Label
  registered_after_capture registered_after_trusted_time integrity_evidence_invalid : Label
  integrity_hardware integrity_basic integrity_unevaluated integrity_failed : Label
  corroboration_not_evaluated corroboration_evidence_invalid corroboration_not_verified : Label
  location_contradicted location_evidence_not_evaluated location_corroborated : Label
  location_declared_only location_claimed_above watermark_not_evaluated flags_disagree : Label
  segment_content_not_recomputed tracks_not_bound presentation_differs timing_differs : Label
  key_revoked revocation_not_checked attestation_not_evaluated attestation_evidence_invalid : Label
  chain_expired level_from_registry attestation_key_revoked_after attestation_key_revoked : Label
  chain_revocation_not_checked inconsistent_claim app_not_checked app_not_admitted : Label
  integrity_not_proven sidecar_differs manifest_copy_differs trailer_copy_differs : Label
  trailer_unreadable : Label

-- The string of each label.
pub spelling : Label → Text
spelling origin_not_attested = text "origin not hardware-attested"
spelling no_watermark = text "no watermark"
spelling capture_time_not_declared = text "capture time not declared"
spelling no_trusted_time = text "no trusted time"
spelling timestamp_evidence_invalid = text "timestamp evidence invalid"
spelling trusted_time_not_evaluated = text "trusted time not evaluated"
spelling not_anchored = text "not anchored"
spelling anchor_evidence_invalid = text "anchor evidence invalid"
spelling anchoring_not_verified = text "anchoring not verified"
spelling log_not_trusted = text "log not trusted"
spelling key_not_in_log = text "key not in transparency log"
spelling registry_evidence_invalid = text "registry evidence invalid"
spelling registered_after_capture = text "registered after the declared capture"
spelling registered_after_trusted_time = text "registered after the trusted time"
spelling integrity_evidence_invalid = text "integrity evidence invalid"
spelling integrity_hardware = text "integrity hardware"
spelling integrity_basic = text "integrity basic"
spelling integrity_unevaluated = text "integrity unevaluated"
spelling integrity_failed = text "integrity failed"
spelling corroboration_not_evaluated = text "location corroboration not evaluated"
spelling corroboration_evidence_invalid = text "location corroboration evidence invalid"
spelling corroboration_not_verified = text "location corroboration not verified"
spelling location_contradicted = text "location contradicted"
spelling location_evidence_not_evaluated = text "location evidence not evaluated"
spelling location_corroborated = text "location corroborated"
spelling location_declared_only = text "location declared only"
spelling location_claimed_above = text "location claimed above evidence"
spelling watermark_not_evaluated = text "watermark not evaluated"
spelling flags_disagree = text "flags disagree"
spelling segment_content_not_recomputed = text "segment content not recomputed"
spelling tracks_not_bound = text "tracks not bound"
spelling presentation_differs = text "presentation differs"
spelling timing_differs = text "timing differs"
spelling key_revoked = text "key revoked"
spelling revocation_not_checked = text "revocation not checked"
spelling attestation_not_evaluated = text "attestation not evaluated"
spelling attestation_evidence_invalid = text "attestation evidence invalid"
spelling chain_expired = text "attestation chain expired, capture time not proven"
spelling level_from_registry = text "level from registry records"
spelling attestation_key_revoked_after = text "attestation key revoked after the capture"
spelling attestation_key_revoked = text "attestation key revoked"
spelling chain_revocation_not_checked = text "chain revocation not checked"
spelling inconsistent_claim = text "inconsistent claim"
spelling app_not_checked = text "attestation app not checked"
spelling app_not_admitted = text "attestation app not admitted"
spelling integrity_not_proven = text "integrity not proven"
spelling sidecar_differs = text "sidecar differs"
spelling manifest_copy_differs = text "manifest copy differs"
spelling trailer_copy_differs = text "trailer copy differs"
spelling trailer_unreadable = text "trailer unreadable"

unfoldable pub same_label : Label → Label → Bool
unfolding spelling
same_label a b = eq_bytes (spelling a) (spelling b)

-- `labels.includes(label)`.
unfoldable pub includes : Label → List Label → Bool
includes l [] = false
includes l (k ∷ ks) = same_label k l || includes l ks

insert_label : Label → List Label → List Label
unfolding spelling
insert_label l [] = l ∷ []
insert_label l (k ∷ ks) =
    if text_ltb (spelling k) (spelling l) then k ∷ insert_label l ks else l ∷ k ∷ ks

unfoldable pub sort_labels : List Label → List Label
unfolding insert_label
sort_labels [] = []
sort_labels (l ∷ ls) = insert_label l (sort_labels ls)

-- `labels.splice(labels.indexOf(label), 1)`, if it is there.
unfoldable pub remove_first : Label → List Label → List Label
remove_first l [] = []
remove_first l (k ∷ ks) = if same_label k l then ks else k ∷ remove_first l ks

pub includes-append :
    (l : Label) (xs ys : List Label) → includes l (xs ++ ys) ≡ (includes l xs || includes l ys)
unfolding includes
includes-append l [] ys = refl
includes-append l (x ∷ xs) ys = ground (arith, includes-append l xs ys)
