-- ===== src/Core/Members.antt =====
-- `extractCore` and `coreBytes` of tools/src/core.ts.
use vcap_spec.Prelude.{
  ◌≡◌, refl, List, [], ◌∷◌, All, any, arith, Option-cases, inl, inr, none, if◌then◌else◌,
}
use vcap_spec.Bytes.{eq_bytes}
use vcap_spec.Bytes.Laws.{eq_bytes_iff}
use vcap_spec.Text.{Text}
use vcap_spec.Json.{Fields, member}
use vcap_spec.Core.{core_keys, keep, keep_keys, extract_core, core_bytes}

-- Two proofs that have the same members under some names.
abbrev pub Agree : List Text → Fields → Fields → Type 0
Agree keys p q = All (λ key. member key p ≡ member key q) keys

keep_keys-Agree :
    (keys : List Text) (p q : Fields) → Agree keys p q → keep_keys keys p ≡ keep_keys keys q
unfolding keep_keys
keep_keys-Agree [] p q a = refl
keep_keys-Agree (key ∷ keys) p q (same, rest) = rw (same, keep_keys-Agree keys p q rest)

-- Two proofs that agree on the members of the core have the same core bytes, whatever else they
-- carry.
pub core_bytes-Agree : (p q : Fields) → Agree core_keys p q → core_bytes p ≡ core_bytes q
unfolding core_bytes extract_core
core_bytes-Agree p q a = rw (keep_keys-Agree core_keys p q a)

member-keep_keys :
    (keys : List Text) (p : Fields) (k : Text)
    → member k (keep_keys keys p) ≡ (if any (λ j. eq_bytes j k) keys then member k p else none)
unfolding keep_keys keep member
member-keep_keys [] p k = refl
member-keep_keys (j ∷ keys) p k = elim (Option-cases (member j p)) [
  | inl e ↦ rw e (ground (arith, eq_bytes_iff j k, member-keep_keys keys p k))
  | inr (v, e) ↦ rw e (ground (arith, eq_bytes_iff j k, member-keep_keys keys p k))
]

-- The signed core has the members of the proof under the core's names, and no others.
pub member-extract_core :
    (p : Fields) (k : Text)
    → member k (extract_core p) ≡ (if any (λ j. eq_bytes j k) core_keys then member k p else none)
unfolding extract_core
member-extract_core p k = member-keep_keys core_keys p k
