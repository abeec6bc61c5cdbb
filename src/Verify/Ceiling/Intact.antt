-- ===== src/Verify/Ceiling/Intact.antt =====
-- tools/src/verify.ts: the labels that keep a ceiling from green, in `level`.
use vcap_spec.Prelude.{
  Bool, true, false, not, ◌&&◌, List, [], ◌∷◌, ◌++◌, ◌≡◌, refl, arith, if◌then◌else◌, Bool-cases,
  inl, inr,
}
use vcap_spec.Bytes.{eq_bytes}
use vcap_spec.Bytes.Laws.{eq_bytes_iff, eq_bytes_self}
use vcap_spec.Text.{Text, text}
use vcap_spec.Verify.Label.{Label, spelling, includes, remove_first, same_label, includes-append}
use vcap_spec.Verify.Verdicts.{RegistryVerdict}
use vcap_spec.Verify.Level.{Source, green, is_trusted}
use vcap_spec.Verify.Ceiling.{before_capture, ceiling_of}

pub self : (l : Label) → same_label l l ≡ true
unfolding same_label
self l = eq_bytes_self (spelling l)

-- What a green ceiling needs of the labels.
pub record Clear (ls : List Label) : Type 0 where
  pub revocation : includes Label.revocation_not_checked ls ≡ false
  pub chain : includes Label.chain_revocation_not_checked ls ≡ false
  pub key : includes Label.key_revoked ls ≡ false
  attestation : includes Label.attestation_key_revoked ls ≡ false
  pub integrity : includes Label.integrity_not_proven ls ≡ false

pub ceiling_of_green :
    (proven : Text) (registry : RegistryVerdict) (source : Source) (ls : List Label)
    → ceiling_of proven registry source ls ≡ green
    → (eq_bytes proven (text "none") ≡ false)
      × (before_capture registry ≡ true)
      × (is_trusted source ≡ true)
      × Clear ls
unfolding ceiling_of
ceiling_of_green proven registry source ls h = (
  ground arith,
  ground arith,
  ground arith,
  record {
    revocation = ground arith;
    chain = ground arith;
    key = ground arith;
    attestation = ground arith;
    integrity = ground arith;
  },
)

pub without :
    (l : Label) (xs ys : List Label)
    → includes l (xs ++ ys) ≡ false
    → (includes l xs ≡ false) × (includes l ys ≡ false)
without l xs ys h =
    (ground (arith, includes-append l xs ys), ground (arith, includes-append l xs ys))

-- The last of five lists.
pub without_last :
    (l : Label) (as' bs cs ds es : List Label)
    → includes l (as' ++ (bs ++ (cs ++ (ds ++ es)))) ≡ false
    → includes l es ≡ false
without_last l as' bs cs ds es h =
    let (_, h1) = without l as' _ h in
    let (_, h2) = without l bs _ h1 in let (_, h3) = without l cs _ h2 in (without l ds es h3).1

pub intact_of :
    (proven2 : Text) (intact : Bool)
    → eq_bytes proven2 (text "none") ≡ false
    → includes Label.integrity_not_proven (
        if not (eq_bytes proven2 (text "none")) && not intact
        then Label.integrity_not_proven ∷ []
        else [])
      ≡ false
    → intact ≡ true
unfolding includes
intact_of proven2 true e h = refl
intact_of proven2 false e h = absurd (ground (arith, self Label.integrity_not_proven))

pub remove_first-includes :
    (l k : Label) (ls : List Label)
    → same_label l k ≡ false
    → includes k (remove_first l ls) ≡ includes k ls
unfolding includes remove_first same_label
remove_first-includes l k [] n = refl
remove_first-includes l k (x ∷ ls) n = elim (Bool-cases (same_label x l)) [
  | inl e ↦ let m : same_label x k ≡ false = spelled l k x n e in ground (arith, e, m)
  | inr e ↦ ground (arith, e, remove_first-includes l k ls n)
]
  where
    spelled :
        (l k x : Label) → same_label l k ≡ false → same_label x l ≡ true → same_label x k ≡ false
    spelled l k x n e = ground (arith, eq_bytes_iff (spelling x) (spelling l))

pub apart_checked : same_label Label.origin_not_attested Label.revocation_not_checked ≡ false
unfolding same_label eq_bytes
apart_checked = refl

pub apart_revoked : same_label Label.origin_not_attested Label.key_revoked ≡ false
unfolding same_label eq_bytes
apart_revoked = refl
