-- ===== src/Verify/Retimed/Whole.antt =====
-- `timingEntriesComplete` of tools/src/verify.ts.
use vcap_spec.Prelude.{
  ℕ, suc, ◌+◌, ◌≤◌, ◌≡◌, ◌↔◌, refl, sym, ap, ◌∙◌, true, false, List, [], ◌∷◌, ◌++◌, length, all,
  All, arith, ℤ, pos, ltb_ℤ, eqb_ℤ, eqb_ℤ_iff, leb_ℤ_iff, ◌≤ℤ◌, append-nil, append_assoc,
  length-append, Bool-cases, inl, inr,
}
use vcap_spec.Segments.{SegmentEntry}
use vcap_spec.Verify.Binding.{has_index, add_index}
use vcap_spec.Verify.Retimed.{indices_of, in_range, timing_entries_complete}

-- No entry has an index that is in the list or that an entry before it has.
unfoldable pub AreNew : List ℤ → List SegmentEntry → Type 0
AreNew seen [] = Unit
AreNew seen (e ∷ es) = (has_index e.gop seen ≡ false) × AreNew (seen ++ e.gop ∷ []) es

abbrev pub IsWithin : ℤ → ℤ → Type 0
IsWithin count i = (pos 0 ≤ℤ i) × (ltb_ℤ i count ≡ true)

-- As many entries as the core counts, with different indices, from 0 to below that count.
abbrev pub IsWhole : List SegmentEntry → ℤ → Type 0
IsWhole entries count =
    (pos (length entries) ≡ count)
    × AreNew [] entries
    × All (λ (e : SegmentEntry). IsWithin count e.gop) entries

length-indices_of :
    (es : List SegmentEntry) (seen : List ℤ) → length (indices_of es seen) ≤ length seen + length es
unfolding indices_of add_index
length-indices_of [] seen = omega arith
length-indices_of (e ∷ es) seen = elim (Bool-cases (has_index e.gop seen)) [
  | inl h ↦ ground (arith, h, length-indices_of es seen)
  | inr h ↦
      ground (arith, h, length-indices_of es (seen ++ e.gop ∷ []), length-append seen (e.gop ∷ []))
]

new_of_length :
    (es : List SegmentEntry) (seen : List ℤ)
    → length (indices_of es seen) ≡ length seen + length es
    → AreNew seen es
unfolding indices_of add_index AreNew
new_of_length [] seen h = tt
new_of_length (e ∷ es) seen h = elim (Bool-cases (has_index e.gop seen)) [
  | inl k ↦
      let few = length-indices_of es seen in
      let same : length (indices_of es seen) ≡ length seen + length (e ∷ es) =
        ground (arith, k, h) in
      absurd (omega (arith, few, same))
  | inr k ↦ (
    k,
    new_of_length es (seen ++ e.gop ∷ []) (
        let same : length (indices_of es (seen ++ e.gop ∷ [])) ≡ length seen + length (e ∷ es) =
          ground (arith, k, h) in
        omega (arith, same, length-append seen (e.gop ∷ []))),
  )
]

gops : List SegmentEntry → List ℤ
gops [] = []
gops (e ∷ es) = e.gop ∷ gops es

indices_of-AreNew :
    (es : List SegmentEntry) (seen : List ℤ) → AreNew seen es → indices_of es seen ≡ seen ++ gops es
unfolding indices_of add_index AreNew gops
indices_of-AreNew [] seen n = sym (append-nil seen)
indices_of-AreNew (e ∷ es) seen (n, ns) =
    rw n (indices_of-AreNew es (seen ++ e.gop ∷ []) ns ∙ append_assoc seen (e.gop ∷ []) (gops es))

length-gops : (es : List SegmentEntry) → length (gops es) ≡ length es
unfolding gops
length-gops [] = refl
length-gops (e ∷ es) = ap suc (length-gops es)

all-in_range_iff :
    (count : ℤ) (es : List SegmentEntry)
    → (all (in_range count) (gops es) ≡ true) ↔ All (λ (e : SegmentEntry). IsWithin count e.gop) es
unfolding gops in_range
all-in_range_iff count [] = (λ h. tt, λ a. refl)
all-in_range_iff count (e ∷ es) =
    let rest = all-in_range_iff count es in
    let at = leb_ℤ_iff (pos 0) e.gop in
    (
      λ h. ((at.0 (ground (arith, h)), ground (arith, h)), rest.0 (ground (arith, h))),
      λ (here, there). ground (arith, at.1 here.0, here.1, rest.1 there),
    )

-- The entries are complete exactly if they are as many as the core counts, no two with one index, and each
-- index is in the range.
pub timing_entries_complete_iff :
    (entries : List SegmentEntry) (count : ℤ)
    → (timing_entries_complete entries count ≡ true) ↔ IsWhole entries count
unfolding timing_entries_complete
timing_entries_complete_iff entries count = (
  λ h.
      let many = (eqb_ℤ_iff (pos (length entries)) count).0 (ground (arith, h)) in
      let different =
        (eqb_ℤ_iff (pos (length (indices_of entries []))) count).0 (ground (arith, h)) in
      let inside : all (in_range count) (indices_of entries []) ≡ true = ground (arith, h) in
      let new =
        new_of_length entries [] (let n = pos_inj (different ∙ sym many) in omega (arith, n)) in
      (
        many,
        new,
        (all-in_range_iff count entries).0
            (sym (ap (all (in_range count)) (indices_of-AreNew entries [] new)) ∙ inside),
      ),
  λ (many, new, within).
      let are = indices_of-AreNew entries [] new in
      let inside : all (in_range count) (indices_of entries []) ≡ true =
        ap (all (in_range count)) are ∙ (all-in_range_iff count entries).1 within in
      let first = (eqb_ℤ_iff (pos (length entries)) count).1 many in
      let second : eqb_ℤ (pos (length (indices_of entries []))) count ≡ true =
        (eqb_ℤ_iff (pos (length (indices_of entries []))) count).1
          (ap (λ is. pos (length is)) are ∙ (ap pos (length-gops entries) ∙ many)) in
      ground (arith, inside, first, second),
)
  where
    pos_inj : {a b : ℕ} → pos a ≡ pos b → a ≡ b
    pos_inj h = cc
