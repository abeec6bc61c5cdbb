-- ===== src/Verify/Clip/Sound.antt =====
-- The verdicts on a proof with segments, of `judge` in tools/src/verify.ts.
use vcap_spec.Prelude.{
  none, Bool, true, false, not, ◌||◌, Option, some, List, [], ◌∷◌, ◌++◌, if◌then◌else◌, ℤ, ◌≡◌, ◌≢◌,
  ◌⊎◌, ap, ◌∙◌, arith, Option-cases, Bool-cases, inl, inr,
}
use vcap_spec.Bytes.{Bytes}
use vcap_spec.Segments.{SegmentEntry, ChainResult, verify_chain}
use vcap_spec.Verify.Label.{Label}
use vcap_spec.Verify.Decode.{segment_entries}
use vcap_spec.Verify.Shape.{SignedSegments}
use vcap_spec.Verify.Judge.{
  authentic, tampered_proof, Verdict, Tools, Input, Context, red_verdict, clip_verdict,
}
use vcap_spec.Verify.Clip.{
  Located, is_located, has_problems, credited, locate, root_differs, unbound, retimed, clip_of,
  other_file, is_tampered, own_file, compare_segments, judge_segments,
}

module _ (tools : Tools) where
  clip_of-outcome :
      (c : Context tools) (signed : SignedSegments) (labels : List Label) (verified : List ℤ)
      (frames : Option Bool) (why : List Label)
      → (clip_of tools c signed labels verified frames why).outcome ≢ authentic
  unfolding clip_of clip_verdict
  clip_of-outcome c signed labels verified frames [] e = cc
  clip_of-outcome c signed labels verified frames (l ∷ ls) e = cc

  -- A file that is not the original is never authentic.
  other_file-outcome :
      (c : Context tools) (signed : SignedSegments) (entries : List SegmentEntry) (l : Located)
      (labels : List Label) (verified : List ℤ) (v : Verdict)
      → other_file tools c signed entries l labels verified ≡ some v
      → v.outcome ≢ authentic
  unfolding other_file clip_verdict
  other_file-outcome c signed entries l labels verified v h e =
      elim (Bool-cases (not (is_located l.binding))) [
        | inl n ↦ ground (arith, n, h, e)
        | inr n ↦ elim (Option-cases (retimed tools signed l.reading entries verified)) [
          | inl r ↦ ground (arith, n, r, h)
          | inr (timing, r) ↦
              let same : clip_of tools c signed labels verified l.frames
                    (unbound tools signed l.reading ++ timing)
                  ≡ v =
                ground (arith, n, r, h) in
              clip_of-outcome c signed labels verified l.frames _ (ap (λ w. w.outcome) same ∙ e)
        ]
      ]

  abbrev pub chain_of : Context tools → SignedSegments → List SegmentEntry → ChainResult
  chain_of c signed entries =
      verify_chain tools.node (tools.node.from_base64url c.shaped.capture_id) signed.count entries
        c.key

  -- A verdict is red, or the chain and the timing hold, no problem is found, and it goes by the file.
  pub compare_inv :
      (c : Context tools) (input : Input tools) (signed : SignedSegments)
      (entries : List SegmentEntry) (b : Bool) (l : Located) (v : Verdict)
      → compare_segments tools c input signed entries b l ≡ some v
      → (v.outcome ≡ tampered_proof)
        ⊎ ((is_tampered tools (chain_of c signed entries).status ≡ false)
            × (root_differs tools signed entries ≡ some false)
            × (has_problems l.binding ≡ false)
            × ((if b
                  then own_file tools c input signed l
                      (c.evidence.labels ++ l.labels)
                      (credited l.binding (chain_of c signed entries))
                      (chain_of c signed entries).status
                  else other_file tools c signed entries l
                      (c.evidence.labels ++ l.labels)
                      (credited l.binding (chain_of c signed entries)))
                ≡ some v))
  unfolding compare_segments red_verdict
  compare_inv c input signed entries b l v h =
      elim (Bool-cases (is_tampered tools (chain_of c signed entries).status)) [
        | inl t ↦ inl (ground (arith, t, h))
        | inr t ↦ elim (Option-cases (root_differs tools signed entries)) [
          | inl r ↦ absurd (ground (arith, t, r, h))
          | inr (differs, r) ↦ elim (Bool-cases (differs || has_problems l.binding)) [
            | inl p ↦ inl (ground (arith, t, r, p, h))
            | inr p ↦ inr (t, ground (arith, r, p), ground (arith, p), ground (arith, t, r, p, h))
          ]
        ]
      ]

  pub judge_segments-authentic :
      (c : Context tools) (input : Input tools) (signed : SignedSegments) (media : Bytes) (b : Bool)
      (v : Verdict)
      → judge_segments tools c input signed media b ≡ some v
      → v.outcome ≡ authentic
      → b ≡ true
  unfolding judge_segments red_verdict
  judge_segments-authentic c input signed media b v h e =
      elim (Option-cases (segment_entries signed.entries)) [
        | inl n ↦ absurd (ground (arith, n, h))
        | inr (entries, n) ↦ elim (Option-cases (locate tools c input entries media)) [
          | inl m ↦ absurd (ground (arith, n, m, h))
          | inr (none, m) ↦ absurd (ground (arith, n, m, h, e))
          | inr (some l, m) ↦
              elim (compare_inv c input signed entries b l v (ground (arith, n, m, h))) [
                | inl t ↦ absurd (ground (arith, t, e))
                | inr (_, _, _, own) ↦ elim (Bool-cases b) [
                  | inl y ↦ y
                  | inr y ↦ absurd (
                      other_file-outcome c signed entries l (c.evidence.labels ++ l.labels)
                        (credited l.binding (chain_of c signed entries)) v (ground (arith, y, own))
                        e)
                ]
              ]
        ]
      ]
