-- ===== src/Verify/Binding/Accounted.antt =====
-- `bindSegments` of tools/src/verify.ts, with no problem reported.

use vcap_spec.Prelude.{
  ℕ, ◌+◌, Bool, true, false, not, none, some, List, [], ◌∷◌, ◌++◌, ltb, or_else, ◌≡◌, refl, subst,
  arith, ℤ, ltb_ℤ, leb_ℤ, append-nil, Option-cases, Bool-cases, inl, inr,
}
use vcap_spec.Bytes.{Bytes, eq_bytes}
use vcap_spec.Bytes.Laws.{eq_bytes_iff, eq_bytes_self}
use vcap_spec.Text.{Text}
use vcap_spec.Node.{Node}
use vcap_spec.Segments.{map_set, map_get}
use vcap_spec.Verify.Container.{Segment}
use vcap_spec.Verify.Binding.{
  Problem, sei_problem, no_sei, other_capture, several_seis, not_signed, not_increasing,
  content_differs, Visited, ours, add_index, report, larger, counted, refuse, visit, visit_all,
}

-- What a GOP must be to be accounted for, after the index `previous`.
pub record IsOurs (node : Node) (capture_id : Bytes) (signed : List (ℤ × Text)) (previous index : ℤ)
    (gop : Segment) : Type 0 where
  pub readable : gop.problem ≡ none
  pub named : gop.index ≡ some index
  pub same_capture : ours capture_id gop ≡ true
  pub single : ltb 1 gop.sei_count ≡ false
  pub content : map_get index signed ≡ some (node.to_base64url gop.content_hash)
  pub rising : ltb_ℤ previous index ≡ true

-- Every GOP is, in the order of the file; the list is their indices.
pub data Accounted (node : Node) (capture_id : Bytes) (signed : List (ℤ × Text))
    : ℤ → List ℤ → List Segment → Type 0 where
  done : {previous : ℤ} → Accounted node capture_id signed previous [] []
  next :
      {previous index : ℤ} {is : List ℤ} {gop : Segment} {gops : List Segment}
      → IsOurs node capture_id signed previous index gop
      → Accounted node capture_id signed index is gops
      → Accounted node capture_id signed previous (index ∷ is) (gop ∷ gops)

-- No more problems than before.
pub nothing_added : (ps qs : List Problem) → ps ++ qs ≡ [] → (ps ≡ []) × (qs ≡ [])
nothing_added [] qs h = (refl, h)
nothing_added (p ∷ ps) qs h = absurd (cc)

added : (ps : List Problem) (q : Problem) (qs : List Problem) → ps ++ q ∷ qs ≡ [] → ⊥
added [] q qs h = cc
added (p ∷ ps) q qs h = cc

reported : (b : Bool) (p : Problem) → report b p ≡ [] → b ≡ false
unfolding report
reported true p h = absurd (cc)
reported false p h = refl

module _ (node : Node) (capture_id : Bytes) (signed : List (ℤ × Text)) where
  visit_clear :
      (position : ℕ) (gop : Segment) (v : Visited)
      → (visit node capture_id signed position gop v).problems ≡ []
      → (v.problems ≡ [])
        × (index : ℤ) × IsOurs node capture_id signed v.previous index gop
        × ((visit node capture_id signed position gop v).previous ≡ index)
  unfolding visit counted refuse report larger
  visit_clear position gop v h = elim (Option-cases gop.problem) [
    | inr (w, e) ↦ absurd (added v.problems (sei_problem position w) [] (ground (arith, e, h)))
    | inl e1 ↦ elim (Option-cases gop.index) [
      | inl e ↦ absurd (added v.problems (no_sei position) [] (ground (arith, e1, e, h)))
      | inr (index, e2) ↦ elim (Bool-cases (ours capture_id gop)) [
        | inr e ↦
            absurd (added v.problems (other_capture position) [] (ground (arith, e1, e2, e, h)))
        | inl e3 ↦ elim (Option-cases (map_get index signed)) [
          | inl e ↦
              let before = report (ltb 1 gop.sei_count) (several_seis position) in
              let all : v.problems ++ (before ++ not_signed position index ∷ []) ≡ [] =
                ground (arith, e1, e2, e3, e, h) in
              absurd
                (added before (not_signed position index) [] (nothing_added v.problems _ all).1)
          | inr (hash, e4) ↦
              let seis = report (ltb 1 gop.sei_count) (several_seis position) in
              let order = report (leb_ℤ index v.previous) (not_increasing position index) in
              let same = eq_bytes (node.to_base64url gop.content_hash) hash in
              let content = report (not same) (content_differs index) in
              let all : v.problems ++ (seis ++ (order ++ content)) ≡ [] =
                ground (arith, e1, e2, e3, e4, h) in
              let (none_before, here) = nothing_added v.problems _ all in
              let (no_seis, more) = nothing_added seis _ here in
              let (in_order, as_signed) = nothing_added order _ more in
              let a : ltb 1 gop.sei_count ≡ false = reported _ _ no_seis in
              let b : leb_ℤ index v.previous ≡ false = reported _ _ in_order in
              let c : not same ≡ false = reported _ _ as_signed in
              let d : node.to_base64url gop.content_hash ≡ hash =
                (eq_bytes_iff _ hash).0 (ground (arith, c)) in
              (
                none_before,
                index,
                record {
                  readable = e1;
                  named = e2;
                  same_capture = e3;
                  single = a;
                  content = rw d e4;
                  rising = ground (arith, b);
                },
                ground (arith, e1, e2, e3, e4, b),
              )
        ]
      ]
    ]
  ]

  -- The body of the loop, on a GOP that is accounted for.
  pub visit_ours :
      (position : ℕ) (gop : Segment) (index : ℤ) (ps : List Problem) (seen : List (ℤ × ℕ))
      (matched : List ℤ) (previous : ℤ)
      → IsOurs node capture_id signed previous index gop
      → visit node capture_id signed position gop
          (record { problems = ps; seen = seen; matched = matched; previous = previous })
        ≡ record {
          problems = ps;
          seen = map_set index (or_else (map_get index seen) 0 + 1) seen;
          matched = add_index index matched;
          previous = index;
        }
  unfolding visit counted report larger
  visit_ours position gop index ps seen matched previous o =
      let same = eq_bytes_self (node.to_base64url gop.content_hash) in
      ground (
        arith,
        o.readable,
        o.named,
        o.same_capture,
        o.single,
        o.content,
        o.rising,
        same,
        append-nil ps,
      )

  pub visit_all_clear :
      (position : ℕ) (gops : List Segment) (v : Visited)
      → (visit_all node capture_id signed position gops v).problems ≡ []
      → (v.problems ≡ []) × (is : List ℤ) × Accounted node capture_id signed v.previous is gops
  unfolding visit_all
  visit_all_clear position [] v h = (h, [], done)
  visit_all_clear position (gop ∷ gops) v h =
      let (here, is, rest) =
        visit_all_clear (position + 1) gops (visit node capture_id signed position gop v) h in
      let (before, index, o, next_previous) = visit_clear position gop v here in
      (
        before,
        index ∷ is,
        next o (subst (λ p. Accounted node capture_id signed p is gops) next_previous rest),
      )
