-- ===== src/Verify/Binding.antt =====
-- `bindSegments` of tools/src/verify.ts: which signed segments the file contains. The reading is that of
-- tools/src/container.ts, a problem is a value in place of its text, and a `Set` is a list.
pub mod Accounted
pub mod Verified
use vcap_spec.Prelude.{
  ℕ, zero, suc, ◌+◌, Bool, true, false, not, ◌&&◌, ◌||◌, Option, none, some, List, [], ◌∷◌, ◌++◌,
  ltb, leb, ◌==◌, any, or_else, if◌then◌else◌, ℤ, pos, negsuc, ltb_ℤ, leb_ℤ, eqb_ℤ,
}
use vcap_spec.Bytes.{Bytes, eq_bytes}
use vcap_spec.Text.{Text}
use vcap_spec.Node.{Node}
use vcap_spec.Segments.{SegmentEntry, map_set, map_get}
use vcap_spec.Verify.Container.{Segment, ContainerReading, unreadable, gops_read}

pub data Problem : Type 0 where
  sei_problem : (position : ℕ) → Text → Problem
  no_sei other_capture several_seis : (position : ℕ) → Problem
  not_signed not_increasing : (position : ℕ) (index : ℤ) → Problem
  content_differs repeated : (index : ℤ) → Problem

pub data Unlocated : Type 0 where
  no_container no_gop not_recomputed : Unlocated

pub data Binding : Type 0 where
  not_located : Unlocated → Binding
  located : (verified : List ℤ) (problems : List Problem) → Binding

-- The variables of the loop.
pub record Visited : Type 0 where
  pub problems : List Problem
  pub seen : List (ℤ × ℕ)
  pub matched : List ℤ
  pub previous : ℤ

unfoldable pub ours : Bytes → Segment → Bool
ours capture_id gop = elim gop.capture_id [ none ↦ false | some id ↦ eq_bytes id capture_id ]

-- `new Map(entries.map((entry) => [entry.gop, entry.hash]))`, filled from the front.
unfoldable pub signed_from : List SegmentEntry → List (ℤ × Text) → List (ℤ × Text)
signed_from [] m = m
signed_from (e ∷ es) m = signed_from es (map_set e.gop e.hash m)

unfoldable pub has_index : ℤ → List ℤ → Bool
has_index k [] = false
has_index k (i ∷ is) = eqb_ℤ i k || has_index k is

-- `matched.add(index)`.
unfoldable pub add_index : ℤ → List ℤ → List ℤ
add_index k is = if has_index k is then is else is ++ k ∷ []

report : Bool → Problem → List Problem
report true p = p ∷ []
report false p = []

larger : ℤ → ℤ → ℤ
larger a b = if ltb_ℤ a b then b else a

module _ (node : Node) (capture_id : Bytes) (signed : List (ℤ × Text)) where
  open node use {to_base64url}

  -- A GOP with a signed segment's index.
  counted : ℕ → Segment → ℤ → Text → List Problem → Visited → Visited
  unfolding report larger
  counted position gop index hash before v =
      let same = eq_bytes (to_base64url gop.content_hash) hash in
      record {
        problems =
            v.problems
            ++ (before
                ++ (report (leb_ℤ index v.previous) (not_increasing position index)
                    ++ report (not same) (content_differs index)));
        seen = map_set index (or_else (map_get index v.seen) 0 + 1) v.seen;
        matched = if same then add_index index v.matched else v.matched;
        previous = larger v.previous index;
      }

  refuse : List Problem → Visited → Visited
  refuse ps v = record {
    problems = v.problems ++ ps;
    seen = v.seen;
    matched = v.matched;
    previous = v.previous;
  }

  -- The body of the loop.
  pub visit : ℕ → Segment → Visited → Visited
  unfolding counted refuse report
  visit position gop v = elim gop.problem [
    | some why ↦ refuse (sei_problem position why ∷ []) v
    | none ↦ elim gop.index [
      | none ↦ refuse (no_sei position ∷ []) v
      | some index ↦
          if not (ours capture_id gop)
          then refuse (other_capture position ∷ []) v
          else (let before = report (ltb 1 gop.sei_count) (several_seis position) in
              elim (map_get index signed) [
                | none ↦ refuse (before ++ not_signed position index ∷ []) v
                | some hash ↦ counted position gop index hash before v
              ])
    ]
  ]

  pub visit_all : ℕ → List Segment → Visited → Visited
  unfolding visit
  visit_all position [] v = v
  visit_all position (gop ∷ gops) v = visit_all (position + 1) gops (visit position gop v)

repeats : List (ℤ × ℕ) → List Problem
repeats [] = []
repeats ((index, count) ∷ r) = if ltb 1 count then repeated index ∷ repeats r else repeats r

is_once : Option ℕ → Bool
is_once none = false
is_once (some n) = n == 1

once : List (ℤ × ℕ) → List ℤ → List ℤ
unfolding is_once
once seen [] = []
once seen (i ∷ is) = if is_once (map_get i seen) then i ∷ once seen is else once seen is

-- `sort((a, b) => a - b)`.
insert_index : ℤ → List ℤ → List ℤ
insert_index k [] = k ∷ []
insert_index k (i ∷ is) = if ltb_ℤ i k then i ∷ insert_index k is else k ∷ i ∷ is

sort_indices : List ℤ → List ℤ
unfolding insert_index
sort_indices [] = []
sort_indices (i ∷ is) = insert_index i (sort_indices is)

conclude : Visited → Binding
unfolding repeats once sort_indices
conclude v = located (sort_indices (once v.seen v.matched)) (v.problems ++ repeats v.seen)

unfoldable pub signed_hashes : List SegmentEntry → List (ℤ × Text)
unfolding signed_from
signed_hashes entries = signed_from entries []

module _ (node : Node) where
  unfoldable pub bind_segments : ContainerReading → Bytes → List SegmentEntry → Binding
  unfolding visit_all conclude
  bind_segments (unreadable reason) capture_id entries = not_located no_container
  bind_segments (gops_read read) capture_id entries =
      if any (ours capture_id) read.gops
      then conclude (
          visit_all node capture_id (signed_hashes entries) 0 read.gops
            (record { problems = []; seen = []; matched = []; previous = negsuc 0 }))
      else not_located no_gop
