-- ===== src/Verify/Retimed.antt =====
-- The timing and the presentation of tools/src/verify.ts, against what the core signs. `none` is an error
-- thrown, and a problem is a value in place of its text.
pub mod Whole
pub mod Instants
use vcap_spec.Prelude.{
  ℕ, zero, suc, ◌+◌, Bool, true, false, not, ◌&&◌, ◌||◌, Option, none, some, List, [], ◌∷◌, ◌++◌,
  ltb, leb, ◌==◌, any, all, map, length, ◌>>=◌, if◌then◌else◌, ℤ, pos, negsuc, ltb_ℤ, leb_ℤ, eqb_ℤ,
}
use vcap_spec.Bytes.{Bytes, eq_bytes}
use vcap_spec.Text.{Text}
use vcap_spec.Node.{Node}
use vcap_spec.Segments.{SegmentEntry, map_set, map_get, sort_entries}
use vcap_spec.Timing.{
  Timescales, ReceivedHash, differs, thrown, hash_is, received_timing_hash, timing_root, MediaEdit,
  Extent, edit_trims,
}
use vcap_spec.Verify.Container.{Segment, Presentation, GopsReading}
use vcap_spec.Verify.Binding.{ours, has_index, add_index}

-- `media.timing` of the core.
pub record SignedTiming : Type 0 where
  pub video_timescale : ℤ
  pub audio_timescale : Option ℤ
  pub root : Text

-- `media.presentation` of the core.
pub record SignedPresentation : Type 0 where
  pub config : Text
  pub matrix : List ℤ
  pub display : List ℤ

pub data TimingProblem : Type 0 where
  not_authenticated : TimingProblem
  inexpressible reads_otherwise video_trimmed audio_trimmed : (index : ℤ) → TimingProblem

-- `some((value, i) => value !== signed[i])`, with `signed[i]` absent past the end.
unlike : List ℤ → List ℤ → Bool
unlike [] signed = false
unlike (v ∷ vs) [] = true
unlike (v ∷ vs) (s ∷ ss) = not (eqb_ℤ v s) || unlike vs ss

unfoldable pub signed_timescales : SignedTiming → Timescales
signed_timescales signed = record { video = signed.video_timescale; audio = signed.audio_timescale }

indices_of : List SegmentEntry → List ℤ → List ℤ
indices_of [] is = is
indices_of (e ∷ es) is = indices_of es (add_index e.gop is)

-- `Number.isInteger(i) && i >= 0 && i < count`.
in_range : ℤ → ℤ → Bool
in_range count i = leb_ℤ (pos 0) i && ltb_ℤ i count

unfoldable pub timing_entries_complete : List SegmentEntry → ℤ → Bool
unfolding indices_of in_range
timing_entries_complete entries count =
    let indices = indices_of entries [] in
    eqb_ℤ (pos (length entries)) count
    && (eqb_ℤ (pos (length indices)) count && all (in_range count) indices)

unfoldable pub keyed : List SegmentEntry → List (ℤ × SegmentEntry)
keyed [] = []
keyed (e ∷ es) = (e.gop, e) ∷ keyed es

-- `byIndex.get(index)`, of the map filled from the front.
timings_from : List SegmentEntry → List (ℤ × Option Text) → List (ℤ × Option Text)
timings_from [] m = m
timings_from (e ∷ es) m = timings_from es (map_set e.gop e.timing m)

unfoldable pub timing_of : List SegmentEntry → ℤ → Option Text
unfolding timings_from
timing_of entries index = do timing ← map_get index (timings_from entries []); timing

-- An edit of a track, when there is one, and the extent on it.
pub trims : Option MediaEdit → Option Extent → Bool
trims (some edit) (some extent) = edit_trims edit extent
trims _ _ = false

same_text : Text → Option Text → Bool
same_text t none = false
same_text t (some u) = eq_bytes t u

-- `gop.captureId.equals(captureId)`, of a GOP with an index.
named_index : Bytes → Segment → Option ℤ
named_index capture_id gop = if ours capture_id gop then gop.index else none

module _ (node : Node) where
  open node use {from_base64url, to_base64url}

  unfoldable pub presentation_differs : SignedPresentation → Option Presentation → Bool
  unfolding unlike
  presentation_differs signed none = true
  presentation_differs signed (some read) =
      not (eq_bytes (to_base64url read.config) signed.config)
      || (unlike read.matrix signed.matrix || unlike read.display signed.display)

  decoded : List (ℤ × SegmentEntry) → Option (List Bytes)
  decoded [] = some []
  decoded ((index, e) ∷ r) = do
    timing ← e.timing
    rest ← decoded r
    some (from_base64url timing ∷ rest)

  unfoldable pub entries_root : List SegmentEntry → Option Bytes
  unfolding decoded
  entries_root entries = do hashes ← decoded (sort_entries (keyed entries)); timing_root node hashes

  -- The checks of one segment.
  gop_problem :
      GopsReading → Timescales → List SegmentEntry → Segment → ℤ → Option (Option TimingProblem)
  unfolding trims same_text
  gop_problem read scales entries gop index =
      elim (received_timing_hash node gop.timing read.timescales scales) [
        | thrown ↦ none
        | differs ↦ some (some (inexpressible index))
        | hash_is received ↦
            if not (same_text (to_base64url received) (timing_of entries index))
            then some (some (reads_otherwise index))
            else if trims read.video_edit (some gop.video_extent)
            then some (some (video_trimmed index))
            else if trims read.audio_edit gop.audio_extent
            then some (some (audio_trimmed index))
            else some none
      ]

  -- The loop: the first problem.
  gops_problem :
      GopsReading
      → Timescales
      → List SegmentEntry
      → List ℤ
      → List Segment
      → Option (Option TimingProblem)
  unfolding gop_problem
  gops_problem read scales entries verified [] = some none
  gops_problem read scales entries verified (gop ∷ gops) =
      let rest = gops_problem read scales entries verified gops in
      elim gop.index [
        | none ↦ rest
        | some index ↦ if not (has_index index verified) then rest else do
          problem ← gop_problem read scales entries gop index
          elim problem [ none ↦ rest | some why ↦ some (some why) ]
      ]

  unfoldable pub clip_timing_problem :
      GopsReading → SignedTiming → List SegmentEntry → List ℤ → Bool → Option (Option TimingProblem)
  unfolding gops_problem
  clip_timing_problem read signed entries verified authenticated =
      if authenticated
      then gops_problem read (signed_timescales signed) entries verified read.gops
      else some (some not_authenticated)

  -- `hashes.set(...)`: a second segment with the same index has no hash.
  hash_received : ReceivedHash → Option (Option Bytes)
  hash_received thrown = none
  hash_received differs = some none
  hash_received (hash_is h) = some (some h)

  collected :
      GopsReading
      → Timescales
      → Bytes
      → List Segment
      → List (ℤ × Option Bytes)
      → Option (List (ℤ × Option Bytes))
  unfolding hash_received named_index
  collected read scales capture_id [] hashes = some hashes
  collected read scales capture_id (gop ∷ gops) hashes = elim (named_index capture_id gop) [
    | none ↦ collected read scales capture_id gops hashes
    | some index ↦ elim (map_get index hashes) [
      | some h ↦ collected read scales capture_id gops (map_set index none hashes)
      | none ↦ do
        h ← hash_received (received_timing_hash node gop.timing read.timescales scales)
        collected read scales capture_id gops (map_set index h hashes)
    ]
  ]

  -- The hashes of the indices from `n` on, `left` of them.
  in_order : List (ℤ × Option Bytes) → ℕ → ℕ → Option (List Bytes)
  in_order hashes n zero = some []
  in_order hashes n (suc left) = do
    found ← map_get (pos n) hashes
    h ← found
    rest ← in_order hashes (n + 1) left
    some (h ∷ rest)

  unfoldable pub below : ℤ → ℕ
  below (pos n) = n
  below (negsuc n) = 0

  pub original_timing_differs : GopsReading → SignedTiming → Bytes → ℤ → Option Bool
  unfolding collected in_order
  original_timing_differs read signed capture_id count = do
    hashes ← collected read (signed_timescales signed) capture_id read.gops []
    elim (in_order hashes 0 (below count)) [
      | none ↦ some true
      | some ordered ↦ do
        root ← timing_root node ordered
        some (not (eq_bytes (to_base64url root) signed.root))
    ]
