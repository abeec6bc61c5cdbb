-- ===== src/Verify/Clip.antt =====
-- `judge` of tools/src/verify.ts, on a proof with segments: the chain, the container, the presentation and
-- the timing. `none` is an error thrown, or an entry outside the interface that the entries are cast to.
pub mod Sound
pub mod Chained
pub mod Frames
pub mod Received
use vcap_spec.Prelude.{
  ℕ, Bool, true, false, not, ◌&&◌, ◌||◌, Option, none, some, List, [], ◌∷◌, ◌++◌, any, ◌>>=◌,
  if◌then◌else◌, ℤ,
}
use vcap_spec.Bytes.{Bytes, eq_bytes}
use vcap_spec.Text.{Text}
use vcap_spec.Segments.{
  SegmentEntry, ChainResult, ChainStatus, complete, clip, tampered, verify_chain,
}
use vcap_spec.Verify.Label
use vcap_spec.Verify.Label.{Label}
use vcap_spec.Verify.Decode.{segment_entries}
use vcap_spec.Verify.Container.{
  ContainerReading, unreadable, gops_read, GopsReading, ReaderResult, answered, malformed_container,
  failed,
}
use vcap_spec.Verify.Binding.{Binding, not_located, located, not_recomputed, bind_segments}
use vcap_spec.Verify.Retimed.{
  presentation_differs, timing_entries_complete, entries_root, TimingProblem, clip_timing_problem,
  original_timing_differs,
}
use vcap_spec.Verify.Shape.{SignedSegments}
use vcap_spec.Verify.Judge.{
  Outcome, frames_not_compared, verified_clip, Verdict, Tools, Input, Evidence, Context, in_both,
  red_verdict, clip_verdict, authentic_verdict,
}

-- What was read of the media: nothing, when the segments are not recomputed.
pub record Located : Type 0 where
  pub reading : Option GopsReading
  pub binding : Binding
  pub labels : List Label
  pub frames : Option Bool

is_located : Binding → Bool
is_located (not_located why) = false
is_located (located verified problems) = true

gops_of : ContainerReading → Option GopsReading
gops_of (unreadable reason) = none
gops_of (gops_read read) = some read

unreadable_labels : ContainerReading → List Label
unreadable_labels (unreadable reason) = Label.segment_content_not_recomputed ∷ []
unreadable_labels (gops_read read) = []

pub has_problems : Binding → Bool
has_problems (not_located why) = false
has_problems (located verified []) = false
has_problems (located verified (p ∷ ps)) = true

-- The located segments whose signature is verified too.
unfoldable pub credited : Binding → ChainResult → List ℤ
credited (not_located why) chain = []
credited (located verified problems) chain = in_both verified chain.verified

has_layout : Option Text → Bool
has_layout none = false
has_layout (some why) = true

module _ (tools : Tools) where
  open tools use {node, read_container}
  open tools.node use {from_base64url, to_base64url}

  -- The binding, of a file that is read; `some none` is `ContainerMalformed`, and `none` another error.
  located_in : Context tools → List SegmentEntry → ReaderResult → Option (Option Located)
  unfolding is_located gops_of unreadable_labels
  located_in c entries malformed_container = some none
  located_in c entries failed = none
  located_in c entries (answered reading) =
      let binding = bind_segments node reading (from_base64url c.shaped.capture_id) entries in
      some (
        some (record {
          reading = gops_of reading;
          binding = binding;
          labels = unreadable_labels reading;
          frames = some (is_located binding);
        }))

  locate : Context tools → Input tools → List SegmentEntry → Bytes → Option (Option Located)
  unfolding located_in
  locate c input entries media =
      if not input.recompute_segments
      then some (
          some (record {
            reading = none;
            binding = not_located not_recomputed;
            labels = Label.segment_content_not_recomputed ∷ [];
            frames = none;
          }))
      else located_in c entries (read_container media)

  -- Whether the entries' timing hashes do not give the signed root, when every entry is there.
  pub root_differs : SignedSegments → List SegmentEntry → Option Bool
  root_differs signed entries =
      if timing_entries_complete entries signed.count
      then (do
        root ← entries_root node entries
        some (not (eq_bytes (to_base64url root) signed.timing.root)))
      else some false

  -- Why the presentation is not the signed one.
  unbound : SignedSegments → Option GopsReading → List Label
  unfolding has_layout
  unbound signed none = []
  unbound signed (some read) =
      if has_layout read.layout
      then Label.tracks_not_bound ∷ []
      else if presentation_differs node signed.presentation read.presentation
      then Label.presentation_differs ∷ []
      else []

  retimed : SignedSegments → Option GopsReading → List SegmentEntry → List ℤ → Option (List Label)
  retimed signed none entries verified = some []
  retimed signed (some read) entries verified = do
    problem ←
        clip_timing_problem node read signed.timing entries verified
          (timing_entries_complete entries signed.count)
    elim problem [ none ↦ some [] | some why ↦ some (Label.timing_differs ∷ []) ]

  clip_of :
      Context tools → SignedSegments → List Label → List ℤ → Option Bool → List Label → Verdict
  clip_of c signed labels verified frames [] =
      clip_verdict tools c verified_clip labels verified frames
  clip_of c signed labels verified frames (l ∷ ls) =
      clip_verdict tools c frames_not_compared (labels ++ l ∷ ls) [] frames

  -- A file that is not the original.
  pub other_file :
      Context tools
      → SignedSegments
      → List SegmentEntry
      → Located
      → List Label
      → List ℤ
      → Option Verdict
  unfolding unbound retimed clip_of is_located
  other_file c signed entries l labels verified =
      if not (is_located l.binding)
      then some (clip_verdict tools c frames_not_compared labels verified l.frames)
      else (do
        timing ← retimed signed l.reading entries verified
        some (clip_of c signed labels verified l.frames (unbound signed l.reading ++ timing)))

  -- The writer's false claims about its own file.
  own_labels : Context tools → SignedSegments → Option GopsReading → Option (List Label)
  own_labels c signed none = some []
  own_labels c signed (some read) = do
    differs ←
        original_timing_differs node read signed.timing (from_base64url c.shaped.capture_id)
          signed.count
    some (
        (if presentation_differs node signed.presentation read.presentation
          then Label.presentation_differs ∷ []
          else [])
        ++ (if differs then Label.timing_differs ∷ [] else []))

  is_clip : ChainStatus → Bool
  is_clip clip = true
  is_clip _ = false

  pub is_tampered : ChainStatus → Bool
  is_tampered tampered = true
  is_tampered _ = false

  -- The original.
  pub own_file :
      Context tools
      → Input tools
      → SignedSegments
      → Located
      → List Label
      → List ℤ
      → ChainStatus
      → Option Verdict
  unfolding own_labels is_clip
  own_file c input signed l labels verified status = do
    own ← own_labels c signed l.reading
    if is_clip status
        then some (clip_verdict tools c verified_clip (labels ++ own) verified l.frames)
        else authentic_verdict tools c input (labels ++ own) (some verified) l.frames

  -- The checks that make a proof tampered, and then the file.
  pub compare_segments :
      Context tools
      → Input tools
      → SignedSegments
      → List SegmentEntry
      → Bool
      → Located
      → Option Verdict
  unfolding root_differs has_problems is_tampered other_file own_file
  compare_segments c input signed entries media_matches l =
      let chain =
        verify_chain node (from_base64url c.shaped.capture_id) signed.count entries c.key in
      let verified = credited l.binding chain in
      let red = red_verdict tools c.proof c.hash (some verified) l.frames in
      let labels = c.evidence.labels ++ l.labels in
      if is_tampered chain.status then some red else (do
        differs ← root_differs signed entries
        if differs || has_problems l.binding
            then some red
            else if media_matches
            then own_file c input signed l labels verified chain.status
            else other_file c signed entries l labels verified)

  unfoldable pub judge_segments :
      Context tools → Input tools → SignedSegments → Bytes → Bool → Option Verdict
  unfolding locate compare_segments
  judge_segments c input signed media media_matches = do
    entries ← segment_entries signed.entries
    here ← locate c input entries media
    elim here [
      | none ↦ some (red_verdict tools c.proof c.hash (some []) none)
      | some l ↦ compare_segments c input signed entries media_matches l
    ]
