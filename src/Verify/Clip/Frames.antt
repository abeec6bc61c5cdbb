-- ===== src/Verify/Clip/Frames.antt =====
-- The frames of a verified clip, of `judge` in tools/src/verify.ts.
use vcap_spec.Prelude.{
  Bool, true, false, not, Option, none, some, List, [], ◌∷◌, ◌++◌, ◌>>=◌, ℤ, negsuc, ◌≡◌, refl, sym,
  ap, ◌∙◌, ◌≢◌, All, arith, Option-cases, Bool-cases, inl, inr,
}
use vcap_spec.Bytes.{Bytes}
use vcap_spec.Text.{Text}
use vcap_spec.Bytes.Laws.{eq_bytes_iff}
use vcap_spec.Segments.{SegmentEntry, ChainStatus, tampered, sorted}
use vcap_spec.Segments.Chain.{Chain, verify_chain_iff, verified-verify_chain}
use vcap_spec.Verify.Retimed.Instants.{AreTimed, clip_timing_problem_iff}
use vcap_spec.Verify.Retimed.Whole.{IsWhole, timing_entries_complete_iff}
use vcap_spec.Verify.Clip.Chained.{IsSigned, Accounted-IsSigned, in_both-keys}
use vcap_spec.Verify.Label.{Label}
use vcap_spec.Verify.Decode.{segment_entries}
use vcap_spec.Verify.Container.{
  ContainerReading, unreadable, gops_read, GopsReading, ReaderResult, answered, malformed_container,
  failed,
}
use vcap_spec.Verify.Binding.{Binding, not_located, located, bind_segments, signed_hashes}
use vcap_spec.Verify.Binding.Accounted.{Accounted}
use vcap_spec.Verify.Binding.Verified.{
  bind_segments_lem, bind_segments-ours, bind_segments-unreadable,
}
use vcap_spec.Verify.Retimed.{
  presentation_differs, timing_entries_complete, entries_root, clip_timing_problem, TimingProblem,
}
use vcap_spec.Verify.Shape.{SignedSegments}
use vcap_spec.Verify.Judge.{
  verified_clip, Verdict, Tools, Input, Context, in_both, red_verdict, clip_verdict,
}
use vcap_spec.Verify.Clip.{
  Located, is_located, gops_of, unreadable_labels, has_problems, credited, has_layout, locate,
  located_in, root_differs, is_tampered, unbound, retimed, clip_of, other_file, judge_segments,
}
use vcap_spec.Verify.Clip.Sound.{chain_of, compare_inv}

module _ (tools : Tools) where
  open tools use {node, read_container}
  open tools.node use {from_base64url, to_base64url}

  -- The frames of a file: the entries a chain, every one signed; each GOP a signed segment, in order; the
  -- presentation that of the core; and the timing of each GOP that of its entry, where the entries are
  -- whole and have the root of the core.
  pub record AreSigned (c : Context tools) (signed : SignedSegments) (entries : List SegmentEntry)
      (read : GopsReading) (located : List ℤ) : Type 0 where
    pub accounted :
        Accounted node
          (from_base64url c.shaped.capture_id)
          (signed_hashes entries)
          (negsuc 0)
          located
          read.gops
    pub chain : Chain node (from_base64url c.shaped.capture_id) c.key none (sorted entries)
    pub sealed : All (IsSigned node (from_base64url c.shaped.capture_id) c.key) read.gops
    pub single_video : read.layout ≡ none
    pub shown : presentation_differs node signed.presentation read.presentation ≡ false
    pub root : Bytes
    pub recomputed : entries_root node entries ≡ some root
    pub of_core : to_base64url root ≡ signed.timing.root
    pub whole : IsWhole entries signed.count
    pub timed : AreTimed node read signed.timing entries located read.gops

  clip_of_inv :
      (c : Context tools) (signed : SignedSegments) (labels : List Label) (verified : List ℤ)
      (frames : Option Bool) (why : List Label)
      → (clip_of tools c signed labels verified frames why).outcome ≡ verified_clip
      → (why ≡ []) × ((clip_of tools c signed labels verified frames why).segments ≡ some verified)
  unfolding clip_of clip_verdict
  clip_of_inv c signed labels verified frames [] e = (refl, refl)
  clip_of_inv c signed labels verified frames (l ∷ ls) e = absurd (cc)

  nil_both : (xs ys : List Label) → xs ++ ys ≡ [] → (xs ≡ []) × (ys ≡ [])
  nil_both [] ys h = (refl, h)
  nil_both (x ∷ xs) ys h = absurd (cc)

  -- What a verified clip of another file needs.
  other_file_inv :
      (c : Context tools) (signed : SignedSegments) (entries : List SegmentEntry) (l : Located)
      (labels : List Label) (verified : List ℤ) (v : Verdict)
      → other_file tools c signed entries l labels verified ≡ some v
      → v.outcome ≡ verified_clip
      → (is_located l.binding ≡ true)
        × (unbound tools signed l.reading ≡ [])
        × (retimed tools signed l.reading entries verified ≡ some [])
        × (v.segments ≡ some verified)
  unfolding other_file clip_verdict
  other_file_inv c signed entries l labels verified v h e =
      elim (Bool-cases (not (is_located l.binding))) [
        | inl n ↦ absurd (ground (arith, n, h, e))
        | inr n ↦ elim (Option-cases (retimed tools signed l.reading entries verified)) [
          | inl r ↦ absurd (ground (arith, n, r, h))
          | inr (timing, r) ↦
              let made =
                clip_of tools c signed labels verified l.frames
                  (unbound tools signed l.reading ++ timing) in
              let same : made ≡ v = ground (arith, n, r, h) in
              let (clear, segments) =
                clip_of_inv c signed labels verified l.frames _ (ap (λ w. w.outcome) same ∙ e) in
              let (a, b) = nil_both (unbound tools signed l.reading) timing clear in
              (ground (arith, n), a, r ∙ ap some b, sym (ap (λ w. w.segments) same) ∙ segments)
        ]
      ]

  -- A located binding without problems comes from a container with GOPs, every one accounted for.
  locate_inv :
      (c : Context tools) (input : Input tools) (entries : List SegmentEntry) (media : Bytes)
      (l : Located)
      → locate tools c input entries media ≡ some (some l)
      → is_located l.binding ≡ true
      → has_problems l.binding ≡ false
      → (read : GopsReading) × (found : List ℤ) × (read_container media ≡ answered (gops_read read))
        × (l.reading ≡ some read)
        × (l.binding ≡ located found [])
        × Accounted node
            (from_base64url c.shaped.capture_id)
            (signed_hashes entries)
            (negsuc 0)
            found
            read.gops
  unfolding locate located_in is_located has_problems gops_of unreadable_labels
  locate_inv c input entries media l h k p = elim (Bool-cases (not input.recompute_segments)) [
    | inl n ↦ absurd (ground (arith, n, h, k))
    | inr n ↦ of_result n (read_container media) refl
  ]
    where
      of_binding :
          (b : Binding)
          → is_located b ≡ true
          → has_problems b ≡ false
          → (found : List ℤ) × (b ≡ located found [])
      of_binding (not_located why) k p = absurd (cc)
      of_binding (located found []) k p = (found, refl)
      of_binding (located found (q ∷ qs)) k p = absurd (cc)

      of_reading :
          (reading : ContainerReading)
          → read_container media ≡ answered reading
          → record {
            reading = gops_of reading;
            binding = bind_segments node reading (from_base64url c.shaped.capture_id) entries;
            labels = unreadable_labels reading;
            frames = some (
                is_located
                  (bind_segments node reading (from_base64url c.shaped.capture_id) entries));
          }
            ≡ l
          → (read : GopsReading) × (found : List ℤ) × (read_container media
              ≡ answered (gops_read read))
            × (l.reading ≡ some read)
            × (l.binding ≡ located found [])
            × Accounted node
                (from_base64url c.shaped.capture_id)
                (signed_hashes entries)
                (negsuc 0)
                found
                read.gops
      of_reading (unreadable reason) r e =
          let (found, b) = of_binding l.binding k p in
          absurd (
            bind_segments-unreadable node reason (from_base64url c.shaped.capture_id) entries found
              [] (ap (λ w. w.binding) e ∙ b))
      of_reading (gops_read read) r e =
          let (found, b) = of_binding l.binding k p in
          let bound = ap (λ w. w.binding) e ∙ b in
          let id = from_base64url c.shaped.capture_id in
          (
            read,
            found,
            r,
            sym (ap (λ w. w.reading) e),
            b,
            (bind_segments_lem node read id entries
                  (bind_segments-ours node read id entries found [] bound) found).0
                bound,
          )

      of_result :
          not input.recompute_segments ≡ false
          → (x : ReaderResult) → read_container media ≡ x
          → (read : GopsReading) × (found : List ℤ) × (read_container media
              ≡ answered (gops_read read))
            × (l.reading ≡ some read)
            × (l.binding ≡ located found [])
            × Accounted node
                (from_base64url c.shaped.capture_id)
                (signed_hashes entries)
                (negsuc 0)
                found
                read.gops
      of_result n malformed_container r = absurd (ground (arith, n, r, h))
      of_result n failed r = absurd (ground (arith, n, r, h))
      of_result n (answered reading) r = of_reading reading r (ground (arith, n, r, h))

  unbound_inv :
      (signed : SignedSegments) (read : GopsReading)
      → unbound tools signed (some read) ≡ []
      → (read.layout ≡ none)
        × (presentation_differs node signed.presentation read.presentation ≡ false)
  unfolding unbound has_layout
  unbound_inv signed read h = (no_layout read.layout (ground arith), ground arith)
    where
      no_layout : (o : Option Text) → has_layout o ≡ false → o ≡ none
      no_layout none e = refl
      no_layout (some why) e = absurd (cc)

  retimed_inv :
      (signed : SignedSegments) (read : GopsReading) (entries : List SegmentEntry)
      (verified : List ℤ)
      → retimed tools signed (some read) entries verified ≡ some []
      → clip_timing_problem node read signed.timing entries verified
          (timing_entries_complete entries signed.count)
        ≡ some none
  unfolding retimed
  retimed_inv signed read entries verified h =
      of_problem
        (clip_timing_problem node read signed.timing entries verified
          (timing_entries_complete entries signed.count))
        h
    where
      of_problem :
          (o : Option (Option TimingProblem))
          → (do
            problem ← o
            elim problem [ none ↦ some [] | some why ↦ some (Label.timing_differs ∷ []) ])
            ≡ some []
          → o ≡ some none
      of_problem none h = absurd (cc)
      of_problem (some none) h = refl
      of_problem (some (some why)) h = absurd (cc)

  not_tampered : (s : ChainStatus) → is_tampered tools s ≡ false → s ≢ tampered
  unfolding is_tampered
  not_tampered s h e = let h2 = rw e at h in cc

  -- With every entry there, the root is the one of the core.
  root_inv :
      (signed : SignedSegments) (entries : List SegmentEntry)
      → timing_entries_complete entries signed.count ≡ true
      → root_differs tools signed entries ≡ some false
      → (root : Bytes) × (entries_root node entries ≡ some root)
        × (to_base64url root ≡ signed.timing.root)
  unfolding root_differs
  root_inv signed entries t h = elim (Option-cases (entries_root node entries)) [
    | inl e ↦ absurd (ground (arith, t, e, h))
    | inr (root, e) ↦
        (root, e, (eq_bytes_iff (to_base64url root) signed.timing.root).0 (ground (arith, t, e, h)))
  ]

  -- A clip that is not the original file is verified only when its entries are a chain, in which every entry
  -- is signed under the core's key and links to the one before it; the file is a container whose every GOP,
  -- in order, has the content of the segment that it names, in a message of this capture that is signed;
  -- its tracks are those a segment covers, shown as the core says; the entries are whole, and their timing
  -- hashes have the root of the core; and every GOP has the timing whose hash its entry holds, with no edit
  -- that trims it. The segments of the verdict are those of the GOPs, all of them.
  pub judge_segments-clip :
      (c : Context tools) (input : Input tools) (signed : SignedSegments) (media : Bytes)
      (v : Verdict)
      → judge_segments tools c input signed media false ≡ some v
      → v.outcome ≡ verified_clip
      → (entries : List SegmentEntry) × (read : GopsReading) × (found : List ℤ) × (segment_entries
            signed.entries
          ≡ some entries)
        × (read_container media ≡ answered (gops_read read))
        × AreSigned c signed entries read found
        × (v.segments ≡ some found)
  unfolding judge_segments credited red_verdict
  judge_segments-clip c input signed media v h e =
      elim (Option-cases (segment_entries signed.entries)) [
        | inl n ↦ absurd (ground (arith, n, h))
        | inr (entries, n) ↦ elim (Option-cases (locate tools c input entries media)) [
          | inl m ↦ absurd (ground (arith, n, m, h))
          | inr (none, m) ↦ absurd (ground (arith, n, m, h, e))
          | inr (some l, m) ↦
              elim (compare_inv tools c input signed entries false l v (ground (arith, n, m, h))) [
                | inl t ↦ absurd (ground (arith, t, e))
                | inr (status, root, clear, other) ↦
                    let verified = credited l.binding (chain_of tools c signed entries) in
                    let (here, bound, timing, segments) =
                      other_file_inv c signed entries l (c.evidence.labels ++ l.labels) verified v
                        other e in
                    let (read, found, r, reading, b, accounted) =
                      locate_inv c input entries media l m here clear in
                    let credit : verified
                        ≡ in_both found (chain_of tools c signed entries).verified =
                      ap (λ x. credited x (chain_of tools c signed entries)) b in
                    let (layout, shown) = unbound_inv signed read (rw reading at bound) in
                    let id = from_base64url c.shaped.capture_id in
                    let sound = not_tampered (chain_of tools c signed entries).status status in
                    let chain = (verify_chain_iff node id c.key entries signed.count).0 sound in
                    let all_of : verified ≡ found =
                      credit
                      ∙ ap (in_both found)
                          (verified-verify_chain node id c.key entries signed.count sound)
                      ∙ in_both-keys node id c.key entries chain (negsuc 0) found read.gops
                          accounted in
                    let problem = retimed_inv signed read entries verified (rw reading at timing) in
                    let (whole, timed) =
                      (clip_timing_problem_iff node read signed.timing entries verified
                          signed.count).0
                        problem in
                    let (root_of, recomputed, of_core) =
                      root_inv signed entries
                        ((timing_entries_complete_iff entries signed.count).1 whole) root in
                    (
                      entries,
                      read,
                      found,
                      n,
                      r,
                      record {
                        accounted = accounted;
                        chain = chain;
                        sealed =
                            Accounted-IsSigned node id c.key entries chain (negsuc 0) found
                              read.gops accounted;
                        single_video = layout;
                        shown = shown;
                        root = root_of;
                        recomputed = recomputed;
                        of_core = of_core;
                        whole = whole;
                        timed = rw all_of at timed;
                      },
                      segments ∙ ap some all_of,
                    )
              ]
        ]
      ]
