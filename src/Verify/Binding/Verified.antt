-- ===== src/Verify/Binding/Verified.antt =====
-- What `bindSegments` of tools/src/verify.ts verifies.
use vcap_spec.Prelude.{
  ℕ, ◌+◌, true, false, ◌||◌, none, some, List, [], ◌∷◌, ◌++◌, any, or_else, ◌≡◌, ◌↔◌, ◌≢◌, refl, ap,
  subst, ◌∙◌, arith, if◌then◌else◌, ℤ, negsuc, ltb_ℤ, eqb_ℤ_iff, eqb_ℤ_refl, append-nil,
  append_assoc, Bool-cases, inl, inr,
}
use vcap_spec.Bytes.{Bytes}
use vcap_spec.Text.{Text}
use vcap_spec.Node.{Node}
use vcap_spec.Segments.{SegmentEntry, map_set, map_get}
use vcap_spec.Verify.Container.{Segment, GopsReading, unreadable, gops_read}
use vcap_spec.Verify.Binding.{
  Problem, located, Visited, ours, has_index, add_index, visit_all, repeats, is_once, once,
  insert_index, sort_indices, conclude, signed_hashes, bind_segments,
}
use vcap_spec.Verify.Binding.Accounted.{
  Accounted, done, next, visit_ours, visit_all_clear, nothing_added,
}

-- Each index, seen once.
ones : List ℤ → List (ℤ × ℕ)
ones [] = []
ones (i ∷ is) = (i, 1) ∷ ones is

map_get-ones :
    (k : ℤ) (is : List ℤ) → map_get k (ones is) ≡ (if has_index k is then some 1 else none)
unfolding ones map_get has_index
map_get-ones k [] = refl
map_get-ones k (i ∷ is) = ground (arith, map_get-ones k is)

map_set-ones :
    (k : ℤ) (is : List ℤ) → has_index k is ≡ false → map_set k 1 (ones is) ≡ ones (is ++ k ∷ [])
unfolding ones map_set has_index
map_set-ones k [] h = refl
map_set-ones k (i ∷ is) h = ground (arith, map_set-ones k is)

has_index-append :
    (k : ℤ) (is js : List ℤ) → has_index k (is ++ js) ≡ (has_index k is || has_index k js)
unfolding has_index
has_index-append k [] js = refl
has_index-append k (i ∷ is) js = ground (arith, has_index-append k is js)

repeats-ones : (is : List ℤ) → repeats (ones is) ≡ []
unfolding repeats ones
repeats-ones [] = refl
repeats-ones (i ∷ is) = ground (arith, repeats-ones is)

once-ones :
    (all js : List ℤ)
    → ((k : ℤ) → has_index k js ≡ true → has_index k all ≡ true)
    → once (ones all) js ≡ js
unfolding once is_once has_index
once-ones all [] h = refl
once-ones all (j ∷ js) h =
    let here : has_index j all ≡ true = h j (ground (arith, eqb_ℤ_refl j)) in
    let rest = once-ones all js (λ k e. h k (ground (arith, e))) in
    ground (arith, here, rest, map_get-ones j all)

-- Increasing, from above `p` on.
abbrev Rises : ℤ → List ℤ → Type 0
Rises p [] = Unit
Rises p (i ∷ is) = (ltb_ℤ p i ≡ true) × Rises i is

sort_indices-Rises : (p : ℤ) (is : List ℤ) → Rises p is → sort_indices is ≡ is
unfolding sort_indices insert_index
sort_indices-Rises p [] r = refl
sort_indices-Rises p (i ∷ []) r = refl
sort_indices-Rises p (i ∷ j ∷ is) (a, (b, r)) =
    rw (sort_indices-Rises i (j ∷ is) (b, r)) (ground (arith, b))

-- Nothing above `p`.
abbrev Upto : ℤ → List ℤ → Type 0
Upto p is = (k : ℤ) → ltb_ℤ p k ≡ true → has_index k is ≡ false

Upto-next : (p i : ℤ) (is : List ℤ) → ltb_ℤ p i ≡ true → Upto p is → Upto i (is ++ i ∷ [])
unfolding has_index
Upto-next p i is h u k l =
    let above : has_index k is ≡ false = u k (ground (arith, h, l)) in
    ground (arith, has_index-append k is (i ∷ []), above, l, eqb_ℤ_iff i k)

module _ (node : Node) (capture_id : Bytes) (signed : List (ℤ × Text)) where
  Rises-Accounted :
      {p : ℤ} {is : List ℤ} {gops : List Segment}
      → Accounted node capture_id signed p is gops
      → Rises p is
  Rises-Accounted done = tt
  Rises-Accounted (next o rest) = (o.rising, Rises-Accounted rest)

  visit_all-Accounted :
      {p : ℤ} {js : List ℤ} {gops : List Segment}
      → Accounted node capture_id signed p js gops
      → (position : ℕ) (ps : List Problem) (is : List ℤ) → Upto p is
      → (last : ℤ) × (visit_all node capture_id signed position gops
            (record { problems = ps; seen = ones is; matched = is; previous = p })
          ≡ record { problems = ps; seen = ones (is ++ js); matched = is ++ js; previous = last })
  unfolding visit_all add_index
  visit_all-Accounted {p} done position ps is u = (p, rw (append-nil is) refl)
  visit_all-Accounted {p} (next {index = i} {is = js} {gop = gop} {gops = gops} o rest) position ps
        is u =
      let fresh : has_index i is ≡ false = u i o.rising in
      let count : or_else (map_get i (ones is)) 0 + 1 ≡ 1 =
        ground (arith, map_get-ones i is, fresh) in
      let seen : map_set i (or_else (map_get i (ones is)) 0 + 1) (ones is) ≡ ones (is ++ i ∷ []) =
        rw count (map_set-ones i is fresh) in
      let matched : add_index i is ≡ is ++ i ∷ [] = ground (arith, fresh) in
      let (last, after) =
        visit_all-Accounted rest (position + 1) ps (is ++ i ∷ []) (Upto-next p i is o.rising u) in
      (
        last,
        rw
            (
              visit_ours node capture_id signed position gop i ps (ones is) is p o,
              seen,
              matched,
              after,
              append_assoc is (i ∷ []) js,
            )
            refl,
      )

-- When a GOP names the capture: no problem is reported exactly when every GOP of the file, in order, has
-- one SEI that names the capture and a signed segment whose hash is that of the GOP's content, with
-- increasing indices; and then these indices, all of them and no others, are the verified ones.
pub bind_segments_lem :
    (node : Node) (read : GopsReading) (capture_id : Bytes) (entries : List SegmentEntry)
    → any (ours capture_id) read.gops ≡ true
    → (verified : List ℤ)
    → (bind_segments node (gops_read read) capture_id entries ≡ located verified [])
      ↔ Accounted node capture_id (signed_hashes entries) (negsuc 0) verified read.gops
unfolding bind_segments conclude has_index ones
bind_segments_lem node read capture_id entries h verified = (forward, backward)
  where
    start : Visited
    start = record { problems = []; seen = []; matched = []; previous = negsuc 0 }

    final : Visited
    final = visit_all node capture_id (signed_hashes entries) 0 read.gops start

    closed :
        (is : List ℤ)
        → Accounted node capture_id (signed_hashes entries) (negsuc 0) is read.gops
        → conclude final ≡ located is []
    closed is a =
        let (last, e) =
          visit_all-Accounted node capture_id (signed_hashes entries) a 0 [] [] (λ k l. refl) in
        ap conclude e
        ∙ rw
            (
              once-ones is is (λ k l. l),
              sort_indices-Rises (negsuc 0) is
                  (Rises-Accounted node capture_id (signed_hashes entries) a),
              repeats-ones is,
            )
            refl

    bound : bind_segments node (gops_read read) capture_id entries ≡ conclude final
    bound = ground (arith, h)

    backward :
        Accounted node capture_id (signed_hashes entries) (negsuc 0) verified read.gops
        → bind_segments node (gops_read read) capture_id entries ≡ located verified []
    backward a = bound ∙ closed verified a

    forward :
        bind_segments node (gops_read read) capture_id entries ≡ located verified []
        → Accounted node capture_id (signed_hashes entries) (negsuc 0) verified read.gops
    forward e =
        let problems : final.problems ++ repeats final.seen ≡ [] = ground (arith, bound, e) in
        let (clear, _) = nothing_added final.problems (repeats final.seen) problems in
        let (_, is, a) =
          visit_all_clear node capture_id (signed_hashes entries) 0 read.gops start clear in
        let same : is ≡ verified = ground (arith, closed is a, bound, e) in
        subst (λ js. Accounted node capture_id (signed_hashes entries) (negsuc 0) js read.gops) same
          a

-- A GOP that names the capture is found in every located file.
pub bind_segments-ours :
    (node : Node) (read : GopsReading) (capture_id : Bytes) (entries : List SegmentEntry)
    (verified : List ℤ) (problems : List Problem)
    → bind_segments node (gops_read read) capture_id entries ≡ located verified problems
    → any (ours capture_id) read.gops ≡ true
unfolding bind_segments conclude
bind_segments-ours node read capture_id entries verified problems h =
    elim (Bool-cases (any (ours capture_id) read.gops)) [
      | inl e ↦ e
      | inr e ↦ absurd (ground (arith, e, h))
    ]

pub bind_segments-unreadable :
    (node : Node) (reason : Text) (capture_id : Bytes) (entries : List SegmentEntry)
    (verified : List ℤ) (problems : List Problem)
    → bind_segments node (unreadable reason) capture_id entries ≢ located verified problems
unfolding bind_segments
bind_segments-unreadable node reason capture_id entries verified problems h = cc
