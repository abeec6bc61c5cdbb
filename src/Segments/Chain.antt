-- ===== src/Segments/Chain.antt =====
-- `verifyChain` of tools/src/segments.ts.
use vcap_spec.Prelude.{
  ℕ, zero, suc, ◌≡◌, ◌≢◌, ◌↔◌, ◌⊎◌, refl, sym, ap, ◌∙◌, true, false, Option, none, some, List, [],
  ◌∷◌, ◌++◌, arith, if◌then◌else◌, ℤ, pos, ltb_ℤ, eqb_ℤ, eqb_ℤ_iff, eqb_ℤ_refl, ◌-ℤ◌, -ℤ_parts, ◌+◌,
  eq_of_parts, Bool-cases, inl, inr, append-nil, append_assoc, length,
}
use vcap_spec.Bytes.{Bytes}
use vcap_spec.Bytes.Laws.{eq_bytes_iff}
use vcap_spec.Node.{Node}
use vcap_spec.Core.{verify_es256}
use vcap_spec.Segments.{
  SegmentEntry, ChainResult, complete, clip, tampered, Reason, Checked, refused, message_of,
  map_set, map_get, sorted, segment_message, separator, expected_prev, check_entry, chain_loop,
  verify_chain, is_complete, every_index,
}
use vcap_spec.Segments.Sorting.{IsIncreasing, map_get-map_set, sorted_lem}

before_pred :
    (j i : ℤ) → ltb_ℤ j i ≡ true → eqb_ℤ j (i -ℤ pos 1) ≡ false → ltb_ℤ j (i -ℤ pos 1) ≡ true
before_pred j i h ne =
    ground (arith, -ℤ_parts i (pos 1), eq_of_parts j (i -ℤ pos 1), eqb_ℤ_iff j (i -ℤ pos 1))

before_trans : (a b c : ℤ) → ltb_ℤ a b ≡ true → ltb_ℤ b c ≡ true → ltb_ℤ a c ≡ true
before_trans a b c h k = ground arith

before-ne : (a b : ℤ) → ltb_ℤ a b ≡ true → eqb_ℤ a b ≡ false
before-ne a b h = ground (arith, eqb_ℤ_iff a b)

Checked-cases :
    (c : Checked) → ((why : Reason) × (c ≡ refused why)) ⊎ ((m : Bytes) × (c ≡ message_of m))
Checked-cases (refused why) = inl (why, refl)
Checked-cases (message_of m) = inr (m, refl)

-- The integers from `i` on, `n` of them.
pub indices_from : ℕ → ℕ → List ℤ
indices_from i zero = []
indices_from i (suc n) = pos i ∷ indices_from (i + 1) n

every_index_iff :
    (i : ℕ) (vs : List ℤ) → (every_index i vs ≡ true) ↔ (vs ≡ indices_from i (length vs))
unfolding every_index indices_from
every_index_iff i [] = ground arith
every_index_iff i (v ∷ vs) = ground (arith, eqb_ℤ_iff v (pos i), every_index_iff (i + 1) vs)

-- The entry before: its index and its message.
abbrev pub Previous : Type 0
Previous = Option (ℤ × Bytes)

-- Its message, if its index is the one before.
pub adjacent : ℤ → Previous → Option Bytes
adjacent index none = none
adjacent index (some (j, m)) = if eqb_ℤ j (index -ℤ pos 1) then some m else none

module _ (node : Node) where
  open node use {Key, sha256, from_base64url}

  module _ (capture_id : Bytes) (key : Key) where
    -- An entry is good after another: its stored link is zero for segment 0, the hash of the message
    -- before where that is the message of the index before, and free otherwise; the message is built
    -- from its fields; and its signature verifies over that message.
    pub record IsGood (previous : Previous) (index : ℤ) (e : SegmentEntry) (m : Bytes)
        : Type 0 where
      pub linked :
          from_base64url e.prev
          ≡ expected_prev node index (adjacent index previous) (from_base64url e.prev)
      pub built :
          segment_message capture_id index (from_base64url e.hash) (from_base64url e.prev) separator
          ≡ some m
      pub signed : verify_es256 node m (from_base64url e.sig) key ≡ true

    -- Every entry is good after the one before it.
    abbrev pub Chain : Previous → List (ℤ × SegmentEntry) → Type 0
    Chain previous [] = Unit
    Chain previous ((index, e) ∷ rest) =
        (m : Bytes) × IsGood previous index e m × Chain (some (index, m)) rest

    check_entry_good :
        (previous : Previous) (index : ℤ) (e : SegmentEntry) (m : Bytes)
        → IsGood previous index e m
        → check_entry node capture_id key index e (adjacent index previous) ≡ message_of m
    unfolding check_entry
    check_entry_good previous index e m g = ground (
      arith,
      g.linked,
      g.built,
      g.signed,
      eq_bytes_iff (from_base64url e.prev)
          (expected_prev node index (adjacent index previous) (from_base64url e.prev)),
    )

    check_entry_inv :
        (previous : Previous) (index : ℤ) (e : SegmentEntry) (m : Bytes)
        → check_entry node capture_id key index e (adjacent index previous) ≡ message_of m
        → IsGood previous index e m
    unfolding check_entry
    check_entry_inv previous index e m h = ground (
      arith,
      eq_bytes_iff (from_base64url e.prev)
          (expected_prev node index (adjacent index previous) (from_base64url e.prev)),
    )

    -- What the map of messages holds after an entry: nothing above its index, and there its message.
    abbrev Tracks : Previous → List (ℤ × Bytes) → Type 0
    Tracks none ms = (k : ℤ) → map_get k ms ≡ none
    Tracks (some (j, m)) ms =
        (map_get j ms ≡ some m) × ((k : ℤ) → ltb_ℤ j k ≡ true → map_get k ms ≡ none)

    abbrev Follows : Previous → List (ℤ × SegmentEntry) → Type 0
    Follows none l = Unit
    Follows (some (j, m)) [] = Unit
    Follows (some (j, m)) ((i, e) ∷ r) = ltb_ℤ j i ≡ true

    Tracks-adjacent :
        (previous : Previous) (ms : List (ℤ × Bytes)) (i : ℤ) (e : SegmentEntry)
        (r : List (ℤ × SegmentEntry))
        → Tracks previous ms
        → Follows previous ((i, e) ∷ r)
        → map_get (i -ℤ pos 1) ms ≡ adjacent i previous
    unfolding adjacent
    Tracks-adjacent none ms i e r t f = t (i -ℤ pos 1)
    Tracks-adjacent (some (j, m)) ms i e r (here, above) f =
        elim (Bool-cases (eqb_ℤ j (i -ℤ pos 1))) [
          | inl same ↦ let k : j ≡ i -ℤ pos 1 = (eqb_ℤ_iff _ _).0 same in rw same (rw k at here)
          | inr other ↦ rw other (above (i -ℤ pos 1) (before_pred j i f other))
        ]

    Tracks-map_set :
        (previous : Previous) (ms : List (ℤ × Bytes)) (i : ℤ) (e : SegmentEntry) (m : Bytes)
        (r : List (ℤ × SegmentEntry))
        → Tracks previous ms
        → Follows previous ((i, e) ∷ r)
        → Tracks (some (i, m)) (map_set i m ms)
    Tracks-map_set previous ms i e m r t f = (
      map_get-map_set i i m ms ∙ rw (eqb_ℤ_refl i) refl,
      λ k later. map_get-map_set i k m ms ∙ above previous t f k later,
    )
      where
        above :
            (p : Previous)
            → Tracks p ms
            → Follows p ((i, e) ∷ r)
            → (k : ℤ) → ltb_ℤ i k ≡ true
            → (if eqb_ℤ i k then some m else map_get k ms) ≡ none
        above none t f k later = rw (before-ne i k later) (t k)
        above (some (j, m')) (_, t) f k later =
            rw (before-ne i k later) (t k (before_trans j i k f later))

    IsIncreasing-Follows :
        (i : ℤ) (e : SegmentEntry) (m : Bytes) (r : List (ℤ × SegmentEntry))
        → IsIncreasing ((i, e) ∷ r)
        → IsIncreasing r × Follows (some (i, m)) r
    IsIncreasing-Follows i e m [] h = (tt, tt)
    IsIncreasing-Follows i e m ((j, w) ∷ r) h = (h.1, h.0)

    abbrev pub keys : List (ℤ × SegmentEntry) → List ℤ
    keys [] = []
    keys ((i, e) ∷ r) = i ∷ keys r

    abbrev whole : ℤ → List ℤ → ChainResult
    whole count verified = record {
      status = if is_complete count verified then complete else clip;
      verified = verified;
      reason = none;
    }

    module _ (i : ℤ) (e : SegmentEntry) (r : List (ℤ × SegmentEntry)) (ms : List (ℤ × Bytes))
        (vs : List ℤ) (count : ℤ) where
      abbrev checked : Checked
      checked = check_entry node capture_id key i e (map_get (i -ℤ pos 1) ms)

      loop_step :
          (m : Bytes)
          → checked ≡ message_of m
          → chain_loop node capture_id key count ((i, e) ∷ r) ms vs
            ≡ chain_loop node capture_id key count r (map_set i m ms) (vs ++ i ∷ [])
      unfolding chain_loop
      loop_step m h = rw (h, chain_loop) refl

      loop_stop :
          (why : Reason)
          → checked ≡ refused why
          → (chain_loop node capture_id key count ((i, e) ∷ r) ms vs).status ≡ tampered
      unfolding chain_loop
      loop_stop why h = rw (h, chain_loop) refl

    loop_good :
        (l : List (ℤ × SegmentEntry)) (previous : Previous) (ms : List (ℤ × Bytes)) (vs : List ℤ)
        (count : ℤ)
        → IsIncreasing l
        → Follows previous l
        → Tracks previous ms
        → Chain previous l
        → chain_loop node capture_id key count l ms vs ≡ whole count (vs ++ keys l)
    loop_good [] previous ms vs count inc f t c = unfold chain_loop in rw append-nil refl
    loop_good ((i, e) ∷ r) previous ms vs count inc f t (m, good, c) =
        let (inc', f') = IsIncreasing-Follows i e m r inc in
        let here : checked i e r ms vs count ≡ message_of m =
          rw (Tracks-adjacent previous ms i e r t f) (check_entry_good previous i e m good) in
        loop_step i e r ms vs count m here
        ∙ loop_good r (some (i, m)) (map_set i m ms) (vs ++ i ∷ []) count inc' f'
            (Tracks-map_set previous ms i e m r t f) c
        ∙ rw append_assoc refl

    loop_inv :
        (l : List (ℤ × SegmentEntry)) (previous : Previous) (ms : List (ℤ × Bytes)) (vs : List ℤ)
        (count : ℤ)
        → IsIncreasing l
        → Follows previous l
        → Tracks previous ms
        → (chain_loop node capture_id key count l ms vs).status ≢ tampered
        → Chain previous l
    loop_inv [] previous ms vs count inc f t h = tt
    loop_inv ((i, e) ∷ r) previous ms vs count inc f t h =
        elim (Checked-cases (checked i e r ms vs count)) [
          | inl (why, stop) ↦ absurd (h (loop_stop i e r ms vs count why stop))
          | inr (m, go) ↦
              let (inc', f') = IsIncreasing-Follows i e m r inc in
              let here = rw (Tracks-adjacent previous ms i e r t f) at go in
              (
                m,
                check_entry_inv previous i e m here,
                loop_inv r (some (i, m)) (map_set i m ms) (vs ++ i ∷ []) count inc' f'
                    (Tracks-map_set previous ms i e m r t f)
                    (rw (loop_step i e r ms vs count m go) at h),
              )
        ]

    answer :
        (segments : List SegmentEntry) (count : ℤ)
        → Chain none (sorted segments)
        → verify_chain node capture_id count segments key ≡ whole count (keys (sorted segments))
    unfolding verify_chain
    answer segments count c =
        loop_good (sorted segments) none [] [] count (sorted_lem segments).0 tt
          (λ k. unfold map_get in refl) c

    whole_not_tampered : (count : ℤ) (vs : List ℤ) → (whole count vs).status ≢ tampered
    whole_not_tampered count vs h = ground arith

    -- The chain is not tampered exactly if, over the entries in increasing order of their indices,
    -- each once, every entry is good after the one before it.
    pub verify_chain_iff :
        (segments : List SegmentEntry) (count : ℤ)
        → ((verify_chain node capture_id count segments key).status ≢ tampered)
          ↔ Chain none (sorted segments)
    unfolding verify_chain
    verify_chain_iff segments count = (
      loop_inv (sorted segments) none [] [] count (sorted_lem segments).0 tt
          (λ k. unfold map_get in refl),
      λ c h.
          whole_not_tampered count (keys (sorted segments))
            (sym (ap (λ (x : ChainResult). x.status) (answer segments count c)) ∙ h),
    )

    whole-complete_iff :
        (count : ℤ) (vs : List ℤ)
        → ((whole count vs).status ≡ complete)
          ↔ ((count ≡ pos (length vs)) × (vs ≡ indices_from 0 (length vs)))
    unfolding is_complete
    whole-complete_iff count vs =
        ground (arith, eqb_ℤ_iff (pos (length vs)) count, every_index_iff 0 vs)

    -- The chain is complete exactly if every entry is good after the one before it, there are as many
    -- indices as the core says, and they are 0, 1, 2 and so on.
    pub verify_chain-complete_iff :
        (segments : List SegmentEntry) (count : ℤ)
        → ((verify_chain node capture_id count segments key).status ≡ complete) ↔ (
            Chain none (sorted segments)
            × (count ≡ pos (length (keys (sorted segments))))
            × (keys (sorted segments) ≡ indices_from 0 (length (keys (sorted segments)))))
    verify_chain-complete_iff segments count = (
      λ h.
          let c = (verify_chain_iff segments count).0 (λ t. cc (h, t)) in
          let w = rw (answer segments count c) at h in
          let (n, ks) = (whole-complete_iff count (keys (sorted segments))).0 w in (c, n, ks),
      λ (c, n, ks).
          rw (answer segments count c)
            ((whole-complete_iff count (keys (sorted segments))).1 (n, ks)),
    )

    -- A clip or a complete chain credits exactly the indices that the entries name.
    pub verified-verify_chain :
        (segments : List SegmentEntry) (count : ℤ)
        → (verify_chain node capture_id count segments key).status ≢ tampered
        → (verify_chain node capture_id count segments key).verified ≡ keys (sorted segments)
    verified-verify_chain segments count h =
        rw (answer segments count ((verify_chain_iff segments count).0 h)) refl
