-- ===== src/Verify/Clip/Chained.antt =====
-- The entries of a chain that is not tampered, for `judge` in tools/src/verify.ts: the segments that the
-- GOPs of a file name are signed.
use vcap_spec.Prelude.{
  true, none, some, List, [], ◌∷◌, All, arith, ℤ, eqb_ℤ, eqb_ℤ_iff, eqb_ℤ_refl, ltb_ℤ, ◌≡◌, ◌⊎◌,
  refl, sym, ap, ◌∙◌, Bool-cases, inl, inr, some-injective,
}
use vcap_spec.Bytes.{Bytes}
use vcap_spec.Text.{Text}
use vcap_spec.Node.{Node}
use vcap_spec.Core.{verify_es256}
use vcap_spec.Segments.{
  SegmentEntry, segment_message, separator, map_set, map_get, insert_entry, sort_entries, by_index,
  sorted,
}
use vcap_spec.Segments.Chain.{Previous, Chain, IsGood, keys}
use vcap_spec.Verify.Container.{Segment}
use vcap_spec.Verify.Binding.{has_index, signed_from, signed_hashes}
use vcap_spec.Verify.Binding.Accounted.{Accounted, IsOurs, done, next}
use vcap_spec.Verify.Judge.{in_both}

-- An entry stands in a list under an index.
unfoldable Has : ℤ → SegmentEntry → List (ℤ × SegmentEntry) → Type 0
Has i e [] = ⊥
Has i e ((j, f) ∷ r) = ((i ≡ j) × (e ≡ f)) ⊎ Has i e r

Has-map_get :
    (i : ℤ) (e : SegmentEntry) (m : List (ℤ × SegmentEntry)) → map_get i m ≡ some e → Has i e m
unfolding map_get Has
Has-map_get i e [] h = absurd (cc)
Has-map_get i e ((j, f) ∷ r) h = elim (Bool-cases (eqb_ℤ j i)) [
  | inl k ↦ inl (sym ((eqb_ℤ_iff j i).0 k), sym (some-injective _ _ (ground (arith, k, h))))
  | inr k ↦ inr (Has-map_get i e r (ground (arith, k, h)))
]

Has-insert_entry :
    (i k : ℤ) (e v : SegmentEntry) (r : List (ℤ × SegmentEntry))
    → ((i ≡ k) × (e ≡ v)) ⊎ Has i e r
    → Has i e (insert_entry k v r)
unfolding insert_entry Has
Has-insert_entry i k e v [] h = h
Has-insert_entry i k e v ((j, w) ∷ r) h = elim (Bool-cases (ltb_ℤ j k)) [
  | inr l ↦ rw l h
  | inl l ↦ rw l (elim h [
    | inl here ↦ inr (Has-insert_entry i k e v r (inl here))
    | inr (inl first) ↦ inl first
    | inr (inr later) ↦ inr (Has-insert_entry i k e v r (inr later))
  ])
]

Has-sort_entries :
    (i : ℤ) (e : SegmentEntry) (m : List (ℤ × SegmentEntry)) → Has i e m → Has i e (sort_entries m)
unfolding sort_entries Has
Has-sort_entries i e [] h = h
Has-sort_entries i e ((k, v) ∷ r) (inl here) = Has-insert_entry i k e v (sort_entries r) (inl here)
Has-sort_entries i e ((k, v) ∷ r) (inr later) =
    Has-insert_entry i k e v (sort_entries r) (inr (Has-sort_entries i e r later))

-- The map of the hashes is that of the entries, by their hashes.
hashes_of : List (ℤ × SegmentEntry) → List (ℤ × Text)
hashes_of [] = []
hashes_of ((k, e) ∷ r) = (k, e.hash) ∷ hashes_of r

hashes_of-map_set :
    (k : ℤ) (e : SegmentEntry) (m : List (ℤ × SegmentEntry))
    → hashes_of (map_set k e m) ≡ map_set k e.hash (hashes_of m)
unfolding hashes_of map_set
hashes_of-map_set k e [] = refl
hashes_of-map_set k e ((j, f) ∷ r) = elim (Bool-cases (eqb_ℤ j k)) [
  | inl h ↦ rw h refl
  | inr h ↦ rw h (ap (λ z. (j, f.hash) ∷ z) (hashes_of-map_set k e r))
]

hashes_of-by_index :
    (es : List SegmentEntry) (m : List (ℤ × SegmentEntry))
    → hashes_of (by_index es m) ≡ signed_from es (hashes_of m)
unfolding by_index signed_from
hashes_of-by_index [] m = refl
hashes_of-by_index (e ∷ es) m =
    hashes_of-by_index es (map_set e.gop e m) ∙ ap (signed_from es) (hashes_of-map_set e.gop e m)

map_get-hashes_of :
    (i : ℤ) (h : Text) (m : List (ℤ × SegmentEntry))
    → map_get i (hashes_of m) ≡ some h
    → (e : SegmentEntry) × (map_get i m ≡ some e) × (e.hash ≡ h)
unfolding hashes_of map_get
map_get-hashes_of i h [] g = absurd (cc)
map_get-hashes_of i h ((j, e) ∷ r) g = elim (Bool-cases (eqb_ℤ j i)) [
  | inl k ↦ (e, ground (arith, k), some-injective _ _ (ground (arith, k, g)))
  | inr k ↦
      let (f, at, same) = map_get-hashes_of i h r (ground (arith, k, g)) in
      (f, ground (arith, k, at), same)
]

-- A signed hash is that of an entry of the chain.
entry_of :
    (entries : List SegmentEntry) (i : ℤ) (h : Text)
    → map_get i (signed_hashes entries) ≡ some h
    → (e : SegmentEntry) × Has i e (sorted entries) × (e.hash ≡ h)
unfolding signed_hashes sorted hashes_of
entry_of entries i h g =
    let (e, at, same) =
      map_get-hashes_of i h (by_index entries [])
        (ap (map_get i) (hashes_of-by_index entries []) ∙ g) in
    (e, Has-sort_entries i e (by_index entries []) (Has-map_get i e (by_index entries []) at), same)

in_both-all : (is ks : List ℤ) → All (λ i. has_index i ks ≡ true) is → in_both is ks ≡ is
unfolding in_both
in_both-all [] ks a = refl
in_both-all (i ∷ is) ks (h, a) = rw h (ap (λ z. i ∷ z) (in_both-all is ks a))

module _ (node : Node) (capture_id : Bytes) (key : node.Key) where
  -- The content of a GOP is that of a segment of the capture, with the index that the GOP names, whose
  -- message is signed.
  pub record IsSigned (gop : Segment) : Type 0 where
    pub index : ℤ
    pub named : gop.index ≡ some index
    pub prev : Bytes
    pub message : Bytes
    pub built : segment_message capture_id index gop.content_hash prev separator ≡ some message
    pub signature : Bytes
    pub signed : verify_es256 node message signature key ≡ true

  IsGood-of :
      (previous : Previous) (list : List (ℤ × SegmentEntry)) (i : ℤ) (e : SegmentEntry)
      → Chain node capture_id key previous list
      → Has i e list
      → (before : Previous) × (m : Bytes) × IsGood node capture_id key before i e m
  unfolding Has
  IsGood-of previous [] i e c h = absurd h
  IsGood-of previous ((j, f) ∷ r) i e (m, good, c) (inl (here, same)) =
      (previous, m, rw (here, same) good)
  IsGood-of previous ((j, f) ∷ r) i e (m, good, c) (inr h) = IsGood-of (some (j, m)) r i e c h

  has_index-keys :
      (list : List (ℤ × SegmentEntry)) (i : ℤ) (e : SegmentEntry)
      → Has i e list
      → has_index i (keys node capture_id key list) ≡ true
  unfolding Has has_index
  has_index-keys [] i e h = absurd h
  has_index-keys ((j, f) ∷ r) i e (inl (here, same)) =
      let self = eqb_ℤ_refl j in rw here (ground (arith, self))
  has_index-keys ((j, f) ∷ r) i e (inr h) = ground (arith, has_index-keys r i e h)

  module _ (entries : List SegmentEntry) (c : Chain node capture_id key none (sorted entries)) where
    IsSigned-IsOurs :
        (previous index : ℤ) (gop : Segment)
        → IsOurs node capture_id (signed_hashes entries) previous index gop
        → IsSigned gop
    IsSigned-IsOurs previous index gop o =
        let (e, at, same) = entry_of entries index (node.to_base64url gop.content_hash) o.content in
        let (before, m, good) = IsGood-of none (sorted entries) index e c at in
        let content : node.from_base64url e.hash ≡ gop.content_hash =
          ap node.from_base64url same ∙ node.base64url_decode-encode gop.content_hash in
        record {
          index = index;
          named = o.named;
          prev = node.from_base64url e.prev;
          message = m;
          built = rw content at good.built;
          signature = node.from_base64url e.sig;
          signed = good.signed;
        }

    -- The GOPs that are accounted for are signed.
    pub Accounted-IsSigned :
        (previous : ℤ) (found : List ℤ) (gops : List Segment)
        → Accounted node capture_id (signed_hashes entries) previous found gops
        → All IsSigned gops
    Accounted-IsSigned previous _ _ done = tt
    Accounted-IsSigned previous _ _ (next {index = index} {is = is} {gop = gop} {gops = gops} o a) =
        (IsSigned-IsOurs previous index gop o, Accounted-IsSigned index is gops a)

    all_known :
        (previous : ℤ) (found : List ℤ) (gops : List Segment)
        → Accounted node capture_id (signed_hashes entries) previous found gops
        → All (λ i. has_index i (keys node capture_id key (sorted entries)) ≡ true) found
    all_known previous _ _ done = tt
    all_known previous _ _ (next {index = index} {is = is} {gop = gop} {gops = gops} o a) =
        let (e, at, same) = entry_of entries index (node.to_base64url gop.content_hash) o.content in
        (has_index-keys (sorted entries) index e at, all_known index is gops a)

    -- The chain has verified all of them.
    pub in_both-keys :
        (previous : ℤ) (found : List ℤ) (gops : List Segment)
        → Accounted node capture_id (signed_hashes entries) previous found gops
        → in_both found (keys node capture_id key (sorted entries)) ≡ found
    in_both-keys previous found gops a = in_both-all found _ (all_known previous found gops a)
