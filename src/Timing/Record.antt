-- ===== src/Timing/Record.antt =====
-- `timingRecord`, `timingRoot` and `receivedTimingHash` of tools/src/timing.ts.
use vcap_spec.Prelude.{
  ℕ, ◌≡◌, ◌≢◌, ◌↔◌, Option, none, refl, sym, ap, ◌∙◌, ◌⊎◌, false, not, some, List, [], ◌∷◌, ◌++◌,
  length, any, ◌==◌, arith, pos, Option-cases, Bool-cases, inl, inr, append_inj, length-append,
}
use vcap_spec.Bytes.{Bytes, eq_bytes}
use vcap_spec.Bytes.Laws.{eq_bytes_iff}
use vcap_spec.Node.{Node}
use vcap_spec.Timing.{
  TimingValues, int64, uint64, uint32, pairs, fields, Encoded, encoded, encoded_or, timing_record,
  concat, timing_root, Timescales, mismatch, unencodable, hash_is, hash_of, hash_converted,
  received_timing_hash, convert_timing,
}
use vcap_spec.Timing.Fields.{int64-Field, pairs_inj, uint32-Field, uint64-Field}

-- What the bytes of a record are.
record Laid (t : TimingValues) (b : Bytes) : Type 0 where
  count : Bytes
  video : Bytes
  until : Bytes
  audio_count : Bytes
  audio : Bytes
  count_is : uint32 (pos (length t.video_dts)) ≡ some count
  video_is : pairs int64 int64 t.video_dts t.video_cts ≡ some video
  until_is : uint64 t.video_end ≡ some until
  audio_count_is : uint32 (pos (length t.audio_dts)) ≡ some audio_count
  audio_is : pairs int64 uint32 t.audio_dts t.audio_dur ≡ some audio
  layout : b ≡ count ++ (video ++ (until ++ (audio_count ++ audio)))

fields_inv : (t : TimingValues) (b : Bytes) → fields t ≡ some b → Laid t b
unfolding fields
fields_inv t b h = elim (Option-cases (uint32 (pos (length t.video_dts)))) [
  | inl e ↦ absurd (ground (arith, e))
  | inr (n, e1) ↦ elim (Option-cases (pairs int64 int64 t.video_dts t.video_cts)) [
    | inl e ↦ absurd (ground (arith, e1, e))
    | inr (v, e2) ↦ elim (Option-cases (uint64 t.video_end)) [
      | inl e ↦ absurd (ground (arith, e1, e2, e))
      | inr (u, e3) ↦ elim (Option-cases (uint32 (pos (length t.audio_dts)))) [
        | inl e ↦ absurd (ground (arith, e1, e2, e3, e))
        | inr (m, e4) ↦ elim (Option-cases (pairs int64 uint32 t.audio_dts t.audio_dur)) [
          | inl e ↦ absurd (ground (arith, e1, e2, e3, e4, e))
          | inr (a, e5) ↦ record {
            count = n;
            video = v;
            until = u;
            audio_count = m;
            audio = a;
            count_is = e1;
            video_is = e2;
            until_is = e3;
            audio_count_is = e4;
            audio_is = e5;
            layout = ground (arith, e1, e2, e3, e4, e5);
          }
        ]
      ]
    ]
  ]
]

timing_record_inv :
    (t : TimingValues) (b : Bytes)
    → timing_record t ≡ encoded b
    → (length t.video_dts ≡ length t.video_cts)
      × (length t.audio_dts ≡ length t.audio_dur)
      × (fields t ≡ some b)
unfolding timing_record encoded_or
timing_record_inv t b h = elim (Option-cases (fields t)) [
  | inl e ↦ absurd (ground (arith, e))
  | inr (c, e) ↦ (ground (arith, e), ground (arith, e), ground (arith, e))
]

-- Two timing records that are the same bytes have the same values.
pub timing_record_inj :
    (t u : TimingValues) (b : Bytes)
    → timing_record t ≡ encoded b
    → timing_record u ≡ encoded b
    → t ≡ u
timing_record_inj t u b h k =
    let (lv, la, ht) = timing_record_inv t b h in
    let (kv, ka, ku) = timing_record_inv u b k in
    let x = fields_inv t b ht in
    let y = fields_inv u b ku in
    let w = uint32-Field.width in
    let c = uint32-Field.inj in
    let (e1, r1) =
      append_inj x.count _ y.count _ (w _ _ x.count_is ∙ sym (w _ _ y.count_is))
        (sym x.layout ∙ y.layout) in
    let n : length t.video_dts ≡ length u.video_dts =
      pos_inj (c _ _ x.count x.count_is (rw e1 y.count_is)) in
    let (e2, e3, r2) =
      pairs_inj 8 8 int64 int64 int64-Field int64-Field t.video_dts t.video_cts u.video_dts
        u.video_cts x.video y.video (x.until ++ (x.audio_count ++ x.audio))
        (y.until ++ (y.audio_count ++ y.audio)) lv kv n x.video_is y.video_is r1 in
    let (e4, r3) =
      append_inj x.until _ y.until _
        (uint64-Field.width _ _ x.until_is ∙ sym (uint64-Field.width _ _ y.until_is)) r2 in
    let (e5, r4) =
      append_inj x.audio_count _ y.audio_count _
        (w _ _ x.audio_count_is ∙ sym (w _ _ y.audio_count_is)) r3 in
    let m : length t.audio_dts ≡ length u.audio_dts =
      pos_inj (c _ _ x.audio_count x.audio_count_is (rw e5 y.audio_count_is)) in
    let (e6, e7, _) =
      pairs_inj 8 4 int64 uint32 int64-Field uint32-Field t.audio_dts t.audio_dur u.audio_dts
        u.audio_dur x.audio y.audio [] [] la ka m x.audio_is y.audio_is (ap (λ z. z ++ []) r4) in
    same_values t u e2 e3 (uint64-Field.inj _ _ x.until x.until_is (rw e4 y.until_is)) e6 e7
  where
    pos_inj : {a c : ℕ} → pos a ≡ pos c → a ≡ c
    pos_inj e = cc

    same_values :
        (t u : TimingValues)
        → t.video_dts ≡ u.video_dts
        → t.video_cts ≡ u.video_cts
        → t.video_end ≡ u.video_end
        → t.audio_dts ≡ u.audio_dts
        → t.audio_dur ≡ u.audio_dur
        → t ≡ u
    same_values t u a c d e f = λ i. record {
      video_dts = a i;
      video_cts = c i;
      video_end = d i;
      audio_dts = e i;
      audio_dur = f i;
    }

concat_inj :
    (xs ys : List Bytes)
    → any (λ h. not (length h == 32)) xs ≡ false
    → any (λ h. not (length h == 32)) ys ≡ false
    → concat xs ≡ concat ys
    → xs ≡ ys
unfolding concat
concat_inj [] [] h k e = refl
concat_inj [] (y ∷ ys) h k e =
    let l : length y ≡ 32 = ground arith in
    absurd (omega (arith, l, ap length e, length-append {0} y (concat ys)))
concat_inj (x ∷ xs) [] h k e =
    let l : length x ≡ 32 = ground arith in
    absurd (omega (arith, l, ap length e, length-append {0} x (concat xs)))
concat_inj (x ∷ xs) (y ∷ ys) h k e =
    let l : length x ≡ 32 = ground arith in
    let m : length y ≡ 32 = ground arith in
    let (e1, e2) = append_inj x (concat xs) y (concat ys) (l ∙ sym m) e in
    let e3 = concat_inj xs ys (ground arith) (ground arith) e2 in rw (e1, e3) refl

-- Two lists of timing hashes with one root are the same; or else SHA-256 gives one digest to the two
-- different texts the lists make up.
pub timing_root_inj :
    (node : Node) (xs ys : List Bytes) (root : Bytes)
    → timing_root node xs ≡ some root
    → timing_root node ys ≡ some root
    → (xs ≡ ys) ⊎ ((concat xs ≢ concat ys) × (node.sha256 (concat xs) ≡ node.sha256 (concat ys)))
unfolding timing_root
timing_root_inj node xs ys root h k =
    let same : node.sha256 (concat xs) ≡ node.sha256 (concat ys) = ground arith in
    elim (Bool-cases (eq_bytes (concat xs) (concat ys))) [
      | inl e ↦ inl (
          concat_inj xs ys (ground arith) (ground arith)
            ((eq_bytes_iff (concat xs) (concat ys)).0 e))
      | inr e ↦ inr (λ q. cc ((eq_bytes_iff (concat xs) (concat ys)).1 q), same)
    ]

-- A received segment has a hash exactly when its values, in the signed timescales, have a record, of which
-- it is the hash.
pub received_timing_hash_iff :
    (node : Node) (t : TimingValues) (received signed : Timescales) (hash : Bytes)
    → (received_timing_hash node t received signed ≡ hash_is hash) ↔ (
        (u : TimingValues) × (b : Bytes) × (convert_timing t received signed ≡ some u)
        × (timing_record u ≡ encoded b)
        × (hash ≡ node.sha256 b))
unfolding received_timing_hash hash_converted hash_of
received_timing_hash_iff node t received signed hash = (
  of_converted (convert_timing t received signed) refl,
  λ (u, b, e, f, g). ground (arith, e, f, g),
)
  where
    of_record :
        (u : TimingValues) (r : Encoded)
        → convert_timing t received signed ≡ some u
        → timing_record u ≡ r
        → received_timing_hash node t received signed ≡ hash_is hash
        → (u : TimingValues) × (b : Bytes) × (convert_timing t received signed ≡ some u)
          × (timing_record u ≡ encoded b)
          × (hash ≡ node.sha256 b)
    of_record u mismatch e f h = absurd (ground (arith, e, f, h))
    of_record u unencodable e f h = absurd (ground (arith, e, f, h))
    of_record u (encoded b) e f h = (u, b, e, f, ground (arith, e, f, h))

    of_converted :
        (o : Option TimingValues)
        → convert_timing t received signed ≡ o
        → received_timing_hash node t received signed ≡ hash_is hash
        → (u : TimingValues) × (b : Bytes) × (convert_timing t received signed ≡ some u)
          × (timing_record u ≡ encoded b)
          × (hash ≡ node.sha256 b)
    of_converted none e h = absurd (ground (arith, e, h))
    of_converted (some u) e h = of_record u (timing_record u) e refl h

-- When the hash of a received segment is the hash of a signed record, the received values, expressed
-- in the signed timescales, are the signed ones; or else SHA-256 gives one digest to the two
-- different records.
pub received_timing_hash_sound :
    (node : Node) (t signed : TimingValues) (from to : Timescales) (b : Bytes)
    → timing_record signed ≡ encoded b
    → received_timing_hash node t from to ≡ hash_is (node.sha256 b)
    → (u : TimingValues) × (convert_timing t from to ≡ some u)
      × ((u ≡ signed)
          ⊎ ((c : Bytes) × (timing_record u ≡ encoded c)
              × (c ≢ b)
              × (node.sha256 c ≡ node.sha256 b)))
unfolding received_timing_hash hash_converted hash_of
received_timing_hash_sound node t signed from to b s h =
    elim (Option-cases (convert_timing t from to)) [
      | inl e ↦ absurd (ground (arith, e))
      | inr (u, e) ↦
          let step : hash_of node (timing_record u) ≡ hash_is (node.sha256 b) = rw e at h in
          let (c, made, agree) = of_hash node (timing_record u) (node.sha256 b) step in
          (
            u,
            e,
            elim (Bool-cases (eq_bytes c b)) [
              | inl same ↦
                  inl
                    (timing_record_inj u signed b (made ∙ ap encoded ((eq_bytes_iff c b).0 same)) s)
              | inr other ↦ inr (c, made, λ q. cc ((eq_bytes_iff c b).1 q), agree)
            ],
          )
    ]
  where
    of_hash :
        (node : Node) (e : Encoded) (d : Bytes)
        → hash_of node e ≡ hash_is d
        → (c : Bytes) × (e ≡ encoded c) × (node.sha256 c ≡ d)
    of_hash node mismatch d k = cc
    of_hash node unencodable d k = cc
    of_hash node (encoded c) d k = (c, refl, ground (arith, k))
