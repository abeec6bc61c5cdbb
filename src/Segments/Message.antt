-- ===== src/Segments/Message.antt =====
-- `segmentMessage` of tools/src/segments.ts.
use vcap_spec.Prelude.{
  ◌≡◌, sym, ap, ◌∙◌, some, ◌++◌, length, arith, ℤ, Option-cases, inl, inr, append_inj,
  length-append,
}
use vcap_spec.Bytes.{Bytes, write_int}
use vcap_spec.Bytes.Laws.{length-write_int, write_int_inj}
use vcap_spec.Segments.{segment_message}

-- What a message that is built has.
pub record Built (capture_id : Bytes) (index : ℤ) (hash prev sep m : Bytes) : Type 0 where
  pub id_size : length capture_id ≡ 16
  pub hash_size : length hash ≡ 32
  pub prev_size : length prev ≡ 32
  pub size : length m ≡ 96
  pub number : Bytes
  pub written : write_int 4 index ≡ some number
  pub layout : m ≡ sep ++ (capture_id ++ (number ++ (hash ++ prev)))

pub segment_message_inv :
    (capture_id : Bytes) (index : ℤ) (hash prev sep m : Bytes)
    → segment_message capture_id index hash prev sep ≡ some m
    → Built capture_id index hash prev sep m
unfolding segment_message
segment_message_inv capture_id index hash prev sep m h = elim (Option-cases (write_int 4 index)) [
  | inl e ↦ absurd (ground (arith, e))
  | inr (n, e) ↦ record {
    id_size = ground (arith, e);
    hash_size = ground (arith, e);
    prev_size = ground (arith, e);
    size = ground (arith, e);
    number = n;
    written = e;
    layout = ground (arith, e);
  }
]

-- Two messages that are equal have the same separator, capture id, index, content hash and link.
pub segment_message_inj :
    (c c' : Bytes) (i i' : ℤ) (h h' p p' s s' m : Bytes)
    → segment_message c i h p s ≡ some m
    → segment_message c' i' h' p' s' ≡ some m
    → (s ≡ s') × (c ≡ c') × (i ≡ i') × (h ≡ h') × (p ≡ p')
segment_message_inj c c' i i' h h' p p' s s' m e e' =
    let b = segment_message_inv c i h p s m e in
    let b' = segment_message_inv c' i' h' p' s' m e' in
    let n = length-write_int 4 i b.number b.written in
    let n' = length-write_int 4 i' b'.number b'.written in
    let same : s ++ (c ++ (b.number ++ (h ++ p))) ≡ s' ++ (c' ++ (b'.number ++ (h' ++ p'))) =
      sym b.layout ∙ b'.layout in
    let rest = length_rest c b.number h p b.id_size n b.hash_size b.prev_size in
    let rest' = length_rest c' b'.number h' p' b'.id_size n' b'.hash_size b'.prev_size in
    let sep : length s ≡ length s' = omega (
      arith,
      ap length b.layout,
      ap length b'.layout,
      b.size,
      b'.size,
      rest,
      rest',
      length-append {0} s (c ++ (b.number ++ (h ++ p))),
      length-append {0} s' (c' ++ (b'.number ++ (h' ++ p'))),
    ) in
    let (e1, r1) = append_inj s _ s' _ sep same in
    let (e2, r2) = append_inj c _ c' _ (b.id_size ∙ sym b'.id_size) r1 in
    let (e3, r3) = append_inj b.number _ b'.number _ (n ∙ sym n') r2 in
    let (e4, e5) = append_inj h p h' p' (b.hash_size ∙ sym b'.hash_size) r3 in
    (e1, e2, write_int_inj 4 i i' b.number b.written (rw e3 b'.written), e4, e5)
  where
    length_rest :
        (c n h p : Bytes)
        → length c ≡ 16
        → length n ≡ 4
        → length h ≡ 32
        → length p ≡ 32
        → length (c ++ (n ++ (h ++ p))) ≡ 84
    length_rest c n h p lc ln lh lp = omega (
      arith,
      length-append {0} c (n ++ (h ++ p)),
      length-append {0} n (h ++ p),
      length-append {0} h p,
    )
