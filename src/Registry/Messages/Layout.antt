-- ===== src/Registry/Messages/Layout.antt =====
-- The layout of the messages of tools/src/registry.ts that a log signs.
use vcap_spec.Prelude.{
  ℕ, ◌%◌, ◌<◌, ◌≡◌, refl, sym, ap, ◌∙◌, some, [], ◌∷◌, ◌++◌, length, arith, ℤ, Option-cases, inl,
  inr, append_inj, length-append,
}
use vcap_spec.Bytes.{Bytes, write_int}
use vcap_spec.Bytes.Laws.{length-write_int, write_int_inj}
use vcap_spec.Json.{Json, jcs}
use vcap_spec.Registry.Messages.{
  sth_separator, status_separator, attestation_status_separator, tree_head_message,
  key_status_message, attestation_status_message,
}

pub tree_head_message_inv :
    (size time : ℤ) (root m : Bytes)
    → tree_head_message size time root ≡ some m
    → (s t : Bytes) × (write_int 8 size ≡ some s)
      × (write_int 8 time ≡ some t)
      × (m ≡ sth_separator ++ (s ++ (t ++ root)))
unfolding tree_head_message
tree_head_message_inv size time root m h = elim (Option-cases (write_int 8 size)) [
  | inl e ↦ absurd (ground (arith, e))
  | inr (s, e) ↦ elim (Option-cases (write_int 8 time)) [
    | inl k ↦ absurd (ground (arith, e, k))
    | inr (t, k) ↦ (s, t, e, k, ground (arith, e, k))
  ]
]

pub key_status_message_inv :
    (key : Bytes) (at size : ℤ) (status : ℕ) (m : Bytes)
    → key_status_message key at size status ≡ some m
    → (t s : Bytes) × (write_int 8 at ≡ some t)
      × (write_int 8 size ≡ some s)
      × (m ≡ status_separator ++ (key ++ (t ++ (s ++ status % 256 ∷ []))))
unfolding key_status_message
key_status_message_inv key at size status m h = elim (Option-cases (write_int 8 at)) [
  | inl e ↦ absurd (ground (arith, e))
  | inr (t, e) ↦ elim (Option-cases (write_int 8 size)) [
    | inl k ↦ absurd (ground (arith, e, k))
    | inr (s, k) ↦ (t, s, e, k, ground (arith, e, k))
  ]
]

pub attestation_status_message_inv :
    (hash : Bytes) (entries : Json) (at : ℤ) (m : Bytes)
    → attestation_status_message hash entries at ≡ some m
    → (t : Bytes) × (write_int 8 at ≡ some t)
      × (m ≡ attestation_status_separator ++ (hash ++ (jcs entries ++ t)))
unfolding attestation_status_message
attestation_status_message_inv hash entries at m h = elim (Option-cases (write_int 8 at)) [
  | inl e ↦ absurd (ground (arith, e))
  | inr (t, e) ↦ (t, e, ground (arith, e))
]

-- Two tree heads that are signed as the same bytes have the same size, time and root.
pub tree_head_message_inj :
    (size size' time time' : ℤ) (root root' m : Bytes)
    → tree_head_message size time root ≡ some m
    → tree_head_message size' time' root' ≡ some m
    → (size ≡ size') × (time ≡ time') × (root ≡ root')
tree_head_message_inj size size' time time' root root' m h k =
    let (s, t, hs, ht, e) = tree_head_message_inv size time root m h in
    let (s', t', ks, kt, f) = tree_head_message_inv size' time' root' m k in
    let w = length-write_int 8 size s hs ∙ sym (length-write_int 8 size' s' ks) in
    let v = length-write_int 8 time t ht ∙ sym (length-write_int 8 time' t' kt) in
    let (_, r1) = append_inj sth_separator _ sth_separator _ refl (sym e ∙ f) in
    let (e1, r2) = append_inj s _ s' _ w r1 in
    let (e2, r3) = append_inj t _ t' _ v r2 in
    (write_int_inj 8 size size' s hs (rw e1 ks), write_int_inj 8 time time' t ht (rw e2 kt), r3)

-- Two statements on 32-byte key ids and status bytes that are signed as the same bytes name the same
-- key, instant, tree size and status.
pub key_status_message_inj :
    (key key' : Bytes) (at at' size size' : ℤ) (status status' : ℕ) (m : Bytes)
    → length key ≡ 32
    → length key' ≡ 32
    → status < 256
    → status' < 256
    → key_status_message key at size status ≡ some m
    → key_status_message key' at' size' status' ≡ some m
    → (key ≡ key') × (at ≡ at') × (size ≡ size') × (status ≡ status')
key_status_message_inj key key' at at' size size' status status' m l l' b b' h k =
    let (t, s, ht, hs, e) = key_status_message_inv key at size status m h in
    let (t', s', kt, ks, f) = key_status_message_inv key' at' size' status' m k in
    let w = length-write_int 8 size s hs ∙ sym (length-write_int 8 size' s' ks) in
    let v = length-write_int 8 at t ht ∙ sym (length-write_int 8 at' t' kt) in
    let (_, r1) = append_inj status_separator _ status_separator _ refl (sym e ∙ f) in
    let (e1, r2) = append_inj key _ key' _ (l ∙ sym l') r1 in
    let (e2, r3) = append_inj t _ t' _ v r2 in
    let (e3, r4) = append_inj s _ s' _ w r3 in
    (
      e1,
      write_int_inj 8 at at' t ht (rw e2 kt),
      write_int_inj 8 size size' s hs (rw e3 ks),
      ground (arith, r4),
    )

-- Two relayed lists of attestation entries, each for a 32-byte core hash, that are signed as the same
-- bytes are for one core, with entries of the same canonical bytes, fetched at one time.
pub attestation_status_message_inj :
    (hash hash' : Bytes) (entries entries' : Json) (at at' : ℤ) (m : Bytes)
    → length hash ≡ 32
    → length hash' ≡ 32
    → attestation_status_message hash entries at ≡ some m
    → attestation_status_message hash' entries' at' ≡ some m
    → (hash ≡ hash') × (jcs entries ≡ jcs entries') × (at ≡ at')
attestation_status_message_inj hash hash' entries entries' at at' m l l' h k =
    let (t, ht, e) = attestation_status_message_inv hash entries at m h in
    let (t', kt, f) = attestation_status_message_inv hash' entries' at' m k in
    let v = length-write_int 8 at t ht in
    let v' = length-write_int 8 at' t' kt in
    let (_, r1) =
      append_inj attestation_status_separator _ attestation_status_separator _ refl (sym e ∙ f) in
    let (e1, r2) = append_inj hash _ hash' _ (l ∙ sym l') r1 in
    let same : length (jcs entries) ≡ length (jcs entries') = omega (
      arith,
      ap length r2,
      v,
      v',
      length-append {0} (jcs entries) t,
      length-append {0} (jcs entries') t',
    ) in
    let (e2, e3) = append_inj (jcs entries) t (jcs entries') t' same r2 in
    (e1, e2, write_int_inj 8 at at' t ht (rw e3 kt))
