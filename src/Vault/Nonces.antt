-- ===== src/Vault/Nonces.antt =====
-- The header, nonces and additional data of tools/src/vault/format.ts.
use vcap_spec.Prelude.{
  ℕ, ◌≤◌, ◌<◌, ◌≡◌, ◌≢◌, refl, none, some, ◌++◌, arith, pos, Option-cases, inl, inr, append_inj,
}
use vcap_spec.Bytes.{Bytes, write_uint, write_int}
use vcap_spec.Bytes.Laws.{write_int_inj}
use vcap_spec.Text.{Text}
use vcap_spec.Json.{Json}
use vcap_spec.Node.{Node}
use vcap_spec.Vault.{
  Manifest, max_bytes, chunk_count, size_member, base64url, manifest, header, nonce, aad,
}

module _ (node : Node) (from_hex : Text → Bytes) where
  -- What a manifest that is accepted has, of what its nonces and headers use.
  pub record Valid (m : Manifest) : Type 0 where
    pub size : m.plaintext_bytes ≤ max_bytes
    pub capture : base64url node from_hex m.capture_id 16 ≢ none
    pub prefix : base64url node from_hex m.nonce_prefix 8 ≢ none

  pub manifest-Valid :
      (value : Json) (m : Manifest) → manifest node from_hex value ≡ some m → Valid m
  unfolding manifest size_member
  manifest-Valid value m h = record {
    size = ground arith;
    capture = λ e. ground (arith, e);
    prefix = λ e. ground (arith, e);
  }

  -- Of a manifest that is accepted, the header is there, and each chunk has a nonce and additional
  -- data: no number written for them is out of range.
  pub manifest-chunks :
      (value : Json) (m : Manifest) (i : ℕ)
      → manifest node from_hex value ≡ some m
      → i < chunk_count m
      → (header node from_hex m ≢ none)
        × (nonce node from_hex m i ≢ none)
        × (aad node from_hex m i ≢ none)
  unfolding header nonce aad chunk_count write_int write_uint
  manifest-chunks value m i h k =
      let v = manifest-Valid value m h in
      let size = v.size in
      let no_capture = v.capture in
      let no_prefix = v.prefix in
      (
        λ e. ground (arith, e, no_capture, no_prefix),
        λ e. ground (arith, e, no_prefix),
        λ e. ground (arith, e, no_capture, no_prefix),
      )

  -- Two chunks of one object that have the same nonce are one chunk.
  pub nonce_inj :
      (m : Manifest) (i j : ℕ) (b : Bytes)
      → nonce node from_hex m i ≡ some b
      → nonce node from_hex m j ≡ some b
      → i ≡ j
  unfolding nonce
  nonce_inj m i j b h k = elim (Option-cases (base64url node from_hex m.nonce_prefix 8)) [
    | inl e ↦ absurd (ground (arith, e))
    | inr (p, e) ↦ elim (Option-cases (write_int 4 (pos i))) [
      | inl f ↦ absurd (ground (arith, e, f))
      | inr (s, f) ↦ elim (Option-cases (write_int 4 (pos j))) [
        | inl g ↦ absurd (ground (arith, e, g))
        | inr (t, g) ↦
            let same : p ++ s ≡ p ++ t = ground (arith, e, f, g) in
            let (_, st) = append_inj p s p t refl same in
            let one : pos i ≡ pos j = write_int_inj 4 (pos i) (pos j) s f (rw st g) in cc one
      ]
    ]
  ]
