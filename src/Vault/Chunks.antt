-- ===== src/Vault/Chunks.antt =====
-- The sizes of the chunks of tools/src/vault/format.ts.
use vcap_spec.Prelude.{ℕ, zero, suc, ◌+◌, ◌-◌, ◌*◌, ◌≤◌, ◌<◌, ◌≡◌, arith, ℤ, pos, ◌+ℤ◌, ◌-ℤ◌, min}
use vcap_spec.Vault.{Manifest, chunk_bytes, chunk_count, ciphertext_bytes, chunk_size}

-- The sizes of the first `n` chunks, each with its tag of 16 bytes.
pub sizes : Manifest → ℕ → ℤ
sizes m zero = pos 0
sizes m (suc n) = sizes m n +ℤ (chunk_size m n +ℤ pos 16)

-- A chunk before the last is full, and the last one is what is left.
pub chunk_size_lem :
    (m : Manifest) (i : ℕ)
    → i < chunk_count m
    → chunk_size m i ≡ pos (min chunk_bytes (m.plaintext_bytes - i * chunk_bytes))
unfolding chunk_size chunk_count ◌-ℤ◌
chunk_size_lem m i h = ground arith

sizes_first :
    (m : Manifest) (n : ℕ)
    → n ≤ chunk_count m
    → sizes m n ≡ pos (min m.plaintext_bytes (n * chunk_bytes) + 16 * n)
unfolding sizes ◌+ℤ◌
sizes_first m zero h = ground arith
sizes_first m (suc n) h =
    rw (sizes_first m n (omega arith), chunk_size_lem m n (omega arith)) (ground arith)

-- The chunks with their tags add up to the ciphertext.
pub sizes-chunk_count : (m : Manifest) → sizes m (chunk_count m) ≡ pos (ciphertext_bytes m)
unfolding ciphertext_bytes
sizes-chunk_count m =
    rw (sizes_first m (chunk_count m) (omega arith)) (unfold chunk_count in ground arith)
