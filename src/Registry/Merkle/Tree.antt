-- ===== src/Registry/Merkle/Tree.antt =====
-- The Merkle tree of a list of leaf hashes, level by level: neighbours are hashed in pairs and a
-- last hash without a neighbour moves up as it is (RFC 6962 section 2.1). This is the independent
-- description that `verify_inclusion` is held against.
use vcap_spec.Prelude.{
  ℕ, zero, suc, ◌+◌, ◌/◌, ◌%◌, ◌<◌, ◌≡◌, refl, sym, Bool, true, false, ◌||◌, Option, none, some,
  List, [], ◌∷◌, length, get_elem?, ltb, ◌==◌, if◌then◌else◌, arith,
}
use vcap_spec.Bytes.{Bytes}
use vcap_spec.Registry.Merkle.{node_hash}

-- The hash beside the one at a position, at one level.
unfoldable pub sibling {ℓ} : {A : Type ℓ} → List A → ℕ → Option A
sibling (a ∷ b ∷ r) zero = some b
sibling (a ∷ b ∷ r) (suc zero) = some a
sibling (a ∷ b ∷ r) (suc (suc p)) = sibling r p
sibling _ p = none

unfoldable pub is_some {ℓ} : {A : Type ℓ} → Option A → Bool
is_some none = false
is_some (some a) = true

-- There is one exactly if the position is odd or not the last.
pub sibling_exists {ℓ} :
    {A : Type ℓ} (hs : List A) (p : ℕ)
    → p < length hs
    → is_some (sibling hs p) ≡ (p % 2 == 1 || ltb (p + 1) (length hs))
unfolding sibling is_some
sibling_exists [] p h = absurd (omega arith)
sibling_exists (a ∷ []) zero h = refl
sibling_exists (a ∷ []) (suc p) h = absurd (omega arith)
sibling_exists (a ∷ b ∷ r) zero h = ground arith
sibling_exists (a ∷ b ∷ r) (suc zero) h = ground arith
sibling_exists (a ∷ b ∷ r) (suc (suc p)) h = ground (arith, sibling_exists r p)

-- The test of the loop, from the sibling.
pub sibling-none :
    (hs : List Bytes) (p : ℕ)
    → p < length hs
    → sibling hs p ≡ none
    → (p + 1 ≡ length hs) × (p % 2 ≡ 0) × ((p % 2 == 1 || ltb (p + 1) (length hs)) ≡ false)
unfolding is_some
sibling-none hs p h e = let t = rw e at (sibling_exists hs p h) in ground (arith, t)

pub sibling-some :
    (hs : List Bytes) (p : ℕ) (s : Bytes)
    → p < length hs
    → sibling hs p ≡ some s
    → (p % 2 == 1 || ltb (p + 1) (length hs)) ≡ true
unfolding is_some
sibling-some hs p s h e = let t = rw e at (sibling_exists hs p h) in sym t

module _ (sha256 : Bytes → Bytes) where
  -- The level above.
  unfoldable pub next_level : List Bytes → List Bytes
  next_level (a ∷ b ∷ r) = node_hash sha256 a b ∷ next_level r
  next_level hs = hs

  pub length-next_level : (hs : List Bytes) → length (next_level hs) ≡ (length hs + 1) / 2
  unfolding next_level
  length-next_level [] = omega arith
  length-next_level (a ∷ []) = omega arith
  length-next_level (a ∷ b ∷ r) = omega (arith, length-next_level r)

  -- A hash with what stands beside it gives the hash above.
  unfoldable pub above : ℕ → Bytes → Option Bytes → Bytes
  above p h none = h
  above p h (some s) = if p % 2 == 1 then node_hash sha256 s h else node_hash sha256 h s

  above-suc-suc : (p : ℕ) (h : Bytes) (s : Option Bytes) → above (suc (suc p)) h s ≡ above p h s
  unfolding above
  above-suc-suc p h s = ground arith

  pub get_elem?-next_level :
      (hs : List Bytes) (p : ℕ) (h : Bytes)
      → get_elem? hs p ≡ some h
      → get_elem? (next_level hs) (p / 2) ≡ some (above p h (sibling hs p))
  unfolding next_level above sibling
  get_elem?-next_level [] p h e = cc
  get_elem?-next_level (a ∷ []) zero h e = e
  get_elem?-next_level (a ∷ []) (suc p) h e = cc
  get_elem?-next_level (a ∷ b ∷ r) zero h e = cc
  get_elem?-next_level (a ∷ b ∷ r) (suc zero) h e = cc
  get_elem?-next_level (a ∷ b ∷ r) (suc (suc p)) h e =
      let half : suc (suc p) / 2 ≡ suc (p / 2) = omega arith in
      rw (half, above-suc-suc p h (sibling r p)) (get_elem?-next_level r p h e)

  -- The root, and the path of siblings from a position to it. A level of more than one hash is
  -- longer than the level above, so the number of leaves is fuel enough.
  unfoldable pub root_from : ℕ → List Bytes → Option Bytes
  root_from fuel [] = none
  root_from fuel (a ∷ []) = some a
  root_from zero (a ∷ b ∷ r) = none
  root_from (suc fuel) (a ∷ b ∷ r) = root_from fuel (next_level (a ∷ b ∷ r))

  unfoldable pub push_sibling : Option Bytes → List Bytes → List Bytes
  push_sibling none path = path
  push_sibling (some s) path = s ∷ path

  unfoldable pub path_from : ℕ → List Bytes → ℕ → List Bytes
  path_from (suc fuel) (a ∷ b ∷ r) p =
      push_sibling (sibling (a ∷ b ∷ r) p) (path_from fuel (next_level (a ∷ b ∷ r)) (p / 2))
  path_from _ _ p = []

  unfoldable pub tree_root : List Bytes → Option Bytes
  tree_root hs = root_from (length hs) hs

  unfoldable pub audit_path : List Bytes → ℕ → List Bytes
  audit_path hs p = path_from (length hs) hs p

  pub path_from-none :
      (fuel : ℕ) (a b : Bytes) (r : List Bytes) (p : ℕ)
      → sibling (a ∷ b ∷ r) p ≡ none
      → path_from (suc fuel) (a ∷ b ∷ r) p ≡ path_from fuel (next_level (a ∷ b ∷ r)) (p / 2)
  unfolding path_from push_sibling
  path_from-none fuel a b r p e = rw e refl

  pub path_from-some :
      (fuel : ℕ) (a b : Bytes) (r : List Bytes) (p : ℕ) (s : Bytes)
      → sibling (a ∷ b ∷ r) p ≡ some s
      → path_from (suc fuel) (a ∷ b ∷ r) p ≡ s ∷ path_from fuel (next_level (a ∷ b ∷ r)) (p / 2)
  unfolding path_from push_sibling
  path_from-some fuel a b r p s e = rw e refl
