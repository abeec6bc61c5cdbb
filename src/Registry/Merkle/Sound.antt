-- ===== src/Registry/Merkle/Sound.antt =====
-- `verifyInclusion` of tools/src/registry.ts on any path. The length of a digest is SHA-256's.
use vcap_spec.Prelude.{
  ℕ, zero, suc, ◌+◌, ◌||◌, false, ltb, if◌then◌else◌, ◌/◌, ◌%◌, ◌≤◌, ◌≡◌, ◌≢◌, ap, sym, ◌∙◌, true,
  Option, none, some, List, [], ◌∷◌, ◌++◌, length, get_elem?, ◌==◌, arith, Option-cases, Bool-cases,
  inl, inr, pos, ◌⊎◌, append_inj, length, drop, some-injective, All, subst, lt-of_get_elem?,
}
use vcap_spec.Bytes.{Bytes, eq_bytes}
use vcap_spec.Bytes.Laws.{eq_bytes_iff}
use vcap_spec.Registry.Merkle.{
  node_hash, Walk, out_of_fuel, too_short, reached, walk, ends_at, verify_inclusion,
}
use vcap_spec.Registry.Merkle.Tree.{
  sibling, next_level, length-next_level, above, get_elem?-next_level, root_from, tree_root,
  sibling-none, sibling-some,
}
use vcap_spec.Registry.Merkle.Complete.{walk-some, walk_none, walk_empty}

abbrev pub Is32 : Bytes → Type 0
Is32 h = length h ≡ 32

module _ (sha256 : Bytes → Bytes) where
  -- What is hashed for a pair: the one at an odd position stands on the right.
  unfoldable pub input_of : ℕ → Bytes → Bytes → Bytes
  input_of p h s = if p % 2 == 1 then 1 ∷ (s ++ h) else 1 ∷ (h ++ s)

  -- The inputs of the nodes of a tree.
  pub data NodeOf : List Bytes → Bytes → Type 0 where
    node_here :
        {hs : List Bytes} (p : ℕ) (h s : Bytes)
        → get_elem? hs p ≡ some h
        → sibling hs p ≡ some s
        → NodeOf hs (input_of p h s)
    node_above : {hs : List Bytes} {x : Bytes} → NodeOf (next_level sha256 hs) x → NodeOf hs x

  -- The inputs that the verifier hashes, from a hash at a position in a level of a size.
  pub data HashedBy : Bytes → ℕ → ℕ → List Bytes → Bytes → Type 0 where
    hashed_here :
        {h s : Bytes} {p n : ℕ} {rest : List Bytes} → HashedBy h p n (s ∷ rest) (input_of p h s)
    hashed_above :
        {h s x : Bytes} {p n : ℕ} {rest : List Bytes}
        → HashedBy (above sha256 p h (some s)) (p / 2) ((n + 1) / 2) rest x
        → HashedBy h p n (s ∷ rest) x
    hashed_alone :
        {h x : Bytes} {p n : ℕ} {path : List Bytes}
        → (p % 2 == 1 || ltb (p + 1) n) ≡ false
        → HashedBy h (p / 2) ((n + 1) / 2) path x
        → HashedBy h p n path x

  -- An input that the verifier hashes and another one, of a node of the tree, with one digest.
  pub record Collision (h : Bytes) (p n : ℕ) (path hs : List Bytes) : Type 0 where
    pub left : Bytes
    pub right : Bytes
    pub hashed : HashedBy h p n path left
    pub node : NodeOf hs right
    pub differ : left ≢ right
    pub agree : sha256 left ≡ sha256 right

  Collision-above :
      (h s : Bytes) (p n : ℕ) (rest hs : List Bytes)
      → Collision (above sha256 p h (some s)) (p / 2) ((n + 1) / 2) rest (next_level sha256 hs)
      → Collision h p n (s ∷ rest) hs
  Collision-above h s p n rest hs c = record {
    left = c.left;
    right = c.right;
    hashed = hashed_above c.hashed;
    node = node_above c.node;
    differ = c.differ;
    agree = c.agree;
  }

  Collision-alone :
      (h : Bytes) (p n : ℕ) (path hs : List Bytes)
      → (p % 2 == 1 || ltb (p + 1) n) ≡ false
      → Collision h (p / 2) ((n + 1) / 2) path (next_level sha256 hs)
      → Collision h p n path hs
  Collision-alone h p n path hs e c = record {
    left = c.left;
    right = c.right;
    hashed = hashed_alone e c.hashed;
    node = node_above c.node;
    differ = c.differ;
    agree = c.agree;
  }

  above-input_of : (p : ℕ) (h s : Bytes) → above sha256 p h (some s) ≡ sha256 (input_of p h s)
  unfolding above input_of node_hash
  above-input_of p h s = ground arith

  -- The input determines what stands at the position.
  input_of_inj :
      (p : ℕ) (h s h' s' : Bytes)
      → Is32 h
      → Is32 s
      → Is32 h'
      → Is32 s'
      → input_of p h s ≡ input_of p h' s'
      → h ≡ h'
  unfolding input_of
  input_of_inj p h s h' s' lh ls lh' ls' e = elim (Bool-cases (p % 2 == 1)) [
    | inl odd ↦ (append_inj s h s' h' (ls ∙ sym ls') (ap (drop 1) (rw odd at e))).1
    | inr even ↦ (append_inj h s h' s' (lh ∙ sym lh') (ap (drop 1) (rw even at e))).0
  ]

  above_inj :
      (p n : ℕ) (h s h' s' : Bytes) (rest hs : List Bytes)
      → Is32 h
      → Is32 s
      → Is32 h'
      → Is32 s'
      → get_elem? hs p ≡ some h'
      → sibling hs p ≡ some s'
      → above sha256 p h (some s) ≡ above sha256 p h' (some s')
      → (h ≡ h') ⊎ Collision h p n (s ∷ rest) hs
  above_inj p n h s h' s' rest hs lh ls lh' ls' at beside e =
      elim (Bool-cases (eq_bytes (input_of p h s) (input_of p h' s'))) [
        | inl same ↦ inl (input_of_inj p h s h' s' lh ls lh' ls' ((eq_bytes_iff _ _).0 same))
        | inr other ↦ inr (record {
          left = input_of p h s;
          right = input_of p h' s';
          hashed = hashed_here;
          node = node_here p h' s' at beside;
          differ = λ q. cc ((eq_bytes_iff _ _).1 q);
          agree = sym (above-input_of p h s) ∙ e ∙ above-input_of p h' s';
        })
      ]

  module _ (sha256_length : (b : Bytes) → length (sha256 b) ≡ 32) where
    Is32-above : (p : ℕ) (h : Bytes) (s : Option Bytes) → Is32 h → Is32 (above sha256 p h s)
    unfolding above node_hash
    Is32-above p h none l = l
    Is32-above p h (some s) l =
        ground (arith, sha256_length (1 ∷ (s ++ h)), sha256_length (1 ∷ (h ++ s)))

    All-next_level : (hs : List Bytes) → All Is32 hs → All Is32 (next_level sha256 hs)
    unfolding next_level node_hash
    All-next_level [] a = tt
    All-next_level (x ∷ []) a = a
    All-next_level (x ∷ y ∷ r) a = (sha256_length _, All-next_level r a.1.1)

    All-sibling :
        (hs : List Bytes) (p : ℕ) (s : Bytes) → All Is32 hs → sibling hs p ≡ some s → Is32 s
    unfolding sibling
    All-sibling [] p s a e = cc
    All-sibling (x ∷ []) p s a e = cc
    All-sibling (x ∷ y ∷ r) zero s a e = subst Is32 (some-injective _ _ e) a.1.0
    All-sibling (x ∷ y ∷ r) (suc zero) s a e = subst Is32 (some-injective _ _ e) a.0
    All-sibling (x ∷ y ∷ r) (suc (suc p)) s a e = All-sibling r p s a.1.1 e

    All-get : (hs : List Bytes) (p : ℕ) (h : Bytes) → All Is32 hs → get_elem? hs p ≡ some h → Is32 h
    All-get [] p h a e = cc
    All-get (x ∷ r) zero h a e = subst Is32 (some-injective _ _ e) a.0
    All-get (x ∷ r) (suc p) h a e = All-get r p h a.1 e

    walk_sound :
        (fuel : ℕ) (hs : List Bytes) (p : ℕ) (h h' root : Bytes) (path : List Bytes)
        → length hs ≤ fuel
        → All Is32 hs
        → All Is32 path
        → Is32 h
        → get_elem? hs p ≡ some h'
        → root_from sha256 fuel hs ≡ some root
        → walk sha256 fuel h p (length hs) path ≡ reached root []
        → (h ≡ h') ⊎ Collision h p (length hs) path hs
    unfolding root_from
    walk_sound fuel [] p h h' root path le ah ap' lh at top e = cc
    walk_sound zero (a ∷ hs) p h h' root path le ah ap' lh at top e = absurd (omega arith)
    walk_sound (suc fuel) (a ∷ []) (suc p) h h' root path le ah ap' lh at top e = cc
    walk_sound (suc fuel) (a ∷ []) zero h h' root path le ah ap' lh at top e =
        inl (unfold walk in (ground (arith, e, top, at)))
    walk_sound (suc fuel) (a ∷ b ∷ r) p h h' root [] le ah ap' lh at top e =
        cc (walk_empty sha256 fuel h p (length (a ∷ b ∷ r)) (omega arith))
    walk_sound (suc fuel) (a ∷ b ∷ r) p h h' root (s ∷ rest) le ah ap' lh at top e =
        let hs = a ∷ b ∷ r in
        let up = next_level sha256 hs in
        let n = length-next_level sha256 hs in
        let inside = lt-of_get_elem? hs p h' at in
        let at_up = get_elem?-next_level sha256 hs p h' at in
        let lh' = All-get hs p h' ah at in
        elim (Option-cases (sibling hs p)) [
          | inl alone ↦
              let (_, _, test) = sibling-none hs p inside alone in
              let same : get_elem? up (p / 2) ≡ some h' = unfold above in rw alone at at_up in
              let step = walk_none sha256 fuel h s p (length hs) rest (omega arith) test in
              elim (walk_sound fuel up (p / 2) h h' root (s ∷ rest) (omega (arith, n))
                (All-next_level hs ah) ap' lh same top (rw (← n) at (sym step ∙ e))) [
                  | inl found ↦ inl found
                  | inr c ↦ inr (Collision-alone h p (length hs) (s ∷ rest) hs test (rw n at c))
                ]
          | inr (s', beside) ↦
              let test = sibling-some hs p s' inside beside in
              let over = rw beside at at_up in
              let step = walk-some sha256 fuel h s p (length hs) rest (omega arith) test in
              elim (walk_sound fuel up (p / 2) (above sha256 p h (some s))
                (above sha256 p h' (some s')) root rest (omega (arith, n)) (All-next_level hs ah)
                ap'.1 (Is32-above p h (some s) lh) over top (rw (← n) at (sym step ∙ e))) [
                  | inl same ↦
                      above_inj p (length hs) h s h' s' rest hs lh ap'.0 lh'
                        (All-sibling hs p s' ah beside) at beside same
                  | inr c ↦ inr (Collision-above h s p (length hs) rest hs (rw n at c))
                ]
        ]

    ends_at_inv : (root : Bytes) (w : Walk) → ends_at root w ≡ true → w ≡ reached root []
    unfolding ends_at
    ends_at_inv root (reached h []) e = ap (λ x. reached x []) ((eq_bytes_iff h root).0 e)
    ends_at_inv root (reached h (x ∷ r)) e = cc
    ends_at_inv root out_of_fuel e = cc
    ends_at_inv root too_short e = cc

    -- When a path of 32-byte hashes is accepted at an index, for the size and the root of a tree, the
    -- leaf hash is the one that stands at that index; or else an input that the verifier hashed and
    -- another one, of a node of the tree, have the same digest.
    pub verify_inclusion_sound :
        (hs : List Bytes) (index : ℕ) (leaf leaf' root : Bytes) (path : List Bytes)
        → All Is32 hs
        → All Is32 path
        → Is32 leaf
        → get_elem? hs index ≡ some leaf'
        → tree_root sha256 hs ≡ some root
        → verify_inclusion sha256 leaf (pos index) (pos (length hs)) path root ≡ true
        → (leaf ≡ leaf') ⊎ Collision leaf index (length hs) path hs
    unfolding verify_inclusion tree_root
    verify_inclusion_sound hs index leaf leaf' root path ah ap' ll at top e =
        walk_sound (length hs) hs index leaf leaf' root path (omega arith) ah ap' ll at top
          (ends_at_inv root _ (ground arith))
