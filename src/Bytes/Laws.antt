-- ===== src/Bytes/Laws.antt =====
-- The laws of the byte operations of `Buffer` (Bytes).
use native.Mathlib.Nat.{pow-suc, mod-lt}
use vcap_spec.Prelude.{
  ℕ, zero, suc, ◌+◌, ◌-◌, ◌*◌, ◌/◌, ◌%◌, ◌^◌, ◌≤◌, ◌<◌, ℤ, pos, negsuc, ◌≡◌, refl, sym, ap, ◌∙◌,
  true, some, [], ◌∷◌, ◌++◌, length, take, drop, arith, ◌↔◌, length-take, length-drop,
  take-append_eq, drop-append_eq, drop-drop, take-append-drop, ==_self, ltb_iff,
}
use vcap_spec.Bytes.{
  Bytes, IsBytes, be, of_be, eq_bytes, subarray, write_uint, write_int, read_uint,
}

pub length-be : (w v : ℕ) → length (be w v) ≡ w
unfolding be
length-be zero v = refl
length-be (suc w) v = ap suc (length-be w (v % 256 ^ w))

pow_pos : (w : ℕ) → 0 < 256 ^ w
pow_pos zero = omega arith
pow_pos (suc w) = omega (arith, pow-suc 256 w, pow_pos w)

div_mul-add-mod : (v p : ℕ) → 0 < p → v / p * p + v % p ≡ v
div_mul-add-mod v p h = ground arith

mul-add-div : (b r p : ℕ) → r < p → (b * p + r) / p ≡ b
mul-add-div b r p h = grind arith

mul-add-mod : (b r p : ℕ) → r < p → (b * p + r) % p ≡ r
mul-add-mod b r p h = grind arith

div_lt : (v p q : ℕ) → 0 < p → v < q * p → v / p < q
div_lt v p q h k = grind arith

pub of_be-be : (w v : ℕ) → v < 256 ^ w → of_be (be w v) ≡ v
unfolding be of_be
of_be-be zero v h = omega arith
of_be-be (suc w) v h =
    rw (length-be w (v % 256 ^ w), of_be-be w (v % 256 ^ w) (mod-lt v (pow_pos w)))
      (div_mul-add-mod v (256 ^ w) (pow_pos w))

mul_lt : (b r p : ℕ) → b < 256 → r < p → b * p + r < 256 * p
mul_lt b r p h k = grind arith

pub of_be_lt : (bs : Bytes) → IsBytes bs → of_be bs < 256 ^ length bs
unfolding of_be
of_be_lt [] h = omega arith
of_be_lt (b ∷ bs) h =
    omega
      (arith, pow-suc 256 (length bs), mul_lt b (of_be bs) (256 ^ length bs) h.0 (of_be_lt bs h.1))

pub be-of_be : (bs : Bytes) (w : ℕ) → w ≡ length bs → IsBytes bs → be w (of_be bs) ≡ bs
unfolding be of_be
be-of_be [] zero e h = refl
be-of_be [] (suc w) e h = absurd (omega arith)
be-of_be (b ∷ bs) zero e h = absurd (omega arith)
be-of_be (b ∷ bs) (suc w) e h =
    let same : length bs ≡ w = omega arith in
    let small : of_be bs < 256 ^ w = rw same at (of_be_lt bs h.1) in
    rw (same, mul-add-div b (of_be bs) (256 ^ w) small, mul-add-mod b (of_be bs) (256 ^ w) small)
      (ap (λ l. b ∷ l) (be-of_be bs w (sym same) h.1))

pub eq_bytes_iff : (as' bs : Bytes) → (eq_bytes as' bs ≡ true) ↔ (as' ≡ bs)
unfolding eq_bytes
eq_bytes_iff [] [] = ground arith
eq_bytes_iff [] (b ∷ bs) = ground arith
eq_bytes_iff (a ∷ as') [] = ground arith
eq_bytes_iff (a ∷ as') (b ∷ bs) = ground (arith, eq_bytes_iff as' bs)

pub eq_bytes_self : (bs : Bytes) → eq_bytes bs bs ≡ true
eq_bytes_self bs = (eq_bytes_iff bs bs).1 refl

-- What stands after the bytes `s` at `i`.
pub drop-next :
    (b s rest : Bytes) (i j : ℕ) → drop i b ≡ s ++ rest → i + length s ≡ j → drop j b ≡ rest
drop-next b s rest i j h e =
    sym (drop-drop i (length s) j b e) ∙ rw h (drop-append_eq s rest (length s) refl)

pub subarray_at :
    (b s rest : Bytes) (i j : ℕ) → drop i b ≡ s ++ rest → i + length s ≡ j → subarray b i j ≡ s
unfolding subarray
subarray_at b s rest i j h e = rw h (take-append_eq s rest (j - i) (omega arith))

pub read_uint_at :
    (w : ℕ) (b s rest : Bytes) (i : ℕ)
    → drop i b ≡ s ++ rest
    → length s ≡ w
    → read_uint w b i ≡ some (of_be s)
unfolding read_uint
read_uint_at w b s rest i h e = rw (h, take-append_eq s rest w (sym e), e, ==_self w) refl

-- A read finds the number that was written.
pub read_uint-be :
    (w v : ℕ) (b rest : Bytes) (i : ℕ)
    → drop i b ≡ be w v ++ rest
    → v < 256 ^ w
    → read_uint w b i ≡ some v
read_uint-be w v b rest i h lt =
    read_uint_at w b (be w v) rest i h (length-be w v) ∙ ap some (of_be-be w v lt)

-- A read in range does not throw.
pub read_uint-some :
    (w : ℕ) (b : Bytes) (i : ℕ)
    → i + w ≤ length b
    → read_uint w b i ≡ some (of_be (take w (drop i b)))
unfolding read_uint
read_uint-some w b i h =
    let e : length (take w (drop i b)) ≡ w =
      omega (arith, length-take w (drop i b), length-drop i b) in
    rw (e, ==_self w) refl

pub IsBytes-append : (xs ys : Bytes) → IsBytes xs → IsBytes ys → IsBytes (xs ++ ys)
IsBytes-append [] ys h k = k
IsBytes-append (x ∷ xs) ys h k = (h.0, IsBytes-append xs ys h.1 k)

pub IsBytes-take : (n : ℕ) (xs : Bytes) → IsBytes xs → IsBytes (take n xs)
IsBytes-take zero xs h = tt
IsBytes-take (suc n) [] h = tt
IsBytes-take (suc n) (x ∷ xs) h = (h.0, IsBytes-take n xs h.1)

pub IsBytes-drop : (n : ℕ) (xs : Bytes) → IsBytes xs → IsBytes (drop n xs)
IsBytes-drop zero xs h = h
IsBytes-drop (suc n) [] h = tt
IsBytes-drop (suc n) (x ∷ xs) h = IsBytes-drop n xs h.1

pub write_uint-some : (w v : ℕ) → v < 256 ^ w → write_uint w v ≡ some (be w v)
unfolding write_uint
write_uint-some w v h = rw ((ltb_iff _ _).1 h)

pub write_uint_inv : (w v : ℕ) (s : Bytes) → write_uint w v ≡ some s → (v < 256 ^ w) × (s ≡ be w v)
unfolding write_uint
write_uint_inv w v s h = ground arith

-- Two writes that agree wrote one number.
pub be_inj : (w v u : ℕ) → v < 256 ^ w → u < 256 ^ w → be w v ≡ be w u → v ≡ u
be_inj w v u h k e = sym (of_be-be w v h) ∙ ap of_be e ∙ of_be-be w u k

-- What a read that does not throw has found.
pub read_uint_inv :
    (w v : ℕ) (b : Bytes) (i : ℕ)
    → IsBytes b
    → read_uint w b i ≡ some v
    → (length (take w (drop i b)) ≡ w) × (take w (drop i b) ≡ be w v) × (v < 256 ^ w)
unfolding read_uint
read_uint_inv w v b i h e =
    let s = take w (drop i b) in
    let full : length s ≡ w = ground arith in
    let val : v ≡ of_be s = ground arith in
    let small : IsBytes s = IsBytes-take w (drop i b) (IsBytes-drop i b h) in
    (full, rw val (sym (be-of_be s w (sym full) small)), rw val (rw full at (of_be_lt s small)))

pub take-drop_split : (n i j : ℕ) (b : Bytes) → i + n ≡ j → take n (drop i b) ++ drop j b ≡ drop i b
take-drop_split n i j b e = rw (← drop-drop i n j b e) (take-append-drop n (drop i b))

-- The next field of a buffer, put in front of what follows it.
pub drop-cut :
    (n i j : ℕ) (b s rest : Bytes)
    → i + n ≡ j
    → take n (drop i b) ≡ s
    → drop j b ≡ rest
    → drop i b ≡ s ++ rest
drop-cut n i j b s rest e h k = sym (take-drop_split n i j b e) ∙ rw (h, k) refl

pub subarray-eq-take : (n i j : ℕ) (b : Bytes) → i + n ≡ j → subarray b i j ≡ take n (drop i b)
unfolding subarray
subarray-eq-take n i j b e = let same : j - i ≡ n = omega arith in rw same refl

-- Reads inside a view are reads of the whole buffer.
pub read_uint-drop :
    (w : ℕ) (b : Bytes) (i j k : ℕ) → i + j ≡ k → read_uint w (drop i b) j ≡ read_uint w b k
unfolding read_uint
read_uint-drop w b i j k e = rw (drop-drop i j k b e) refl

pub subarray-drop :
    (b : Bytes) (i j l j' l' : ℕ)
    → i + j ≡ j'
    → i + l ≡ l'
    → subarray (drop i b) j l ≡ subarray b j' l'
unfolding subarray
subarray-drop b i j l j' l' e f =
    let n : l' - j' ≡ l - j = omega arith in rw (drop-drop i j j' b e, n) refl

-- A leading zero changes nothing.
pub of_be-zero : (bs : Bytes) → of_be (0 ∷ bs) ≡ of_be bs
unfolding of_be
of_be-zero bs = omega arith

-- What a write that does not throw has written.
pub write_int_inv :
    (w : ℕ) (v : ℤ) (s : Bytes)
    → write_int w v ≡ some s
    → (n : ℕ) × (v ≡ pos n) × (n < 256 ^ w) × (s ≡ be w n)
unfolding write_int
write_int_inv w (pos n) s h = let (small, same) = write_uint_inv w n s h in (n, refl, small, same)
write_int_inv w (negsuc n) s h = cc

pub length-write_int : (w : ℕ) (v : ℤ) (s : Bytes) → write_int w v ≡ some s → length s ≡ w
length-write_int w v s h = let (n, _, _, same) = write_int_inv w v s h in rw same (length-be w n)

-- Two integers that are written as the same bytes are one.
pub write_int_inj :
    (w : ℕ) (v u : ℤ) (s : Bytes) → write_int w v ≡ some s → write_int w u ≡ some s → v ≡ u
write_int_inj w v u s h k =
    let (n, vn, small, same) = write_int_inv w v s h in
    let (m, um, small', same') = write_int_inv w u s k in
    vn ∙ ap pos (be_inj w n m small small' (sym same ∙ same')) ∙ sym um
