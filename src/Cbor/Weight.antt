-- ===== src/Cbor/Weight.antt =====
-- `decodeCbor` of tools/src/cbor.ts.
use vcap_spec.Prelude.{
  ℕ, zero, suc, ◌+◌, ◌/◌, ◌%◌, ◌≤◌, ◌≡◌, Bool, true, false, ◌||◌, Option, none, some, List, [], ◌∷◌,
  length, take, drop, ltb, ◌==◌, any, arith, if◌then◌else◌,
}
use vcap_spec.Bytes.{Bytes, eq_bytes}
use vcap_spec.Text.{Text}
use vcap_spec.Cbor.{
  Cbor, int, byte_string, text_string, array, map_of, bool, null, undefined, float, Elements,
  no_elements, element, Entries, no_entries, entry, Step, and_then, max_safe, taken, argument,
  length_of, byte_text, decoded, elements, key_of, entries, simple, Major, unsigned, negative,
  bytes_of, text_of, array_of, pairs_of, tag, other, major_type, of_major, item, whole, decode_cbor,
}

-- What a value takes: one for each item in it, and one for each byte of a byte string.
unfoldable mutual
  pub weight : Cbor → ℕ
  weight (byte_string b) = 1 + length b
  weight (array vs) = 1 + weight_elements vs
  weight (map_of vs) = 1 + weight_entries vs
  weight _ = 1

  pub weight_elements : Elements → ℕ
  weight_elements no_elements = 0
  weight_elements (element v vs) = weight v + weight_elements vs

  pub weight_entries : Entries → ℕ
  weight_entries no_entries = 0
  weight_entries (entry k v vs) = 1 + weight v + weight_entries vs

none_of : {A : Type 0} → A → ℕ
none_of a = 0

-- What is read and what is left make up `n` at most.
Weighs : {A : Type 0} → (A → ℕ) → ℕ → Step A → Type 0
Weighs w n none = Unit
Weighs w n (some (a, r)) = w a + length r ≤ n

module _ {A B : Type 0} (wa : A → ℕ) (wb : B → ℕ) where
  and_then-Weighs :
      (m n : ℕ) (p : Step A) (k : A → Bytes → Step B)
      → Weighs wa m p
      → ((a : A) (r : Bytes) → wa a + length r ≤ m → Weighs wb n (k a r))
      → Weighs wb n (and_then p k)
  unfolding Weighs and_then
  and_then-Weighs m n none k h f = tt
  and_then-Weighs m n (some (a, r)) k h f = f a r h

module _ {A : Type 0} (w : A → ℕ) where
  on_bool :
      (n : ℕ) (b : Bool) (x y : Step A)
      → Weighs w n x
      → Weighs w n y
      → Weighs w n (if b then x else y)
  on_bool n true x y h k = h
  on_bool n false x y h k = k

length-drop_le : (n : ℕ) (t : Bytes) → length (drop n t) ≤ length t
length-drop_le zero t = omega arith
length-drop_le (suc n) [] = omega arith
length-drop_le (suc n) (b ∷ t) = omega (arith, length-drop_le n t)

length-take-drop : (n : ℕ) (t : Bytes) → length (take n t) + length (drop n t) ≡ length t
length-take-drop zero t = omega arith
length-take-drop (suc n) [] = omega arith
length-take-drop (suc n) (b ∷ t) = omega (arith, length-take-drop n t)

taken-Weighs : (w : ℕ) (t : Bytes) → Weighs none_of (length t) (taken w t)
unfolding taken Weighs none_of
taken-Weighs w t =
    on_bool none_of (length t) (ltb (length t) w) _ _ tt (omega (arith, length-drop_le w t))

argument-Weighs : (info : ℕ) (t : Bytes) → Weighs none_of (length t) (argument info t)
unfolding argument Weighs none_of
argument-Weighs info t =
    let n = length t in
    on_bool none_of n (ltb info 24) _ _ (omega arith) (
      on_bool none_of n (info == 24) _ _ (taken-Weighs 1 t) (
        on_bool none_of n (info == 25) _ _ (taken-Weighs 2 t) (
          on_bool none_of n (info == 26) _ _ (taken-Weighs 4 t)
            (on_bool none_of n (info == 27) _ _ (taken-Weighs 8 t) tt))))

length_of-Weighs : (info : ℕ) (t : Bytes) → Weighs none_of (length t) (length_of info t)
unfolding length_of Weighs none_of
length_of-Weighs info t =
    and_then-Weighs none_of none_of (length t) (length t) (argument info t) _
      (argument-Weighs info t)
      (λ n r l. on_bool none_of (length t) (ltb max_safe n || ltb (length r) n) _ _ tt l)

decoded-Weighs :
    (o : Option Text) (r : Bytes) (n : ℕ) → 1 + length r ≤ n → Weighs weight n (decoded o r)
unfolding decoded Weighs weight
decoded-Weighs none r n l = tt
decoded-Weighs (some t) r n l = l

key_of-Weighs :
    (seen : List Text) (key : Cbor) (s : Bytes) → Weighs none_of (length s) (key_of seen key s)
unfolding key_of Weighs none_of
key_of-Weighs seen (text_string k) r =
    on_bool none_of (length r) (any (λ s. eq_bytes s k) seen) _ _ tt (omega arith)
key_of-Weighs seen (int i) r = tt
key_of-Weighs seen (byte_string b) r = tt
key_of-Weighs seen (array vs) r = tt
key_of-Weighs seen (map_of vs) r = tt
key_of-Weighs seen (bool b) r = tt
key_of-Weighs seen null r = tt
key_of-Weighs seen undefined r = tt
key_of-Weighs seen (float v w) r = tt

weight-pos : (v : Cbor) → 1 ≤ weight v
unfolding weight
weight-pos (text_string k) = omega arith
weight-pos (int i) = omega arith
weight-pos (byte_string b) = omega arith
weight-pos (array vs) = omega arith
weight-pos (map_of vs) = omega arith
weight-pos (bool b) = omega arith
weight-pos null = omega arith
weight-pos undefined = omega arith
weight-pos (float v w) = omega arith

module _ (parse : Bytes → Step Cbor)
    (parses : (r : Bytes) → Weighs weight (length r) (parse r)) where
  elements-Weighs : (n : ℕ) (r : Bytes) → Weighs weight_elements (length r) (elements parse n r)
  unfolding elements Weighs weight_elements
  elements-Weighs zero r = omega arith
  elements-Weighs (suc n) r =
      and_then-Weighs weight weight_elements (length r) (length r) (parse r) _ (parses r) (λ v s l.
        and_then-Weighs weight_elements weight_elements (length s) (length r) (elements parse n s) _
          (elements-Weighs n s) (λ vs u k. omega (arith, l, k)))

  entries-Weighs :
      (seen : List Text) (n : ℕ) (r : Bytes)
      → Weighs weight_entries (length r) (entries parse seen n r)
  unfolding entries Weighs weight_entries none_of
  entries-Weighs seen zero r = omega arith
  entries-Weighs seen (suc n) r =
      and_then-Weighs weight weight_entries (length r) (length r) (parse r) _ (parses r) (λ key s l.
        and_then-Weighs none_of weight_entries (length s) (length r) (key_of seen key s) _
          (key_of-Weighs seen key s)
          (λ k _ _.
            and_then-Weighs weight weight_entries (length s) (length r) (parse s) _ (parses s)
              (λ v u m.
                and_then-Weighs weight_entries weight_entries (length u) (length r)
                  (entries parse (k ∷ seen) n u) _ (entries-Weighs (k ∷ seen) n u)
                  (λ vs w o. omega (arith, l, m, o, weight-pos key)))))

float-Weighs :
    (w : ℕ) (r : Bytes)
    → Weighs weight (1 + length r) (and_then (taken w r) (λ v s. some (float w v, s)))
unfolding Weighs weight none_of
float-Weighs w r =
    and_then-Weighs none_of weight (length r) (1 + length r) (taken w r) _ (taken-Weighs w r)
      (λ v s l. omega (arith, l))

simple-Weighs : (info : ℕ) (r : Bytes) → Weighs weight (1 + length r) (simple info r)
unfolding simple Weighs weight
simple-Weighs info r =
    let n = 1 + length r in
    on_bool weight n (info == 20) _ _ (omega arith) (
      on_bool weight n (info == 21) _ _ (omega arith) (
        on_bool weight n (info == 22) _ _ (omega arith) (
          on_bool weight n (info == 23) _ _ (omega arith) (
            on_bool weight n (info == 25) _ _ (float-Weighs 2 r) (
              on_bool weight n (info == 26) _ _ (float-Weighs 4 r)
                (on_bool weight n (info == 27) _ _ (float-Weighs 8 r) tt))))))

weaken : (m n : ℕ) (p : Step Cbor) → m ≤ n → Weighs weight m p → Weighs weight n p
unfolding Weighs
weaken m n none l h = tt
weaken m n (some (v, r)) l h = omega (arith, l, h)

module _ (decode_utf8 : Bytes → Option Text) where
  of_major-Weighs :
      (parse : Bytes → Step Cbor) (parses : (r : Bytes) → Weighs weight (length r) (parse r))
      (major : Major) (info : ℕ) (r : Bytes)
      → Weighs weight (1 + length r) (of_major decode_utf8 parse major info r)
  unfolding of_major byte_text Weighs weight none_of
  of_major-Weighs parse parses unsigned info r =
      and_then-Weighs none_of weight (length r) (1 + length r) (argument info r) _
        (argument-Weighs info r) (λ n s l. omega (arith, l))
  of_major-Weighs parse parses negative info r =
      and_then-Weighs none_of weight (length r) (1 + length r) (argument info r) _
        (argument-Weighs info r) (λ n s l. omega (arith, l))
  of_major-Weighs parse parses bytes_of info r =
      and_then-Weighs none_of weight (length r) (1 + length r) (length_of info r) _
        (length_of-Weighs info r) (λ n s l. omega (arith, l, length-take-drop n s))
  of_major-Weighs parse parses text_of info r =
      and_then-Weighs none_of weight (length r) (1 + length r) (length_of info r) _
        (length_of-Weighs info r)
        (λ n s l.
          decoded-Weighs (decode_utf8 (take n s)) (drop n s) (1 + length r)
            (omega (arith, l, length-drop_le n s)))
  of_major-Weighs parse parses array_of info r =
      and_then-Weighs none_of weight (length r) (1 + length r) (length_of info r) _
        (length_of-Weighs info r)
        (λ n s l.
          and_then-Weighs weight_elements weight (length s) (1 + length r) (elements parse n s) _
            (elements-Weighs parse parses n s) (λ vs u k. omega (arith, l, k)))
  of_major-Weighs parse parses pairs_of info r =
      and_then-Weighs none_of weight (length r) (1 + length r) (length_of info r) _
        (length_of-Weighs info r)
        (λ n s l.
          and_then-Weighs weight_entries weight (length s) (1 + length r) (entries parse [] n s) _
            (entries-Weighs parse parses [] n s) (λ vs u k. omega (arith, l, k)))
  of_major-Weighs parse parses tag info r =
      and_then-Weighs none_of weight (length r) (1 + length r) (argument info r) _
        (argument-Weighs info r)
        (λ n s l. weaken (length s) (1 + length r) (parse s) (omega (arith, l)) (parses s))
  of_major-Weighs parse parses other info r = simple-Weighs info r

  item-Weighs : (room : ℕ) (t : Bytes) → Weighs weight (length t) (item decode_utf8 room t)
  unfolding item Weighs
  item-Weighs zero t = tt
  item-Weighs (suc room) [] = tt
  item-Weighs (suc room) (head ∷ r) = weaken (1 + length r) (length (head ∷ r)) _ (omega arith) (
      of_major-Weighs (item decode_utf8 room) (item-Weighs room) (major_type (head / 32))
        (head % 32) r)

  -- A value that is decoded has, all in all, no more items, and bytes in its byte strings, than the input
  -- has bytes, whatever counts the input declares.
  pub weight-decode_cbor :
      (bytes : Bytes) (v : Cbor) → decode_cbor decode_utf8 bytes ≡ some v → weight v ≤ length bytes
  unfolding decode_cbor whole Weighs
  weight-decode_cbor bytes v h = of_item (item decode_utf8 33 bytes) (item-Weighs 33 bytes) h
    where
      of_item :
          (o : Step Cbor)
          → Weighs weight (length bytes) o
          → whole decode_utf8 o ≡ some v
          → weight v ≤ length bytes
      of_item none w e = absurd (cc)
      of_item (some (u, [])) w e =
          let same : u ≡ v = ground (arith, e) in rw (← same) (omega (arith, w))
      of_item (some (u, b ∷ r)) w e = absurd (cc)
