-- ===== src/Cbor.antt =====
-- tools/src/cbor.ts: the CBOR that a carrier reader needs. The bytes that are left stand for the index
-- `at`, and `CborError` is `none`. A float is kept as its bits; the fatal UTF-8 decoder is Node's.
pub mod Weight
mod Tests
use vcap_spec.Prelude.{
  ℕ, zero, suc, ◌+◌, ◌/◌, ◌%◌, Bool, true, false, ◌||◌, Option, none, some, List, [], ◌∷◌, length,
  take, drop, ltb, ◌==◌, any, if◌then◌else◌, ℤ, pos, negsuc,
}
use vcap_spec.Bytes.{Bytes, of_be, eq_bytes}
use vcap_spec.Text.{Text}

mutual
  -- `CborValue`: an integer is a number, or a bigint beyond `Number.MAX_SAFE_INTEGER`.
  pub data Cbor : Type 0 where
    int : ℤ → Cbor
    byte_string : Bytes → Cbor
    text_string : Text → Cbor
    array : Elements → Cbor
    map_of : Entries → Cbor
    bool : Bool → Cbor
    null undefined : Cbor
    float : (width bits : ℕ) → Cbor

  pub data Elements : Type 0 where
    no_elements : Elements
    element : Cbor → Elements → Elements

  pub data Entries : Type 0 where
    no_entries : Entries
    entry : Text → Cbor → Entries → Entries

-- What is read and the bytes that are left.
abbrev pub Step : Type 0 → Type 0
Step A = Option (A × Bytes)

pub and_then : {A B : Type 0} → Step A → (A → Bytes → Step B) → Step B
and_then none k = none
and_then (some (a, r)) k = k a r

abbrev max_safe : ℕ
max_safe = 9007199254740991

abbrev max_depth : ℕ
max_depth = 32

-- `need` and the read of a number of `w` bytes.
pub taken : ℕ → Bytes → Step ℕ
taken w t = if ltb (length t) w then none else some (of_be (take w t), drop w t)

pub argument : (info : ℕ) → Bytes → Step ℕ
unfolding taken
argument info t =
    if ltb info 24
    then some (info, t)
    else if info == 24
    then taken 1 t
    else if info == 25
    then taken 2 t
    else if info == 26
    then taken 4 t
    else if info == 27
    then taken 8 t
    else none

-- `length`: a count that fits what is left.
pub length_of : (info : ℕ) → Bytes → Step ℕ
unfolding argument and_then
length_of info t =
    and_then (argument info t)
      (λ n r. if ltb max_safe n || ltb (length r) n then none else some (n, r))

pub byte_text : ℕ → Bytes → Step Cbor
byte_text n r = some (byte_string (take n r), drop n r)

pub decoded : Option Text → Bytes → Step Cbor
decoded none r = none
decoded (some t) r = some (text_string t, r)

pub elements : (Bytes → Step Cbor) → ℕ → Bytes → Step Elements
unfolding and_then
elements parse zero r = some (no_elements, r)
elements parse (suc n) r =
    and_then (parse r) (λ v s. and_then (elements parse n s) (λ vs u. some (element v vs, u)))

-- The key of an entry, one that is new.
pub key_of : List Text → Cbor → Bytes → Step Text
key_of seen (text_string k) r = if any (λ s. eq_bytes s k) seen then none else some (k, r)
key_of seen _ r = none

pub entries : (Bytes → Step Cbor) → List Text → ℕ → Bytes → Step Entries
unfolding and_then key_of
entries parse seen zero r = some (no_entries, r)
entries parse seen (suc n) r = and_then (parse r) (λ key s. and_then (key_of seen key s) (λ k _.
    and_then (parse s)
      (λ v u. and_then (entries parse (k ∷ seen) n u) (λ vs w. some (entry k v vs, w)))))

pub simple : ℕ → Bytes → Step Cbor
unfolding and_then taken
simple info r =
    if info == 20
    then some (bool false, r)
    else if info == 21
    then some (bool true, r)
    else if info == 22
    then some (null, r)
    else if info == 23
    then some (undefined, r)
    else if info == 25
    then and_then (taken 2 r) (λ v s. some (float 2 v, s))
    else if info == 26
    then and_then (taken 4 r) (λ v s. some (float 4 v, s))
    else if info == 27
    then and_then (taken 8 r) (λ v s. some (float 8 v, s))
    else none

-- The major type of a head.
pub data Major : Type 0 where
  unsigned negative bytes_of text_of array_of pairs_of tag other : Major

pub major_type : ℕ → Major
major_type major =
    if major == 0
    then unsigned
    else if major == 1
    then negative
    else if major == 2
    then bytes_of
    else if major == 3
    then text_of
    else if major == 4
    then array_of
    else if major == 5
    then pairs_of
    else if major == 6
    then tag
    else other

module _ (decode_utf8 : Bytes → Option Text) where
  -- The item of a major type, with the parser of the items inside it.
  pub of_major : (Bytes → Step Cbor) → Major → (info : ℕ) → Bytes → Step Cbor
  unfolding and_then argument length_of byte_text decoded elements entries simple
  of_major parse unsigned info r = and_then (argument info r) (λ n s. some (int (pos n), s))
  of_major parse negative info r = and_then (argument info r) (λ n s. some (int (negsuc n), s))
  of_major parse bytes_of info r = and_then (length_of info r) byte_text
  of_major parse text_of info r =
      and_then (length_of info r) (λ n s. decoded (decode_utf8 (take n s)) (drop n s))
  of_major parse array_of info r =
      and_then (length_of info r)
        (λ n s. and_then (elements parse n s) (λ vs u. some (array vs, u)))
  of_major parse pairs_of info r =
      and_then (length_of info r)
        (λ n s. and_then (entries parse [] n s) (λ vs u. some (map_of vs, u)))
  of_major parse tag info r = and_then (argument info r) (λ n s. parse s)
  of_major parse other info r = simple info r

  -- An item at the depth that leaves room for `room` levels: no room is a depth above `MAX_DEPTH`.
  pub item : (room : ℕ) → Bytes → Step Cbor
  unfolding of_major major_type
  item zero t = none
  item (suc room) [] = none
  item (suc room) (head ∷ r) = of_major (item room) (major_type (head / 32)) (head % 32) r

  whole : Step Cbor → Option Cbor
  whole (some (v, [])) = some v
  whole _ = none

  unfoldable pub decode_cbor : Bytes → Option Cbor
  unfolding item whole
  decode_cbor bytes = whole (item (max_depth + 1) bytes)
