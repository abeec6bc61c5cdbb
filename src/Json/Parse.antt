-- ===== src/Json/Parse.antt =====
-- tools/src/json.ts: the JSON parser of a proof. The text that is left stands for the index `at`. The
-- fuel bounds the calls. `TextDecoder` and `JSON.parse` of a string literal are Node's.
pub mod Shrinks
pub mod Total
pub mod Yields
pub mod Sound
mod Tests
use vcap_spec.Prelude.{
  ℕ, zero, suc, ◌+◌, ◌-◌, ◌*◌, Bool, true, false, not, ◌&&◌, ◌||◌, Option, none, some, List, [],
  ◌∷◌, ◌++◌, length, ltb, leb, ◌==◌, any, if◌then◌else◌, ℤ, pos, negsuc,
}
use vcap_spec.Bytes.{Bytes, eq_bytes}
use vcap_spec.Text.{Text, text}
use vcap_spec.Json.{Json, null, bool, num, str, arr, obj, Items, nil, cons, Fields, end, field}

-- What is read and the text that is left, `ProofSyntaxError` thrown, or no fuel.
pub data Parsed {ℓ} (A : Type ℓ) : Type ℓ where
  syntax_error : Parsed A
  out_of_fuel : Parsed A
  parsed : A → Text → Parsed A

pub and_then {ℓ κ} : {A : Type ℓ} {B : Type κ} → Parsed A → (A → Text → Parsed B) → Parsed B
and_then syntax_error k = syntax_error
and_then out_of_fuel k = out_of_fuel
and_then (parsed a r) k = k a r

-- `new TextDecoder('utf-8', { fatal: true }).decode`, and `JSON.parse` of a string literal.
pub record Decoders : Type 0 where
  pub decode_utf8 : Bytes → Option Text
  pub parse_literal : Text → Option Text

abbrev max_safe : ℕ
max_safe = 9007199254740991

abbrev max_depth : ℕ
max_depth = 64

is_space : ℕ → Bool
is_space c = c == 32 || (c == 9 || (c == 10 || c == 13))

pub space : Text → Text
unfolding is_space
space [] = []
space (c ∷ r) = let rest = space r in if is_space c then rest else c ∷ r

prefixed : Text → Option (Text × Text) → Option (Text × Text)
prefixed p none = none
prefixed p (some (t, r)) = some (p ++ t, r)

-- From the opening quote's right to the closing quote.
pub scan : Text → Option (Text × Text)
unfolding prefixed
scan [] = none
scan (c ∷ []) = if c == 34 then some (34 ∷ [], []) else none
scan (c ∷ d ∷ r) =
    let skipped = scan r in
    let stepped = scan (d ∷ r) in
    if c == 34
    then some (34 ∷ [], d ∷ r)
    else if c == 92
    then prefixed (c ∷ d ∷ []) skipped
    else prefixed (c ∷ []) stepped

is_digit : ℕ → Bool
is_digit c = leb 48 c && leb c 57

-- `[0-9]*`, onto the number so far.
digits : ℕ → Text → ℕ × Text
unfolding is_digit
digits n [] = (n, [])
digits n (c ∷ r) =
    let more = digits (n * 10 + (c - 48)) r in if is_digit c then more else (n, c ∷ r)

-- `0|[1-9][0-9]*`.
magnitude : Text → Option (ℕ × Text)
unfolding digits is_digit
magnitude [] = none
magnitude (c ∷ r) =
    if c == 48 then some (0, r) else if is_digit c then some (digits (c - 48) r) else none

starts_with_digit : Text → Bool
starts_with_digit [] = false
starts_with_digit (c ∷ r) = is_digit c

without_sign : Text → Text
without_sign [] = []
without_sign (c ∷ r) = if c == 43 || c == 45 then r else c ∷ r

-- What makes `NUMBER` match more than `INTEGER`: a fraction or an exponent.
has_more : Text → Bool
unfolding starts_with_digit without_sign
has_more [] = false
has_more (c ∷ r) =
    c == 46 && starts_with_digit r || (c == 101 || c == 69) && starts_with_digit (without_sign r)

signed : Bool → ℕ → ℤ
signed true (suc n) = negsuc n
signed true zero = pos 0
signed false n = pos n

-- The checks of a number that is matched.
checked_number : Bool → Option (ℕ × Text) → Parsed ℤ
unfolding has_more signed
checked_number negative none = syntax_error
checked_number negative (some (n, r)) =
    if has_more r
    then syntax_error
    else if ltb max_safe n
    then syntax_error
    else parsed (signed negative n) r

pub number : Text → Parsed ℤ
unfolding magnitude checked_number
number [] = syntax_error
number (c ∷ r) =
    if c == 45 then checked_number true (magnitude r) else checked_number false (magnitude (c ∷ r))

drop_prefix : Text → Text → Option Text
drop_prefix [] t = some t
drop_prefix (p ∷ ps) [] = none
drop_prefix (p ∷ ps) (c ∷ r) = if c == p then drop_prefix ps r else none

-- `true`, `false` and `null`.
pub word : Text → Parsed Json
unfolding drop_prefix
word t = elim (drop_prefix (text "true") t) [
  | some r ↦ parsed (bool true) r
  | none ↦ elim (drop_prefix (text "false") t) [
    | some r ↦ parsed (bool false) r
    | none ↦ elim (drop_prefix (text "null") t) [ some r ↦ parsed null r | none ↦ syntax_error ]
  ]
]

-- One character, which must be there.
pub expect : ℕ → Text → Parsed (Unit {0})
expect c [] = syntax_error
expect c (d ∷ r) = if d == c then parsed tt r else syntax_error

pub is_named : List Text → Text → Bool
is_named seen key = any (λ k. eq_bytes k key) seen

-- After `{` and the space: an empty object, or its members.
pub object : Text → Parsed Fields → Parsed Json
unfolding and_then
object [] read = syntax_error
object (c ∷ r) read =
    if c == 125 then parsed (obj end) r else and_then read (λ fs rest. parsed (obj fs) rest)

-- After `[` and the space: an empty array, or its items.
pub array : Text → Parsed Items → Parsed Json
unfolding and_then
array [] read = syntax_error
array (c ∷ r) read =
    if c == 93 then parsed (arr nil) r else and_then read (λ xs rest. parsed (arr xs) rest)

-- The end of the text.
pub at_end : Parsed Json → Option Json
at_end (parsed v r) = elim (space r) [ [] ↦ some v | c ∷ r ↦ none ]
at_end _ = none

pub starts_with_bom : Bytes → Bool
starts_with_bom (a ∷ b ∷ c ∷ r) = a == 0xEF && (b == 0xBB && c == 0xBF)
starts_with_bom _ = false

pub or_error : Option Text → Text → Parsed Text
or_error none r = syntax_error
or_error (some t) r = parsed t r

module _ (decoders : Decoders) where
  open decoders use {decode_utf8, parse_literal}

  literal : Option (Text × Text) → Parsed Text
  unfolding or_error
  literal none = syntax_error
  literal (some (inside, r)) = or_error (parse_literal (34 ∷ inside)) r

  -- A string, from its opening quote on.
  string : Text → Parsed Text
  unfolding scan literal
  string [] = syntax_error
  string (c ∷ r) = if c == 34 then literal (scan r) else syntax_error

  -- A value that is no object and no array.
  scalar : ℕ → Text → Parsed Json
  unfolding and_then string number word is_digit
  scalar c r =
      if c == 34
      then and_then (string (c ∷ r)) (λ s rest. parsed (str s) rest)
      else if c == 45 || is_digit c
      then and_then (number (c ∷ r)) (λ n rest. parsed (num n) rest)
      else word (c ∷ r)

  -- The body of `value`, after the space, on how it reads members and items.
  read_value : (Text → Parsed Fields) → (Text → Parsed Items) → Text → Parsed Json
  unfolding object array scalar space
  read_value read_members read_items [] = syntax_error
  read_value read_members read_items (c ∷ r) =
      if c == 123
      then object (space r) (read_members (space r))
      else if c == 91
      then array (space r) (read_items (space r))
      else scalar c r

  -- After a member's value: another member, or the end.
  after_member : (Text → Parsed Fields) → Text → Json → Text → Parsed Fields
  unfolding and_then
  after_member more key v [] = syntax_error
  after_member more key v (c ∷ r) =
      if c == 44
      then and_then (more r) (λ fs rest. parsed (field key v fs) rest)
      else if c == 125
      then parsed (field key v end) r
      else syntax_error

  -- The loop of an object, on how it reads a value and the members after.
  read_member :
      (Text → Parsed Json) → (List Text → Text → Parsed Fields) → List Text → Text → Parsed Fields
  unfolding and_then string expect is_named space after_member
  read_member read more seen t = and_then (string (space t)) (λ key r1.
      if is_named seen key
      then syntax_error
      else and_then (expect 58 (space r1)) (λ colon r2.
        and_then (read r2) (λ v r3. after_member (more (key ∷ seen)) key v (space r3))))

  -- After an item: another item, or the end.
  after_item : (Text → Parsed Items) → Json → Text → Parsed Items
  unfolding and_then
  after_item more v [] = syntax_error
  after_item more v (c ∷ r) =
      if c == 44
      then and_then (more r) (λ xs rest. parsed (cons v xs) rest)
      else if c == 93
      then parsed (cons v nil) r
      else syntax_error

  -- The loop of an array.
  read_item : (Text → Parsed Json) → (Text → Parsed Items) → Text → Parsed Items
  unfolding and_then space after_item
  read_item read more t = and_then (read t) (λ v r1. after_item more v (space r1))

  unfoldable mutual
    unfolding space read_value read_member read_item

    value : ℕ → ℕ → Text → Parsed Json
    value zero depth t = out_of_fuel
    value (suc fuel) depth t =
        if ltb max_depth depth
        then syntax_error
        else read_value (members fuel depth []) (items fuel depth) (space t)

    members : ℕ → ℕ → List Text → Text → Parsed Fields
    members zero depth seen t = out_of_fuel
    members (suc fuel) depth seen t =
        read_member (value fuel (depth + 1)) (members fuel depth) seen t

    items : ℕ → ℕ → Text → Parsed Items
    items zero depth t = out_of_fuel
    items (suc fuel) depth t = read_item (value fuel (depth + 1)) (items fuel depth) t

  -- The fuel is more than two calls for each character.
  parse_text : Text → Option Json
  unfolding at_end
  parse_text t = at_end (value (2 * length t + 1) 0 t)

  unfoldable pub parse_proof_json : Bytes → Option Json
  unfolding parse_text starts_with_bom space value
  parse_proof_json bytes =
      if starts_with_bom bytes
      then none
      else elim (decode_utf8 bytes) [ none ↦ none | some t ↦ parse_text t ]
