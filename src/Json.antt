-- ===== src/Json.antt =====
-- tools/src/jcs.ts: the JSON values of a proof, and their canonical bytes (RFC 8785). A number is an
-- integer here: json.ts reads no other.
pub mod Order
pub mod Parse
mod Tests
use vcap_spec.Prelude.{
  ℕ, zero, suc, ◌+◌, ◌/◌, ◌%◌, Bool, true, false, Option, none, some, List, [], ◌∷◌, ◌++◌, ltb,
  ◌==◌, leb, ◌&&◌, ◌||◌, if◌then◌else◌, ℤ, pos, negsuc,
}
use vcap_spec.Bytes.{Bytes, eq_bytes}
use vcap_spec.Text.{Text, text, text_ltb, utf8}

mutual
  pub data Json : Type 0 where
    null : Json
    bool : Bool → Json
    num : ℤ → Json
    str : Text → Json
    arr : Items → Json
    obj : Fields → Json

  pub data Items : Type 0 where
    nil : Items
    cons : Json → Items → Items

  pub data Fields : Type 0 where
    end : Fields
    field : Text → Json → Fields → Fields

-- Decimal digits; the fuel is the number, which each round divides by ten.
digits_from : ℕ → ℕ → Text → Text
digits_from zero n acc = (48 + n % 10) ∷ acc
digits_from (suc fuel) n acc =
    let more = digits_from fuel (n / 10) ((48 + n % 10) ∷ acc) in
    if ltb n 10 then (48 + n % 10) ∷ acc else more

-- `JSON.stringify` of an integer.
unfoldable pub stringify_int : ℤ → Text
unfolding digits_from
stringify_int (pos n) = digits_from n n []
stringify_int (negsuc n) = 45 ∷ digits_from (n + 1) (n + 1) []

hex_digit : ℕ → ℕ
hex_digit d = if ltb d 10 then 48 + d else 87 + d

-- `\u` and four hexadecimal digits.
escape_unit : ℕ → Text
escape_unit u =
    92
    ∷ 117
    ∷ hex_digit (u / 4096 % 16)
    ∷ hex_digit (u / 256 % 16)
    ∷ hex_digit (u / 16 % 16)
    ∷ hex_digit (u % 16)
    ∷ []

-- One code unit that is half of no pair, as `JSON.stringify` writes it inside a string.
stringify_unit : ℕ → Text
stringify_unit u =
    if u == 34 || u == 92
    then 92 ∷ u ∷ []
    else if u == 8
    then 92 ∷ 98 ∷ []
    else if u == 9
    then 92 ∷ 116 ∷ []
    else if u == 10
    then 92 ∷ 110 ∷ []
    else if u == 12
    then 92 ∷ 102 ∷ []
    else if u == 13
    then 92 ∷ 114 ∷ []
    else if ltb u 32 || leb 0xD800 u && leb u 0xDFFF
    then escape_unit u
    else u ∷ []

stringify_units : Text → Text
stringify_units [] = []
stringify_units (u ∷ []) = stringify_unit u
stringify_units (u ∷ v ∷ r) =
    elim (leb 0xD800 u && leb u 0xDBFF && (leb 0xDC00 v && leb v 0xDFFF)) [
      | true ↦ u ∷ v ∷ stringify_units r
      | false ↦ stringify_unit u ++ stringify_units (v ∷ r)
    ]

-- `JSON.stringify` of a string.
unfoldable pub stringify_text : Text → Text
unfolding stringify_units stringify_unit escape_unit hex_digit
stringify_text t = 34 ∷ (stringify_units t ++ 34 ∷ [])

-- `join(',')`.
unfoldable pub join : List Text → Text
join [] = []
join (t ∷ []) = t
join (t ∷ u ∷ r) = t ++ 44 ∷ join (u ∷ r)

-- The members, sorted by their names. The names of one object differ.
unfoldable pub insert_member : Text × Text → List (Text × Text) → List (Text × Text)
insert_member (k, v) [] = (k, v) ∷ []
insert_member (k, v) ((j, w) ∷ r) =
    if text_ltb j k then (j, w) ∷ insert_member (k, v) r else (k, v) ∷ (j, w) ∷ r

unfoldable pub sort_members : List (Text × Text) → List (Text × Text)
sort_members [] = []
sort_members (m ∷ r) = insert_member m (sort_members r)

unfoldable pub member_texts : List (Text × Text) → List Text
member_texts [] = []
member_texts ((k, v) ∷ r) = (stringify_text k ++ 58 ∷ v) ∷ member_texts r

unfoldable mutual
  pub serialize : Json → Text
  serialize null = text "null"
  serialize (bool true) = text "true"
  serialize (bool false) = text "false"
  serialize (num n) = stringify_int n
  serialize (str t) = stringify_text t
  serialize (arr xs) = 91 ∷ (join (serialize_items xs) ++ 93 ∷ [])
  serialize (obj fs) = 123 ∷ (join (member_texts (sort_members (serialize_fields fs))) ++ 125 ∷ [])

  pub serialize_items : Items → List Text
  serialize_items nil = []
  serialize_items (cons x xs) = serialize x ∷ serialize_items xs

  pub serialize_fields : Fields → List (Text × Text)
  serialize_fields end = []
  serialize_fields (field k v fs) = (k, serialize v) ∷ serialize_fields fs

unfoldable pub jcs : Json → Bytes
jcs value = utf8 (serialize value)

-- `value[key]` of an object, with `none` for `undefined`.
unfoldable pub member : Text → Fields → Option Json
member k end = none
member k (field j v fs) = if eq_bytes j k then some v else member k fs
