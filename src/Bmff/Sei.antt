-- ===== src/Bmff/Sei.antt =====
-- tools/src/container.ts: the vcap SEI, in `rbsp` and `vcapSei`. The bytes left of the body stand for the
-- index `at`, and the fuel bounds the messages.
pub mod Messages
pub mod Sound
pub mod Total
use vcap_spec.Prelude.{
  ◌>>=◌, ℕ, zero, suc, ◌+◌, Bool, false, not, Option, none, some, [], ◌∷◌, ◌++◌, length, take, drop,
  all, ltb, leb, ◌==◌, ◌&&◌, ◌||◌, if◌then◌else◌, pos,
}
use vcap_spec.Bytes.{Bytes, eq_bytes, subarray, of_be}
use vcap_spec.Text.{Text, text}
use vcap_spec.Json.{stringify_int}
use vcap_spec.Bmff.Nals.{nal_type}

abbrev pub sei_uuid : Bytes
sei_uuid =
    0xCA ∷ 0xA6 ∷ 0x53 ∷ 0xD1 ∷ 0xED ∷ 0x17 ∷ 0x63 ∷ 0xC7 ∷ 0xAF ∷ 0x38 ∷ 0x8A ∷ 0xEA ∷ 0x76 ∷ 0x52
    ∷ 0x73 ∷ 0x36 ∷ []

-- The bytes without those that prevent an emulation, after some zeros.
unfoldable pub unescaped : (nulls : ℕ) → Bytes → Bytes
unescaped nulls [] = []
unescaped nulls (b ∷ bs) =
    let dropped = unescaped 0 bs in
    let kept = b ∷ unescaped (if b == 0 then nulls + 1 else 0) bs in
    if leb 2 nulls && b == 3 then dropped else kept

unfoldable pub rbsp : Bytes → Bytes
rbsp nal = unescaped 0 nal

-- What a unit is: no vcap SEI, one in a shape that is not allowed, or one that names a segment.
pub data Sei : Type 0 where
  no_sei : Sei
  bad_sei : (reason : Text) → Sei
  vcap_sei : (capture_id : Bytes) (index : ℕ) → Sei

-- `rbsp_trailing_bits`.
unfoldable pub is_trailing : Bytes → Bool
is_trailing [] = false
is_trailing (b ∷ bs) = b == 0x80 && all (λ z. z == 0) bs

-- A number in bytes of 255 and a last one.
unfoldable pub long_number : Bytes → Option (ℕ × Bytes)
long_number [] = none
long_number (b ∷ bs) =
    let more = do (n, rest) ← long_number bs; some (255 + n, rest)
    in if b == 0xFF then more else some (b, bs)

-- The next message, or the bytes at which the loop breaks.
pub data Next : Type 0 where
  broken : Bytes → Next
  message : (payload_type size : ℕ) (payload : Bytes) → Next

of_size : ℕ → Option (ℕ × Bytes) → Next
of_size payload_type none = broken []
of_size payload_type (some (size, rest)) =
    if ltb (length rest) size then broken rest else message payload_type size rest

of_type : Option (ℕ × Bytes) → Next
unfolding of_size
of_type none = broken []
of_type (some (payload_type, rest)) = of_size payload_type (long_number rest)

unfoldable pub next_message : Bytes → Next
unfolding of_type
next_message body = of_type (long_number body)

-- What a message makes of what was found so far.
unfoldable pub weighed : (payload_type size : ℕ) (payload : Bytes) → Sei → Sei
weighed payload_type size payload found =
    if payload_type == 5 && (leb 16 size && eq_bytes (take 16 payload) sei_uuid)
    then if size == 36
      then vcap_sei (subarray payload 16 32) (of_be (subarray payload 32 36))
      else bad_sei (
          text "a vcap SEI message whose payloadSize is "
          ++ (stringify_int (pos size) ++ text ", not 36"))
    else found

pub record Seen : Type 0 where
  pub messages : ℕ
  pub found : Sei
  pub rest : Bytes

-- `sei_message()` until only trailing bits remain; `none` is no fuel.
unfoldable pub messages_of : (fuel : ℕ) → Bytes → (messages : ℕ) → Sei → Option Seen
messages_of zero body n found = none
messages_of (suc fuel) body n found =
    if length body == 0 || is_trailing body
    then some (record { messages = n; found = found; rest = body })
    else elim (next_message body) [
      | broken rest ↦ some (record { messages = n; found = found; rest = rest })
      | message payload_type size payload ↦
          messages_of fuel (drop size payload) (n + 1) (weighed payload_type size payload found)
    ]

-- What the messages of a unit say of it.
unfoldable pub concluded : Seen → Sei
concluded s = elim s.found [
  | no_sei ↦ no_sei
  | found ↦
      if not (s.messages == 1)
      then bad_sei (
          text "a vcap SEI NAL unit carrying "
          ++ (stringify_int (pos s.messages) ++ text " SEI messages instead of one"))
      else if not (is_trailing s.rest)
      then bad_sei (text "a vcap SEI NAL unit with bytes after its message")
      else found
]

-- A SEI unit: of H.264 the type 6, of H.265 the types 39 and 40.
unfoldable pub is_sei : (hevc : Bool) → Bytes → Bool
is_sei hevc nal =
    if hevc then nal_type hevc nal == 39 || nal_type hevc nal == 40 else nal_type hevc nal == 6

-- `vcapSei`; the body is the unit without its header.
unfoldable pub sei_of : Bytes → (hevc : Bool) → Option Sei
sei_of nal hevc =
    let body = rbsp (drop (if hevc then 2 else 1) nal) in
    if not (is_sei hevc nal)
    then some no_sei
    else do seen ← messages_of (length body + 1) body 0 no_sei; some (concluded seen)
