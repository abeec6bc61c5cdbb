-- ===== src/Trailer.antt =====
-- tools/src/trailer.ts: the trailer, a `free` box that wraps the proof and ends in a 16-byte footer.
-- `crc32` is Node's; `none` is a `RangeError` of `Buffer`. The proofs are in the children.
pub mod Layout
pub mod RoundTrip
pub mod Sound
pub mod Total
pub mod Removal
mod Tests
use vcap_spec.Prelude.{
  ℕ, ◌+◌, ◌-◌, Bool, true, false, not, ◌&&◌, ◌||◌, Option, none, some, List, [], ◌∷◌, ◌++◌, length,
  take, drop, replicate, ltb, leb, ◌==◌, if◌then◌else◌, or_else, ◌>>=◌,
}
use vcap_spec.Bytes.{Bytes, eq_bytes, ascii, subarray, write_uint, read_uint}

-- `VCAP`, in ASCII.
abbrev pub magic : Bytes
magic = 86 ∷ 67 ∷ 65 ∷ 80 ∷ []

-- `free`, in ASCII.
abbrev pub free : Bytes
free = 102 ∷ 114 ∷ 101 ∷ 101 ∷ []

abbrev pub footer_len : ℕ
footer_len = 16

abbrev pub box_header_len : ℕ
box_header_len = 8

pub record TrailerOptions : Type 0 where
  pub major : Option ℕ
  pub minor : Option ℕ
  pub flags : Option ℕ
  pub crc_override : Option ℕ
  pub box_type_override : Option Bytes

pub data ParsedTrailer : Type 0 where
  no_trailer : ParsedTrailer
  corrupted : ParsedTrailer
  unsupported : (major : ℕ) → ParsedTrailer
  ok : (payload : Bytes) (flags minor media_end : ℕ) → ParsedTrailer

-- `box.write(type, 4, 'ascii')` into four bytes that are zero before.
pub box_type : Bytes → Bytes
box_type t = take 4 (t ++ replicate 4 0)

is_ok : ParsedTrailer → Bool
is_ok (ok payload flags minor media_end) = true
is_ok _ = false

-- Where a declared box starts, or the footer when the file holds no such box.
declared_start : Bytes → ℕ → ℕ → Option ℕ
declared_start file footer_start total =
    if leb total (length file)
    then (do
      let box_start = length file - total
      size ← read_uint 4 file box_start
      some (
          if size == total && eq_bytes (ascii (subarray file (box_start + 4) (box_start + 8))) free
          then box_start
          else footer_start))
    else some footer_start

module _ (crc32 : Bytes → ℕ) where
  pub build_trailer : Bytes → TrailerOptions → Option Bytes
  unfolding box_type
  build_trailer payload o = do
    size ← write_uint 4 (box_header_len + length payload + footer_len)
    major ← write_uint 1 (or_else o.major 1)
    minor ← write_uint 1 (or_else o.minor 0)
    flags ← write_uint 2 (or_else o.flags 0)
    len ← write_uint 4 (length payload)
    crc ← write_uint 4 (or_else o.crc_override (crc32 payload))
    some (
        size
        ++ (box_type (or_else o.box_type_override free)
            ++ (payload ++ (magic ++ (major ++ (minor ++ (flags ++ (len ++ crc))))))))

  -- The checks from the box header on, for a declared payload length.
  parse_box : Bytes → Bytes → ℕ → Option ParsedTrailer
  parse_box file footer total = do
    let box_start = length file - total
    size ← read_uint 4 file box_start
    let kind = subarray file (box_start + 4) (box_start + 8)
    if not (size == total) || not (eq_bytes (ascii kind) free) then some no_trailer else do
      let payload = subarray file (box_start + box_header_len) (length file - footer_len)
      crc ← read_uint 4 footer 12
      if not (crc32 payload == crc) then some corrupted else do
        flags ← read_uint 2 footer 6
        minor ← read_uint 1 footer 5
        some (ok payload flags minor box_start)

  -- The checks of the footer.
  parse_footer : Bytes → Bytes → Option ParsedTrailer
  parse_footer file footer = do
    if not (eq_bytes (subarray footer 0 4) magic) then some no_trailer else do
      major ← read_uint 1 footer 4
      if not (major == 1) then some (unsupported major) else do
        payload_len ← read_uint 4 footer 8
        let total = box_header_len + payload_len + footer_len
        if ltb (length file) total then some no_trailer else parse_box file footer total

  unfoldable pub parse_trailer : Bytes → Option ParsedTrailer
  unfolding parse_footer parse_box
  parse_trailer file =
      if ltb (length file) (footer_len + box_header_len)
      then some no_trailer
      else parse_footer file (drop (length file - footer_len) file)

  unreadable_footer : Bytes → ℕ → Option (Option ℕ)
  unreadable_footer file footer_start = do
    if not (eq_bytes (subarray file footer_start (footer_start + 4)) magic) then some none else do
      parsed ← parse_trailer file
      if is_ok parsed then some none else do
        payload_len ← read_uint 4 file (footer_start + 8)
        start ← declared_start file footer_start (box_header_len + payload_len + footer_len)
        some (some start)

  -- `some none` is the `null` of the source.
  unfoldable pub unreadable_trailer_start : Bytes → Option (Option ℕ)
  unfolding unreadable_footer is_ok declared_start
  unreadable_trailer_start file =
      if ltb (length file) footer_len
      then some none
      else unreadable_footer file (length file - footer_len)
