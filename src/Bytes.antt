-- ===== src/Bytes.antt =====
-- Buffers: bytes as numbers, and the operations of Node's `Buffer` that the tools use. A read or a
-- write that throws `RangeError` is `none`. The laws are in the child.
pub mod Laws
use vcap_spec.Prelude.{
  ℕ, zero, suc, ◌+◌, ◌-◌, ◌*◌, ◌/◌, ◌%◌, ◌^◌, ◌<◌, Bool, true, false, ◌&&◌, Option, none, some,
  List, [], ◌∷◌, length, take, drop, ltb, ◌==◌, if◌then◌else◌, ℤ, pos, negsuc,
}

abbrev pub Bytes : Type 0
Bytes = List ℕ

-- Every entry is a byte.
abbrev pub IsBytes : Bytes → Type 0
IsBytes [] = Unit
IsBytes (b ∷ bs) = (b < 256) × IsBytes bs

-- The `w` big-endian bytes of `v`, for `v < 256 ^ w`.
unfoldable pub be : ℕ → ℕ → Bytes
be zero v = []
be (suc w) v = v / 256 ^ w ∷ be w (v % 256 ^ w)

-- The number that big-endian bytes stand for.
unfoldable pub of_be : Bytes → ℕ
of_be [] = 0
of_be (b ∷ bs) = b * 256 ^ length bs + of_be bs

-- `a.equals(b)`.
unfoldable pub eq_bytes : Bytes → Bytes → Bool
eq_bytes [] [] = true
eq_bytes (a ∷ as') (b ∷ bs) = a == b && eq_bytes as' bs
eq_bytes _ _ = false

-- `b.subarray(start, end)` with `start` and `end` not negative: both are clamped to the length.
unfoldable pub subarray : Bytes → ℕ → ℕ → Bytes
subarray b start end = take (end - start) (drop start b)

-- `writeUInt8`, `writeUInt16BE`, `writeUInt32BE`, `writeBigUInt64BE` at the widths 1, 2, 4 and 8.
unfoldable pub write_uint : ℕ → ℕ → Option Bytes
write_uint w v = if ltb v (256 ^ w) then some (be w v) else none

-- The same of an integer: a negative one is out of range.
unfoldable pub write_int : ℕ → ℤ → Option Bytes
write_int w (pos v) = write_uint w v
write_int w (negsuc v) = none

read_exact : ℕ → Bytes → Option ℕ
read_exact w s = if length s == w then some (of_be s) else none

-- `readUInt8`, `readUInt16BE`, `readUInt32BE`, `readBigUInt64BE` at an offset.
unfoldable pub read_uint : ℕ → Bytes → ℕ → Option ℕ
unfolding read_exact
read_uint w b at = read_exact w (take w (drop at b))

-- `b.toString('ascii')`, which leaves out the high bits.
unfoldable pub ascii : Bytes → List ℕ
ascii [] = []
ascii (b ∷ bs) = b % 128 ∷ ascii bs
