-- ===== src/Bmff.antt =====
-- tools/src/container.ts: the boxes of an ISO-BMFF file. Its children read the sample tables (`Samples`),
-- the tracks (`Tracks`), the presentation (`Parameters`, `Presented`), the NAL units of a sample (`Nals`), the vcap SEI
-- (`Sei`), the GOPs (`Units`, `Gops`) and the whole file (`Reader`). `none` is an error thrown, and the fuel bounds the boxes of a walk.
pub mod Walk
pub mod Samples
pub mod Tracks
pub mod Parameters
pub mod Presented
pub mod Nals
pub mod Sei
pub mod Units
pub mod Gops
pub mod Reader
pub mod Tests
use vcap_spec.Prelude.{
  ◌>>=◌, ℕ, zero, suc, ◌+◌, ◌-◌, ◌/◌, ◌^◌, Bool, false, ◌||◌, Option, none, some, List, [], ◌∷◌,
  ltb, ◌==◌, if◌then◌else◌, ℤ, pos, negsuc,
}
use vcap_spec.Bytes.{Bytes, eq_bytes, subarray, read_uint}
use vcap_spec.Text.{Text}

-- The type, read as Latin-1, is the text of its four bytes.
pub record Box : Type 0 where
  pub kind : Text
  pub start : ℕ
  pub end : ℕ
  pub payload : ℕ

pub data Walked : Type 0 where
  thrown out_of_fuel : Walked
  found : List Box → Walked

-- The size and the payload's start of a box with a size of 64 bits.
pub wide_size : Bytes → (at : ℕ) → Option (ℕ × ℕ)
wide_size file at = do size ← read_uint 8 file (at + 8); some (size, at + 16)

pub box_size : Bytes → (at end size : ℕ) → Option (ℕ × ℕ)
unfolding wide_size
box_size file at end size =
    if size == 1 then wide_size file at else some (if size == 0 then end - at else size, at + 8)

pub header : Bytes → (at end : ℕ) → Option (ℕ × ℕ)
unfolding box_size
header file at end = do size ← read_uint 4 file at; box_size file at end size

pub keep_box : Box → Walked → Walked
keep_box b (found bs) = found (b ∷ bs)
keep_box b other = other

-- What a header leads to, on the walk from a later position.
pub step : Bytes → (at end : ℕ) → Option (ℕ × ℕ) → (ℕ → Walked) → Walked
unfolding keep_box
step file at end none rest = thrown
step file at end (some (size, payload)) rest =
    if ltb size 8 || ltb end (at + size)
    then found []
    else keep_box
        (record {
          kind = subarray file (at + 4) (at + 8);
          start = at;
          end = at + size;
          payload = payload;
        })
        (rest (at + size))

pub walk : ℕ → Bytes → (at end : ℕ) → Walked
unfolding header step
walk zero file at end = out_of_fuel
walk (suc fuel) file at end =
    let next = step file at end (header file at end) (λ k. walk fuel file k end) in
    if ltb end (at + 8) then found [] else next

pub of_walk : Walked → Option (List Box)
of_walk (found bs) = some bs
of_walk _ = none

-- The boxes directly inside `[start, end)`.
unfoldable pub boxes : Bytes → (start end : ℕ) → Option (List Box)
unfolding walk of_walk
boxes file start end = of_walk (walk (end - start + 1) file start end)

unfoldable pub find : List Box → Text → Option Box
find [] kind = none
find (b ∷ bs) kind = if eq_bytes b.kind kind then some b else find bs kind

unfoldable pub children : Bytes → Box → Option (List Box)
children file box = boxes file box.payload box.end

-- `find(children(file, box), type)`.
unfoldable pub child : Bytes → Box → Text → Option (Option Box)
child file box kind = do bs ← children file box; some (find bs kind)

-- `list.filter((b) => b.type === type)`.
unfoldable pub of_kind : Text → List Box → List Box
of_kind kind [] = []
of_kind kind (b ∷ bs) =
    let rest = of_kind kind bs in if eq_bytes b.kind kind then b ∷ rest else rest

-- `file[at] === 1`.
unfoldable pub is_one : Option ℕ → Bool
is_one none = false
is_one (some n) = n == 1

-- `readInt16BE`, `readInt32BE`, `readBigInt64BE` at the widths 2, 4 and 8.
unfoldable pub signed : (w n : ℕ) → ℤ
signed w n = if ltb n (256 ^ w / 2) then pos n else negsuc (256 ^ w - 1 - n)

unfoldable pub read_signed : ℕ → Bytes → ℕ → Option ℤ
read_signed w file at = do n ← read_uint w file at; some (signed w n)
