-- ===== src/Bmff/Nals.antt =====
-- tools/src/container.ts: the NAL units of a sample, in `nalsOf`. The bytes left stand for the index `at`;
-- `none` is `ContainerMalformed`, and the fuel bounds the units.
pub mod Tiled
use vcap_spec.Prelude.{
  ◌>>=◌, ℕ, zero, suc, Bool, Option, none, some, List, [], ◌∷◌, ◌||◌, length, take, drop, ltb, ◌==◌,
  if◌then◌else◌, ◌%◌, ◌/◌,
}
use vcap_spec.Bytes.{Bytes, of_be}

-- A prefix and a unit of the length that it gives, and what is left.
unfoldable pub next_nal : (width : ℕ) → Bytes → Option (Bytes × Bytes)
next_nal width t =
    let size = of_be (take width t) in
    let rest = drop width t in
    if ltb (length t) width
    then none
    else if size == 0 || ltb (length rest) size
    then none
    else some (take size rest, drop size rest)

unfoldable pub nals_from : (fuel width : ℕ) → Bytes → Option (List Bytes)
nals_from fuel width [] = some []
nals_from zero width (b ∷ bs) = none
nals_from (suc fuel) width (b ∷ bs) = do
  (nal, rest) ← next_nal width (b ∷ bs)
  nals ← nals_from fuel width rest
  some (nal ∷ nals)

unfoldable pub nals_of : Bytes → (width : ℕ) → Option (List Bytes)
nals_of sample width = nals_from (length sample) width sample

-- `nal[0] ?? 0`.
unfoldable pub first_byte : Bytes → ℕ
first_byte [] = 0
first_byte (b ∷ bs) = b

-- The type in a unit's header: six bits after the first, or the last five.
unfoldable pub nal_type : (hevc : Bool) → Bytes → ℕ
nal_type hevc nal = if hevc then first_byte nal / 2 % 64 else first_byte nal % 32

-- Of H.264 the type 5, of H.265 the types 19 and 20.
unfoldable pub is_idr : (hevc : Bool) → Bytes → Bool
is_idr hevc nal =
    if hevc then nal_type hevc nal == 19 || nal_type hevc nal == 20 else nal_type hevc nal == 5
