-- ===== src/Bmff/Parameters.antt =====
-- tools/src/container.ts: the parameter sets of a codec's configuration and the bytes that bind a
-- presentation, in `parameterSets` and `presentationMessage`. `none` is an error thrown.
use vcap_spec.Prelude.{
  ◌>>=◌, ℕ, zero, suc, ◌+◌, ◌*◌, ◌%◌, Bool, false, not, Option, none, some, List, [], ◌∷◌, ◌++◌,
  length, take, drop, ltb, leb, ◌==◌, ◌&&◌, ◌||◌, if◌then◌else◌,
}
use vcap_spec.Bytes.{Bytes, eq_bytes, subarray, read_uint, write_uint}
use vcap_spec.Text.{text}
use vcap_spec.Bmff.{Box, boxes}
use vcap_spec.Bmff.Nals.{nal_type}

-- The reads of `parameterSets`, with the bytes of the record that are left.
byte : Bytes → Option (ℕ × Bytes)
byte [] = none
byte (b ∷ bs) = some (b, bs)

two_bytes : Bytes → Option (ℕ × Bytes)
unfolding byte
two_bytes t = do (high, r) ← byte t; (low, s) ← byte r; some (high * 256 + low, s)

parameter_unit : Bytes → Option (Bytes × Bytes)
unfolding two_bytes
parameter_unit t = do
  (size, r) ← two_bytes t
  if size == 0 || ltb (length r) size then none else some (take size r, drop size r)

parameter_units : ℕ → Bytes → Option (List Bytes × Bytes)
unfolding parameter_unit
parameter_units zero t = some ([], t)
parameter_units (suc n) t = do
  (u, r) ← parameter_unit t
  (us, s) ← parameter_units n r
  some (u ∷ us, s)

is_high_profile : Option ℕ → Bool
is_high_profile none = false
is_high_profile (some p) = p == 100 || (p == 110 || (p == 122 || p == 144))

-- The list that high profiles may have, after three bytes.
extension_units : Option ℕ → Bytes → Option (List Bytes)
unfolding byte parameter_units is_high_profile
extension_units profile t =
    if not (is_high_profile profile && leb 4 (length t))
    then some []
    else do (n, r) ← byte (drop 3 t); (us, s) ← parameter_units n r; some us

avc_sets : Option ℕ → Bytes → Option (List Bytes)
unfolding byte parameter_units extension_units
avc_sets profile t = do
  (n, r) ← byte (drop 5 t)
  (sps, s) ← parameter_units (n % 32) r
  (m, u) ← byte s
  (pps, v) ← parameter_units m u
  rest ← extension_units profile v
  some (sps ++ (pps ++ rest))

-- The arrays of a `hvcC`, each after a byte of its type.
hevc_arrays : ℕ → Bytes → Option (List Bytes)
unfolding two_bytes parameter_units
hevc_arrays zero t = some []
hevc_arrays (suc arrays) t = do
  (n, r) ← two_bytes (drop 1 t)
  (us, s) ← parameter_units n r
  rest ← hevc_arrays arrays s
  some (us ++ rest)

hevc_sets : Bytes → Option (List Bytes)
unfolding byte hevc_arrays
hevc_sets t = do (arrays, r) ← byte (drop 22 t); hevc_arrays arrays r

unfoldable pub parameter_sets : Bytes → Box → (hevc : Bool) → Option (List Bytes)
unfolding avc_sets hevc_sets
parameter_sets file config hevc =
    let record_bytes = subarray file config.payload config.end in
    if hevc
    then hevc_sets record_bytes
    else avc_sets (read_uint 1 file (config.payload + 1)) record_bytes

-- A stable sort by the unit types.
insert_unit : (hevc : Bool) → Bytes → List Bytes → List Bytes
insert_unit hevc u [] = u ∷ []
insert_unit hevc u (v ∷ vs) =
    let rest = insert_unit hevc u vs in
    if leb (nal_type hevc u) (nal_type hevc v) then u ∷ (v ∷ vs) else v ∷ rest

unfoldable pub sort_units : (hevc : Bool) → List Bytes → List Bytes
unfolding insert_unit
sort_units hevc [] = []
sort_units hevc (u ∷ us) = insert_unit hevc u (sort_units hevc us)

-- `uint32 length ‖ NAL unit`, for each.
sized_units : List Bytes → Option Bytes
sized_units [] = some []
sized_units (u ∷ us) = do
  size ← write_uint 4 (length u)
  rest ← sized_units us
  some (size ++ (u ++ rest))

whole_boxes : Bytes → List Box → Bytes
whole_boxes file [] = []
whole_boxes file (b ∷ bs) = subarray file b.start b.end ++ whole_boxes file bs

bound_kinds : List Box → List Box
bound_kinds [] = []
bound_kinds (b ∷ bs) =
    let rest = bound_kinds bs in
    if eq_bytes b.kind (text "clap")
      || (eq_bytes b.kind (text "pasp") || eq_bytes b.kind (text "colr"))
    then b ∷ rest
    else rest

unfoldable pub presentation_message :
    Bytes → (entry config : Box) → (hevc : Bool) → (audio_esds : List Box) → Option Bytes
unfolding sized_units whole_boxes bound_kinds
presentation_message file entry config hevc audio_esds = do
  sets ← parameter_sets file config hevc
  inside ← boxes file (entry.payload + 78) entry.end
  count ← write_uint 4 (length sets)
  units ← sized_units (sort_units hevc sets)
  some (count ++ (units ++ whole_boxes file (bound_kinds inside ++ audio_esds)))
