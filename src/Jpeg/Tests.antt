-- ===== src/Jpeg/Tests.antt =====
-- A JPEG with a comment, a C2PA segment and a scan.
use vcap_spec.Prelude.{◌≡◌, ◌⊎◌, refl, some, List, [], ◌∷◌, length}
use vcap_spec.Bytes.{Bytes, eq_bytes, subarray, read_uint, of_be}
use vcap_spec.Jpeg.{
  JpegSegment, walked, walk_malformed, jpeg_segments, jumbf_groups, dropped_starts, is_dropped,
  group_type, packet_type, strip_c2pa_from_jpeg,
}
use vcap_spec.Jpeg.Walk.{Ordered, jpeg_segments_total}
use vcap_spec.Jpeg.Dropped.{drops}
use vcap_spec.Jpeg.Strip.{outside, covered, strip_c2pa_lem}

open_all : Unit {0}
unfolding jpeg_segments jumbf_groups dropped_starts is_dropped group_type packet_type
    strip_c2pa_from_jpeg eq_bytes subarray read_uint of_be
open_all = tt

-- A JUMBF segment whose box type cannot be read: it is cut out.
abbrev jpeg_bytes : Bytes
jpeg_bytes =
    0xFF ∷ 0xD8 ∷ 0xFF ∷ 0xFE ∷ 0 ∷ 3 ∷ 7 ∷ 0xFF ∷ 0xEB ∷ 0 ∷ 10 ∷ 74 ∷ 80 ∷ 0 ∷ 1 ∷ 0 ∷ 0 ∷ 0 ∷ 1
    ∷ 0xFF ∷ 0xDA ∷ 0 ∷ 2 ∷ 9 ∷ []

abbrev its_segments : List JpegSegment
its_segments =
    record { marker = 0xFE; start = 2; end = 7 }
    ∷ record { marker = 0xEB; start = 7; end = 19 }
    ∷ []

its_walk : jpeg_segments jpeg_bytes ≡ walked its_segments
unfolding open_all
its_walk = refl

stripped_bytes :
    strip_c2pa_from_jpeg jpeg_bytes
    ≡ some (0xFF ∷ 0xD8 ∷ 0xFF ∷ 0xFE ∷ 0 ∷ 3 ∷ 7 ∷ 0xFF ∷ 0xDA ∷ 0 ∷ 2 ∷ 9 ∷ [])
unfolding open_all
stripped_bytes = refl

-- A length that runs past the end.
too_long : jpeg_segments (0xFF ∷ 0xD8 ∷ 0xFF ∷ 0xFE ∷ 0 ∷ 9 ∷ []) ≡ walk_malformed
unfolding open_all
too_long = refl

jpeg_segments_total_example :
    (jpeg_segments jpeg_bytes ≡ walk_malformed)
    ⊎ ((segments : List JpegSegment) × (jpeg_segments jpeg_bytes ≡ walked segments)
        × Ordered 2 (length jpeg_bytes) segments)
jpeg_segments_total_example = jpeg_segments_total jpeg_bytes

strip_c2pa_lem_example :
    strip_c2pa_from_jpeg jpeg_bytes
    ≡ some (outside (covered (drops jpeg_bytes its_segments) its_segments) 0 jpeg_bytes)
strip_c2pa_lem_example = strip_c2pa_lem jpeg_bytes its_segments its_walk
