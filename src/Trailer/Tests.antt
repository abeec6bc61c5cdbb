-- ===== src/Trailer/Tests.antt =====
-- Runs of the trailer's reader and writer, and the theorems at concrete inputs. The checksum is the
-- length.
use vcap_spec.Prelude.{ℕ, ◌≡◌, ◌≢◌, refl, none, some, [], ◌∷◌, ◌++◌, length, arith}
use vcap_spec.Bytes.{Bytes, be, of_be, eq_bytes, ascii, subarray, write_uint, read_uint}
use vcap_spec.Trailer.{
  free, TrailerOptions, ok, corrupted, no_trailer, unsupported, build_trailer, parse_trailer,
  parse_footer, parse_box, unreadable_trailer_start, unreadable_footer, declared_start, is_ok,
  magic,
}
use vcap_spec.Trailer.RoundTrip.{parse_trailer-build_trailer}
use vcap_spec.Trailer.Sound.{written, parse_trailer_sound}
use vcap_spec.Trailer.Total.{Unreadable, unreadable_trailer_start-Unreadable}
use vcap_spec.Trailer.Removal.{unreadable_trailer_start-build_trailer}

open_all : Unit {0}
unfolding build_trailer parse_trailer parse_footer parse_box unreadable_trailer_start
    unreadable_footer declared_start is_ok be of_be eq_bytes ascii subarray write_uint read_uint
open_all = tt

abbrev size_crc : Bytes → ℕ
size_crc b = length b

abbrev media : Bytes
media = 255 ∷ 216 ∷ []

abbrev payload : Bytes
payload = 123 ∷ 125 ∷ []

abbrev tail_bytes : ℕ → ℕ → Bytes
tail_bytes major crc =
    0 ∷ 0 ∷ 0 ∷ 26 ∷ 102 ∷ 114 ∷ 101 ∷ 101 ∷ 123 ∷ 125 ∷ 86 ∷ 67 ∷ 65 ∷ 80 ∷ major ∷ 3 ∷ 0 ∷ 2 ∷ 0
    ∷ 0 ∷ 0 ∷ 2 ∷ 0 ∷ 0 ∷ 0 ∷ crc ∷ []

abbrev broken : TrailerOptions
broken = record {
  major = none;
  minor = some 3;
  flags = some 2;
  crc_override = some 9;
  box_type_override = none;
}

built : build_trailer size_crc payload (written free 3 2) ≡ some (tail_bytes 1 2)
unfolding open_all
built = refl

built_broken : build_trailer size_crc payload broken ≡ some (tail_bytes 1 9)
unfolding open_all
built_broken = refl

parsed : parse_trailer size_crc (media ++ tail_bytes 1 2) ≡ some (ok payload 2 3 2)
unfolding open_all
parsed = refl

other_answers :
    (parse_trailer size_crc (media ++ tail_bytes 2 2) ≡ some (unsupported 2))
    × (parse_trailer size_crc (media ++ tail_bytes 1 3) ≡ some corrupted)
    × (parse_trailer size_crc media ≡ some no_trailer)
unfolding open_all
other_answers = (refl, refl, refl)

unreadable : unreadable_trailer_start size_crc (media ++ tail_bytes 1 9) ≡ some (some 2)
unfolding open_all
unreadable = refl

parse_trailer-build_trailer_example :
    parse_trailer size_crc (media ++ tail_bytes 1 2) ≡ some (ok payload 2 3 2)
unfolding open_all
parse_trailer-build_trailer_example =
    parse_trailer-build_trailer size_crc media payload (tail_bytes 1 2) (written free 3 2) built

parse_trailer_sound_example :
    (kind : Bytes) × (t : Bytes) × (ascii kind ≡ free)
    × (build_trailer size_crc payload (written kind 3 2) ≡ some t)
    × (media ++ tail_bytes 1 2 ≡ media ++ t)
parse_trailer_sound_example =
    parse_trailer_sound size_crc (media ++ tail_bytes 1 2) payload 2 3 2 (omega arith) parsed

unreadable_trailer_start-Unreadable_example : Unreadable size_crc (media ++ tail_bytes 1 9) 2
unreadable_trailer_start-Unreadable_example =
    unreadable_trailer_start-Unreadable size_crc (media ++ tail_bytes 1 9) 2 unreadable

not_ok :
    (p : Bytes) (fl mi m : ℕ)
    → parse_trailer size_crc (media ++ tail_bytes 1 9) ≢ some (ok p fl mi m)
unfolding open_all
not_ok p fl mi m e = cc

in_magic : subarray (media ++ tail_bytes 1 9) 12 16 ≡ magic
unfolding open_all
in_magic = refl

unreadable_trailer_start-build_trailer_example :
    unreadable_trailer_start size_crc (media ++ tail_bytes 1 9) ≡ some (some 2)
unreadable_trailer_start-build_trailer_example =
    unreadable_trailer_start-build_trailer size_crc media payload (tail_bytes 1 9) broken refl
      built_broken refl
