-- ===== src/Trailer/Layout.antt =====
-- The bytes of a trailer, and where its fields stand in a file that ends in it.
use vcap_spec.Prelude.{ℕ, ◌+◌, ◌^◌, ◌<◌, ◌≡◌, some, ◌++◌, length, arith, or_else, length-append}
use vcap_spec.Bytes.{Bytes, be, write_uint}
use vcap_spec.Bytes.Laws.{length-be}
use vcap_spec.Trailer.{magic, free, TrailerOptions, box_type, build_trailer}

-- The numbers of a trailer, each in the range of its field.
pub record Fields (len total major minor flags crc : ℕ) : Type 0 where
  pub total_eq : total ≡ 8 + len + 16
  pub total_lt : total < 256 ^ 4
  pub major_lt : major < 256 ^ 1
  pub minor_lt : minor < 256 ^ 1
  pub flags_lt : flags < 256 ^ 2
  pub crc_lt : crc < 256 ^ 4

abbrev pub footer : (major minor flags len crc : ℕ) → Bytes
footer major minor flags len crc =
    magic ++ (be 1 major ++ (be 1 minor ++ (be 2 flags ++ (be 4 len ++ be 4 crc))))

abbrev pub layout : (kind payload : Bytes) (total major minor flags crc : ℕ) → Bytes
layout kind payload total major minor flags crc =
    be 4 total ++ (kind ++ (payload ++ footer major minor flags (length payload) crc))

pub length-footer : (major minor flags len crc : ℕ) → length (footer major minor flags len crc) ≡ 16
length-footer major minor flags len crc = omega (
  arith,
  length-append {0} (be 1 major) (be 1 minor ++ (be 2 flags ++ (be 4 len ++ be 4 crc))),
  length-append {0} (be 1 minor) (be 2 flags ++ (be 4 len ++ be 4 crc)),
  length-append {0} (be 2 flags) (be 4 len ++ be 4 crc),
  length-append {0} (be 4 len) (be 4 crc),
  length-be 1 major,
  length-be 1 minor,
  length-be 2 flags,
  length-be 4 len,
  length-be 4 crc,
)

module _ (crc32 : Bytes → ℕ) where
  -- A trailer that was built has its layout, and every number fits its field.
  pub build_trailer_inv :
      (payload t : Bytes) (o : TrailerOptions)
      → build_trailer crc32 payload o ≡ some t
      → (t
          ≡ layout
              (box_type (or_else o.box_type_override free))
              payload
              (8 + length payload + 16)
              (or_else o.major 1)
              (or_else o.minor 0)
              (or_else o.flags 0)
              (or_else o.crc_override (crc32 payload)))
        × Fields
            (length payload)
            (8 + length payload + 16)
            (or_else o.major 1)
            (or_else o.minor 0)
            (or_else o.flags 0)
            (or_else o.crc_override (crc32 payload))
  unfolding build_trailer write_uint
  build_trailer_inv payload t o e = ground arith
