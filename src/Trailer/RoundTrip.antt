-- ===== src/Trailer/RoundTrip.antt =====
-- `parseTrailer` of tools/src/trailer.ts, after `buildTrailer`.
use vcap_spec.Prelude.{
  ℕ, ◌+◌, ◌-◌, ◌≤◌, ◌≡◌, refl, sym, ◌∙◌, some, ◌++◌, length, drop, arith, or_else, length-append,
  length-take, replicate, append-nil, [], drop-append_eq, ◌==◌, if◌then◌else◌,
}
use vcap_spec.Bytes.{Bytes, be, subarray, read_uint, eq_bytes, ascii}
use vcap_spec.Bytes.Laws.{length-be, drop-next, subarray_at, read_uint-be, eq_bytes_self}
use vcap_spec.Trailer.{
  magic, free, TrailerOptions, box_type, build_trailer, ParsedTrailer, ok, no_trailer, unsupported,
  corrupted, parse_trailer, parse_footer, parse_box,
}
use vcap_spec.Trailer.Layout.{Fields, footer, layout, length-footer, build_trailer_inv}

pub length-box_type : (k : Bytes) → length (box_type k) ≡ 4
unfolding box_type
length-box_type k =
    omega (arith, length-take 4 (k ++ replicate 4 0), length-append {0} k (replicate 4 0))

module _ (crc32 : Bytes → ℕ) where
  module _ (major minor flags len crc total : ℕ)
      (fit : Fields len total major minor flags crc) where
    abbrev pub foot : Bytes
    foot = footer major minor flags len crc

    pub footer_reads :
        (subarray foot 0 4 ≡ magic)
        × (read_uint 1 foot 4 ≡ some major)
        × (read_uint 1 foot 5 ≡ some minor)
        × (read_uint 2 foot 6 ≡ some flags)
        × (read_uint 4 foot 8 ≡ some len)
        × (read_uint 4 foot 12 ≡ some crc)
    footer_reads =
        let d4 = drop-next foot magic _ 0 4 refl refl in
        let d5 = drop-next foot (be 1 major) _ 4 5 d4 (omega (arith, length-be 1 major)) in
        let d6 = drop-next foot (be 1 minor) _ 5 6 d5 (omega (arith, length-be 1 minor)) in
        let d8 = drop-next foot (be 2 flags) _ 6 8 d6 (omega (arith, length-be 2 flags)) in
        let d12 = drop-next foot (be 4 len) _ 8 12 d8 (omega (arith, length-be 4 len)) in
        (
          subarray_at foot magic _ 0 4 refl refl,
          read_uint-be 1 major foot _ 4 d4 fit.major_lt,
          read_uint-be 1 minor foot _ 5 d5 fit.minor_lt,
          read_uint-be 2 flags foot _ 6 d6 fit.flags_lt,
          read_uint-be 4 len foot _ 8 d8 (omega (arith, fit.total_eq, fit.total_lt)),
          read_uint-be 4 crc foot [] 12 (d12 ∙ sym (append-nil (be 4 crc))) fit.crc_lt,
        )

  -- The reader, from what its reads return.
  module _ (file foot payload kind : Bytes) (major minor flags len crc : ℕ) where
    abbrev pub boxed : ParsedTrailer
    boxed =
        if eq_bytes (ascii kind) free
        then (if crc32 payload == crc
            then ok payload flags minor (length file - (8 + len + 16))
            else corrupted)
        else no_trailer

    parse_box_reads :
        read_uint 4 file (length file - (8 + len + 16)) ≡ some (8 + len + 16)
        → subarray file (length file - (8 + len + 16) + 4) (length file - (8 + len + 16) + 8) ≡ kind
        → subarray file (length file - (8 + len + 16) + 8) (length file - 16) ≡ payload
        → read_uint 1 foot 5 ≡ some minor
        → read_uint 2 foot 6 ≡ some flags
        → read_uint 4 foot 12 ≡ some crc
        → parse_box crc32 file foot (8 + len + 16) ≡ some boxed
    unfolding parse_box
    parse_box_reads size type body m f c = ground arith

    parse_trailer_reads :
        8 + len + 16 ≤ length file
        → drop (length file - 16) file ≡ foot
        → subarray foot 0 4 ≡ magic
        → read_uint 1 foot 4 ≡ some major
        → read_uint 4 foot 8 ≡ some len
        → parse_box crc32 file foot (8 + len + 16) ≡ some boxed
        → parse_trailer crc32 file ≡ some (if major == 1 then boxed else unsupported major)
    unfolding parse_trailer parse_footer
    parse_trailer_reads fits at_end mark version size inner =
        rw (at_end, mark, version, size) (ground (arith, eq_bytes_self magic))

  module _ (media payload kind : Bytes) (major minor flags crc : ℕ) (four : length kind ≡ 4)
      (fit : Fields (length payload) (8 + length payload + 16) major minor flags crc) where
    abbrev pub total : ℕ
    total = 8 + length payload + 16

    abbrev pub file : Bytes
    file = media ++ layout kind payload total major minor flags crc

    abbrev pub foot' : Bytes
    foot' = footer major minor flags (length payload) crc

    pub length-file : length file ≡ length media + total
    length-file = omega (
      arith,
      fit.total_eq,
      length-append {0} media (layout kind payload total major minor flags crc),
      length-append {0} (be 4 total) (kind ++ (payload ++ foot')),
      length-append {0} kind (payload ++ foot'),
      length-append {0} payload foot',
      length-be 4 total,
      four,
      length-footer major minor flags (length payload) crc,
    )

    pub file_reads :
        (drop (length file - 16) file ≡ foot')
        × (read_uint 4 file (length file - total) ≡ some total)
        × (subarray file (length file - total + 4) (length file - total + 8) ≡ kind)
        × (subarray file (length file - total + 8) (length file - 16) ≡ payload)
    file_reads =
        let m : length file - total ≡ length media = omega (arith, length-file) in
        let d0 =
          drop-append_eq media (layout kind payload total major minor flags crc) (length media)
            refl in
        let d4 =
          drop-next file (be 4 total) _ (length media) (length media + 4) d0
            (omega (arith, length-be 4 total)) in
        let d8 =
          drop-next file kind _ (length media + 4) (length media + 8) d4 (omega (arith, four)) in
        let end = length file - 16 in
        let e : length media + 8 + length payload ≡ length file - 16 =
          omega (arith, length-file, fit.total_eq) in
        (
          drop-next file payload _ (length media + 8) (length file - 16) d8 e,
          rw m (read_uint-be 4 total file _ (length media) d0 fit.total_lt),
          rw m (
              subarray_at file kind _ (length media + 4) (length media + 8) d4
                (omega (arith, four))),
          rw m (subarray_at file payload _ (length media + 8) (length file - 16) d8 e),
        )

    -- The reader's answer on a file that ends in any such trailer.
    parse_trailer-layout :
        parse_trailer crc32 file
        ≡ some (
            if major == 1
            then (if eq_bytes (ascii kind) free
                then (if crc32 payload == crc
                    then ok payload flags minor (length media)
                    else corrupted)
                else no_trailer)
            else unsupported major)
    parse_trailer-layout =
        let len = length payload in
        let (mark, maj, min, fl, size, sum) = footer_reads major minor flags len crc total fit in
        let (at_end, head, type, body) = file_reads in
        let m : length file - (8 + len + 16) ≡ length media = omega (arith, length-file) in
        let inner =
          parse_box_reads file foot' payload kind major minor flags len crc head type body min fl
            sum in
        rw m at (
          parse_trailer_reads file foot' payload kind major minor flags len crc
            (omega (arith, length-file)) at_end mark maj size inner)

  -- A reader of a file that ends in a trailer that was built, whatever its options: the bytes before
  -- the trailer are the media, a wrong major is named, a wrong box is no trailer, and a wrong CRC is
  -- a corrupted one.
  pub parse_trailer-build_trailer :
      (media payload t : Bytes) (o : TrailerOptions)
      → build_trailer crc32 payload o ≡ some t
      → parse_trailer crc32 (media ++ t)
        ≡ some (
            if or_else o.major 1 == 1
            then (if eq_bytes (ascii (box_type (or_else o.box_type_override free))) free
                then (if crc32 payload == or_else o.crc_override (crc32 payload)
                    then ok payload (or_else o.flags 0) (or_else o.minor 0) (length media)
                    else corrupted)
                else no_trailer)
            else unsupported (or_else o.major 1))
  parse_trailer-build_trailer media payload t o e =
      let (same, fit) = build_trailer_inv crc32 payload t o e in
      rw same (
        parse_trailer-layout media payload (box_type (or_else o.box_type_override free)) _ _ _ _
          (length-box_type (or_else o.box_type_override free)) fit)
