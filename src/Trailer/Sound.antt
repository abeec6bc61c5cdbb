-- ===== src/Trailer/Sound.antt =====
-- `parseTrailer` of tools/src/trailer.ts, when it reports a trailer.
use vcap_spec.Prelude.{
  ℕ, suc, ap, [], ◌∷◌, take-append_eq, ◌+◌, ◌-◌, ◌≤◌, ◌≡◌, refl, sym, ◌∙◌, none, some, ◌++◌, length,
  take, drop, arith, take-append-drop, length-drop, length-take, take-all,
}
use vcap_spec.Bytes.{ascii, Bytes, IsBytes, be, subarray, read_uint}
use vcap_spec.Bytes.Laws.{
  eq_bytes_iff, read_uint_inv, drop-cut, IsBytes-drop, write_uint-some, subarray-eq-take,
}
use vcap_spec.Trailer.{
  magic, free, TrailerOptions, box_type, build_trailer, ok, parse_trailer, parse_footer, parse_box,
}
use vcap_spec.Trailer.Layout.{footer, layout}

-- The options of a writer that sets the minor, the flags, and the box type alone.
abbrev pub written : Bytes → ℕ → ℕ → TrailerOptions
written kind minor flags = record {
  major = none;
  minor = some minor;
  flags = some flags;
  crc_override = none;
  box_type_override = some kind;
}

length-ascii : (b : Bytes) → length (ascii b) ≡ length b
unfolding ascii
length-ascii [] = refl
length-ascii (x ∷ b) = ap suc (length-ascii b)

module _ (crc32 : Bytes → ℕ) where
  abbrev foot_of : Bytes → Bytes
  foot_of file = drop (length file - 16) file

  record Read (file p : Bytes) (fl mi m len : ℕ) : Type 0 where
    mark : subarray (foot_of file) 0 4 ≡ magic
    major : read_uint 1 (foot_of file) 4 ≡ some 1
    minor : read_uint 1 (foot_of file) 5 ≡ some mi
    flags : read_uint 2 (foot_of file) 6 ≡ some fl
    size : read_uint 4 (foot_of file) 8 ≡ some len
    sum : read_uint 4 (foot_of file) 12 ≡ some (crc32 p)
    fits : 8 + len + 16 ≤ length file
    start : m ≡ length file - (8 + len + 16)
    head : read_uint 4 file m ≡ some (8 + len + 16)
    kind : ascii (subarray file (m + 4) (m + 8)) ≡ free
    body : p ≡ subarray file (m + 8) (length file - 16)

  parse_box_inv :
      (file p : Bytes) (fl mi m len : ℕ)
      → 8 + len + 16 ≤ length file
      → parse_box crc32 file (foot_of file) (8 + len + 16) ≡ some (ok p fl mi m)
      → subarray (foot_of file) 0 4 ≡ magic
      → read_uint 1 (foot_of file) 4 ≡ some 1
      → read_uint 4 (foot_of file) 8 ≡ some len
      → Read file p fl mi m len
  unfolding parse_box
  parse_box_inv file p fl mi m len le e mark major size = ground (
    arith,
    eq_bytes_iff
        (ascii
          (subarray file (length file - (8 + len + 16) + 4) (length file - (8 + len + 16) + 8)))
        free,
  )

  parse_trailer_inv :
      (file p : Bytes) (fl mi m : ℕ)
      → parse_trailer crc32 file ≡ some (ok p fl mi m)
      → (len : ℕ) × (8 + len + 16 ≤ length file)
        × (parse_box crc32 file (foot_of file) (8 + len + 16) ≡ some (ok p fl mi m))
        × (subarray (foot_of file) 0 4 ≡ magic)
        × (read_uint 1 (foot_of file) 4 ≡ some 1)
        × (read_uint 4 (foot_of file) 8 ≡ some len)
  unfolding parse_trailer parse_footer
  parse_trailer_inv file p fl mi m e =
      ground (arith, eq_bytes_iff (subarray (foot_of file) 0 4) magic)

  module _ (file p : Bytes) (fl mi m len : ℕ) (bytes : IsBytes file)
      (r : Read file p fl mi m len) where
    abbrev foot : Bytes
    foot = foot_of file

    foot-eq-footer : foot ≡ footer 1 mi fl len (crc32 p)
    unfolding subarray
    foot-eq-footer =
        let small : IsBytes foot = IsBytes-drop (length file - 16) file bytes in
        let (_, maj, _) = read_uint_inv 1 1 foot 4 small r.major in
        let (_, min, _) = read_uint_inv 1 mi foot 5 small r.minor in
        let (_, flg, _) = read_uint_inv 2 fl foot 6 small r.flags in
        let (_, siz, _) = read_uint_inv 4 len foot 8 small r.size in
        let (full, sum, _) = read_uint_inv 4 (crc32 p) foot 12 small r.sum in
        let n : length foot ≡ 16 = omega (arith, length-drop (length file - 16) file, r.fits) in
        let last : drop 12 foot ≡ be 4 (crc32 p) =
          rw (take-all (drop 12 foot) 4 (omega (arith, length-drop 12 foot, n))) at sum in
        let d8 = drop-cut 4 8 12 foot _ _ refl siz last in
        let d6 = drop-cut 2 6 8 foot _ _ refl flg d8 in
        let d5 = drop-cut 1 5 6 foot _ _ refl min d6 in
        let d4 = drop-cut 1 4 5 foot _ _ refl maj d5 in drop-cut 4 0 4 foot magic _ refl r.mark d4

    length-payload : length p ≡ len
    unfolding subarray
    length-payload = rw r.body (
        omega (
          arith,
          length-take (length file - 16 - (m + 8)) (drop (m + 8) file),
          length-drop (m + 8) file,
          r.start,
          r.fits,
        ))

    abbrev kind : Bytes
    kind = subarray file (m + 4) (m + 8)

    length-kind : length kind ≡ 4
    length-kind = sym (length-ascii kind) ∙ ap length r.kind

    drop-eq-layout : drop m file ≡ layout kind p (8 + length p + 16) 1 mi fl (crc32 p)
    drop-eq-layout =
        let end : m + 8 + len ≡ length file - 16 = omega (arith, r.start, r.fits) in
        let four : m + 4 + 4 ≡ m + 8 = omega arith in
        let (_, head, _) = read_uint_inv 4 (8 + len + 16) file m bytes r.head in
        let body = sym (subarray-eq-take len (m + 8) (length file - 16) file end) ∙ sym r.body in
        let type_is = sym (subarray-eq-take 4 (m + 4) (m + 8) file four) in
        let d8 =
          drop-cut len (m + 8) (length file - 16) file p (footer 1 mi fl len (crc32 p)) end body
            foot-eq-footer in
        let d4 =
          drop-cut 4 (m + 4) (m + 8) file kind (p ++ footer 1 mi fl len (crc32 p)) four type_is
            d8 in
        rw length-payload (drop-cut 4 m (m + 4) file _ _ refl head d4)

    build_trailer-Read :
        build_trailer crc32 p (written kind mi fl)
        ≡ some (layout kind p (8 + length p + 16) 1 mi fl (crc32 p))
    unfolding build_trailer box_type
    build_trailer-Read =
        let small : IsBytes foot = IsBytes-drop (length file - 16) file bytes in
        let total_lt = (read_uint_inv 4 (8 + len + 16) file m bytes r.head).2 in
        let box : take 4 (kind ++ 0 ∷ 0 ∷ 0 ∷ 0 ∷ []) ≡ kind =
          take-append_eq kind _ 4 (sym length-kind) in
        rw (
          box,
          write_uint-some 4 (8 + length p + 16) (rw length-payload total_lt),
          write_uint-some 1 1 (omega arith),
          write_uint-some 1 mi (read_uint_inv 1 mi foot 5 small r.minor).2,
          write_uint-some 2 fl (read_uint_inv 2 fl foot 6 small r.flags).2,
          write_uint-some 4 (length p) (rw length-payload (omega (arith, total_lt))),
          write_uint-some 4 (crc32 p) (read_uint_inv 4 (crc32 p) foot 12 small r.sum).2,
        )

  -- When the reader reports a trailer, the file is the bytes before it followed by exactly the
  -- trailer that the writer builds for that payload, minor and flags, with four bytes for a box type
  -- that are `free` but for their high bits.
  pub parse_trailer_sound :
      (file p : Bytes) (fl mi m : ℕ)
      → IsBytes file
      → parse_trailer crc32 file ≡ some (ok p fl mi m)
      → (kind : Bytes) × (t : Bytes) × (ascii kind ≡ free)
        × (build_trailer crc32 p (written kind mi fl) ≡ some t)
        × (file ≡ take m file ++ t)
  parse_trailer_sound file p fl mi m bytes e =
      let (len, fits, inner, mark, major, size) = parse_trailer_inv file p fl mi m e in
      let r = parse_box_inv file p fl mi m len fits inner mark major size in
      (
        subarray file (m + 4) (m + 8),
        layout (subarray file (m + 4) (m + 8)) p (8 + length p + 16) 1 mi fl (crc32 p),
        r.kind,
        build_trailer-Read file p fl mi m len bytes r,
        sym (take-append-drop m file) ∙ rw (drop-eq-layout file p fl mi m len bytes r) refl,
      )
