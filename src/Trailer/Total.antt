-- ===== src/Trailer/Total.antt =====
-- `parseTrailer` and `unreadableTrailerStart` of tools/src/trailer.ts, on every file.
use vcap_spec.Prelude.{
  ℕ, ◌+◌, ◌-◌, ◌≤◌, ◌≡◌, ◌≢◌, ◌⊎◌, refl, ap, ◌∙◌, none, some, length, take, drop, arith, true,
  false, Bool-cases, Option-cases, inl, inr, length-drop,
}
use vcap_spec.Bytes.{ascii, Bytes, of_be, subarray, read_uint}
use vcap_spec.Bytes.Laws.{eq_bytes_self, eq_bytes_iff, read_uint-some}
use vcap_spec.Trailer.{
  magic, free, footer_len, ParsedTrailer, ok, no_trailer, unsupported, corrupted, parse_trailer,
  parse_footer, parse_box, unreadable_trailer_start, unreadable_footer, declared_start, is_ok,
}

module _ (crc32 : Bytes → ℕ) where
  parse_box-ne-none :
      (file foot : Bytes) (len : ℕ)
      → length foot ≡ 16
      → 8 + len + 16 ≤ length file
      → parse_box crc32 file foot (8 + len + 16) ≢ none
  unfolding parse_box
  parse_box-ne-none file foot len n le = ground (
    arith,
    read_uint-some 4 file (length file - (8 + len + 16)),
    read_uint-some 4 foot 12,
    read_uint-some 2 foot 6,
    read_uint-some 1 foot 5,
  )

  parse_footer-ne-none :
      (file foot : Bytes) → length foot ≡ 16 → parse_footer crc32 file foot ≢ none
  unfolding parse_footer
  parse_footer-ne-none file foot n = ground (
    arith,
    read_uint-some 1 foot 4,
    read_uint-some 4 foot 8,
    parse_box-ne-none file foot (of_be (take 4 (drop 8 foot))) n,
  )

  -- The reader gives an answer on every file: no read of it is out of range.
  pub parse_trailer-ne-none : (file : Bytes) → parse_trailer crc32 file ≢ none
  unfolding parse_trailer
  parse_trailer-ne-none file = ground (
    arith,
    length-drop (length file - 16) file,
    parse_footer-ne-none file (drop (length file - 16) file),
  )

  -- What the last bytes of the file say, and what the removal of the bytes from `s` takes away: the
  -- 16-byte footer, or a box whose type reads `free` that runs to the end of the file.
  pub record Unreadable (file : Bytes) (s : ℕ) : Type 0 where
    pub long : footer_len ≤ length file
    pub mark : subarray file (length file - 16) (length file - 16 + 4) ≡ magic
    pub unusable : (p : Bytes) (fl mi m : ℕ) → parse_trailer crc32 file ≢ some (ok p fl mi m)
    pub span :
        (s ≡ length file - 16)
        ⊎ ((s + 24 ≤ length file)
            × (read_uint 4 file s ≡ some (length file - s))
            × (ascii (subarray file (s + 4) (s + 8)) ≡ free))

  declared_start_span :
      (file : Bytes) (len s : ℕ)
      → declared_start file (length file - 16) (8 + len + 16) ≡ some s
      → (s ≡ length file - 16)
        ⊎ ((s + 24 ≤ length file)
            × (read_uint 4 file s ≡ some (length file - s))
            × (ascii (subarray file (s + 4) (s + 8)) ≡ free))
  unfolding declared_start
  declared_start_span file len s e = ground (
    arith,
    eq_bytes_iff
        (ascii
          (subarray file (length file - (8 + len + 16) + 4) (length file - (8 + len + 16) + 8)))
        free,
  )

  is_ok-false :
      (file : Bytes) (r : ParsedTrailer)
      → parse_trailer crc32 file ≡ some r
      → is_ok r ≡ false
      → (p : Bytes) (fl mi m : ℕ) → parse_trailer crc32 file ≢ some (ok p fl mi m)
  unfolding is_ok
  is_ok-false file r e f p fl mi m e' = ground arith

  abbrev len_at : Bytes → ℕ
  len_at file = of_be (take 4 (drop (length file - 16 + 8) file))

  unreadable_inv :
      (file : Bytes) (s : ℕ) (r : ParsedTrailer)
      → parse_trailer crc32 file ≡ some r
      → unreadable_trailer_start crc32 file ≡ some (some s)
      → (16 ≤ length file)
        × (subarray file (length file - 16) (length file - 16 + 4) ≡ magic)
        × (is_ok r ≡ false)
        × (declared_start file (length file - 16) (8 + len_at file + 16) ≡ some s)
  unfolding unreadable_trailer_start unreadable_footer
  unreadable_inv file s r parsed e = ground (
    arith,
    eq_bytes_iff (subarray file (length file - 16) (length file - 16 + 4)) magic,
    read_uint-some 4 file (length file - 16 + 8),
  )

  -- Where `unreadableTrailerStart` names a start `s`, the file ends in a footer with the magic, the
  -- reader does not report a trailer, and what stands from `s` on is the 16-byte footer alone or a
  -- box whose type is `free`, but for its high bits, and that declares exactly the bytes to the end of
  -- the file.
  pub unreadable_trailer_start-Unreadable :
      (file : Bytes) (s : ℕ)
      → unreadable_trailer_start crc32 file ≡ some (some s)
      → Unreadable file s
  unreadable_trailer_start-Unreadable file s e = elim (Option-cases (parse_trailer crc32 file)) [
    | inl threw ↦ absurd (parse_trailer-ne-none file threw)
    | inr (r, parsed) ↦
        let (long, mark, unusable, start) = unreadable_inv file s r parsed e in
        record {
          long = long;
          mark = mark;
          unusable = is_ok-false file r parsed unusable;
          span = declared_start_span file (len_at file) s start;
        }
  ]

  declared_start-ne-none : (file : Bytes) (len s : ℕ) → declared_start file s (8 + len + 16) ≢ none
  unfolding declared_start
  declared_start-ne-none file len s =
      ground (arith, read_uint-some 4 file (length file - (8 + len + 16)))

  is_ok-true :
      (r : ParsedTrailer)
      → is_ok r ≡ true
      → (p : Bytes) × (fl : ℕ) × (mi : ℕ) × (m : ℕ) × (r ≡ ok p fl mi m)
  unfolding is_ok
  is_ok-true (ok p fl mi m) e = (p, fl, mi, m, refl)
  is_ok-true no_trailer e = cc
  is_ok-true corrupted e = cc
  is_ok-true (unsupported n) e = cc

  unreadable_footer_total :
      (file : Bytes) (r : ParsedTrailer)
      → 16 ≤ length file
      → parse_trailer crc32 file ≡ some r
      → subarray file (length file - 16) (length file - 16 + 4) ≡ magic
      → is_ok r ≡ false
      → (s : ℕ) × (unreadable_trailer_start crc32 file ≡ some (some s))
  unfolding unreadable_trailer_start unreadable_footer
  unreadable_footer_total file r long parsed mark unusable =
      elim (Option-cases (declared_start file (length file - 16) (8 + len_at file + 16))) [
        | inl threw ↦ absurd (declared_start-ne-none file (len_at file) (length file - 16) threw)
        | inr (s, start) ↦
            (s, ground (arith, eq_bytes_self magic, read_uint-some 4 file (length file - 16 + 8)))
      ]

  -- It answers on every file that ends in the magic and has no usable trailer.
  pub unreadable_trailer_start_complete :
      (file : Bytes)
      → 16 ≤ length file
      → subarray file (length file - 16) (length file - 16 + 4) ≡ magic
      → ((p : Bytes) (fl mi m : ℕ) → parse_trailer crc32 file ≢ some (ok p fl mi m))
      → (s : ℕ) × (unreadable_trailer_start crc32 file ≡ some (some s))
  unreadable_trailer_start_complete file long mark unusable =
      elim (Option-cases (parse_trailer crc32 file)) [
        | inl threw ↦ absurd (parse_trailer-ne-none file threw)
        | inr (r, parsed) ↦ elim (Bool-cases (is_ok r)) [
          | inl usable ↦
              let (p, fl, mi, m, same) = is_ok-true r usable in
              absurd (unusable p fl mi m (parsed ∙ ap some same))
          | inr bad ↦ unreadable_footer_total file r long parsed mark bad
        ]
      ]
