-- ===== src/Trailer/Removal.antt =====
-- `unreadableTrailerStart` of tools/src/trailer.ts, after `buildTrailer`.
use vcap_spec.Prelude.{
  true, ℕ, ◌+◌, ◌-◌, ◌≡◌, refl, sym, ◌∙◌, none, some, ◌++◌, length, arith, false, ◌&&◌, or_else,
  ◌==◌, if◌then◌else◌,
}
use vcap_spec.Bytes.{Bytes, subarray, read_uint, eq_bytes, ascii}
use vcap_spec.Bytes.Laws.{eq_bytes_self, read_uint-drop, subarray-drop}
use vcap_spec.Trailer.{
  magic, free, TrailerOptions, box_type, build_trailer, ParsedTrailer, ok, no_trailer, unsupported,
  corrupted, parse_trailer, unreadable_trailer_start, unreadable_footer, declared_start, is_ok,
}
use vcap_spec.Trailer.Layout.{Fields, layout, build_trailer_inv}
use vcap_spec.Trailer.RoundTrip.{footer_reads, file_reads, length-file, parse_trailer-build_trailer}

free_self : eq_bytes (ascii free) free ≡ true
unfolding ascii eq_bytes
free_self = refl

module _ (crc32 : Bytes → ℕ) where
  -- From what its reads return.
  unreadable_reads :
      (file : Bytes) (len at : ℕ) (r : ParsedTrailer)
      → length file ≡ at + (8 + len + 16)
      → subarray file (length file - 16) (length file - 16 + 4) ≡ magic
      → parse_trailer crc32 file ≡ some r
      → is_ok r ≡ false
      → read_uint 4 file (length file - 16 + 8) ≡ some len
      → read_uint 4 file at ≡ some (8 + len + 16)
      → subarray file (at + 4) (at + 8) ≡ free
      → unreadable_trailer_start crc32 file ≡ some (some at)
  unfolding unreadable_trailer_start unreadable_footer declared_start
  unreadable_reads file len at r n mark parsed bad size head kind =
      let m : length file - (8 + len + 16) ≡ at = omega arith in
      ground (arith, m, eq_bytes_self magic, free_self)

  answer_unusable :
      (payload : Bytes) (major crc fl mi m : ℕ)
      → (major == 1 && crc32 payload == crc) ≡ false
      → is_ok (
          if major == 1
          then (if eq_bytes (ascii free) free
              then (if crc32 payload == crc then ok payload fl mi m else corrupted)
              else no_trailer)
          else unsupported major)
        ≡ false
  unfolding is_ok
  answer_unusable payload major crc fl mi m h = ground (arith, free_self)

  unreadable-layout :
      (media payload : Bytes) (major minor flags crc : ℕ)
      → Fields (length payload) (8 + length payload + 16) major minor flags crc
      → parse_trailer crc32
          (media ++ layout free payload (8 + length payload + 16) major minor flags crc)
        ≡ some (
            if major == 1
            then (if eq_bytes (ascii free) free
                then (if crc32 payload == crc
                    then ok payload flags minor (length media)
                    else corrupted)
                else no_trailer)
            else unsupported major)
      → (major == 1 && crc32 payload == crc) ≡ false
      → unreadable_trailer_start crc32
          (media ++ layout free payload (8 + length payload + 16) major minor flags crc)
        ≡ some (some (length media))
  unreadable-layout media payload major minor flags crc fit parsed bad =
      let len = length payload in
      let file = media ++ layout free payload (8 + len + 16) major minor flags crc in
      let (mark, _, _, _, size, _) =
        footer_reads crc32 major minor flags len crc (8 + len + 16) fit in
      let (at_end, head, type, _) =
        file_reads crc32 media payload free major minor flags crc refl fit in
      let n = length-file crc32 media payload free major minor flags crc refl fit in
      let m : length file - (8 + len + 16) ≡ length media = omega (arith, n) in
      let mark' : subarray file (length file - 16) (length file - 16 + 4) ≡ magic =
        sym (subarray-drop file (length file - 16) 0 4 _ _ (omega arith) (omega arith))
        ∙ rw at_end mark in
      let size' : read_uint 4 file (length file - 16 + 8) ≡ some len =
        sym (read_uint-drop 4 file (length file - 16) 8 (length file - 16 + 8) refl)
        ∙ rw at_end size in
      unreadable_reads file len (length media) _ n mark' parsed
        (answer_unusable payload major crc flags minor (length media) bad) size' (rw m at head)
        (rw m at type)

  -- A trailer with a major other than 1, or with a CRC that fails, is named from its first byte:
  -- what remains is the media it was appended to.
  pub unreadable_trailer_start-build_trailer :
      (media payload t : Bytes) (o : TrailerOptions)
      → o.box_type_override ≡ none
      → build_trailer crc32 payload o ≡ some t
      → (or_else o.major 1 == 1 && crc32 payload == or_else o.crc_override (crc32 payload)) ≡ false
      → unreadable_trailer_start crc32 (media ++ t) ≡ some (some (length media))
  unreadable_trailer_start-build_trailer media payload t o plain e bad =
      let (same, fit) = build_trailer_inv crc32 payload t o e in
      let kind : box_type (or_else o.box_type_override free) ≡ free =
        unfold box_type in rw plain refl in
      let parsed = parse_trailer-build_trailer crc32 media payload t o e in
      let whole = rw kind at same in
      rw whole (unreadable-layout media payload _ _ _ _ fit (rw (kind, whole) at parsed) bad)
