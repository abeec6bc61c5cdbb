-- ===== src/Bmff/Sei/Sound.antt =====
-- `vcapSei` of tools/src/container.ts.
use vcap_spec.Prelude.{
  ℕ, suc, ◌+◌, ◌≤◌, ◌<◌, ◌≡◌, ◌⊎◌, refl, sym, ap, ◌∙◌, Bool, true, some, [], ◌∷◌, ◌++◌, ◌&&◌,
  length, take, drop, leb, ◌==◌, if◌then◌else◌, arith, Option-cases, Bool-cases, inl, inr,
  take-append-drop, drop-drop, length-take, length-drop,
}
use vcap_spec.Bytes.{Bytes, of_be, eq_bytes, subarray}
use vcap_spec.Bytes.Laws.{eq_bytes_iff}
use vcap_spec.Bmff.Sei.{
  sei_uuid, rbsp, Sei, no_sei, bad_sei, vcap_sei, is_trailing, long_number, weighed, Seen,
  messages_of, concluded, is_sei, sei_of,
}
use vcap_spec.Bmff.Sei.Messages.{
  run, long_number_inv, IsCut, message_inv, broken_inv, Round-inv, Ended, messages-Ended,
}

concluded_inv :
    (s : Seen) (c : Bytes) (i : ℕ)
    → concluded s ≡ vcap_sei c i
    → (s.found ≡ vcap_sei c i) × (s.messages ≡ 1) × (is_trailing s.rest ≡ true)
unfolding concluded
concluded_inv s c i h = of_found s.found refl
  where
    of_found :
        (x : Sei)
        → s.found ≡ x
        → (s.found ≡ vcap_sei c i) × (s.messages ≡ 1) × (is_trailing s.rest ≡ true)
    of_found no_sei e = absurd (ground (arith, e, h))
    of_found (bad_sei r) e = (ground (arith, e, h), ground (arith, e, h), ground (arith, e, h))
    of_found (vcap_sei d j) e = (ground (arith, e, h), ground (arith, e, h), ground (arith, e, h))

weighed_inv :
    (t z : ℕ) (p c : Bytes) (i : ℕ)
    → weighed t z p no_sei ≡ vcap_sei c i
    → (t ≡ 5)
      × (z ≡ 36)
      × (take 16 p ≡ sei_uuid)
      × (subarray p 16 32 ≡ c)
      × (of_be (subarray p 32 36) ≡ i)
unfolding weighed
weighed_inv t z p c i h =
    elim (Bool-cases (t == 5 && (leb 16 z && eq_bytes (take 16 p) sei_uuid))) [
      | inr e ↦ absurd (ground (arith, e, h))
      | inl e ↦ elim (Bool-cases (z == 36)) [
        | inr f ↦ absurd (ground (arith, e, f, h))
        | inl f ↦ (
          ground (arith, e),
          ground (arith, f),
          (eq_bytes_iff (take 16 p) sei_uuid).0 (ground (arith, e)),
          ground (arith, e, f, h),
          ground (arith, e, f, h),
        )
      ]
    ]

-- A header of one number below 255 is one byte.
one_byte :
    (t : Bytes) (n : ℕ) (rest : Bytes) → long_number t ≡ some (n, rest) → n < 255 → t ≡ n ∷ rest
unfolding run
one_byte t n rest h l =
    let (k, b, parts, small, value) = long_number_inv t n rest h in
    let none_before : k ≡ 0 = omega (arith, l, value) in
    let same : b ≡ n = omega (arith, l, value) in parts ∙ rw (none_before, same) refl

-- A payload of 36 bytes: the UUID, the capture and the index.
payload_parts :
    (p c : Bytes)
    → 36 ≤ length p
    → take 16 p ≡ sei_uuid
    → subarray p 16 32 ≡ c
    → (p ≡ sei_uuid ++ (c ++ (subarray p 32 36 ++ drop 36 p)))
      × (length c ≡ 16)
      × (length (subarray p 32 36) ≡ 4)
unfolding subarray
payload_parts p c l u e = (
  sym (take-append-drop 16 p)
      ∙ ap (λ z. z ++ drop 16 p) u
      ∙ ap (λ z. sei_uuid ++ z)
          (sym (take-append-drop 16 (drop 16 p))
            ∙ ap (λ z. z ++ drop 16 (drop 16 p)) e
            ∙ ap (λ z. c ++ z)
                (drop-drop 16 16 32 p refl
                  ∙ sym (take-append-drop 4 (drop 32 p))
                  ∙ ap (λ z. take 4 (drop 32 p) ++ z) (drop-drop 32 4 36 p refl))),
  ap length (sym e) ∙ omega (arith, length-take 16 (drop 16 p), length-drop 16 p),
  omega (arith, length-take 4 (drop 32 p), length-drop 32 p),
)

-- What is left after the message: trailing bits, after nothing or a cut header.
rest_parts :
    (body : Bytes) (found : Sei) (s : Seen)
    → Ended body found s
    → is_trailing s.rest ≡ true
    → (junk : Bytes) × (body ≡ junk ++ s.rest) × ((junk ≡ []) ⊎ IsCut junk s.rest)
rest_parts body found s (e, inl same) t = ([], sym same, inl refl)
rest_parts body found s (e, inr b) t = elim (broken_inv body s.rest b) [
  | inl n ↦ absurd (unfold is_trailing in ground (arith, n, t))
  | inr (junk, parts, cut) ↦ (junk, parts, inr cut)
]

-- A NAL unit that is taken for a vcap SEI is a SEI unit whose body, with the emulation prevention undone, is
-- the one vcap message with the capture and the index, and then trailing bits, but for what may stand
-- before them: the header of a further message, of a type and a size of any length, that declares more
-- bytes than there are.
pub sei_of_sound :
    (nal : Bytes) (hevc : Bool) (c : Bytes) (i : ℕ)
    → sei_of nal hevc ≡ some (vcap_sei c i)
    → (is_sei hevc nal ≡ true)
      × ((x : Bytes) × (junk : Bytes) × (tail : Bytes) × (rbsp (drop (if hevc then 2 else 1) nal)
            ≡ 5 ∷ 36 ∷ (sei_uuid ++ (c ++ (x ++ (junk ++ tail)))))
          × (length c ≡ 16)
          × (length x ≡ 4)
          × (of_be x ≡ i)
          × (is_trailing tail ≡ true)
          × ((junk ≡ []) ⊎ IsCut junk tail))
unfolding sei_of
sei_of_sound nal hevc c i h = elim (Bool-cases (is_sei hevc nal)) [
  | inr e ↦ absurd (ground (arith, e, h))
  | inl e ↦
      let body = rbsp (drop (if hevc then 2 else 1) nal) in
      elim (Option-cases (messages_of (length body + 1) body 0 no_sei)) [
        | inl f ↦ absurd (ground (arith, e, f, h))
        | inr (seen, f) ↦ (e, of_seen body seen f (ground (arith, e, f, h)))
      ]
]
  where
    of_seen :
        (body : Bytes) (seen : Seen)
        → messages_of (length body + 1) body 0 no_sei ≡ some seen
        → concluded seen ≡ vcap_sei c i
        → (x : Bytes) × (junk : Bytes) × (tail : Bytes) × (body
            ≡ 5 ∷ 36 ∷ (sei_uuid ++ (c ++ (x ++ (junk ++ tail)))))
          × (length c ≡ 16)
          × (length x ≡ 4)
          × (of_be x ≡ i)
          × (is_trailing tail ≡ true)
          × ((junk ≡ []) ⊎ IsCut junk tail)
    of_seen body seen f g =
        let (is_found, one, trailing) = concluded_inv seen c i g in
        let fuel : length body + 1 ≡ suc (length body) = omega arith in
        elim (Round-inv (length body) body 0 no_sei seen (rw fuel at f)) [
          | inl k ↦ absurd (omega (arith, one, ap (λ (x : Seen). x.messages) k))
          | inr (inl (rest, n, k)) ↦ absurd (omega (arith, one, ap (λ (x : Seen). x.messages) k))
          | inr (inr (t, z, p, n, k)) ↦
              let (r, first, second, fits) = message_inv body t z p n in
              let (stays, ends) =
                messages-Ended (length body) (drop z p) 1 (weighed t z p no_sei) seen k one in
              let (five, size, uuid, id, index) = weighed_inv t z p c i (sym stays ∙ is_found) in
              let (parts, long, four) = payload_parts p c (omega (arith, fits, size)) uuid id in
              let (junk, left, cut) =
                rest_parts (drop z p) (weighed t z p no_sei) seen (stays, ends) trailing in
              let head : body ≡ 5 ∷ r =
                one_byte body 5 r (first ∙ ap (λ n. some (n, r)) five) (omega arith) in
              let next : r ≡ 36 ∷ p =
                one_byte r 36 p (second ∙ ap (λ n. some (n, p)) size) (omega arith) in
              let after : drop 36 p ≡ junk ++ seen.rest = rw size at left in
              (
                subarray p 32 36,
                junk,
                seen.rest,
                head
                    ∙ ap (λ z. 5 ∷ z)
                        (next
                          ∙ ap (λ z. 36 ∷ z)
                              (parts ∙ ap (λ z. sei_uuid ++ (c ++ (subarray p 32 36 ++ z))) after)),
                long,
                four,
                index,
                trailing,
                cut,
              )
        ]
