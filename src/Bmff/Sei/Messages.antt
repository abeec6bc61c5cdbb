-- ===== src/Bmff/Sei/Messages.antt =====
-- The messages of a body, in `vcapSei` of tools/src/container.ts.
use vcap_spec.Prelude.{
  ℕ, zero, suc, ◌+◌, ◌*◌, ◌≤◌, ◌<◌, ◌≡◌, ◌≢◌, ◌⊎◌, refl, sym, ap, ◌∙◌, false, some, [], ◌∷◌, ◌++◌,
  ◌||◌, length, drop, replicate, ltb, ◌==◌, arith, Option-cases, Bool-cases, inl, inr, append_assoc,
}
use vcap_spec.Bytes.{Bytes}
use vcap_spec.Bmff.Sei.{
  Sei, is_trailing, long_number, Next, broken, message, of_size, of_type, next_message, weighed,
  Seen, messages_of,
}

-- A number as the bytes of a message's header have it: some bytes of 255, and a last one.
unfoldable pub run : ℕ → ℕ → Bytes
run k b = replicate k 255 ++ b ∷ []

pub long_number_inv :
    (t : Bytes) (n : ℕ) (rest : Bytes)
    → long_number t ≡ some (n, rest)
    → (k : ℕ) × (b : ℕ) × (t ≡ run k b ++ rest) × (b ≢ 255) × (n ≡ 255 * k + b)
unfolding long_number run
long_number_inv [] n rest h = absurd (cc)
long_number_inv (c ∷ cs) n rest h = elim (Bool-cases (c == 0xFF)) [
  | inr e ↦
      let is_rest : cs ≡ rest = ground (arith, e, h) in
      let is_n : c ≡ n = ground (arith, e, h) in
      (0, c, ap (λ r. c ∷ r) is_rest, ground (arith, e), omega (arith, is_n))
  | inl e ↦ elim (Option-cases (long_number cs)) [
    | inl l ↦ absurd (ground (arith, e, l, h))
    | inr ((m, r), l) ↦
        let (k, b, parts, small, value) = long_number_inv cs m r l in
        let is_rest : r ≡ rest = ground (arith, e, l, h) in
        let is_n : 255 + m ≡ n = ground (arith, e, l, h) in
        let is_c : c ≡ 255 = ground (arith, e) in
        (suc k, b, rw (is_c, parts, is_rest) refl, small, omega (arith, is_n, value))
  ]
]

-- The header of a message that declares more bytes than the `tail` has.
unfoldable pub IsCut : (junk tail : Bytes) → Type 0
unfolding run
IsCut junk tail =
    (k : ℕ) × (b : ℕ) × (m : ℕ) × (c : ℕ) × (junk ≡ run k b ++ run m c)
    × (b ≢ 255)
    × (c ≢ 255)
    × (length tail < 255 * m + c)

pub message_inv :
    (body : Bytes) (payload_type size : ℕ) (payload : Bytes)
    → next_message body ≡ message payload_type size payload
    → (r : Bytes) × (long_number body ≡ some (payload_type, r))
      × (long_number r ≡ some (size, payload))
      × (size ≤ length payload)
unfolding next_message of_type of_size
message_inv body payload_type size payload h = elim (Option-cases (long_number body)) [
  | inl e ↦ absurd (ground (arith, e, h))
  | inr ((t, r), e) ↦ elim (Option-cases (long_number r)) [
    | inl f ↦ absurd (ground (arith, e, f, h))
    | inr ((s, p), f) ↦ elim (Bool-cases (ltb (length p) s)) [
      | inl g ↦ absurd (ground (arith, e, f, g, h))
      | inr g ↦
          (r, ground (arith, e, f, g, h), ground (arith, e, f, g, h), ground (arith, e, f, g, h))
    ]
  ]
]

pub broken_inv :
    (body rest : Bytes)
    → next_message body ≡ broken rest
    → (rest ≡ []) ⊎ ((junk : Bytes) × (body ≡ junk ++ rest) × IsCut junk rest)
unfolding next_message of_type of_size IsCut
broken_inv body rest h = elim (Option-cases (long_number body)) [
  | inl e ↦ inl (ground (arith, e, h))
  | inr ((t, r), e) ↦ elim (Option-cases (long_number r)) [
    | inl f ↦ inl (ground (arith, e, f, h))
    | inr ((s, p), f) ↦ elim (Bool-cases (ltb (length p) s)) [
      | inr g ↦ absurd (ground (arith, e, f, g, h))
      | inl g ↦
          let same : p ≡ rest = ground (arith, e, f, g, h) in
          let (k, b, parts, small, value) = long_number_inv body t r e in
          let (m, c, parts', small', value') = long_number_inv r s p f in
          let more : length p < s = ground (arith, g) in
          rw (← same) (
            inr (
              run k b ++ run m c,
              parts ∙ ap (λ z. run k b ++ z) parts' ∙ sym (append_assoc (run k b) (run m c) p),
              (k, b, m, c, refl, small, small', omega (arith, more, value')),
            ))
    ]
  ]
]

-- A round of the loop: it stops, it breaks, or it goes on after a message.
abbrev pub Round : ℕ → Bytes → ℕ → Sei → Seen → Type 0
Round fuel body n found s =
    (s ≡ record { messages = n; found = found; rest = body })
    ⊎ ((rest : Bytes) × (next_message body ≡ broken rest)
        × (s ≡ record { messages = n; found = found; rest = rest }))
    ⊎ ((t : ℕ) × (z : ℕ) × (p : Bytes) × (next_message body ≡ message t z p)
        × (messages_of fuel (drop z p) (n + 1) (weighed t z p found) ≡ some s))

pub Round-inv :
    (fuel : ℕ) (body : Bytes) (n : ℕ) (found : Sei) (s : Seen)
    → messages_of (suc fuel) body n found ≡ some s
    → Round fuel body n found s
unfolding messages_of
Round-inv fuel body n found s h = elim (Bool-cases (length body == 0 || is_trailing body)) [
  | inl e ↦ inl (ground (arith, e, h))
  | inr e ↦ inr (of_next e (next_message body) refl)
]
  where
    of_next :
        length body == 0 || is_trailing body ≡ false
        → (x : Next) → next_message body ≡ x
        → ((rest : Bytes) × (next_message body ≡ broken rest)
            × (s ≡ record { messages = n; found = found; rest = rest }))
          ⊎ ((t : ℕ) × (z : ℕ) × (p : Bytes) × (next_message body ≡ message t z p)
              × (messages_of fuel (drop z p) (n + 1) (weighed t z p found) ≡ some s))
    of_next e (broken rest) k = inl (rest, k, ground (arith, e, k, h))
    of_next e (message t z p) k = inr (t, z, p, k, ground (arith, e, k, h))

-- Messages are only counted up.
pub messages_le :
    (fuel : ℕ) (body : Bytes) (n : ℕ) (found : Sei) (s : Seen)
    → messages_of fuel body n found ≡ some s
    → n ≤ s.messages
messages_le zero body n found s h = unfold messages_of in absurd (cc)
messages_le (suc fuel) body n found s h = elim (Round-inv fuel body n found s h) [
  | inl e ↦ omega (arith, ap (λ (x : Seen). x.messages) e)
  | inr (inl (rest, k, e)) ↦ omega (arith, ap (λ (x : Seen). x.messages) e)
  | inr (inr (t, z, p, k, e)) ↦
      omega (arith, messages_le fuel (drop z p) (n + 1) (weighed t z p found) s e)
]

-- Where no further message is counted, what was found stays, and the loop stops or breaks at once.
abbrev pub Ended : Bytes → Sei → Seen → Type 0
Ended body found s = (s.found ≡ found) × ((s.rest ≡ body) ⊎ (next_message body ≡ broken s.rest))

pub messages-Ended :
    (fuel : ℕ) (body : Bytes) (n : ℕ) (found : Sei) (s : Seen)
    → messages_of fuel body n found ≡ some s
    → s.messages ≡ n
    → Ended body found s
messages-Ended zero body n found s h m = unfold messages_of in absurd (cc)
messages-Ended (suc fuel) body n found s h m = elim (Round-inv fuel body n found s h) [
  | inl e ↦ (ap (λ (x : Seen). x.found) e, inl (ap (λ (x : Seen). x.rest) e))
  | inr (inl (rest, k, e)) ↦
      (ap (λ (x : Seen). x.found) e, inr (k ∙ ap broken (sym (ap (λ (x : Seen). x.rest) e))))
  | inr (inr (t, z, p, k, e)) ↦
      absurd (omega (arith, m, messages_le fuel (drop z p) (n + 1) (weighed t z p found) s e))
]
