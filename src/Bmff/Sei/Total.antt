-- ===== src/Bmff/Sei/Total.antt =====
-- The fuel of `messages_of`.
use vcap_spec.Prelude.{
  ℕ, zero, suc, ◌+◌, ◌<◌, ◌≡◌, ◌≢◌, refl, Bool, none, some, [], ◌∷◌, ◌||◌, length, drop, ◌==◌,
  if◌then◌else◌, arith, Option-cases, Bool-cases, inl, inr, length-drop,
}
use vcap_spec.Bytes.{Bytes}
use vcap_spec.Bmff.Sei.{
  rbsp, Sei, no_sei, is_trailing, long_number, Next, broken, message, next_message, weighed,
  messages_of, is_sei, sei_of,
}
use vcap_spec.Bmff.Sei.Messages.{message_inv}

length-long_number :
    (t : Bytes) (n : ℕ) (rest : Bytes) → long_number t ≡ some (n, rest) → length rest < length t
unfolding long_number
length-long_number [] n rest h = absurd (cc)
length-long_number (b ∷ bs) n rest h = elim (Option-cases (long_number bs)) [
  | inl e ↦ ground (arith, e, h)
  | inr ((m, r), e) ↦ ground (arith, e, h, length-long_number bs m r e)
]

messages_of-ne-none :
    (fuel : ℕ) (body : Bytes) (n : ℕ) (found : Sei)
    → length body < fuel
    → messages_of fuel body n found ≢ none
unfolding messages_of
messages_of-ne-none zero body n found l h = absurd (omega arith)
messages_of-ne-none (suc fuel) body n found l h =
    of_next (next_message body) refl
      (λ t z p k. messages_of-ne-none fuel (drop z p) (n + 1) (weighed t z p found) k)
  where
    of_next :
        (x : Next)
        → next_message body ≡ x
        → ((t z : ℕ) (p : Bytes)
            → length (drop z p) < fuel
            → messages_of fuel (drop z p) (n + 1) (weighed t z p found) ≢ none)
        → ⊥
    of_next (broken rest) k rec = ground (arith, k, h)
    of_next (message t z p) k rec =
        let (r, first, second, fits) = message_inv body t z p k in
        let less : length (drop z p) < fuel = omega (
          arith,
          length-drop z p,
          length-long_number body t r first,
          length-long_number r z p second,
          l,
        ) in
        elim (Bool-cases (length body == 0 || is_trailing body)) [
          | inl e ↦ ground (arith, e, h)
          | inr e ↦ rec t z p less (ground (arith, e, k, h))
        ]

-- The messages of every unit are read to their end.
pub sei_of-ne-none : (nal : Bytes) (hevc : Bool) → sei_of nal hevc ≢ none
unfolding sei_of
sei_of-ne-none nal hevc h =
    let body = rbsp (drop (if hevc then 2 else 1) nal) in
    elim (Option-cases (messages_of (length body + 1) body 0 no_sei)) [
      | inl e ↦ messages_of-ne-none (length body + 1) body 0 no_sei (omega arith) e
      | inr (s, e) ↦ elim (Bool-cases (is_sei hevc nal)) [
        | inl f ↦ ground (arith, e, f, h)
        | inr f ↦ ground (arith, f, h)
      ]
    ]
