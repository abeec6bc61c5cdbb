-- ===== src/Json/Parse/Sound.antt =====
-- What `parseProofJson` of tools/src/json.ts accepts.
use vcap_spec.Prelude.{
  ℕ, zero, suc, ◌+◌, ◌*◌, ◌≤◌, ◌≡◌, false, ◌||◌, some, List, [], ◌∷◌, length, ltb, ◌==◌, arith,
  Option-cases, Bool-cases, inl, inr,
}
use vcap_spec.Bytes.{Bytes}
use vcap_spec.Text.{Text}
use vcap_spec.Json.{Json, num, Items, Fields}
use vcap_spec.Json.Parse.{
  Parsed, Decoders, max_depth, space, is_digit, number, expect, is_named, string, object, array,
  scalar, read_value, after_member, read_member, after_item, read_item, value, members, items,
  at_end, parse_text, starts_with_bom, parse_proof_json,
}
use vcap_spec.Json.Parse.Yields.{
  AreFields, AreItems, IsProofJson, Yields, always, and_then-Yields, at_end-some, number-Yields,
  on_bool, word-Yields, yielded,
}

module _ (decoders : Decoders) where
  open decoders use {decode_utf8}

  scalar-Yields :
      (depth : ℕ)
      → depth ≤ 64
      → (c : ℕ) (r : Text) → Yields (IsProofJson depth) (scalar decoders c r)
  unfolding scalar IsProofJson Yields
  scalar-Yields depth d c r =
      on_bool _ (c == 34) _ _
        (λ e.
          and_then-Yields (λ s. Unit {0}) _ (string decoders (c ∷ r)) _
            (always _ (λ s. tt) (string decoders (c ∷ r))) (λ s rest y. d))
        (λ e.
          on_bool _ (c == 45 || is_digit c) _ _
            (λ f.
              and_then-Yields (λ n. IsProofJson depth (num n)) _ (number (c ∷ r)) _
                (number-Yields depth d (c ∷ r)) (λ n rest y. y))
            (λ f. word-Yields depth d (c ∷ r)))

  read_value-Yields :
      (depth : ℕ) (ms : Text → Parsed Fields) (xs : Text → Parsed Items) (t : Text)
      → depth ≤ 64
      → ((r : Text) → Yields (AreFields (depth + 1) []) (ms r))
      → ((r : Text) → Yields (AreItems (depth + 1)) (xs r))
      → Yields (IsProofJson depth) (read_value decoders ms xs t)
  unfolding read_value object array Yields IsProofJson
  read_value-Yields depth ms xs [] d f g = tt
  read_value-Yields depth ms xs (c ∷ r) d f g =
      on_bool _ (c == 123) _ _ (λ e. of_object (space r) (ms (space r)) (f (space r)))
        (λ e.
          on_bool _ (c == 91) _ _ (λ k. of_array (space r) (xs (space r)) (g (space r)))
            (λ k. scalar-Yields depth d c r))
    where
      of_object :
          (s : Text) (p : Parsed Fields)
          → Yields (AreFields (depth + 1) []) p
          → Yields (IsProofJson depth) (object s p)
      of_object [] p y = tt
      of_object (a ∷ s) p y =
          on_bool _ (a == 125) _ _ (λ e. (d, tt))
            (λ e. and_then-Yields (AreFields (depth + 1) []) _ p _ y (λ fs rest z. (d, z)))

      of_array :
          (s : Text) (p : Parsed Items)
          → Yields (AreItems (depth + 1)) p
          → Yields (IsProofJson depth) (array s p)
      of_array [] p y = tt
      of_array (a ∷ s) p y =
          on_bool _ (a == 93) _ _ (λ e. (d, tt))
            (λ e. and_then-Yields (AreItems (depth + 1)) _ p _ y (λ ys rest z. (d, z)))

  read_member-Yields :
      (depth : ℕ) (read : Text → Parsed Json) (more : List Text → Text → Parsed Fields)
      (seen : List Text) (t : Text)
      → ((r : Text) → Yields (IsProofJson depth) (read r))
      → ((s : List Text) (r : Text) → Yields (AreFields depth s) (more s r))
      → Yields (AreFields depth seen) (read_member decoders read more seen t)
  unfolding read_member after_member Yields IsProofJson
  read_member-Yields depth read more seen t f g =
      and_then-Yields (λ s. Unit {0}) _ (string decoders (space t)) _
        (always _ (λ s. tt) (string decoders (space t)))
        (λ key r1 y.
          on_bool _ (is_named seen key) _ _ (λ e. tt)
            (λ e.
              and_then-Yields (λ s. Unit {0}) _ (expect 58 (space r1)) _
                (always _ (λ s. tt) (expect 58 (space r1)))
                (λ colon r2 z.
                  and_then-Yields (IsProofJson depth) _ (read r2) _ (f r2)
                    (λ v r3 w. after key v (space r3) e w))))
    where
      after :
          (key : Text) (v : Json) (s : Text)
          → is_named seen key ≡ false
          → IsProofJson depth v
          → Yields (AreFields depth seen) (after_member decoders (more (key ∷ seen)) key v s)
      after key v [] e w = tt
      after key v (c ∷ r) e w =
          on_bool _ (c == 44) _ _
            (λ k.
              and_then-Yields (AreFields depth (key ∷ seen)) _ (more (key ∷ seen) r) _
                (g (key ∷ seen) r) (λ fs rest y. (e, (w, y))))
            (λ k. on_bool _ (c == 125) _ _ (λ l. (e, (w, tt))) (λ l. tt))

  read_item-Yields :
      (depth : ℕ) (read : Text → Parsed Json) (more : Text → Parsed Items) (t : Text)
      → Yields (IsProofJson depth) (read t)
      → ((r : Text) → Yields (AreItems depth) (more r))
      → Yields (AreItems depth) (read_item decoders read more t)
  unfolding read_item after_item Yields IsProofJson
  read_item-Yields depth read more t f g =
      and_then-Yields (IsProofJson depth) _ (read t) _ f (λ v r1 w. after v (space r1) w)
    where
      after :
          (v : Json) (s : Text)
          → IsProofJson depth v
          → Yields (AreItems depth) (after_item decoders more v s)
      after v [] w = tt
      after v (c ∷ r) w =
          on_bool _ (c == 44) _ _
            (λ k. and_then-Yields (AreItems depth) _ (more r) _ (g r) (λ xs rest y. (w, y)))
            (λ k. on_bool _ (c == 93) _ _ (λ l. (w, tt)) (λ l. tt))

  mutual
    unfolding value Yields

    value-Yields :
        (fuel depth : ℕ) (t : Text) → Yields (IsProofJson depth) (value decoders fuel depth t)
    value-Yields zero depth t = tt
    value-Yields (suc fuel) depth t =
        on_bool _ (ltb max_depth depth) _ _ (λ e. tt)
          (λ e.
            read_value-Yields depth (members decoders fuel depth []) (items decoders fuel depth)
              (space t) (ground arith) (λ r. members-Yields fuel depth [] r)
              (λ r. items-Yields fuel depth r))

    members-Yields :
        (fuel depth : ℕ) (seen : List Text) (t : Text)
        → Yields (AreFields (depth + 1) seen) (members decoders fuel depth seen t)
    members-Yields zero depth seen t = tt
    members-Yields (suc fuel) depth seen t =
        read_member-Yields (depth + 1) (value decoders fuel (depth + 1))
          (members decoders fuel depth) seen t (λ r. value-Yields fuel (depth + 1) r)
          (λ s r. members-Yields fuel depth s r)

    items-Yields :
        (fuel depth : ℕ) (t : Text) → Yields (AreItems (depth + 1)) (items decoders fuel depth t)
    items-Yields zero depth t = tt
    items-Yields (suc fuel) depth t =
        read_item-Yields (depth + 1) (value decoders fuel (depth + 1)) (items decoders fuel depth) t
          (value-Yields fuel (depth + 1) t) (λ r. items-Yields fuel depth r)

  -- Bytes that the parser accepts begin with no byte-order mark, and are a JSON value that nests at most
  -- 64 deep, in which every integer is within ±(2^53 − 1) and no object has two members of one name.
  pub parse_proof_json_sound :
      (bytes : Bytes) (v : Json)
      → parse_proof_json decoders bytes ≡ some v
      → (starts_with_bom bytes ≡ false) × IsProofJson 0 v
  unfolding parse_proof_json parse_text at_end
  parse_proof_json_sound bytes v h = elim (Bool-cases (starts_with_bom bytes)) [
    | inl b ↦ absurd (ground (arith, b, h))
    | inr b ↦ elim (Option-cases (decode_utf8 bytes)) [
      | inl e ↦ absurd (ground (arith, b, e, h))
      | inr (t, e) ↦
          let end_is : at_end (value decoders (2 * length t + 1) 0 t) ≡ some v =
            ground (arith, b, e, h) in
          let (r, read) = at_end-some (value decoders (2 * length t + 1) 0 t) v end_is in
          (b, yielded (IsProofJson 0) _ v r (value-Yields (2 * length t + 1) 0 t) read)
    ]
  ]
