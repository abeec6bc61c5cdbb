-- ===== src/Verify/File/Authentic.antt =====
-- The authentic verdict of `judge` in tools/src/verify.ts.
use vcap_spec.Prelude.{
  ℕ, Bool, true, false, Option, none, some, List, ◌≡◌, refl, ap, ◌∙◌, arith, Option-cases,
  Bool-cases, inl, inr,
}
use vcap_spec.Bytes.{Bytes, eq_bytes}
use vcap_spec.Bytes.Laws.{eq_bytes_iff}
use vcap_spec.Text.{text}
use vcap_spec.Json.{Json, null, bool, num, str, arr, obj, Fields}
use vcap_spec.Json.Parse.{parse_proof_json}
use vcap_spec.Core.{core_bytes, core_hash, key_id, verify_es256, public_key_from_spki}
use vcap_spec.Jpeg.{media_hash}
use vcap_spec.Verify.Label.{Label}
use vcap_spec.Verify.Shape.{Shaped, shape_problem, major_of}
use vcap_spec.Verify.Judge.{
  authentic, Verdict, Tools, Input, Context, fail, red_verdict, signed_core, no_proof_found, gather,
}
use vcap_spec.Verify.Clip.Sound.{judge_segments-authentic}
use vcap_spec.Verify.File.{judge_media, judge_signed, judge_proof, judge_object, judge}

module _ (tools : Tools) where
  open tools use {node, decoders}
  open tools.node use {from_base64url}

  -- What the core's signature and the key must be.
  pub record IsSigned (proof : Fields) (shaped : Shaped) : Type 0 where
    pub key : tools.node.Key
    pub key_is : public_key_from_spki node (from_base64url shaped.sig_pub) ≡ some key
    pub algorithm : shaped.sig_alg ≡ text "ES256"
    pub signature :
        verify_es256 node (core_bytes proof) (from_base64url shaped.sig_value) key ≡ true
    pub bound : shaped.key_id ≡ key_id node (from_base64url shaped.sig_pub)

  signed_core_inv :
      (proof : Fields) (shaped : Shaped) (key : tools.node.Key)
      → signed_core tools proof shaped ≡ some key
      → IsSigned proof shaped
  unfolding signed_core
  signed_core_inv proof shaped key h =
      elim (Option-cases (public_key_from_spki node (from_base64url shaped.sig_pub))) [
        | inl n ↦ absurd (ground (arith, n, h))
        | inr (k, n) ↦ record {
          key = k;
          key_is = n;
          algorithm = (eq_bytes_iff shaped.sig_alg (text "ES256")).0 (ground (arith, n, h));
          signature = ground (arith, n, h);
          bound =
              (eq_bytes_iff shaped.key_id (key_id node (from_base64url shaped.sig_pub))).0
                (ground (arith, n, h));
        }
      ]

  judge_media-authentic :
      (c : Context tools) (input : Input tools) (media : Bytes) (b : Bool) (v : Verdict)
      → judge_media tools c input media b ≡ some v
      → v.outcome ≡ authentic
      → b ≡ true
  unfolding judge_media red_verdict
  judge_media-authentic c input media true v h e = refl
  judge_media-authentic c input media false v h e = elim (Option-cases c.shaped.segments) [
    | inl n ↦ absurd (ground (arith, n, h, e))
    | inr (signed, n) ↦
        judge_segments-authentic tools c input signed media false v (ground (arith, n, h)) e
  ]

  judge_signed-authentic :
      (proof : Fields) (shaped : Shaped) (key : tools.node.Key) (media : Bytes) (flags : Option ℕ)
      (labels : List Label) (input : Input tools) (v : Verdict)
      → judge_signed tools proof shaped key media flags labels input ≡ some v
      → v.outcome ≡ authentic
      → media_hash node media ≡ some shaped.hash
  unfolding judge_signed fail
  judge_signed-authentic proof shaped key media flags labels input v h e =
      elim (Option-cases (media_hash node media)) [
        | inl n ↦ absurd (ground (arith, n, h, e))
        | inr (read, n) ↦
            elim (Option-cases (
              gather tools proof (core_hash node proof) (from_base64url shaped.sig_pub) labels flags
                input shaped)) [
                  | inl g ↦ absurd (ground (arith, n, g, h))
                  | inr (evidence, g) ↦
                      let c : Context tools = record {
                        proof = proof;
                        shaped = shaped;
                        spki = from_base64url shaped.sig_pub;
                        key = key;
                        hash = core_hash node proof;
                        evidence = evidence;
                      } in
                      let matches =
                        judge_media-authentic c input media (eq_bytes read shaped.hash) v
                          (ground (arith, n, g, h)) e in
                      n ∙ ap some ((eq_bytes_iff read shaped.hash).0 matches)
                ]
      ]

  judge_proof-authentic :
      (proof : Fields) (media : Bytes) (flags : Option ℕ) (labels : List Label)
      (input : Input tools) (v : Verdict)
      → judge_proof tools proof media flags labels input ≡ some v
      → v.outcome ≡ authentic
      → (shaped : Shaped) × (shape_problem node proof ≡ some shaped)
        × IsSigned proof shaped
        × (media_hash node media ≡ some shaped.hash)
  unfolding judge_proof fail red_verdict
  judge_proof-authentic proof media flags labels input v h e =
      elim (Option-cases (shape_problem node proof)) [
        | inl n ↦ absurd (ground (arith, n, h, e))
        | inr (shaped, n) ↦ elim (Option-cases (signed_core tools proof shaped)) [
          | inl k ↦ absurd (ground (arith, n, k, h, e))
          | inr (key, k) ↦ (
            shaped,
            n,
            signed_core_inv proof shaped key k,
            judge_signed-authentic proof shaped key media flags labels input v
                (ground (arith, n, k, h)) e,
          )
        ]
      ]

  -- An authentic verdict takes a proof that parses, with major version 1 and a complete shape, whose core is
  -- signed under the ES256 key of `sig.pub`, a key that `device.key_id` names, and whose `media.hash` is the hash
  -- of the media's canonical bytes, whatever the attachments, the labels and the container say.
  pub judge-authentic :
      (payload media : Bytes) (flags : Option ℕ) (labels : List Label) (input : Input tools)
      (v : Verdict)
      → judge tools payload media flags labels input ≡ some v
      → v.outcome ≡ authentic
      → (proof : Fields) × (shaped : Shaped) × (parse_proof_json decoders payload
          ≡ some (obj proof))
        × (major_of proof ≡ some (text "1"))
        × (shape_problem node proof ≡ some shaped)
        × IsSigned proof shaped
        × (media_hash node media ≡ some shaped.hash)
  unfolding judge judge_object fail
  judge-authentic payload media flags labels input v h e =
      of_parsed (parse_proof_json decoders payload) refl h
    where
      of_object :
          (proof : Fields)
          → parse_proof_json decoders payload ≡ some (obj proof)
          → judge_object tools proof media flags labels input ≡ some v
          → (proof : Fields) × (shaped : Shaped) × (parse_proof_json decoders payload
              ≡ some (obj proof))
            × (major_of proof ≡ some (text "1"))
            × (shape_problem node proof ≡ some shaped)
            × IsSigned proof shaped
            × (media_hash node media ≡ some shaped.hash)
      of_object proof p h = elim (Option-cases (major_of proof)) [
        | inl n ↦ absurd (ground (arith, n, h, e))
        | inr (major, n) ↦ elim (Bool-cases (eq_bytes major (text "1"))) [
          | inr k ↦ absurd (ground (arith, n, k, h, e))
          | inl k ↦
              let (shaped, s, signed, hash) =
                judge_proof-authentic proof media flags labels input v (ground (arith, n, k, h))
                  e in
              (proof, shaped, p, n ∙ ap some ((eq_bytes_iff major (text "1")).0 k), s, signed, hash)
        ]
      ]

      of_parsed :
          (o : Option Json)
          → parse_proof_json decoders payload ≡ o
          → elim o [
            | some (obj proof) ↦ judge_object tools proof media flags labels input
            | _ ↦ some (fail no_proof_found)
          ]
            ≡ some v
          → (proof : Fields) × (shaped : Shaped) × (parse_proof_json decoders payload
              ≡ some (obj proof))
            × (major_of proof ≡ some (text "1"))
            × (shape_problem node proof ≡ some shaped)
            × IsSigned proof shaped
            × (media_hash node media ≡ some shaped.hash)
      of_parsed none p h = absurd (ground (arith, h, e))
      of_parsed (some (obj proof)) p h = of_object proof p h
      of_parsed (some null) p h = absurd (ground (arith, h, e))
      of_parsed (some (bool b)) p h = absurd (ground (arith, h, e))
      of_parsed (some (num n)) p h = absurd (ground (arith, h, e))
      of_parsed (some (str t)) p h = absurd (ground (arith, h, e))
      of_parsed (some (arr xs)) p h = absurd (ground (arith, h, e))
