-- ===== src/Location/Corroborated.antt =====
-- `verifyLocationCorroboration` of tools/src/location.ts, when it accepts.
use vcap_spec.Prelude.{
  ◌≡◌, ◌↔◌, false, ◌&&◌, Option, some, List, [], ◌∷◌, arith, ℤ, Option-cases, inl, inr,
}
use vcap_spec.Bytes.{Bytes, eq_bytes}
use vcap_spec.Text.{Text, text}
use vcap_spec.Json.{Fields, member}
use vcap_spec.Node.{Node}
use vcap_spec.Registry.Logs.{TrustedLog, known, any_signed_iff, SignedBy}
use vcap_spec.Registry.Integrity.{decode_sig}
use vcap_spec.Location.{
  corroboration_methods, corroboration_results, corroboration_message, corroborated, integer,
  no_zone, signed_content, check_method, verify_location_corroboration,
}

module _ (node : Node) where
  -- What an accepted attachment has.
  pub record Corroborated (body : Fields) (core_hash : Bytes) (logs : List TrustedLog)
      (method result : Text) (radius : Option ℤ) : Type 0 where
    pub known_method : known corroboration_methods (member (text "method") body) ≡ some method
    pub signature : Bytes
    pub decoded : decode_sig node (member (text "sig") body) ≡ some signature
    pub signed : SignedBy node logs (corroboration_message core_hash body) signature
    pub known_result : known corroboration_results (member (text "result") body) ≡ some result
    pub at : ℤ
    pub at_integer : integer (member (text "at") body) ≡ some at
    pub radius_is : integer (member (text "radius_m") body) ≡ radius
    pub zone : (eq_bytes method (text "camara-location-verification") && no_zone radius) ≡ false

  checked :
      (body : Fields) (core_hash : Bytes) (logs : List TrustedLog) (method result : Text)
      (radius : Option ℤ)
      → check_method node body core_hash logs ≡ corroborated method result radius
      → Corroborated body core_hash logs method result radius
  unfolding check_method signed_content
  checked body core_hash logs method result radius h =
      elim (Option-cases (known corroboration_methods (member (text "method") body))) [
        | inl e ↦ absurd (ground (arith, e))
        | inr (m, e1) ↦ elim (Option-cases (decode_sig node (member (text "sig") body))) [
          | inl e ↦ absurd (ground (arith, e1, e))
          | inr (g, e2) ↦
              elim (Option-cases (known corroboration_results (member (text "result") body))) [
                | inl e ↦ absurd (ground (arith, e1, e2, e))
                | inr (v, e3) ↦ elim (Option-cases (integer (member (text "at") body))) [
                  | inl e ↦ absurd (ground (arith, e1, e2, e3, e))
                  | inr (t, e4) ↦
                      let r : integer (member (text "radius_m") body) ≡ radius =
                        ground (arith, e1, e2, e3, e4) in
                      let sm : m ≡ method = ground (arith, e1, e2, e3, e4) in
                      let z : (eq_bytes m (text "camara-location-verification")
                            && no_zone (integer (member (text "radius_m") body)))
                          ≡ false =
                        ground (arith, e1, e2, e3, e4) in
                      record {
                        known_method = ground (arith, e1, e2, e3, e4);
                        signature = g;
                        decoded = e2;
                        signed =
                            (any_signed_iff node logs (corroboration_message core_hash body) g).0
                              (ground (arith, e1, e2, e3, e4));
                        known_result = ground (arith, e1, e2, e3, e4);
                        at = t;
                        at_integer = e4;
                        radius_is = r;
                        zone = rw (← r, ← sm) z;
                      }
                ]
              ]
        ]
      ]

  -- A corroboration is reported exactly if its method and result are of the known ones, its time is an
  -- integer, a location check has a radius of at least 1, and a trusted log with a usable key signed
  -- the whole attachment but `sig`, for this core.
  pub verify_location_corroboration_iff :
      (body : Fields) (core_hash : Bytes) (logs : List TrustedLog) (method result : Text)
      (radius : Option ℤ)
      → (verify_location_corroboration node body core_hash logs ≡ corroborated method result radius)
        ↔ Corroborated body core_hash logs method result radius
  unfolding verify_location_corroboration check_method signed_content
  verify_location_corroboration_iff body core_hash logs method result radius =
      (there logs, back logs)
    where
      there :
          (ls : List TrustedLog)
          → verify_location_corroboration node body core_hash ls ≡ corroborated method result radius
          → Corroborated body core_hash ls method result radius
      there [] h = cc
      there (l ∷ ls) h = checked body core_hash (l ∷ ls) method result radius h

      back :
          (ls : List TrustedLog)
          → Corroborated body core_hash ls method result radius
          → verify_location_corroboration node body core_hash ls ≡ corroborated method result radius
      back [] c = elim c.signed.trusted [ ]
      back (l ∷ ls) c = ground (
        arith,
        c.known_method,
        c.decoded,
        (any_signed_iff node (l ∷ ls) (corroboration_message core_hash body) c.signature).1
            c.signed,
        c.known_result,
        c.at_integer,
        c.radius_is,
        c.zone,
      )
