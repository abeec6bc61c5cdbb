-- ===== src/Location/Tests.antt =====
-- A corroborated place, with the stand-in for Node.
use vcap_spec.Prelude.{◌≡◌, refl, ◌↔◌, none, some, [], ◌∷◌, replicate, pos}
use vcap_spec.Bytes.{eq_bytes}
use vcap_spec.Text.{Text, text, text_ltb, utf8}
use vcap_spec.Json.{
  num, str, Fields, end, field, jcs, member, stringify_int, stringify_text, join, insert_member,
  sort_members, member_texts, serialize,
}
use vcap_spec.Node.Stub.{stub, first_is}
use vcap_spec.Core.{verify_es256, public_key_from_spki}
use vcap_spec.Registry.Messages.{without_sig}
use vcap_spec.Registry.Logs.{TrustedLog, has, known, log_key, any_signed}
use vcap_spec.Registry.Integrity.{decode_sig}
use vcap_spec.Location.{
  corroborated, corroboration_message, integer, no_zone, verify_location_corroboration,
}
use vcap_spec.Location.Corroborated.{Corroborated, verify_location_corroboration_iff}

open_all : Unit {0}
unfolding eq_bytes text_ltb utf8 stringify_int stringify_text join insert_member sort_members
    member_texts serialize jcs member first_is verify_es256 public_key_from_spki without_sig has
    known log_key any_signed decode_sig corroboration_message integer no_zone
    verify_location_corroboration
open_all = tt

abbrev good : Text
good = 118 ∷ replicate 63 0

abbrev a_log : TrustedLog
a_log = record { log_id = text "log"; spki = 1 ∷ []; app_signing_digests = none }

abbrev body : Fields
body = field (text "method") (str (text "camara-location-verification")) (
    field (text "result") (str (text "no-match")) (
      field (text "radius_m") (num (pos 50))
        (field (text "at") (num (pos 3)) (field (text "sig") (str good) end))))

here :
    verify_location_corroboration stub body (replicate 32 4) (a_log ∷ [])
    ≡ corroborated (text "camara-location-verification") (text "no-match") (some (pos 50))
unfolding open_all
here = refl

verify_location_corroboration_iff_example :
    (verify_location_corroboration stub body (replicate 32 4) (a_log ∷ [])
      ≡ corroborated (text "camara-location-verification") (text "no-match") (some (pos 50)))
    ↔ Corroborated stub body
        (replicate 32 4)
        (a_log ∷ [])
        (text "camara-location-verification")
        (text "no-match")
        (some (pos 50))
verify_location_corroboration_iff_example =
    verify_location_corroboration_iff stub body (replicate 32 4) (a_log ∷ [])
      (text "camara-location-verification") (text "no-match") (some (pos 50))
