-- ===== src/Verify/Tests/Levels.antt =====
-- An iOS capture that reaches green, and a clock that is no date.
use vcap_spec.Prelude.{
  ℕ, ◌≡◌, ◌≢◌, refl, true, none, some, [], ◌∷◌, replicate, or_else, pos, negsuc,
}
use vcap_spec.Bytes.{eq_bytes, be, write_uint, write_int}
use vcap_spec.Text.{text, text_ltb, utf8}
use vcap_spec.Node.Stub.{stub, cut32, first_is}
use vcap_spec.Core.{verify_es256, public_key_from_spki}
use vcap_spec.Registry.Messages.{key_status_message}
use vcap_spec.Registry.Logs.{TrustedLog, find_log, log_key, has}
use vcap_spec.Registry.Status.{KeyStatusStatement, status_ok, verify_key_status, status_code}
use vcap_spec.Verify.Label.{includes, same_label, sort_labels, remove_first}
use vcap_spec.Verify.Verdicts.{
  stamped, no_timestamp, no_anchor, registered, not_registered, RegistryVerdict, new_date, is_empty,
}
use vcap_spec.Verify.Level.{
  LevelVerdict, green, red, timestamp, instant_of, is_trusted, rank, claimed_level,
}
use vcap_spec.Verify.Ceiling.{Claims, above, before_capture, ceiling_of, key_status_labels, level}
use vcap_spec.Verify.Ceiling.Green.{level-green}
use vcap_spec.Verify.Tests.{no_certificates, no_trust}

open_all : Unit {0}
unfolding level eq_bytes be write_uint write_int text_ltb utf8 cut32 first_is verify_es256
    public_key_from_spki key_status_message find_log log_key has verify_key_status status_code
    includes same_label sort_labels remove_first new_date is_empty instant_of is_trusted rank
    claimed_level above ceiling_of key_status_labels
open_all = tt

abbrev phone : Claims
phone = record {
  platform = text "ios";
  secure_hw = text "secureEnclave";
  key_id = replicate 32 48;
  clock = some (pos 5);
  attestation = none;
  attestation_status = none;
}

abbrev a_log : TrustedLog
a_log = record { log_id = text "log"; spki = 1 ∷ []; app_signing_digests = none }

-- Every message of a log begins with `v`, and so does a good signature here.
abbrev a_status : KeyStatusStatement
a_status = record {
  log_id = text "log";
  at = pos 9;
  tree_size = pos 3;
  status = pos 1;
  signature = 118 ∷ replicate 63 0;
}

abbrev a_record : RegistryVerdict
a_record = registered (text "secureEnclave") true none

reached : LevelVerdict
reached =
    or_else
      (level stub no_certificates phone [] [] [] no_trust (a_log ∷ []) (some (pos 20)) a_record
        (some a_status) no_anchor (stamped (pos 9) (pos 0) (pos 99)) true)
      (record {
        claimed = [];
        proven = [];
        ceiling = red;
        instant = pos 0;
        source = timestamp;
        labels = [];
      })

reached_is :
    level stub no_certificates phone [] [] [] no_trust
      (a_log ∷ [])
      (some (pos 20))
      a_record
      (some a_status)
      no_anchor
      (stamped (pos 9) (pos 0) (pos 99))
      true
    ≡ some reached
unfolding open_all reached
reached_is = refl

is_green : reached.ceiling ≡ green
unfolding open_all reached
is_green = refl

level-green_example :
    (is_trusted reached.source ≡ true)
    × (before_capture a_record ≡ true)
    × (true ≡ true)
    × ((statement : KeyStatusStatement) × (status : ℕ) × (some a_status ≡ some statement)
        × (verify_key_status stub statement
              (stub.from_base64url phone.key_id)
              reached.instant
              (a_log ∷ [])
            ≡ some (status_ok status))
        × (status ≢ 0)
        × (status ≢ 2))
level-green_example =
    level-green stub no_certificates phone [] [] [] no_trust (a_log ∷ []) (some (pos 20)) a_record
      (some a_status) no_anchor (stamped (pos 9) (pos 0) (pos 99)) true reached reached_is is_green

-- A clock that the core signs, and that is no date.
abbrev late_phone : Claims
late_phone = record phone { clock = some (pos 9000000000000000) }

throws :
    level stub no_certificates late_phone [] [] [] no_trust []
      (some (pos 20))
      not_registered
      none
      no_anchor
      no_timestamp
      true
    ≡ none
unfolding open_all
throws = refl

-- A statement whose tree size is no uint64 throws too.
abbrev unwritable_status : KeyStatusStatement
unwritable_status = record a_status { tree_size = negsuc 0 }

throws_on_status :
    level stub no_certificates phone [] [] [] no_trust
      (a_log ∷ [])
      (some (pos 20))
      a_record
      (some unwritable_status)
      no_anchor
      (stamped (pos 9) (pos 0) (pos 99))
      true
    ≡ none
unfolding open_all
throws_on_status = refl
