-- ===== src/Verify/Tests/Casts.antt =====
-- Registry attachments outside the interface that tools/src/verify.ts casts them to.
use vcap_spec.Prelude.{none, ◌≡◌, refl, true, false, some, [], ◌∷◌, pos}
use vcap_spec.Text.{text}
use vcap_spec.Bytes.{eq_bytes}
use vcap_spec.Verify.Decode.{registry_attachment, str_of, int_of, obj_of}
use vcap_spec.Json.{member, num, str, field, end}
use vcap_spec.Node.Stub.{stub}
use vcap_spec.Core.{public_key_from_spki}
use vcap_spec.Registry.Logs.{TrustedLog, find_log, log_key}
use vcap_spec.Registry.Leaf.{registry_refused, not_trusted, unreadable}
use vcap_spec.Verify.Uncast.{judge_registry}

unpinned :
    judge_registry stub (field (text "log_id") (num (pos 1)) end) [] [] []
    ≡ some (registry_refused not_trusted false)
unfolding registry_attachment str_of int_of member obj_of judge_registry eq_bytes
unpinned = refl

abbrev a_log : TrustedLog
a_log = record { log_id = text "log"; spki = 1 ∷ []; app_signing_digests = none }

-- A tree head that is no object is caught.
no_head :
    judge_registry stub
      (field (text "log_id") (str (text "log")) (field (text "tree_head") (num (pos 1)) end))
      []
      []
      (a_log ∷ [])
    ≡ some (registry_refused unreadable true)
unfolding registry_attachment str_of int_of member obj_of judge_registry find_log log_key eq_bytes
    public_key_from_spki
no_head = refl
