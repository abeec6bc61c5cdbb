-- ===== src/Verify/Level.antt =====
-- `level` of tools/src/verify.ts, with `frozenRevocation`: the level of a proof and its ceiling. The
-- labels are pushed in the order of the source. `none` is an error thrown.
use vcap_spec.Prelude.{
  ℕ, ◌+◌, Bool, true, false, ◌&&◌, ◌||◌, Option, none, some, List, [], ◌∷◌, ◌++◌, leb, ◌==◌, ◌>>=◌,
  if◌then◌else◌, ℤ, pos,
}
use vcap_spec.Bytes.{Bytes, eq_bytes}
use vcap_spec.Text.{Text, text}
use vcap_spec.Json.{Json, arr, Items, nil, cons, Fields, member}
use vcap_spec.Node.{Node}
use vcap_spec.Registry.Messages.{attestation_status_message}
use vcap_spec.Registry.Logs.{TrustedLog, any_signed, has}
use vcap_spec.Registry.Integrity.{safe_integer, decode_sig}
use vcap_spec.Verify.Label.{Label}
use vcap_spec.Verify.Decode.{str_of, obj_of, items_of}
use vcap_spec.Verify.Verdicts.{
  Date, new_date, TimestampVerdict, no_timestamp, stamped, AnchorVerdict, anchor_holds,
}

pub data Source : Type 0 where
  timestamp anchor device_clock verifier_clock : Source

pub data Ceiling : Type 0 where
  green amber red : Ceiling

pub record LevelVerdict : Type 0 where
  pub claimed : Text
  pub proven : Text
  pub ceiling : Ceiling
  pub instant : ℤ
  pub source : Source
  pub labels : List Label

-- `RANK[level] ?? 0` of attestation.ts.
unfoldable pub rank : Text → ℕ
rank level =
    if eq_bytes level (text "strongbox")
    then 2
    else if eq_bytes level (text "tee") || eq_bytes level (text "secureEnclave")
    then 1
    else 0

abbrev platforms : List Text
platforms = text "android" ∷ text "ios" ∷ text "web" ∷ []

abbrev secure_hws : List Text
secure_hws = text "strongbox" ∷ text "tee" ∷ text "secureEnclave" ∷ text "none" ∷ []

unfoldable pub claimed_level : Text → Text → Text
claimed_level platform secure_hw =
    if has platforms platform && has secure_hws secure_hw then secure_hw else text "none"

-- `hex.toLowerCase().replace(/^0+(?=.)/, '')`, of ASCII.
strip_zeros : Text → Text
strip_zeros [] = []
strip_zeros (c ∷ []) = c ∷ []
strip_zeros (c ∷ d ∷ r) = let rest = strip_zeros (d ∷ r) in if c == 48 then rest else c ∷ d ∷ r

lower : Text → Text
lower [] = []
lower (c ∷ r) = (if leb 65 c && leb c 90 then c + 32 else c) ∷ lower r

unfoldable pub normal_serial : Text → Text
unfolding strip_zeros lower
normal_serial hex = strip_zeros (lower hex)

-- The instant, in its order of trust. The block time is what the chain read gives.
unfoldable pub instant_of : TimestampVerdict → AnchorVerdict → Option ℤ → Date → Date × Source
instant_of (stamped gen_time from to) a clock now = (new_date gen_time, timestamp)
instant_of no_timestamp (anchor_holds (some block)) clock now = (new_date block, anchor)
instant_of no_timestamp _ (some clock) now = (new_date clock, device_clock)
instant_of no_timestamp _ none now = (now, verifier_clock)

unfoldable pub is_trusted : Source → Bool
is_trusted timestamp = true
is_trusted anchor = true
is_trusted _ = false

pub record Revoked : Type 0 where
  pub revoked_at : Option ℤ
  pub retroactive : Bool

pub data FrozenStatus : Type 0 where
  not_checked : FrozenStatus
  checked : (revoked : List Revoked) (incomplete : Bool) → FrozenStatus

-- `bySerial.get(serial)`: the last entry with that serial.
find_serial : Text → Items → Option Fields
find_serial serial nil = none
find_serial serial (cons v r) = elim (find_serial serial r) [
  | some later ↦ some later
  | none ↦ do
    entry ← obj_of (some v)
    written ← str_of (member (text "serial") entry)
    if eq_bytes (normal_serial written) serial then some entry else none
]

retroactive_reason : Option Text → Bool
retroactive_reason none = false
retroactive_reason (some reason) = has (text "KEY_COMPROMISE" ∷ text "CA_COMPROMISE" ∷ []) reason

-- What an entry says: nothing that is known, or that it is valid, or revoked.
entry_status : Option Fields → Option (List Revoked)
unfolding retroactive_reason
entry_status none = none
entry_status (some entry) = elim (str_of (member (text "status") entry)) [
  | none ↦ none
  | some status ↦
      if eq_bytes status (text "valid")
      then some []
      else if eq_bytes status (text "revoked")
      then some (
          record {
            revoked_at = safe_integer (member (text "revoked_at") entry);
            retroactive = retroactive_reason (str_of (member (text "reason") entry));
          }
          ∷ [])
      else none
]

-- The loop over the chain's serials.
read_serials : List Text → Items → List Revoked × Bool
read_serials [] entries = ([], false)
read_serials (s ∷ ss) entries =
    let (revoked, incomplete) = read_serials ss entries in
    elim (entry_status (find_serial s entries)) [
      | none ↦ (revoked, true)
      | some here ↦ (here ++ revoked, incomplete)
    ]

-- A safe integer that is not negative.
fetched : Option Json → Option ℤ
fetched value = elim (safe_integer value) [ some (pos n) ↦ some (pos n) | _ ↦ none ]

module _ (node : Node) where
  -- The signature on a snapshot.
  frozen_signed : Fields → Bytes → Items → ℤ → List TrustedLog → Bool
  frozen_signed attachment core_hash entries at signers =
      elim (attestation_status_message core_hash (arr entries) at) [
        | none ↦ false
        | some message ↦ elim (decode_sig node (member (text "sig") attachment)) [
          | none ↦ false
          | some signature ↦ any_signed node signers message signature
        ]
      ]

  -- A snapshot that can be used.
  frozen_source : Fields → Option (Items × ℤ)
  unfolding fetched
  frozen_source attachment = do
    source ← str_of (member (text "source") attachment)
    entries ← items_of (member (text "entries") attachment)
    at ← fetched (member (text "fetched_at") attachment)
    if eq_bytes source (text "googleStatusList") then some (entries, at) else none

  pub frozen_revocation : Fields → Bytes → List TrustedLog → List Text → FrozenStatus
  unfolding frozen_signed frozen_source find_serial entry_status read_serials
  frozen_revocation attachment core_hash signers serials = elim (frozen_source attachment) [
    | none ↦ not_checked
    | some (entries, at) ↦
        if frozen_signed attachment core_hash entries at signers
        then (let (revoked, incomplete) = read_serials serials entries in
            checked revoked incomplete)
        else not_checked
  ]
