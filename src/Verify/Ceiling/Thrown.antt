-- ===== src/Verify/Ceiling/Thrown.antt =====
-- The errors that `level` of tools/src/verify.ts throws.
use vcap_spec.Prelude.{◌≤◌, suc, Option, none, some, List, ◌≡◌, ◌≢◌, ℤ, pos, negsuc}
use vcap_spec.Bytes.{Bytes}
use vcap_spec.Text.{Text}
use vcap_spec.Node.{Node}
use vcap_spec.Registry.Logs.{TrustedLog}
use vcap_spec.Registry.Status.{KeyStatusStatement}
use vcap_spec.Registry.Status.Unwritable.{Unwritable}
use vcap_spec.Verify.Label.{Label}
use vcap_spec.Verify.Verdicts.{
  Date, new_date, TimestampVerdict, stamped, no_timestamp, AnchorVerdict, anchor_holds,
  RegistryVerdict, not_registered,
}

-- Up to 8.64e15 milliseconds on either side of 1970.
unfoldable pub IsDate : ℤ → Type 0
IsDate (pos n) = n ≤ 8640000000000000
IsDate (negsuc n) = suc n ≤ 8640000000000000

-- The token's time, or else the block's, or else the device's clock, is beyond all dates; or there is
-- none of them, and the verifier's own clock is no date.
unfoldable pub NoInstant : TimestampVerdict → AnchorVerdict → Option ℤ → Date → Type 0
NoInstant (stamped gen_time from to) a clock now = ¬ IsDate gen_time
NoInstant no_timestamp (anchor_holds (some block)) clock now = ¬ IsDate block
NoInstant no_timestamp _ (some clock) now = ¬ IsDate clock
NoInstant no_timestamp _ none now = now ≡ none

-- The date that the key status is asked for: a time that the device does not control, if there is one.
unfoldable pub asked_for : TimestampVerdict → AnchorVerdict → Date → Date
asked_for (stamped gen_time from to) a now = new_date gen_time
asked_for no_timestamp (anchor_holds (some block)) now = new_date block
asked_for no_timestamp _ now = now

-- The registry has the key, and the statement is one that no log can have signed.
pub record Unanswerable (node : Node) (registry : RegistryVerdict)
    (key_status : Option KeyStatusStatement) (logs : List TrustedLog) (date : Date) : Type 0 where
  pub is_registered : registry ≢ not_registered
  pub statement : KeyStatusStatement
  pub given : key_status ≡ some statement
  pub at : ℤ
  pub is_date : date ≡ some at
  pub unwritable : Unwritable node logs at statement
