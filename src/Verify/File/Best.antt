-- ===== src/Verify/File/Best.antt =====
-- The choice between the verdicts of `verifyFile` in tools/src/verify.ts.
use vcap_spec.Prelude.{ℕ, none, some, List, ◌∷◌, take, ◌>>=◌, ◌≡◌, ◌⊎◌, ◌≤◌, ◌<◌}
use vcap_spec.Bytes.{Bytes}
use vcap_spec.Trailer.{unreadable_trailer_start}
use vcap_spec.Carrier.{Sources}
use vcap_spec.Verify.Label.{Label}
use vcap_spec.Verify.Judge.{Verdict, Tools, Input}
use vcap_spec.Verify.File.{Files, outcome_rank, judge}

-- The verdict `v` of two: the first, unless the other ranks strictly above.
abbrev pub Chosen : Verdict → Verdict → Verdict → Type 0
Chosen own other v =
    ((v ≡ own) × (outcome_rank other.outcome ≤ outcome_rank own.outcome))
    ⊎ ((v ≡ other) × (outcome_rank own.outcome < outcome_rank other.outcome))

-- No sidecar, or a file that does not end in an unreadable trailer.
abbrev pub NoRival : Sources → Files → Type 0
NoRival sources files =
    (files.sidecar ≡ none) ⊎ (unreadable_trailer_start sources.crc32 files.file ≡ some none)

-- The sidecar over the file without its unreadable trailer, judged without flags.
pub record IsRival (tools : Tools) (sources : Sources) (files : Files) (input : Input tools)
    (other : Verdict) : Type 0 where
  pub sidecar : Bytes
  pub is_sidecar : files.sidecar ≡ some sidecar
  pub start : ℕ
  pub is_start : unreadable_trailer_start sources.crc32 files.file ≡ some (some start)
  pub labels : List Label
  pub judged :
      judge tools sidecar (take start files.file) none (Label.trailer_unreadable ∷ labels) input
      ≡ some other
