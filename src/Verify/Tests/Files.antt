-- ===== src/Verify/Tests/Files.antt =====
-- A picture beside its proof.
use vcap_spec.Prelude.{◌≡◌, refl, none, some, [], ◌∷◌, ◌++◌, or_else}
use vcap_spec.Trailer.{parse_trailer, unreadable_trailer_start}
use vcap_spec.Carrier.{Sources, extract_proof, unreadable_alternate}
use vcap_spec.Bytes.{Bytes, eq_bytes, subarray, read_uint, of_be}
use vcap_spec.Verify.Judge.{Verdict, fail, no_proof_found, authentic}
use vcap_spec.Verify.File.{Files, outcome_rank, verdict_of_file, verify_file}
use vcap_spec.Verify.Tests.{tools, input, media, payload, ascii_decoders, open_all}

abbrev sources : Sources
sources = record {
  decoders = ascii_decoders;
  crc32 = λ b. 0;
  carrier_of = λ file store. record { active = none; ancestor = none };
}

-- The picture, a trailer of another major version, and a sidecar.
abbrev unreadable_tail : Bytes
unreadable_tail =
    0 ∷ 0 ∷ 0 ∷ 26 ∷ 102 ∷ 114 ∷ 101 ∷ 101 ∷ 123 ∷ 125 ∷ 86 ∷ 67 ∷ 65 ∷ 80 ∷ 2 ∷ 3 ∷ 0 ∷ 2 ∷ 0 ∷ 0
    ∷ 0 ∷ 2 ∷ 0 ∷ 0 ∷ 0 ∷ 0 ∷ []

abbrev files : Files
files = record { file = media ++ unreadable_tail; sidecar = some payload; external_store = none }

verdict : Verdict
verdict = or_else (verify_file tools sources files input) (fail no_proof_found)

-- The sidecar's verdict is the file's.
sidecar_wins : verdict.outcome ≡ authentic
unfolding open_all verdict verify_file verdict_of_file parse_trailer unreadable_trailer_start
    extract_proof unreadable_alternate eq_bytes subarray read_uint of_be outcome_rank
sidecar_wins = refl
