-- ===== src/Carrier.antt =====
-- tools/src/carrier.ts: where the proof of a file is read, and which copy wins. The walk over a C2PA
-- manifest store is a function, `carrier_of`. `none` is an error thrown.
use vcap_spec.Prelude.{
  ℕ, Bool, true, false, Option, none, some, List, [], ◌∷◌, take, ◌>>=◌, if◌then◌else◌,
}
use vcap_spec.Bytes.{Bytes, eq_bytes}
use vcap_spec.Text.{Text}
use vcap_spec.Json.{jcs}
use vcap_spec.Json.Parse.{Decoders, parse_proof_json}
use vcap_spec.Trailer.{
  ParsedTrailer, no_trailer, corrupted, unsupported, ok, parse_trailer, unreadable_trailer_start,
}
use vcap_spec.Verify.Label.{Label}

pub record CarriedProof : Type 0 where
  pub bytes : Bytes
  pub manifest : Text
  pub depth : ℕ

-- The proof in the active manifest, and the first one up the `parentOf` chain.
pub record Carrier : Type 0 where
  pub active : Option CarriedProof
  pub ancestor : Option CarriedProof

-- Where the proof was read.
pub data ProofSource : Type 0 where
  from_trailer from_sidecar : ProofSource
  from_manifest : (manifest : Text) (depth : ℕ) → ProofSource

-- A sidecar that differs.
pub record Alternate : Type 0 where
  pub payload : Bytes
  pub labels : List Label

pub record Extracted : Type 0 where
  pub payload : Bytes
  pub media : Bytes
  pub flags : Option ℕ
  pub source : ProofSource
  pub labels : List Label
  pub alternate : Option Alternate

pub data Extraction : Type 0 where
  no_proof proof_corrupted proof_nested : Extraction
  proof_unsupported : (major : ℕ) → Extraction
  proof_found : Extracted → Extraction

-- What `unreadableAlternate` gives.
pub record Unreadable : Type 0 where
  pub payload : Bytes
  pub media : Bytes
  pub labels : List Label

-- What the reader takes from elsewhere: Node, `crc32`, and the walk over the manifest store.
pub record Sources : Type 0 where
  pub decoders : Decoders
  pub crc32 : Bytes → ℕ
  pub carrier_of : Bytes → Option Bytes → Carrier

is_none : ParsedTrailer → Bool
is_none no_trailer = true
is_none _ = false

module _ (sources : Sources) where
  open sources use {decoders, crc32, carrier_of}

  pub same_proof : Bytes → Bytes → Bool
  same_proof a b = elim (parse_proof_json decoders a) [
    | none ↦ false
    | some v ↦ elim (parse_proof_json decoders b) [
      | none ↦ false
      | some w ↦ eq_bytes (jcs v) (jcs w)
    ]
  ]

  -- The active manifest's copy, compared with the proof that is used.
  pub manifest_label : Option CarriedProof → Bytes → List Label
  manifest_label none proof = []
  manifest_label (some copy) proof =
      if same_proof copy.bytes proof then [] else Label.manifest_copy_differs ∷ []

  -- A trailer's proof, with a sidecar that differs or without one.
  trailer_proof : Bytes → ℕ → Bytes → List Label → Option Alternate → Extracted
  trailer_proof payload flags media labels alternate = record {
    payload = payload;
    media = media;
    flags = some flags;
    source = from_trailer;
    labels = labels;
    alternate = alternate;
  }

  of_trailer : Bytes → ℕ → Bytes → Option Bytes → Option CarriedProof → Extracted
  unfolding manifest_label trailer_proof
  of_trailer payload flags media none copy =
      trailer_proof payload flags media (manifest_label copy payload) none
  of_trailer payload flags media (some sidecar) copy =
      if eq_bytes sidecar payload
      then trailer_proof payload flags media (manifest_label copy payload) none
      else trailer_proof payload flags media (Label.sidecar_differs ∷ manifest_label copy payload) (
          some (record {
            payload = sidecar;
            labels = Label.trailer_copy_differs ∷ manifest_label copy sidecar;
          }))

  -- A proof of the whole file, without flags.
  of_file : Bytes → Bytes → ProofSource → List Label → Option Alternate → Extraction
  of_file payload file source labels alternate = proof_found (record {
    payload = payload;
    media = file;
    flags = none;
    source = source;
    labels = labels;
    alternate = alternate;
  })

  of_manifest : Bytes → Option Bytes → CarriedProof → Extraction
  unfolding of_file
  of_manifest file none active = of_file active.bytes file (from_manifest active.manifest 0) [] none
  of_manifest file (some sidecar) active =
      if same_proof sidecar active.bytes
      then of_file active.bytes file (from_manifest active.manifest 0) [] none
      else of_file active.bytes file (from_manifest active.manifest 0) (Label.sidecar_differs ∷ [])
          (some (record { payload = sidecar; labels = Label.manifest_copy_differs ∷ [] }))

  -- Without a footer: the active manifest, the sidecar, the parents.
  without_footer : Bytes → Option Bytes → Carrier → Extraction
  unfolding of_file of_manifest
  without_footer file sidecar carrier = elim carrier.active [
    | some active ↦ of_manifest file sidecar active
    | none ↦ elim sidecar [
      | some payload ↦ of_file payload file from_sidecar [] none
      | none ↦ elim carrier.ancestor [
        | some a ↦ of_file a.bytes file (from_manifest a.manifest a.depth) [] none
        | none ↦ no_proof
      ]
    ]
  ]

  of_parsed : Bytes → Option Bytes → Option Bytes → ParsedTrailer → Option Extraction
  unfolding of_trailer without_footer is_none
  of_parsed file sidecar store corrupted = some proof_corrupted
  of_parsed file sidecar store (unsupported major) = some (proof_unsupported major)
  of_parsed file sidecar store no_trailer =
      some (without_footer file sidecar (carrier_of file store))
  of_parsed file sidecar store (ok payload flags minor media_end) = do
    let media = take media_end file
    inner ← parse_trailer crc32 media
    if is_none inner
        then some
            (proof_found (of_trailer payload flags media sidecar (carrier_of media store).active))
        else some proof_nested

  unfoldable pub extract_proof : Bytes → Option Bytes → Option Bytes → Option Extraction
  unfolding of_parsed
  extract_proof file sidecar store = do
    trailer ← parse_trailer crc32 file
    of_parsed file sidecar store trailer

  -- `some none` is `undefined`.
  unfoldable pub unreadable_alternate :
      Bytes → Option Bytes → Option Bytes → Option (Option Unreadable)
  unfolding manifest_label
  unreadable_alternate file none store = some none
  unreadable_alternate file (some sidecar) store = do
    start ← unreadable_trailer_start crc32 file
    elim start [
      | none ↦ some none
      | some at ↦ some (
          some (record {
            payload = sidecar;
            media = take at file;
            labels =
                Label.trailer_unreadable
                ∷ manifest_label (carrier_of (take at file) store).active sidecar;
          }))
    ]
