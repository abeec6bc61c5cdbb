-- ===== src/Verify/Shape.antt =====
-- `shapeProblem` of tools/src/verify.ts, with the version and the keys: what the verifier reads of a proof
-- before it trusts the types. A problem is `none`, in place of its text. The last check of the source,
-- for numbers that are no integers, has no counterpart: the parser reads integers only.
use vcap_spec.Prelude.{
  ℕ, Bool, true, false, not, ◌&&◌, ◌||◌, Option, none, some, List, [], ◌∷◌, leb, ◌==◌, any, all,
  length, ◌>>=◌, if◌then◌else◌, ℤ, pos, negsuc, leb_ℤ,
}
use vcap_spec.Bytes.{eq_bytes}
use vcap_spec.Text.{Text, text, text_ltb}
use vcap_spec.Json.{Json, num, Items, nil, cons, Fields, end, field, member}
use vcap_spec.Node.{Node}
use vcap_spec.Verify.Decode.{str_of, int_of, obj_of, items_of, has_key}
use vcap_spec.Verify.Retimed.{SignedTiming, SignedPresentation}

pub record SignedSegments : Type 0 where
  pub entries : Items
  pub count : ℤ
  pub presentation : SignedPresentation
  pub timing : SignedTiming

-- What the rest of the verifier reads.
pub record Shaped : Type 0 where
  pub capture_id : Text
  pub hash : Text
  pub platform : Text
  pub secure_hw : Text
  pub key_id : Text
  pub sig_value : Text
  pub sig_pub : Text
  pub sig_alg : Text
  pub segments : Option SignedSegments

guard : Bool → Option (Unit {0})
guard true = some tt
guard false = none

-- `[A-Za-z0-9_-]`.
is_base64url : ℕ → Bool
is_base64url c =
    leb 65 c && leb c 90
    || (leb 97 c && leb c 122 || (leb 48 c && leb c 57 || (c == 95 || c == 45)))

in_range : ℤ → ℤ → ℤ → Bool
in_range low high n = leb_ℤ low n && leb_ℤ n high

-- `every` of an array, for integers in a range.
integers : ℤ → ℤ → Items → Option (List ℤ)
unfolding in_range
integers low high nil = some []
integers low high (cons (num n) r) = do
  rest ← integers low high r
  if in_range low high n then some (n ∷ rest) else none
integers low high (cons _ r) = none

-- An array of `n` integers.
integers_of : ℕ → ℤ → ℤ → Option Json → Option (List ℤ)
unfolding integers
integers_of n low high value = do
  xs ← items_of value
  ns ← integers low high xs
  if length ns == n then some ns else none

presentation_shape : Json → Option SignedPresentation
unfolding integers_of is_base64url guard
presentation_shape v = do
  fs ← obj_of (some v)
  config ← str_of (member (text "config") fs)
  matrix ← integers_of 9 (negsuc 0x7FFFFFFF) (pos 0x7FFFFFFF) (member (text "matrix") fs)
  display ← integers_of 2 (pos 0) (pos 0xFFFFFFFF) (member (text "display") fs)
  sized ← guard (length config == 43 && all is_base64url config)
  some (record { config = config; matrix = matrix; display = display })

timescale : Option Json → Option ℤ
unfolding in_range
timescale value = do n ← int_of value; if in_range (pos 1) (pos 0xFFFFFFFF) n then some n else none

-- A timescale that may be absent.
optional_timescale : Option Json → Option (Option ℤ)
unfolding timescale
optional_timescale none = some none
optional_timescale (some v) = do n ← timescale (some v); some (some n)

known_only : List Text → Fields → Bool
known_only known end = true
known_only known (field k v fs) = any (λ name. eq_bytes name k) known && known_only known fs

-- `'presentation' in proof.media`, and its shape; absent, there is none.
optional_shape {ℓ} : {A : Type ℓ} → (Json → Option A) → Option Json → Option (Option A)
optional_shape shape none = some none
optional_shape shape (some v) = do a ← shape v; some (some a)

starts_with : Text → Text → Bool
starts_with [] t = true
starts_with (p ∷ ps) [] = false
starts_with (p ∷ ps) (c ∷ t) = c == p && starts_with ps t

module _ (node : Node) where
  open node use {from_base64url}

  b64url_len : ℕ → Option Json → Option Text
  unfolding is_base64url
  b64url_len n value = do
    s ← str_of value
    if not (length s == 0) && (all is_base64url s && length (from_base64url s) == n)
        then some s
        else none

  timing_shape : Json → Option SignedTiming
  unfolding timescale optional_timescale known_only b64url_len guard
  timing_shape v = do
    fs ← obj_of (some v)
    video ← timescale (member (text "video_timescale") fs)
    audio ← optional_timescale (member (text "audio_timescale") fs)
    root ← b64url_len 32 (member (text "root") fs)
    known ←
        guard (known_only (text "video_timescale" ∷ text "audio_timescale" ∷ text "root" ∷ []) fs)
    some (record { video_timescale = video; audio_timescale = audio; root = root })

  entry_timed : Json → Bool
  unfolding b64url_len
  entry_timed v = elim (do fs ← obj_of (some v); b64url_len 32 (member (text "timing") fs)) [
    | none ↦ false
    | some t ↦ true
  ]

  all_timed : Items → Bool
  unfolding entry_timed
  all_timed nil = true
  all_timed (cons v r) = entry_timed v && all_timed r

  -- The checks of a proof that has segments.
  segments_shape :
      Fields → Option SignedPresentation → Option SignedTiming → Json → Option SignedSegments
  unfolding all_timed guard
  segments_shape media presentation timing v = do
    entries ← items_of (some v)
    count ← int_of (member (text "segment_count") media)
    shown ← presentation
    timed ← timing
    timed_entries ← guard (all_timed entries)
    some (record { entries = entries; count = count; presentation = shown; timing = timed })

  unfoldable pub shape_problem : Fields → Option Shaped
  unfolding b64url_len guard in_range starts_with presentation_shape timing_shape optional_shape
      segments_shape
  shape_problem proof = do
    capture_id ← b64url_len 16 (member (text "capture_id") proof)
    media ← obj_of (member (text "media") proof)
    hash ← str_of (member (text "hash") media)
    mime ← str_of (member (text "mime") media)
    w ← int_of (member (text "w") media)
    h ← int_of (member (text "h") media)
    sized ← guard (leb_ℤ (pos 1) w && leb_ℤ (pos 1) h)
    device ← obj_of (member (text "device") proof)
    platform ← str_of (member (text "platform") device)
    secure_hw ← str_of (member (text "secure_hw") device)
    key_id ← str_of (member (text "key_id") device)
    sig ← obj_of (member (text "sig") proof)
    value ← str_of (member (text "value") sig)
    public ← str_of (member (text "pub") sig)
    alg ← str_of (member (text "alg") sig)
    video ← guard (not (starts_with (text "video/") mime) || has_key (text "segments") proof)
    presentation ← optional_shape presentation_shape (member (text "presentation") media)
    timing ← optional_shape timing_shape (member (text "timing") media)
    segments ←
        optional_shape (segments_shape media presentation timing) (member (text "segments") proof)
    some (record {
      capture_id = capture_id;
      hash = hash;
      platform = platform;
      secure_hw = secure_hw;
      key_id = key_id;
      sig_value = value;
      sig_pub = public;
      sig_alg = alg;
      segments = segments;
    })

abbrev known_keys : List Text
known_keys =
    text "v"
    ∷ text "capture_id"
    ∷ text "media"
    ∷ text "device"
    ∷ text "watermark"
    ∷ text "time"
    ∷ text "location"
    ∷ text "policy"
    ∷ text "sig"
    ∷ text "segments"
    ∷ text "attestation"
    ∷ text "attestation_status"
    ∷ text "registry"
    ∷ text "timestamp"
    ∷ text "anchor"
    ∷ text "integrity"
    ∷ text "location_corroboration"
    ∷ []

insert_key : Text → List Text → List Text
insert_key k [] = k ∷ []
insert_key k (j ∷ js) = if text_ltb j k then j ∷ insert_key k js else k ∷ j ∷ js

-- `Object.keys(proof).filter((k) => !KNOWN_KEYS.has(k)).sort()`.
unfoldable pub not_evaluated_keys : Fields → List Text
unfolding insert_key
not_evaluated_keys end = []
not_evaluated_keys (field k v fs) =
    let rest = not_evaluated_keys fs in
    if any (λ known. eq_bytes known k) known_keys then rest else insert_key k rest

-- `\d+`: the digits, and what follows.
digits_of : Text → Text × Text
digits_of [] = ([], [])
digits_of (c ∷ t) =
    let (ds, rest) = digits_of t in if leb 48 c && leb c 57 then (c ∷ ds, rest) else ([], c ∷ t)

-- After the major version: `.` and digits, up to the end.
is_minor : Text → Bool
unfolding digits_of
is_minor [] = false
is_minor (c ∷ t) =
    let (ds, rest) = digits_of t in c == 46 && (not (length ds == 0) && length rest == 0)

after_prefix : Text → Text → Option Text
after_prefix [] t = some t
after_prefix (p ∷ ps) [] = none
after_prefix (p ∷ ps) (c ∷ t) = if c == p then after_prefix ps t else none

-- The major version of `/^vcap\/(\d+)\.(\d+)$/`.
unfoldable pub major_of : Fields → Option Text
unfolding digits_of is_minor after_prefix
major_of proof = do
  v ← str_of (member (text "v") proof)
  t ← after_prefix (text "vcap/") v
  let (major, rest) = digits_of t
  if not (length major == 0) && is_minor rest then some major else none
