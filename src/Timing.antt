-- ===== src/Timing.antt =====
-- tools/src/timing.ts: the timing of a segment, its bytes and hash, and its conversion to the
-- timescales that were signed. `bigint` values are integers.
pub mod Fields
pub mod Record
pub mod Scaling
pub mod Extents
pub mod Edits
mod Tests
use vcap_spec.Prelude.{
  ℕ, zero, suc, ◌+◌, ◌-◌, ◌*◌, ◌/◌, ◌%◌, ◌^◌, Bool, true, false, not, ◌||◌, Option, none, some,
  List, [], ◌∷◌, ◌++◌, length, ltb, ◌==◌, any, if◌then◌else◌, ◌>>=◌, or_else, ℤ, pos, negsuc, ◌+ℤ◌,
  ◌-ℤ◌, ◌*ℤ◌, ltb_ℤ, leb_ℤ,
}
use vcap_spec.Bytes.{Bytes, be, write_int}
use vcap_spec.Node.{Node}

pub record TimingValues : Type 0 where
  pub video_dts : List ℤ
  pub video_cts : List ℤ
  pub video_end : ℤ
  pub audio_dts : List ℤ
  pub audio_dur : List ℤ

pub record Timescales : Type 0 where
  pub video : ℤ
  pub audio : Option ℤ

-- `INT64_MIN` is `negsuc int64_max`.
abbrev pub int64_max : ℕ
int64_max = 2 ^ 63 - 1

abbrev pub uint64_max : ℕ
uint64_max = 2 ^ 64 - 1

abbrev pub uint32_max : ℕ
uint32_max = 2 ^ 32 - 1

-- `writeBigInt64BE`, of a number in range: two's complement.
twos_complement : ℤ → Bytes
twos_complement (pos n) = be 8 n
twos_complement (negsuc n) = be 8 (2 ^ 64 - (n + 1))

-- The fields. `none` is `TimingUnencodable` thrown.
unfoldable pub int64 : ℤ → Option Bytes
unfolding twos_complement
int64 value =
    if ltb_ℤ value (negsuc int64_max) || ltb_ℤ (pos int64_max) value
    then none
    else some (twos_complement value)

unfoldable pub uint64 : ℤ → Option Bytes
uint64 value =
    if ltb_ℤ value (pos 0) || ltb_ℤ (pos uint64_max) value then none else write_int 8 value

unfoldable pub uint32 : ℤ → Option Bytes
uint32 value =
    if ltb_ℤ value (pos 0) || ltb_ℤ (pos uint32_max) value then none else write_int 4 value

-- The `flatMap` over one list, with the other list's value at the same index.
unfoldable pub pairs : (ℤ → Option Bytes) → (ℤ → Option Bytes) → List ℤ → List ℤ → Option Bytes
pairs f g [] ys = some []
pairs f g (x ∷ xs) [] = none
pairs f g (x ∷ xs) (y ∷ ys) = do a ← f x; b ← g y; rest ← pairs f g xs ys; some (a ++ (b ++ rest))

unfoldable pub fields : TimingValues → Option Bytes
fields t = do
  v ← uint32 (pos (length t.video_dts))
  video ← pairs int64 int64 t.video_dts t.video_cts
  until ← uint64 t.video_end
  a ← uint32 (pos (length t.audio_dts))
  audio ← pairs int64 uint32 t.audio_dts t.audio_dur
  some (v ++ (video ++ (until ++ (a ++ audio))))

-- A record's bytes, or the error thrown: a count that does not match, or a value that does not fit.
pub data Encoded : Type 0 where
  mismatch : Encoded
  unencodable : Encoded
  encoded : Bytes → Encoded

encoded_or : Option Bytes → Encoded
encoded_or none = unencodable
encoded_or (some b) = encoded b

unfoldable pub timing_record : TimingValues → Encoded
unfolding encoded_or
timing_record t =
    if not (length t.video_dts == length t.video_cts)
    then mismatch
    else if not (length t.audio_dts == length t.audio_dur)
    then mismatch
    else encoded_or (fields t)

-- An exact multiple, of either sign.
minus : ℕ → ℤ
minus zero = pos 0
minus (suc n) = negsuc n

-- `value * to / from`, if that is an integer.
rescale : ℕ → ℕ → ℤ → Option ℤ
unfolding minus
rescale from to (pos v) = if v * to % from == 0 then some (pos (v * to / from)) else none
rescale from to (negsuc v) =
    if suc v * to % from == 0 then some (minus (suc v * to / from)) else none

-- `scale(from, to)`: an absent timescale and one that is not positive convert nothing.
unfoldable pub scale : Option ℤ → Option ℤ → ℤ → Option ℤ
unfolding rescale
scale (some (pos (suc from))) (some (pos (suc to))) value = rescale (suc from) (suc to) value
scale _ _ value = none

unfoldable pub scale_all : (ℤ → Option ℤ) → List ℤ → Option (List ℤ)
scale_all f [] = some []
scale_all f (x ∷ xs) = do y ← f x; ys ← scale_all f xs; some (y ∷ ys)

unfoldable pub convert_timing : TimingValues → Timescales → Timescales → Option TimingValues
convert_timing t received signed =
    let video = scale (some received.video) (some signed.video) in
    let audio = scale received.audio signed.audio in
    do
      video_dts ← scale_all video t.video_dts
      video_cts ← scale_all video t.video_cts
      video_end ← video t.video_end
      audio_dts ← scale_all audio t.audio_dts
      audio_dur ← scale_all audio t.audio_dur
      some (record {
        video_dts = video_dts;
        video_cts = video_cts;
        video_end = video_end;
        audio_dts = audio_dts;
        audio_dur = audio_dur;
      })

-- A received segment's hash: `null`, or the error that is no `TimingUnencodable`.
pub data ReceivedHash : Type 0 where
  differs : ReceivedHash
  thrown : ReceivedHash
  hash_is : Bytes → ReceivedHash

-- `Buffer.concat`.
unfoldable pub concat : List Bytes → Bytes
concat [] = []
concat (b ∷ bs) = b ++ concat bs

module _ (node : Node) where
  open node use {sha256}

  -- `none` is an error thrown.
  unfoldable pub timing_root : List Bytes → Option Bytes
  timing_root hashes =
      if any (λ h. not (length h == 32)) hashes then none else some (sha256 (concat hashes))

  hash_of : Encoded → ReceivedHash
  hash_of mismatch = thrown
  hash_of unencodable = differs
  hash_of (encoded b) = hash_is (sha256 b)

  hash_converted : Option TimingValues → ReceivedHash
  unfolding hash_of
  hash_converted none = differs
  hash_converted (some t) = hash_of (timing_record t)

  unfoldable pub received_timing_hash : TimingValues → Timescales → Timescales → ReceivedHash
  unfolding hash_converted
  received_timing_hash t received signed = hash_converted (convert_timing t received signed)

pub record Extent : Type 0 where
  pub start : ℤ
  pub end : ℤ

pub record MediaEdit : Type 0 where
  pub media_time : ℤ
  pub duration : ℤ
  pub movie_timescale : ℤ
  pub media_timescale : ℤ

unfoldable pub edit_trims : MediaEdit → Extent → Bool
edit_trims edit extent =
    ltb_ℤ extent.start edit.media_time
    || leb_ℤ ((edit.duration +ℤ pos 1) *ℤ edit.media_timescale)
        ((extent.end -ℤ edit.media_time) *ℤ edit.movie_timescale)

-- `start === null || shown < start`, and `end === null || until > end`.
earlier : Option ℤ → ℤ → ℤ
earlier none shown = shown
earlier (some start) shown = if ltb_ℤ shown start then shown else start

later : Option ℤ → ℤ → ℤ
later none until = until
later (some end) until = if ltb_ℤ end until then until else end

-- `t.videoDts[i + 1] ?? t.videoEnd`.
next_dts : List ℤ → ℤ → ℤ
next_dts [] video_end = video_end
next_dts (d ∷ ds) video_end = d

-- The loop. An absent composition offset would throw; the record has one for each sample.
extent_loop : List ℤ → List ℤ → ℤ → Option ℤ → Option ℤ → Option (Option ℤ × Option ℤ)
extent_loop [] cts video_end start end = some (start, end)
extent_loop (d ∷ ds) [] video_end start end = none
extent_loop (d ∷ ds) (c ∷ cts) video_end start end =
    let shown = d +ℤ c in
    let until = shown +ℤ (next_dts ds video_end -ℤ d) in
    extent_loop ds cts video_end (some (earlier start shown)) (some (later end until))

unfoldable pub video_extent : TimingValues → ℤ → Option Extent
unfolding earlier later next_dts extent_loop
video_extent t dts0 = do
  (start, end) ← extent_loop t.video_dts t.video_cts t.video_end none none
  some (record { start = dts0 +ℤ or_else start (pos 0); end = dts0 +ℤ or_else end t.video_end })

-- The last values of two lists of one length.
last_frame : List ℤ → List ℤ → Option (ℤ × ℤ)
last_frame (d ∷ []) (u ∷ us) = some (d, u)
last_frame (d ∷ e ∷ ds) (u ∷ us) = last_frame (e ∷ ds) us
last_frame _ _ = none

-- `none` is `null`.
unfoldable pub audio_extent : TimingValues → ℤ → Option Extent
unfolding last_frame
audio_extent t adts0 = do
  (d, u) ← last_frame t.audio_dts t.audio_dur
  some (record { start = adts0; end = adts0 +ℤ d +ℤ u })
