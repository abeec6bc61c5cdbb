-- ===== src/Timing/Tests.antt =====
-- A segment of two frames and one audio frame, received in another timescale.
use vcap_spec.Prelude.{
  ◌≡◌, ◌≢◌, ◌⊎◌, ◌*ℤ◌, refl, false, some, [], ◌∷◌, ◌++◌, replicate, arith, All, List, pos, negsuc,
  ◌+ℤ◌, ◌-ℤ◌,
}
use vcap_spec.Bytes.{Bytes, be, write_uint, write_int}
use vcap_spec.Node.Stub.{stub, cut32}
use vcap_spec.Timing.{
  TimingValues, Timescales, int64, uint64, uint32, pairs, fields, encoded, timing_record, concat,
  timing_root, hash_is, scale, scale_all, convert_timing, received_timing_hash, edit_trims,
  video_extent, audio_extent,
}
use vcap_spec.Timing.Record.{timing_record_inj, received_timing_hash_sound}
use mathlib.Core.List.{Memᴰ}
use vcap_spec.Timing.{Extent, MediaEdit}
use vcap_spec.Prelude.{ℤ}
use vcap_spec.Timing.Extents.{spans, Within, video_extent_lem}

open_all : Unit {0}
unfolding be write_uint write_int cut32 int64 uint64 uint32 pairs fields timing_record concat
    timing_root scale scale_all convert_timing received_timing_hash ◌+ℤ◌ ◌-ℤ◌ ◌*ℤ◌ edit_trims
    video_extent audio_extent
open_all = tt

abbrev signed : TimingValues
signed = record {
  video_dts = pos 0 ∷ pos 30 ∷ [];
  video_cts = pos 30 ∷ negsuc 29 ∷ [];
  video_end = pos 60;
  audio_dts = pos 0 ∷ [];
  audio_dur = pos 10 ∷ [];
}

abbrev received : TimingValues
received = record {
  video_dts = pos 0 ∷ pos 60 ∷ [];
  video_cts = pos 60 ∷ negsuc 59 ∷ [];
  video_end = pos 120;
  audio_dts = pos 0 ∷ [];
  audio_dur = pos 10 ∷ [];
}

abbrev signed_scales : Timescales
signed_scales = record { video = pos 600; audio = some (pos 48000) }

abbrev received_scales : Timescales
received_scales = record { video = pos 1200; audio = some (pos 48000) }

abbrev bytes : Bytes
unfolding open_all
bytes =
    be 4 2
    ++ (be 8 0
        ++ (be 8 30
            ++ (be 8 30
                ++ (replicate 7 255 ++ (226 ∷ (be 8 60 ++ (be 4 1 ++ (be 8 0 ++ be 4 10))))))))

bytes_are : timing_record signed ≡ encoded bytes
unfolding open_all
bytes_are = refl

converted : convert_timing received received_scales signed_scales ≡ some signed
unfolding open_all
converted = refl

hash_here : received_timing_hash stub received received_scales signed_scales ≡ hash_is (cut32 bytes)
unfolding open_all
hash_here = refl

shown : video_extent signed (pos 100) ≡ some (record { start = pos 100; end = pos 160 })
unfolding open_all
shown = refl

heard : audio_extent signed (pos 7) ≡ some (record { start = pos 7; end = pos 17 })
unfolding open_all
heard = refl

-- One movie tick of slack at the end.
not_trimmed :
    edit_trims
      (record {
        media_time = pos 0;
        duration = pos 9;
        movie_timescale = pos 1;
        media_timescale = pos 10;
      })
      (record { start = pos 0; end = pos 99 })
    ≡ false
unfolding open_all
not_trimmed = refl

timing_record_inj_example : signed ≡ signed
timing_record_inj_example = timing_record_inj signed signed bytes bytes_are bytes_are

abbrev hashes : List Bytes
hashes = replicate 32 1 ∷ replicate 32 2 ∷ []

abbrev root : Bytes
root = replicate 32 1

root_is : timing_root stub hashes ≡ some root
unfolding open_all
root_is = refl

received_timing_hash_sound_example :
    (u : TimingValues) × (convert_timing received received_scales signed_scales ≡ some u)
    × ((u ≡ signed)
        ⊎ ((c : Bytes) × (timing_record u ≡ encoded c) × (c ≢ bytes) × (cut32 c ≡ cut32 bytes)))
received_timing_hash_sound_example =
    received_timing_hash_sound stub received signed received_scales signed_scales bytes bytes_are
      hash_here

video_extent_lem_example :
    (s e : ℤ) × (video_extent signed (pos 100)
      ≡ some (record { start = pos 100 +ℤ s; end = pos 100 +ℤ e }))
    × All (Within s e) (spans signed.video_dts signed.video_cts signed.video_end)
    × ((p : ℤ × ℤ) × Memᴰ p (spans signed.video_dts signed.video_cts signed.video_end) × (s ≡ p.0))
    × ((p : ℤ × ℤ) × Memᴰ p (spans signed.video_dts signed.video_cts signed.video_end) × (e ≡ p.1))
video_extent_lem_example = video_extent_lem signed (pos 100) refl (omega arith)

abbrev edit : MediaEdit
edit = record {
  media_time = pos 0;
  duration = pos 9;
  movie_timescale = pos 1;
  media_timescale = pos 10;
}

abbrev outer : Extent
outer = record { start = pos 0; end = pos 99 }

abbrev inner : Extent
inner = record { start = pos 4; end = pos 98 }
