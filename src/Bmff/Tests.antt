-- ===== src/Bmff/Tests.antt =====
-- A file of one video sample: a vcap SEI and an IDR.
use vcap_spec.Prelude.{
  ℕ, ◌+◌, ◌≤◌, ◌≡◌, ◌⊎◌, ◌↔◌, refl, true, false, some, none, List, [], ◌∷◌, ◌++◌, length, drop,
  replicate, pos, ◌+ℤ◌, ◌-ℤ◌, ◌*ℤ◌, arith,
}
use vcap_spec.Bytes.{Bytes, be, of_be, eq_bytes, subarray, read_uint, write_uint}
use vcap_spec.Text.{Text, text}
use vcap_spec.Node.Stub.{stub, cut32}
use vcap_spec.Verify.Container.{Segment, GopsReading, gops_read, answered, failed}
use vcap_spec.Timing.{video_extent}
use vcap_spec.Json.{stringify_int}
use vcap_spec.Bmff.{Box, boxes, find, children, child, of_kind, is_one, signed, read_signed}
use vcap_spec.Bmff.Walk.{Follow, IsCutAt, boxes_total}
use vcap_spec.Bmff.Samples.{
  Sample, Tables, table, spread, sizes_of, offsets_of, chunk_offsets, runs_of, deltas_of,
  compositions_of, run_for, sample_at, place_chunk, place_chunks, placed, tables_of, samples_of,
}
use vcap_spec.Bmff.Samples.Placed.{Timed, samples_of_lem}
use vcap_spec.Bmff.Tracks.{
  video, Track, unsupported_edit, edit_loop, edits_of, is_avc, is_hevc, codec_of, or_skip,
  timescale_of, track_of, tracks_in, tracks_of,
}
use vcap_spec.Bmff.Presented.{esds_of, layout_of, presentation_of}
use vcap_spec.Bmff.Parameters.{parameter_sets, sort_units, presentation_message}
use vcap_spec.Bmff.Nals.{next_nal, nals_from, nals_of, first_byte, nal_type, is_idr}
use vcap_spec.Bmff.Nals.Tiled.{AreUnits, framed, nals_of_iff}
use vcap_spec.Bmff.Sei.{
  sei_uuid, vcap_sei, unescaped, rbsp, is_trailing, long_number, next_message, weighed, messages_of,
  concluded, is_sei, sei_of,
}
use vcap_spec.Bmff.Sei.Messages.{IsCut}
use vcap_spec.Bmff.Sei.Sound.{sei_of_sound}
use vcap_spec.Bmff.Gops.{
  starts_from, timing_values, last_of, named, index_of, capture_of, members, next_start,
  segment_from, segment_of, segment_in, segment_at, segments_of,
}
use vcap_spec.Bmff.Units.{
  AccessUnit, before, instant_of, sample_bytes, unit_of, units_of, first_problem, gather_sei,
  gather_nals, gather_sample, gather_units, in_interval, hear, hear_all, instant_at, heard_in,
}
use vcap_spec.Bmff.Gops.Parts.{IsSplit, segments_of_lem}
use vcap_spec.Bmff.Gops.Content.{audio_content, segment_of_lem}
use vcap_spec.Bmff.Gops.Gathering.{video_content, video_names, decode_times, composition_offsets}
use vcap_spec.Bmff.Reader.{is_bmff, track_for, refused_edit, gops_of, read_container}

unfoldable pub open_all : Unit {0}
unfolding ◌+ℤ◌ ◌-ℤ◌ ◌*ℤ◌ boxes find children child of_kind is_one signed read_signed table spread
    sizes_of offsets_of chunk_offsets runs_of deltas_of compositions_of run_for sample_at
    place_chunk place_chunks placed tables_of samples_of unsupported_edit edit_loop edits_of is_avc
    is_hevc codec_of or_skip timescale_of track_of tracks_in tracks_of parameter_sets sort_units
    presentation_message esds_of layout_of presentation_of nals_of first_byte nal_type is_idr
    unescaped rbsp is_trailing long_number next_message weighed messages_of concluded is_sei sei_of
    before instant_of sample_bytes starts_from first_problem gather_sei gather_nals gather_sample
    gather_units in_interval hear hear_all instant_at heard_in timing_values last_of named index_of
    capture_of members next_start segment_from segment_of segment_in segment_at segments_of is_bmff
    track_for refused_edit gops_of read_container unit_of units_of next_nal nals_from video_extent
    be of_be eq_bytes subarray read_uint write_uint cut32 stringify_int
open_all = tt

be_box : Text → Bytes → Bytes
be_box kind payload = be 4 (8 + length payload) ++ (kind ++ payload)

abbrev pub capture : Bytes
capture = replicate 16 5

abbrev sei_nal : Bytes
sei_nal =
    6
      ∷ 5
      ∷ 36
      ∷ (0xCA ∷ 0xA6 ∷ 0x53 ∷ 0xD1 ∷ 0xED ∷ 0x17 ∷ 0x63 ∷ 0xC7 ∷ 0xAF ∷ 0x38 ∷ 0x8A ∷ 0xEA ∷ 0x76
          ∷ 0x52 ∷ 0x73 ∷ 0x36 ∷ [])
    ++ (capture ++ (replicate 4 0 ++ 0x80 ∷ []))

sample : Bytes
unfolding be
sample = be 4 40 ++ (sei_nal ++ (be 4 3 ++ 0x65 ∷ 1 ∷ 2 ∷ []))

stbl_box : Bytes
unfolding be be_box
stbl_box = be_box (text "stbl") (
    be_box (text "stsd") (
      be 4 0
      ++ (be 4 1
          ++ be_box (text "avc1") (
              replicate 78 0
              ++ be_box (text "avcC")
                  (1 ∷ 66 ∷ 0 ∷ 30 ∷ 0xFF ∷ 0xE1 ∷ 0 ∷ 1 ∷ 0x67 ∷ 1 ∷ 0 ∷ 1 ∷ 0x68 ∷ []))))
    ++ (be_box (text "stsz") (be 4 0 ++ (be 4 0x33 ++ be 4 1))
        ++ (be_box (text "stsc") (be 4 0 ++ (be 4 1 ++ (be 4 1 ++ (be 4 1 ++ be 4 1))))
            ++ (be_box (text "stco") (be 4 0 ++ (be 4 1 ++ be 4 16))
                ++ be_box (text "stts") (be 4 0 ++ (be 4 1 ++ (be 4 1 ++ be 4 1)))))))

unfoldable pub file : Bytes
unfolding be be_box sample stbl_box
file =
    be_box (text "ftyp") []
    ++ (be_box (text "mdat") sample
        ++ be_box (text "moov") (
            be_box (text "mvhd") (replicate 12 0 ++ be 4 1)
            ++ be_box (text "trak") (
                be_box (text "tkhd") (0 ∷ 0 ∷ 0 ∷ 1 ∷ replicate 80 0)
                ++ be_box (text "mdia") (
                    be_box (text "mdhd") (replicate 12 0 ++ be 4 1)
                    ++ (be_box (text "hdlr") (replicate 8 0 ++ text "vide")
                        ++ be_box (text "minf") stbl_box)))))

-- The size of 64 bits of the last box is cut by the end of the file: an error that is no `ContainerMalformed`.
abbrev cut_file : Bytes
cut_file = 0 ∷ 0 ∷ 0 ∷ 8 ∷ text "ftyp" ++ (0 ∷ 0 ∷ 0 ∷ 1 ∷ text "free")

fails : read_container stub cut_file ≡ failed
unfolding open_all
fails = refl

boxes_total_example :
    ((boxes cut_file 0 16 ≡ none) × ((k : ℕ) × (0 ≤ k) × (k + 8 ≤ 16) × IsCutAt cut_file k))
    ⊎ ((bs : List Box) × (boxes cut_file 0 16 ≡ some bs) × Follow 0 16 bs)
boxes_total_example = boxes_total cut_file 0 16 (omega arith)

abbrev idr_nal : Bytes
idr_nal = 0x65 ∷ 1 ∷ 2 ∷ []

abbrev two_units : Bytes
two_units = 0 ∷ 2 ∷ 9 ∷ 8 ∷ 0 ∷ 1 ∷ 7 ∷ []

nals_of_iff_example : (nals_of two_units 2 ≡ some ((9 ∷ 8 ∷ []) ∷ (7 ∷ []) ∷ [])) ↔ (
    AreUnits 2 ((9 ∷ 8 ∷ []) ∷ (7 ∷ []) ∷ [])
    × (two_units ≡ framed 2 ((9 ∷ 8 ∷ []) ∷ (7 ∷ []) ∷ [])))
nals_of_iff_example = nals_of_iff two_units 2 ((9 ∷ 8 ∷ []) ∷ (7 ∷ []) ∷ []) (omega arith)

-- A unit with the bytes 1 and 200 after its one message, as the header of a message that is cut.
abbrev hiding_nal : Bytes
hiding_nal = 6 ∷ 5 ∷ 36 ∷ sei_uuid ++ (capture ++ (0 ∷ 0 ∷ 1 ∷ 7 ∷ 1 ∷ 200 ∷ 0x80 ∷ []))

hides : sei_of hiding_nal false ≡ some (vcap_sei (capture) 263)
unfolding open_all
hides = refl

sei_of_sound_example :
    (is_sei false hiding_nal ≡ true)
    × ((x : Bytes) × (junk : Bytes) × (tail : Bytes) × (rbsp (drop 1 hiding_nal)
          ≡ 5 ∷ 36 ∷ (sei_uuid ++ (capture ++ (x ++ (junk ++ tail)))))
        × (length (capture) ≡ 16)
        × (length x ≡ 4)
        × (of_be x ≡ 263)
        × (is_trailing tail ≡ true)
        × ((junk ≡ []) ⊎ IsCut junk tail))
sei_of_sound_example = sei_of_sound hiding_nal false (capture) 263 hides

abbrev a_sample : Sample
a_sample = record { offset = 16; size = 51; dts = 0; duration = 1; cts = pos 0 }

abbrev whole_stbl : Box
whole_stbl = record { kind = text "stbl"; start = 0; end = length stbl_box; payload = 8 }

is_sampled : samples_of stbl_box whole_stbl ≡ some (a_sample ∷ [])
unfolding open_all stbl_box be_box
is_sampled = refl

samples_of_lem_example :
    (t : Tables) × (tables_of stbl_box whole_stbl ≡ some t)
    × (1 ≡ length t.sizes)
    × Timed t 0 0 (a_sample ∷ [])
samples_of_lem_example = samples_of_lem stbl_box whole_stbl (a_sample ∷ []) is_sampled

abbrev a_unit : AccessUnit
a_unit = record { sample = a_sample; nals = sei_nal ∷ idr_nal ∷ []; idr = true }

abbrev a_track : Track
a_track = record {
  codec = record { kind = video; length_size = 4; hevc = false };
  timescale = pos 1;
  movie_timescale = pos 1;
  edits = record {
    delay_num = pos 0;
    delay_den = pos 1;
    media_start = pos 0;
    media_edit = none;
    unsupported = none;
  };
  samples = a_sample ∷ [];
}

abbrev pub a_segment : Segment
a_segment = record {
  index = some (pos 0);
  capture_id = some (capture);
  sei_count = 1;
  opens_with_idr = true;
  problem = none;
  content_hash = idr_nal ++ replicate 29 0;
  range_start = 16;
  range_end = 67;
  located = true;
  video_bytes = 3;
  audio_bytes = 0;
  audio_frames = 0;
  timing = record {
    video_dts = pos 0 ∷ [];
    video_cts = pos 0 ∷ [];
    video_end = pos 1;
    audio_dts = [];
    audio_dur = [];
  };
  video_extent = record { start = pos 0; end = pos 1 };
  audio_extent = none;
}

is_segment : segment_of stub [] a_track none a_unit [] none ≡ some a_segment
unfolding open_all
is_segment = refl

segment_of_lem_example :
    (a_segment.content_hash
      ≡ stub.sha256
          (video_content false (a_unit ∷ []) ++ audio_content [] a_track none a_unit none))
    × (1 ≡ length (video_names false (a_unit ∷ [])))
    × (some (pos 0) ≡ index_of (named (video_names false (a_unit ∷ []))))
    × (some (capture) ≡ capture_of (named (video_names false (a_unit ∷ []))))
    × (a_segment.timing.video_dts ≡ decode_times 0 (a_unit ∷ []))
    × (a_segment.timing.video_cts ≡ composition_offsets (a_unit ∷ []))
segment_of_lem_example = segment_of_lem stub [] a_track none a_unit [] none a_segment is_segment

are_segments :
    segments_of stub [] a_track none (a_unit ∷ []) (starts_from 0 (a_unit ∷ []))
    ≡ some (a_segment ∷ [])
unfolding open_all
are_segments = refl

segments_of_lem_example : IsSplit stub [] a_track none (a_unit ∷ []) (a_segment ∷ [])
segments_of_lem_example =
    segments_of_lem stub [] a_track none (a_unit ∷ []) (a_segment ∷ []) are_segments

abbrev pub a_reading : GopsReading
a_reading = record {
  gops = a_segment ∷ [];
  presentation = some (record {
    config = 0 ∷ 0 ∷ 0 ∷ 2 ∷ 0 ∷ 0 ∷ 0 ∷ 1 ∷ 0x67 ∷ 0 ∷ 0 ∷ 0 ∷ 1 ∷ 0x68 ∷ replicate 18 0;
    matrix = replicate 9 (pos 0);
    display = pos 0 ∷ pos 0 ∷ [];
  });
  layout = none;
  timescales = record { video = pos 1; audio = none };
  video_edit = none;
  audio_edit = none;
}

pub is_read : read_container stub file ≡ answered (gops_read a_reading)
unfolding open_all file stbl_box sample be_box
is_read = refl
