-- ===== src/Segments/Tests.antt =====
-- A chain of two segments, whole, cut, and broken.
use vcap_spec.Prelude.{
  ◌≡◌, ◌≢◌, ◌↔◌, refl, none, some, [], ◌∷◌, ◌++◌, pos, replicate, ◌-ℤ◌, length, sym, ap, ◌∙◌,
}
use vcap_spec.Bytes.{Bytes, eq_bytes, be, write_uint, write_int}
use vcap_spec.Text.{Text}
use vcap_spec.Node.Stub.{stub, cut32, first_is}
use vcap_spec.Core.{verify_es256}
use vcap_spec.Segments.{
  segment_message, separator, zero_link, SegmentEntry, complete, clip, tampered, chain_broken,
  map_set, map_get, insert_entry, sort_entries, by_index, sorted, every_index, is_complete, link_of,
  expected_prev, check_entry, chain_loop, verify_chain,
}
use vcap_spec.Segments.Chain.{
  Chain, keys, indices_from, verify_chain_iff, verify_chain-complete_iff,
}

open_all : Unit {0}
unfolding segment_message eq_bytes be write_uint write_int verify_es256 map_set map_get insert_entry
    sort_entries by_index sorted every_index is_complete link_of expected_prev check_entry
    chain_loop verify_chain cut32 first_is ◌-ℤ◌
open_all = tt

abbrev id : Bytes
id = replicate 16 5

abbrev sig : Text
sig = 118 ∷ replicate 63 0

abbrev first : SegmentEntry
first = record {
  gop = pos 0;
  hash = replicate 32 1;
  prev = replicate 32 0;
  sig = sig;
  timing = none;
}

abbrev message_0 : Bytes
message_0 = separator ++ (id ++ (replicate 4 0 ++ (replicate 32 1 ++ replicate 32 0)))

abbrev second : SegmentEntry
unfolding cut32
second = record {
  gop = pos 1;
  hash = replicate 32 2;
  prev = cut32 message_0;
  sig = sig;
  timing = none;
}

abbrev moved : SegmentEntry
moved = record second { prev = replicate 32 9 }

whole :
    verify_chain stub id (pos 2) (second ∷ first ∷ []) 1
    ≡ record { status = complete; verified = pos 0 ∷ pos 1 ∷ []; reason = none }
unfolding open_all
whole = refl

cut_short :
    verify_chain stub id (pos 2) (second ∷ []) 1
    ≡ record { status = clip; verified = pos 1 ∷ []; reason = none }
unfolding open_all
cut_short = refl

broken :
    verify_chain stub id (pos 2) (moved ∷ first ∷ []) 1
    ≡ record { status = tampered; verified = pos 0 ∷ []; reason = some (chain_broken (pos 1)) }
unfolding open_all
broken = refl

complete-ne-tampered : complete ≢ tampered
complete-ne-tampered h = cc

not_tampered : (verify_chain stub id (pos 2) (second ∷ first ∷ []) 1).status ≢ tampered
not_tampered h = complete-ne-tampered (sym (ap (λ r. r.status) whole) ∙ h)

well_linked : Chain stub id 1 none (sorted (second ∷ first ∷ []))
well_linked = (verify_chain_iff stub id 1 (second ∷ first ∷ []) (pos 2)).0 not_tampered

verify_chain-complete_iff_example :
    ((verify_chain stub id (pos 2) (second ∷ first ∷ []) 1).status ≡ complete) ↔ (
      Chain stub id 1 none (sorted (second ∷ first ∷ []))
      × (pos 2 ≡ pos (length (keys stub id 1 (sorted (second ∷ first ∷ [])))))
      × (keys stub id 1 (sorted (second ∷ first ∷ []))
          ≡ indices_from 0 (length (keys stub id 1 (sorted (second ∷ first ∷ []))))))
verify_chain-complete_iff_example =
    verify_chain-complete_iff stub id 1 (second ∷ first ∷ []) (pos 2)

abbrev sent : Bytes
sent = separator ++ (id ++ (replicate 4 0 ++ (replicate 32 1 ++ replicate 32 0)))

built : segment_message id (pos 0) (replicate 32 1) zero_link separator ≡ some sent
unfolding open_all
built = refl
