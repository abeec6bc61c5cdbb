-- ===== src/Segments.antt =====
-- tools/src/segments.ts: the message a segment's signature covers, and the verifier's side of the
-- chain. The strings of an entry are its base64url fields.
pub mod Message
pub mod Sorting
pub mod Chain
mod Tests
use vcap_spec.Prelude.{
  ℕ, zero, suc, ◌+◌, Bool, true, false, not, ◌&&◌, Option, none, some, List, [], ◌∷◌, ◌++◌, length,
  replicate, ◌==◌, ◌>>=◌, if◌then◌else◌, ℤ, pos, negsuc, ltb_ℤ, eqb_ℤ, ◌-ℤ◌, map,
}
use vcap_spec.Bytes.{Bytes, eq_bytes, write_int}
use vcap_spec.Text.{Text, text}
use vcap_spec.Node.{Node}
use vcap_spec.Core.{verify_es256}

abbrev pub separator : Bytes
separator = text "vcap/1.0/seg"

abbrev pub zero_link : Bytes
zero_link = replicate 32 0

-- `none` is an error thrown: a field of a bad length, or an index that is no uint32.
unfoldable pub segment_message : Bytes → ℤ → Bytes → Bytes → Bytes → Option Bytes
segment_message capture_id index content_hash prev_link sep =
    if not (length capture_id == 16 && (length content_hash == 32 && length prev_link == 32))
    then none
    else do
      n ← write_int 4 index
      let message = sep ++ (capture_id ++ (n ++ (content_hash ++ prev_link)))
      if length message == 96 then some message else none

pub record SegmentEntry : Type 0 where
  pub gop : ℤ
  pub hash : Text
  pub prev : Text
  pub sig : Text
  pub timing : Option Text

pub data ChainStatus : Type 0 where
  complete clip tampered : ChainStatus

pub data Reason : Type 0 where
  chain_broken malformed signature_invalid : ℤ → Reason

pub record ChainResult : Type 0 where
  pub status : ChainStatus
  pub verified : List ℤ
  pub reason : Option Reason

-- A `Map` with integer keys, in insertion order.
module _ {ℓ} {V : Type ℓ} where
  unfoldable pub map_set : ℤ → V → List (ℤ × V) → List (ℤ × V)
  map_set k v [] = (k, v) ∷ []
  map_set k v ((j, w) ∷ r) = if eqb_ℤ j k then (k, v) ∷ r else (j, w) ∷ map_set k v r

  unfoldable pub map_get : ℤ → List (ℤ × V) → Option V
  map_get k [] = none
  map_get k ((j, w) ∷ r) = if eqb_ℤ j k then some w else map_get k r

  -- The entries of a map in the order of `sort((a, b) => a - b)` of its keys.
  unfoldable pub insert_entry : ℤ → V → List (ℤ × V) → List (ℤ × V)
  insert_entry k v [] = (k, v) ∷ []
  insert_entry k v ((j, w) ∷ r) =
      if ltb_ℤ j k then (j, w) ∷ insert_entry k v r else (k, v) ∷ (j, w) ∷ r

  unfoldable pub sort_entries : List (ℤ × V) → List (ℤ × V)
  sort_entries [] = []
  sort_entries ((k, v) ∷ r) = insert_entry k v (sort_entries r)

-- `new Map(segments.map((s) => [s.gop, s]))`, filled from the front.
unfoldable pub by_index : List SegmentEntry → List (ℤ × SegmentEntry) → List (ℤ × SegmentEntry)
by_index [] m = m
by_index (s ∷ ss) m = by_index ss (map_set s.gop s m)

unfoldable pub sorted : List SegmentEntry → List (ℤ × SegmentEntry)
unfolding by_index
sorted segments = sort_entries (by_index segments [])

-- `verified.every((v, i) => v === i)`.
every_index : ℕ → List ℤ → Bool
every_index i [] = true
every_index i (v ∷ vs) = eqb_ℤ v (pos i) && every_index (i + 1) vs

unfoldable pub is_complete : ℤ → List ℤ → Bool
unfolding every_index
is_complete count verified = eqb_ℤ (pos (length verified)) count && every_index 0 verified

pub data Checked : Type 0 where
  refused : Reason → Checked
  message_of : Bytes → Checked

module _ (node : Node) where
  open node use {Key, sha256, from_base64url}

  pub link_of : Bytes → Bytes
  link_of previous_message = sha256 previous_message

  -- What the stored link must be.
  unfoldable pub expected_prev : ℤ → Option Bytes → Bytes → Bytes
  unfolding link_of
  expected_prev (pos zero) previous stored = zero_link
  expected_prev index none stored = stored
  expected_prev index (some previous) stored = link_of previous

  -- The body of the loop, up to the two writes.
  unfoldable pub check_entry : Bytes → Key → ℤ → SegmentEntry → Option Bytes → Checked
  check_entry capture_id key index entry previous =
      let stored = from_base64url entry.prev in
      if not (eq_bytes stored (expected_prev index previous stored))
      then refused (chain_broken index)
      else elim (segment_message capture_id index (from_base64url entry.hash) stored separator) [
        | none ↦ refused (malformed index)
        | some message ↦
            if not (verify_es256 node message (from_base64url entry.sig) key)
            then refused (signature_invalid index)
            else message_of message
      ]

  -- The loop, with the messages so far, and the indices verified.
  unfoldable pub chain_loop :
      Bytes → Key → ℤ → List (ℤ × SegmentEntry) → List (ℤ × Bytes) → List ℤ → ChainResult
  chain_loop capture_id key count [] messages verified = record {
    status = if is_complete count verified then complete else clip;
    verified = verified;
    reason = none;
  }
  chain_loop capture_id key count ((index, entry) ∷ rest) messages verified =
      elim (check_entry capture_id key index entry (map_get (index -ℤ pos 1) messages)) [
        | refused why ↦ record { status = tampered; verified = verified; reason = some why }
        | message_of message ↦
            chain_loop capture_id key count rest (map_set index message messages)
              (verified ++ index ∷ [])
      ]

  unfoldable pub verify_chain : Bytes → ℤ → List SegmentEntry → Key → ChainResult
  verify_chain capture_id segment_count segments key =
      chain_loop capture_id key segment_count (sorted segments) [] []
