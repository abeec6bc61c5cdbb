-- ===== src/Anchor/Tests.antt =====
-- An anchored batch of two core hashes, with the stand-in for Node.
use vcap_spec.Prelude.{◌≡◌, refl, true, none, some, [], ◌∷◌, List, replicate, pos, Option, ℤ}
use vcap_spec.Bytes.{Bytes, eq_bytes}
use vcap_spec.Node.Stub.{stub, cut32}
use vcap_spec.Registry.Merkle.{leaf_hash, node_hash, walk, ends_at, verify_inclusion}
use vcap_spec.Registry.Merkle.Tree.{tree_root, root_from, next_level}
use vcap_spec.Registry.Merkle.Entries.{Entry}
use vcap_spec.Registry.Leaf.{has_32}
use vcap_spec.Anchor.{AnchorAttachment, ChainRead, anchored, verify_anchor, verify_anchor_sound}

open_all : Unit {0}
unfolding eq_bytes cut32 leaf_hash node_hash walk ends_at verify_inclusion tree_root root_from
    next_level has_32 verify_anchor
open_all = tt

abbrev batch : List Bytes
batch = replicate 32 5 ∷ replicate 32 6 ∷ []

abbrev first_hash : Bytes
unfolding open_all
first_hash = leaf_hash cut32 (replicate 32 5)

abbrev root : Bytes
unfolding open_all
root = node_hash cut32 first_hash (leaf_hash cut32 (replicate 32 6))

abbrev attachment : AnchorAttachment
attachment = record {
  chain = [];
  tx = [];
  block = pos 4;
  anchor_id = pos 1;
  index = pos 1;
  tree_size = pos 2;
  root = root;
  merkle_path = first_hash ∷ [];
}

abbrev recorded : ChainRead
recorded = record { root = root; tree_size = pos 2; block_time = some (pos 70) }

on_chain :
    verify_anchor stub attachment (replicate 32 6) (some recorded) ≡ anchored true (some (pos 70))
unfolding open_all
on_chain = refl

abbrev nothing : Option ℤ
nothing = none

verify_anchor_sound_example : Entry cut32 (replicate 32 6) (pos 1) (first_hash ∷ []) batch
unfolding open_all
verify_anchor_sound_example =
    verify_anchor_sound stub attachment (replicate 32 6) recorded (some (pos 70)) batch on_chain
      refl refl
