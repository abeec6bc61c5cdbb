-- ===== src/Separation.antt =====
-- The separators of the messages of tools/src/segments.ts, tools/src/registry.ts and
-- tools/src/location.ts.
mod Tests
use vcap_spec.Prelude.{
  ℕ, ◌%◌, ◌≡◌, refl, sym, ap, ◌∙◌, some, List, [], ◌∷◌, ◌++◌, drop, ◌==◌, if◌then◌else◌, ℤ, arith,
  Option-cases, inl, inr,
}
use vcap_spec.Bytes.{Bytes, write_int}
use vcap_spec.Json.{Json, Fields}
use vcap_spec.Segments.{segment_message, separator}
use vcap_spec.Segments.Message.{segment_message_inv}
use vcap_spec.Registry.Messages.{
  tree_head_message, key_status_message, attestation_status_message, integrity_message,
}
use vcap_spec.Registry.Messages.Layout.{
  tree_head_message_inv, key_status_message_inv, attestation_status_message_inv,
}
use vcap_spec.Location.{corroboration_message}

pub data Kind : Type 0 where
  segment tree_head key_status attestation_status integrity location : Kind

-- The messages of each kind, whatever their fields.
pub data Signed : Kind → Bytes → Type 0 where
  of_segment :
      (id : Bytes) (i : ℤ) (hash prev m : Bytes)
      → segment_message id i hash prev separator ≡ some m
      → Signed segment m
  of_tree_head :
      (size time : ℤ) (root m : Bytes)
      → tree_head_message size time root ≡ some m
      → Signed tree_head m
  of_key_status :
      (key : Bytes) (at size : ℤ) (status : ℕ) (m : Bytes)
      → key_status_message key at size status ≡ some m
      → Signed key_status m
  of_attestation_status :
      (hash : Bytes) (entries : Json) (at : ℤ) (m : Bytes)
      → attestation_status_message hash entries at ≡ some m
      → Signed attestation_status m
  of_integrity : (hash : Bytes) (body : Fields) → Signed integrity (integrity_message hash body)
  of_location : (hash : Bytes) (body : Fields) → Signed location (corroboration_message hash body)

-- The letters at 10 and 11 decide.
kind_from : Bytes → Kind
kind_from (a ∷ b ∷ r) =
    if a == 101
    then segment
    else if a == 110
    then integrity
    else if a == 111
    then location
    else if b == 104
    then tree_head
    else if b == 97
    then key_status
    else attestation_status
kind_from _ = segment

kind_of : Bytes → Kind
kind_of m = kind_from (drop 10 m)

Signed-kind_of : (k : Kind) (m : Bytes) → Signed k m → k ≡ kind_of m
unfolding kind_of kind_from integrity_message corroboration_message
Signed-kind_of segment m (of_segment id i hash prev m2 e) =
    let b = segment_message_inv id i hash prev separator m2 e in rw b.layout refl
Signed-kind_of tree_head m (of_tree_head size time root m2 e) =
    let (_, _, _, _, f) = tree_head_message_inv size time root m2 e in rw f refl
Signed-kind_of key_status m (of_key_status key at size status m2 e) =
    let (_, _, _, _, f) = key_status_message_inv key at size status m2 e in rw f refl
Signed-kind_of attestation_status m (of_attestation_status hash entries at m2 e) =
    let (_, _, f) = attestation_status_message_inv hash entries at m2 e in rw f refl
Signed-kind_of integrity m (of_integrity hash body) = refl
Signed-kind_of location m (of_location hash body) = refl

-- Bytes that are a message of two kinds are not there: the kinds are one.
pub Signed-unique : (k j : Kind) (m : Bytes) → Signed k m → Signed j m → k ≡ j
Signed-unique k j m s t = Signed-kind_of k m s ∙ sym (Signed-kind_of j m t)
