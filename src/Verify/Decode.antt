-- ===== src/Verify/Decode.antt =====
-- The members of a proof, as tools/src/verify.ts reads them, and the attachments it casts to their
-- interfaces without a check. `none` of a cast is a value outside the interface, which the JSON schema
-- of the format refuses, and is no error thrown: what the source does with such a registry attachment
-- is in Uncast, such an anchor is refused, and segments with such an entry, on which the source
-- goes on and in most cases finds the chain tampered, are outside the model.
use vcap_spec.Prelude.{
  ℕ, suc, Bool, true, false, Option, none, some, List, [], ◌∷◌, ◌==◌, or_else, ◌>>=◌, ℤ, pos,
  if◌then◌else◌,
}
use vcap_spec.Text.{Text, text}
use vcap_spec.Json.{Json, num, str, arr, obj, Items, nil, cons, Fields, end, field, member}
use vcap_spec.Registry.Leaf.{RegistryLeaf, RegistryAttachment}
use vcap_spec.Anchor.{AnchorAttachment}
use vcap_spec.Segments.{SegmentEntry}

unfoldable pub str_of : Option Json → Option Text
str_of (some (str t)) = some t
str_of _ = none

unfoldable pub int_of : Option Json → Option ℤ
int_of (some (num n)) = some n
int_of _ = none

-- `isObject(value)`, with the members.
unfoldable pub obj_of : Option Json → Option Fields
obj_of (some (obj fs)) = some fs
obj_of _ = none

-- `Array.isArray(value)`, with the items.
unfoldable pub items_of : Option Json → Option Items
items_of (some (arr xs)) = some xs
items_of _ = none

unfoldable pub has_key : Text → Fields → Bool
has_key k fs = elim (member k fs) [ none ↦ false | some v ↦ true ]

unfoldable pub texts : Items → Option (List Text)
texts nil = some []
texts (cons (str t) r) = do ts ← texts r; some (t ∷ ts)
texts (cons _ r) = none

count : Fields → ℕ
count end = 0
count (field k v fs) = suc (count fs)

-- A leaf of exactly the six members of its interface, as the source hashes the leaf whole.
registry_leaf : Fields → Option RegistryLeaf
registry_leaf fs = do
  kind ← str_of (member (text "type") fs)
  key_id ← str_of (member (text "key_id") fs)
  public_key ← str_of (member (text "public_key") fs)
  secure_hw ← str_of (member (text "secure_hw") fs)
  digest ← str_of (member (text "attestation_digest") fs)
  registered ← int_of (member (text "registered_at") fs)
  if count fs == 6
      then some (record {
        kind = kind;
        key_id = key_id;
        public_key = public_key;
        secure_hw = secure_hw;
        attestation_digest = digest;
        registered_at = registered;
      })
      else none

-- `proof.registry as unknown as RegistryAttachment`, for a value of that interface.
unfoldable pub registry_attachment : Fields → Option RegistryAttachment
unfolding registry_leaf count
registry_attachment fs = do
  log_id ← str_of (member (text "log_id") fs)
  index ← int_of (member (text "leaf_index") fs)
  leaf_fields ← obj_of (member (text "leaf") fs)
  leaf ← registry_leaf leaf_fields
  path_items ← items_of (member (text "inclusion_path") fs)
  path ← texts path_items
  head ← obj_of (member (text "tree_head") fs)
  size ← int_of (member (text "tree_size") head)
  time ← int_of (member (text "timestamp") head)
  root ← str_of (member (text "root_hash") head)
  signature ← str_of (member (text "signature") head)
  some (record {
    log_id = log_id;
    leaf_index = index;
    leaf = leaf;
    inclusion_path = path;
    tree_head = record {
      tree_size = size;
      timestamp = time;
      root_hash = root;
      signature = signature;
    };
  })

-- `proof.anchor as unknown as AnchorAttachment`, for a value of that interface: the four members that are read, and the others.
pub anchor_attachment : Fields → Option AnchorAttachment
anchor_attachment fs = do
  index ← int_of (member (text "index") fs)
  size ← int_of (member (text "tree_size") fs)
  root ← str_of (member (text "root") fs)
  path_items ← items_of (member (text "merkle_path") fs)
  path ← texts path_items
  some (record {
    chain = or_else (str_of (member (text "chain") fs)) [];
    tx = or_else (str_of (member (text "tx") fs)) [];
    block = or_else (int_of (member (text "block") fs)) (pos 0);
    anchor_id = or_else (int_of (member (text "anchor_id") fs)) (pos 0);
    index = index;
    tree_size = size;
    root = root;
    merkle_path = path;
  })

segment_entry : Fields → Option SegmentEntry
segment_entry fs = do
  gop ← int_of (member (text "gop") fs)
  hash ← str_of (member (text "hash") fs)
  prev ← str_of (member (text "prev") fs)
  sig ← str_of (member (text "sig") fs)
  timing ← str_of (member (text "timing") fs)
  some (record { gop = gop; hash = hash; prev = prev; sig = sig; timing = some timing })

-- `proof.segments as unknown as SegmentEntry[]`, for entries of that interface.
unfoldable pub segment_entries : Items → Option (List SegmentEntry)
unfolding segment_entry
segment_entries nil = some []
segment_entries (cons v r) = do
  fs ← obj_of (some v)
  entry ← segment_entry fs
  rest ← segment_entries r
  some (entry ∷ rest)
