-- ===== src/Json/Order.antt =====
-- The order of the members of an object under `jcs` of tools/src/jcs.ts.
use vcap_spec.Prelude.{Bool, ℤ, ◌≡◌, ◌≢◌, inl, inr, refl, sym, ◌∙◌, true, List, [], ◌∷◌, arith}
use vcap_spec.Text.{Text, text_ltb, text_ltb_asymm, text_ltb_trans, text_ltb_total}
use vcap_spec.Json.{
  Json, null, bool, num, str, arr, obj, Items, nil, cons, Fields, end, field, insert_member,
  sort_members, serialize, serialize_items, serialize_fields, jcs,
}

insert_swap :
    (k v j w : Text) (r : List (Text × Text))
    → text_ltb k j ≡ true
    → insert_member (k, v) (insert_member (j, w) r) ≡ insert_member (j, w) (insert_member (k, v) r)
unfolding insert_member
insert_swap k v j w [] h = ground (arith, text_ltb_asymm k j)
insert_swap k v j w ((i, x) ∷ r) h = ground (
  arith,
  text_ltb_asymm k j,
  text_ltb_asymm i k,
  text_ltb_asymm i j,
  text_ltb_trans i k j,
  text_ltb_trans k j i,
  insert_swap k v j w r h,
)

-- Members with different names may be put in either order.
pub insert_member_comm :
    (k v j w : Text) (r : List (Text × Text))
    → k ≢ j
    → insert_member (k, v) (insert_member (j, w) r) ≡ insert_member (j, w) (insert_member (k, v) r)
insert_member_comm k v j w r differ = elim (text_ltb_total k j) [
  | inl before ↦ insert_swap k v j w r before
  | inr rest ↦ elim rest [
    | inl after ↦ sym (insert_swap j w k v r after)
    | inr same ↦ absurd (differ same)
  ]
]

-- The same value but for the order of members, at any depth.
mutual
  pub data Same : Json → Json → Type 0 where
    same_null : Same null null
    same_bool : (b : Bool) → Same (bool b) (bool b)
    same_num : (n : ℤ) → Same (num n) (num n)
    same_str : (t : Text) → Same (str t) (str t)
    same_arr : {xs ys : Items} → SameItems xs ys → Same (arr xs) (arr ys)
    same_obj : {fs gs : Fields} → SameFields fs gs → Same (obj fs) (obj gs)

  pub data SameItems : Items → Items → Type 0 where
    same_nil : SameItems nil nil
    same_cons :
        {x y : Json} {xs ys : Items}
        → Same x y
        → SameItems xs ys
        → SameItems (cons x xs) (cons y ys)

  pub data SameFields : Fields → Fields → Type 0 where
    same_end : SameFields end end
    same_field :
        {k : Text} {v w : Json} {fs gs : Fields}
        → Same v w
        → SameFields fs gs
        → SameFields (field k v fs) (field k w gs)
    swapped :
        {k j : Text} {v w : Json} {fs : Fields}
        → k ≢ j
        → SameFields (field k v (field j w fs)) (field j w (field k v fs))
    then_same : {fs gs hs : Fields} → SameFields fs gs → SameFields gs hs → SameFields fs hs

mutual
  unfolding serialize serialize_items serialize_fields sort_members

  serialize-Same : {v w : Json} → Same v w → serialize v ≡ serialize w
  serialize-Same same_null = refl
  serialize-Same (same_bool b) = refl
  serialize-Same (same_num n) = refl
  serialize-Same (same_str t) = refl
  serialize-Same (same_arr s) = rw (serialize_items_same s)
  serialize-Same (same_obj s) = rw (sort_members_same s)

  serialize_items_same : {xs ys : Items} → SameItems xs ys → serialize_items xs ≡ serialize_items ys
  serialize_items_same same_nil = refl
  serialize_items_same (same_cons s t) = rw (serialize-Same s, serialize_items_same t)

  sort_members_same :
      {fs gs : Fields}
      → SameFields fs gs
      → sort_members (serialize_fields fs) ≡ sort_members (serialize_fields gs)
  sort_members_same same_end = refl
  sort_members_same (same_field s t) = rw (serialize-Same s, sort_members_same t)
  sort_members_same (swapped differ) = insert_member_comm _ _ _ _ _ differ
  sort_members_same (then_same s t) = sort_members_same s ∙ sort_members_same t

-- Two values that differ only in the order in which members were written, at any depth, have the
-- same canonical bytes.
pub jcs-Same : {v w : Json} → Same v w → jcs v ≡ jcs w
unfolding jcs
jcs-Same s = rw (serialize-Same s)
