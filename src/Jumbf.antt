-- ===== src/Jumbf.antt =====
-- tools/src/jumbf.ts: the boxes of a buffer and the JUMBF superboxes they make up. A `JumbfError` is
-- `box_error` for a list of boxes and `none` for a superbox; the fuel bounds the boxes of a list.
pub mod Tiles
mod Tests
use vcap_spec.Prelude.{
  ℕ, zero, suc, ◌+◌, ◌-◌, ◌/◌, ◌%◌, Bool, not, ◌||◌, Option, none, some, List, [], ◌∷◌, length,
  take, drop, ltb, ◌==◌, ◌>>=◌, if◌then◌else◌,
}
use vcap_spec.Bytes.{Bytes, eq_bytes, subarray, read_uint}
use vcap_spec.Text.{Text, text}

-- An entry of `boxList`; the type, read as Latin-1, is the text of its four bytes.
pub record Box : Type 0 where
  pub kind : Text
  pub start : ℕ
  pub payload : ℕ
  pub end : ℕ

pub data Listed : Type 0 where
  box_error out_of_fuel : Listed
  listed : List Box → Listed

-- The size and the payload's start of a box with an XLBox.
pub extended : Bytes → (at end : ℕ) → Option (ℕ × ℕ)
extended buf at end = if ltb (end - at) 16 then none else do
  large ← read_uint 8 buf (at + 8)
  if ltb (end - at) large then none else some (large, at + 16)

-- Those of a box whose LBox is read.
pub sized : Bytes → (at end size : ℕ) → Option (ℕ × ℕ)
unfolding extended
sized buf at end size =
    if size == 1 then extended buf at end else some (if size == 0 then end - at else size, at + 8)

pub framed : Bytes → (at end : ℕ) → ℕ × ℕ → Option Box
framed buf at end (size, payload) =
    if ltb size (payload - at) || ltb (end - at) size
    then none
    else some (record {
      kind = subarray buf (at + 4) (at + 8);
      start = at;
      payload = payload;
      end = at + size;
    })

-- A round of the loop.
pub read_box : Bytes → (at end : ℕ) → Option Box
unfolding sized framed
read_box buf at end =
    if ltb (end - at) 8
    then none
    else do size ← read_uint 4 buf at; header ← sized buf at end size; framed buf at end header

pub push : Box → Listed → Listed
push b (listed bs) = listed (b ∷ bs)
push b other = other

pub next_box : Option Box → (ℕ → Listed) → Listed
unfolding push
next_box none rest = box_error
next_box (some b) rest = push b (rest b.end)

pub box_loop : ℕ → Bytes → (at end : ℕ) → Listed
unfolding read_box next_box
box_loop zero buf at end = out_of_fuel
box_loop (suc fuel) buf at end =
    let next = next_box (read_box buf at end) (λ k. box_loop fuel buf k end) in
    if not (ltb at end) then listed [] else next

-- The boxes of `buf[start, end)`.
unfoldable pub box_list : Bytes → (start end : ℕ) → Listed
unfolding box_loop
box_list buf start end = box_loop (end - start + 1) buf start end

mutual
  -- `JumbfSuperbox`: its type, as the 16 bytes and not their hex digits, toggles, label and children.
  pub data Superbox : Type 0 where
    super : Bytes → ℕ → Option Text → Nodes → Superbox

  -- `JumbfNode[]`.
  pub data Nodes : Type 0 where
    no_nodes : Nodes
    nested : Superbox → Nodes → Nodes
    content : Text → Bytes → Nodes → Nodes

abbrev max_depth : ℕ
max_depth = 16

-- The one `jumb` box of the buffer.
outer_box : Listed → Option Box
outer_box (listed (b ∷ [])) = if eq_bytes b.kind (text "jumb") then some b else none
outer_box _ = none

-- The description box, and the boxes after it.
described : Listed → Option (Box × List Box)
described (listed (d ∷ bs)) = if eq_bytes d.kind (text "jumd") then some (d, bs) else none
described _ = none

-- What stands before the first zero.
before_nul : Bytes → Option Bytes
before_nul [] = none
before_nul (b ∷ bs) =
    let rest = before_nul bs in if b == 0 then some [] else do t ← rest; some (b ∷ t)

-- The label, when bit 1 of the toggles is set.
label_of : (Bytes → Option Text) → Bytes → ℕ → Option (Option Text)
unfolding before_nul
label_of decode d toggles =
    if not (toggles / 2 % 2 == 1)
    then some none
    else do bytes ← before_nul (drop 17 d); label ← decode bytes; some (some label)

nest : Option Superbox → Option Nodes → Option Nodes
nest inner rest = do s ← inner; ns ← rest; some (nested s ns)

-- `contents.map(...)`, with the parser of the superboxes inside.
nodes_of : (Bytes → Option Superbox) → Bytes → List Box → Option Nodes
unfolding nest
nodes_of parse buf [] = some no_nodes
nodes_of parse buf (b ∷ bs) =
    let rest = nodes_of parse buf bs in
    if eq_bytes b.kind (text "jumb")
    then nest (parse (subarray buf b.start b.end)) rest
    else do ns ← rest; some (content b.kind (subarray buf b.payload b.end) ns)

module _ (decode_utf8 : Bytes → Option Text) where
  -- `parseSuperbox` at the depth that leaves room for `room` levels more: no room is a depth above
  -- `MAX_DEPTH`.
  unfoldable pub superbox : ℕ → Bytes → Option Superbox
  unfolding box_list outer_box described label_of nodes_of
  superbox zero buf = none
  superbox (suc room) buf = do
    outer ← outer_box (box_list buf 0 (length buf))
    (description, contents) ← described (box_list buf outer.payload outer.end)
    let d = subarray buf description.payload description.end
    toggles ← read_uint 1 d 16
    label ← label_of decode_utf8 d toggles
    children ← nodes_of (superbox room) buf contents
    some (super (take 16 d) toggles label children)

  -- `parseSuperbox(buf)`, at the depth 0.
  unfoldable pub parse_superbox : Bytes → Option Superbox
  parse_superbox buf = superbox (max_depth + 1) buf

supers_of : Nodes → List Superbox
supers_of no_nodes = []
supers_of (nested s ns) = s ∷ supers_of ns
supers_of (content kind bytes ns) = supers_of ns

-- `superChildren`.
unfoldable pub super_children : Superbox → List Superbox
unfolding supers_of
super_children (super type toggles label children) = supers_of children
