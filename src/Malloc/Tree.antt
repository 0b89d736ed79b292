-- ===== src/Malloc/Tree.antt =====
-- The red-black tree of free segments of malloclab-handout/mm.c. The nodes of the tree are owned by
-- it alone, so a subtree is a value: `null` is the shared sentinel `data->null`, and `node` holds
-- the fields of a `struct MM_Node` that the tree functions read, with the node's address.
-- `none` is a fault: a null pointer is read (the sentinel has no children), or the shared sentinel
-- would be changed.
pub mod Insert
pub mod Delete
pub mod Order
pub mod Balance
pub mod Search
pub mod Check
pub mod Refine
mod Tests
use splab.Prelude.{
  ℕ, Bool, ◌&&◌, Option, none, some, List, [], ◌∷◌, ◌++◌, ltb, leb, ◌==◌, if◌then◌else◌,
}
use splab.Prelude.Fault.{◌>>=◌}

pub data Color : Type 0 where
  black red : Color

-- What orders the nodes: the size field and the address.
pub record Segment : Type 0 where
  pub size : ℕ
  pub ptr : ℕ

pub data Tree : Type 0 where
  null : Tree
  node : Color → Segment → Tree → Tree → Tree

-- `mm_cmp_node`
unfoldable pub cmp_node : Segment → Segment → Bool
cmp_node x y = if x.size == y.size then ltb x.ptr y.ptr else ltb x.size y.size

-- `now == del`, on addresses
abbrev pub same_node : Segment → Segment → Bool
same_node x y = x.ptr == y.ptr

abbrev pub is_red : Color → Bool
is_red red = Bool.true
is_red black = Bool.false

abbrev pub is_null : Tree → Bool
is_null null = Bool.true
is_null (node c x l r) = Bool.false

-- The sentinel is black.
abbrev pub color : Tree → Color
color null = black
color (node c x l r) = c

abbrev pub left : Tree → Option Tree
left null = none
left (node c x l r) = some l

abbrev pub right : Tree → Option Tree
right null = none
right (node c x l r) = some r

abbrev pub set_left : Tree → Tree → Option Tree
set_left null t = none
set_left (node c x l r) t = some (node c x t r)

abbrev pub set_right : Tree → Tree → Option Tree
set_right null t = none
set_right (node c x l r) t = some (node c x l t)

-- To write `black` into the sentinel changes nothing.
abbrev pub set_color : Color → Tree → Option Tree
set_color black null = some null
set_color red null = none
set_color k (node c x l r) = some (node k x l r)

-- `now->left->color == MM_COLOR_RED`, and so on: a fault where `now` is the sentinel
abbrev pub left_is_red : Tree → Option Bool
left_is_red t = do l ← left t; some (is_red (color l))

abbrev pub right_is_red : Tree → Option Bool
right_is_red t = do r ← right t; some (is_red (color r))

-- `now->left->color = c`, `now->right->color = c`
abbrev pub color_left : Color → Tree → Option Tree
color_left c t = do l ← left t; l' ← set_color c l; set_left t l'

abbrev pub color_right : Color → Tree → Option Tree
color_right c t = do r ← right t; r' ← set_color c r; set_right t r'

-- `mm_rotate_left`
abbrev pub rotate_left : Tree → Option Tree
rotate_left now = do
  tmp ← right now
  inner ← left tmp
  now' ← set_right now inner
  set_left tmp now'

-- `mm_rotate_right`
abbrev pub rotate_right : Tree → Option Tree
rotate_right now = do
  tmp ← left now
  inner ← right tmp
  now' ← set_left now inner
  set_right tmp now'

-- `mm_search_node`: `none` is the null pointer
unfoldable pub search_node : Tree → ℕ → Option Segment
search_node null size = none
search_node (node c x l r) size =
    let here : Option Segment = elim (search_node l size) [ none ↦ some x | some ptr ↦ some ptr ] in
    let there = search_node r size in if leb size x.size then here else there

-- The segments of a tree, from left to right.
abbrev pub segments : Tree → List Segment
segments null = []
segments (node c x l r) = segments l ++ (x ∷ segments r)

-- Whether the descent of `mm_delete_node` comes to the node.
unfoldable pub reaches : Tree → Segment → Bool
reaches null del = Bool.false
reaches (node c x l r) del =
    let lower = reaches l del in
    let upper = reaches r del in
    if same_node x del then Bool.true else if cmp_node del x then lower else upper
