-- ===== src/Malloc/Tree/Insert.antt =====
-- Insertion into the red-black tree: `mm_insert_node` and `mm_insert` of malloclab-handout/mm.c.
use splab.Prelude.{Option, some, if◌then◌else◌}
use splab.Prelude.Fault.{◌>>=◌}
use splab.Malloc.Tree.{
  Tree, null, node, Segment, black, red, is_red, color, left, right, set_left, set_right, set_color,
  left_is_red, right_is_red, color_left, color_right, rotate_left, rotate_right, cmp_node,
}

-- The inner `if` of the left branch: `now->left->left` is red.
abbrev pub split_left : Tree → Option Tree
split_left now = do
  sibling ← right_is_red now
  if sibling
      then (do now ← color_right black now; now ← color_left black now; set_color red now)
      else (do
        now ← rotate_right now
        now ← color_right red now
        now ← color_left red now
        set_color black now)

-- What `mm_insert_node` does after `now->left = mm_insert_node(now->left, new)`.
unfoldable pub fix_left : Tree → Option Tree
fix_left now = do
  l ← left now
  if is_red (color l)
      then (do
        inner ← right_is_red l
        l ← if inner then rotate_left l else some l
        now ← set_left now l
        outer ← left_is_red l
        if outer then split_left now else some now)
      else some now

abbrev pub split_right : Tree → Option Tree
split_right now = do
  sibling ← left_is_red now
  if sibling
      then (do now ← color_right black now; now ← color_left black now; set_color red now)
      else (do
        now ← rotate_left now
        now ← color_right red now
        now ← color_left red now
        set_color black now)

unfoldable pub fix_right : Tree → Option Tree
fix_right now = do
  r ← right now
  if is_red (color r)
      then (do
        inner ← left_is_red r
        r ← if inner then rotate_right r else some r
        now ← set_right now r
        outer ← right_is_red r
        if outer then split_right now else some now)
      else some now

-- `mm_insert_node`. The two recursive calls are bound, and wait.
unfoldable pub insert_node : Tree → Segment → Option Tree
insert_node null new = some (node red new null null)
insert_node (node c x l r) new =
    let lower = (do l' ← insert_node l new; fix_left (node c x l' r)) in
    let upper = (do r' ← insert_node r new; fix_right (node c x l r')) in
    if cmp_node new x then lower else upper

-- `mm_insert`, on the tree at `data->root`
unfoldable pub insert : Tree → Segment → Option Tree
insert root new = do root ← insert_node root new; set_color black root
