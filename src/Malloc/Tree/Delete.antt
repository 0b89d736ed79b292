-- ===== src/Malloc/Tree/Delete.antt =====
-- Deletion from the red-black tree: `mm_delete_left`, `mm_delete_right`, `mm_delete_node` and
-- `mm_delete` of malloclab-handout/mm.c. A function that sets `*balance` returns the flag beside
-- the tree; it is called with the flag unset, and `false` says that it is left so.
use splab.Prelude.{Bool, true, false, not, ◌&&◌, ◌||◌, Option, none, some, if◌then◌else◌}
use splab.Prelude.Fault.{◌>>=◌}
use splab.Malloc.Tree.{
  Tree, null, node, Segment, Color, black, red, is_red, is_null, color, left, right, set_left,
  set_right, set_color, left_is_red, right_is_red, color_left, color_right, rotate_left,
  rotate_right, cmp_node, same_node,
}

-- `now->right = mm_rotate_right(now->right)` with the two recolourings that follow it
abbrev pub lift_inner_right : Tree → Option Tree
lift_inner_right now = do
  r ← right now
  r ← rotate_right r
  now ← set_right now r
  now ← color_right black now
  r ← right now
  r ← color_right red r
  set_right now r

abbrev pub lift_inner_left : Tree → Option Tree
lift_inner_left now = do
  l ← left now
  l ← rotate_left l
  now ← set_left now l
  now ← color_left black now
  l ← left now
  l ← color_left red l
  set_left now l

-- The last `if` of `mm_delete_left`.
abbrev pub rise_right : Tree → Option (Tree × Bool)
rise_right now = do
  r ← right now
  outer ← right_is_red r
  if not (is_red (color r)) && outer
      then (do
        now ← rotate_left now
        l ← left now
        now ← set_color (color l) now
        now ← color_right black now
        now ← color_left black now
        some (now, true))
      else some (now, false)

abbrev pub rise_left : Tree → Option (Tree × Bool)
rise_left now = do
  l ← left now
  outer ← left_is_red l
  if not (is_red (color l)) && outer
      then (do
        now ← rotate_right now
        r ← right now
        now ← set_color (color r) now
        now ← color_left black now
        now ← color_right black now
        some (now, true))
      else some (now, false)

-- `mm_delete_left` where the right child is black: the four remaining cases.
unfoldable pub delete_left_black : Tree → Option (Tree × Bool)
delete_left_black now = do
  r ← right now
  inner ← left_is_red r
  outer ← right_is_red r
  if not inner && not outer
      then (do
        now ← color_right red now
        if is_red (color now)
            then (do now ← set_color black now; some (now, true))
            else some (now, false))
      else (do now ← if inner && not outer then lift_inner_right now else some now; rise_right now)

unfoldable pub delete_right_black : Tree → Option (Tree × Bool)
delete_right_black now = do
  l ← left now
  outer ← left_is_red l
  inner ← right_is_red l
  if not outer && not inner
      then (do
        now ← color_left red now
        if is_red (color now)
            then (do now ← set_color black now; some (now, true))
            else some (now, false))
      else (do now ← if inner && not outer then lift_inner_left now else some now; rise_left now)

-- `mm_delete_left`, by the fields of `now`. With a red right child `now` is rotated, so the
-- recursive call is on the old node over the right child's left subtree.
unfoldable pub delete_left : Color → Segment → Tree → Tree → Option (Tree × Bool)
delete_left c x l null = none
delete_left c x l (node black y rl rr) = delete_left_black (node c x l (node black y rl rr))
delete_left c x l (node red y rl rr) = do
  (l', balance) ← delete_left red x l rl
  some (node black y l' rr, balance)

-- `mm_delete_right`, likewise.
unfoldable pub delete_right : Color → Segment → Tree → Tree → Option (Tree × Bool)
delete_right c x null r = none
delete_right c x (node black y ll lr) r = delete_right_black (node c x (node black y ll lr) r)
delete_right c x (node red y ll lr) r = do
  (r', balance) ← delete_right red x lr r
  some (node black y ll r', balance)

-- `mm_delete_node` with a target: unlinks the leftmost node, which goes through `*target`.
unfoldable pub delete_min : Tree → Option (Tree × Bool × Segment)
delete_min null = none
delete_min (node c x l r) =
    let last = (do now ← set_color black r; some (now, is_red c || is_red (color r), x)) in
    let deeper = (do
      (l', balance, target) ← delete_min l
      (now, balance) ← if balance then some (node c x l' r, true) else delete_left c x l' r
      some (now, balance, target)) in
    if is_null l then last else deeper

-- `mm_delete_node` without a target. A node that is not in the tree is a fault: the search ends in
-- the sentinel, whose children are null pointers.
unfoldable pub delete_node : Tree → Segment → Option (Tree × Bool)
delete_node null del = none
delete_node (node c x l r) del =
    let found_leaf = (do now ← set_color black l; some (now, is_red c || is_red (color l))) in
    let found_inner = (do
      (r', balance, ptr) ← delete_min r
      if balance then some (node c ptr l r', true) else delete_right c ptr l r') in
    let lower = (do
      (l', balance) ← delete_node l del
      if balance then some (node c x l' r, true) else delete_left c x l' r) in
    let upper = (do
      (r', balance) ← delete_node r del
      if balance then some (node c x l r', true) else delete_right c x l r') in
    if same_node x del
    then (if is_null r then found_leaf else found_inner)
    else (if cmp_node del x then lower else upper)

-- `mm_delete`, on the tree at `data->root`
unfoldable pub delete : Tree → Segment → Option Tree
delete root del = do (root, balance) ← delete_node root del; set_color black root
