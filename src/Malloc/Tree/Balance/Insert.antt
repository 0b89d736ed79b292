-- ===== src/Malloc/Tree/Balance/Insert.antt =====
-- `mm_insert` keeps the red-black invariant.
use splab.Prelude.{◌≡◌, false, ◌&&◌, inl, inr, refl, Bool-cases, arith}
use splab.Prelude.Fault.{Ensures, Ensures-bind}
use splab.Malloc.Tree.{
  Tree, null, node, Segment, Color, black, red, is_red, color, set_color, cmp_node,
}
use splab.Malloc.Tree.Insert.{fix_left, fix_right, insert_node, insert}
use splab.Malloc.Tree.Balance.{height, IsRedBlack}

-- A red root may have one red child.
abbrev IsAlmost : Tree → Type 0
IsAlmost null = Unit
IsAlmost (node c x l r) =
    (height l ≡ height r)
    × ((is_red c && (is_red (color l) && is_red (color r))) ≡ false)
    × IsRedBlack l
    × IsRedBlack r

-- What insertion makes of `t`: the black height is kept, and so is the invariant but for a red root
-- with a red child; under a black root not even that.
record Inserted (t t' : Tree) : Type 0 where
  almost : IsAlmost t'
  sound : color t ≡ black → IsRedBlack t'
  same_height : height t' ≡ height t

-- Under a red node a red child has no red child, and nothing is done.
fix_left-red :
    (x : Segment) (l l' r : Tree)
    → IsRedBlack (node red x l r)
    → Inserted l l'
    → Ensures (fix_left (node red x l' r)) (Inserted (node red x l r))
unfolding fix_left
fix_left-red x l (node red y ll lr) r h g = ground arith
fix_left-red x l _ r h g = ground arith

fix_right-red :
    (x : Segment) (l r r' : Tree)
    → IsRedBlack (node red x l r)
    → Inserted r r'
    → Ensures (fix_right (node red x l r')) (Inserted (node red x l r))
unfolding fix_right
fix_right-red x l r (node red y rl rr) h g = ground arith
fix_right-red x l r _ h g = ground arith

-- Under a black node two reds in a row are split; the first clause says how deep the code looks.
fix_left-black :
    (x : Segment) (l l' r : Tree)
    → IsRedBlack (node black x l r)
    → Inserted l l'
    → Ensures (fix_left (node black x l' r)) (Inserted (node black x l r))
unfolding fix_left
fix_left-black x l (node red y (node red u ul ur) (node red v vl vr)) (node red w wl wr) h g =
    ground arith
fix_left-black x l (node red y ll (node red v vl vr)) (node red w wl wr) h g = ground arith
fix_left-black x l _ _ h g = ground arith

fix_right-black :
    (x : Segment) (l r r' : Tree)
    → IsRedBlack (node black x l r)
    → Inserted r r'
    → Ensures (fix_right (node black x l r')) (Inserted (node black x l r))
unfolding fix_right
fix_right-black x (node red w wl wr) r (node red y (node red u ul ur) (node red v vl vr)) h g =
    ground arith
fix_right-black x (node red w wl wr) r (node red y (node red u ul ur) rr) h g = ground arith
fix_right-black x _ r _ h g = ground arith

fix_left-Inserted :
    (c : Color) (x : Segment) (l l' r : Tree)
    → IsRedBlack (node c x l r)
    → Inserted l l'
    → Ensures (fix_left (node c x l' r)) (Inserted (node c x l r))
fix_left-Inserted black = fix_left-black
fix_left-Inserted red = fix_left-red

fix_right-Inserted :
    (c : Color) (x : Segment) (l r r' : Tree)
    → IsRedBlack (node c x l r)
    → Inserted r r'
    → Ensures (fix_right (node c x l r')) (Inserted (node c x l r))
fix_right-Inserted black = fix_right-black
fix_right-Inserted red = fix_right-red

insert_node-Inserted :
    (t : Tree) (new : Segment) → IsRedBlack t → Ensures (insert_node t new) (Inserted t)
unfolding insert_node
insert_node-Inserted null new h = ground arith
insert_node-Inserted (node c x l r) new h = elim (Bool-cases (cmp_node new x)) [
  | inl e ↦ rw e (
      Ensures-bind (Inserted l) _ (insert_node l new) _ (insert_node-Inserted l new h.2)
        (λ l' g. fix_left-Inserted c x l l' r h g))
  | inr e ↦ rw e (
      Ensures-bind (Inserted r) _ (insert_node r new) _ (insert_node-Inserted r new h.3)
        (λ r' g. fix_right-Inserted c x l r r' h g))
]

set_black-IsRedBlack :
    (t : Tree) → IsAlmost t → Ensures (set_color black t) (λ t'. IsRedBlack t' × (color t' ≡ black))
set_black-IsRedBlack null h = (tt, refl)
set_black-IsRedBlack (node c x l r) h = ground arith

-- `mm_insert` does not fault on a red-black tree, and leaves one with a black root.
pub insert-IsRedBlack :
    (t : Tree) (new : Segment)
    → IsRedBlack t
    → Ensures (insert t new) (λ t'. IsRedBlack t' × (color t' ≡ black))
unfolding insert
insert-IsRedBlack t new h =
    Ensures-bind (Inserted t) _ (insert_node t new) _ (insert_node-Inserted t new h)
      (λ t' g. set_black-IsRedBlack t' g.almost)
