-- ===== src/Malloc/Tree/Balance/Delete.antt =====
-- `mm_delete` keeps the red-black invariant.
use splab.Prelude.{
  ℕ, suc, ◌+◌, ◌≡◌, Bool, true, false, ◌&&◌, ◌||◌, inl, inr, refl, sym, Bool-cases, arith, Option,
  some, if◌then◌else◌,
}
use splab.Prelude.Fault.{Ensures, Ensures-bind, ◌>>=◌}
use splab.Malloc.Tree.{
  Tree, null, node, Segment, Color, black, red, is_red, is_null, color, set_color, cmp_node,
  same_node, reaches,
}
use splab.Malloc.Tree.Delete.{
  delete_left, delete_left_black, delete_right, delete_right_black, delete_min, delete_node, delete,
}
use splab.Malloc.Tree.Balance.{weight, height, IsRedBlack}

-- What deletion makes of a tree with root colour `c` and black height `h`: a red-black tree. The
-- flag tells whether the black height is kept or has gone down by one.
record Removed (c : Color) (h : ℕ) (t : Tree) (balance : Bool) : Type 0 where
  sound : IsRedBlack t
  kept : balance ≡ true → height t ≡ h
  short : balance ≡ false → (suc (height t) ≡ h) × (color t ≡ black)
  rooted : c ≡ black → color t ≡ black
  settled : c ≡ red → balance ≡ true

-- The left subtree is one too low.
record IsLow (c : Color) (low high : Tree) : Type 0 where
  low_sound : IsRedBlack low
  high_sound : IsRedBlack high
  low_black : color low ≡ black
  lower : suc (height low) ≡ height high
  apart : (is_red c && is_red (color high)) ≡ false

abbrev RemovedPair : Color → ℕ → Tree × Bool → Type 0
RemovedPair c h (t, balance) = Removed c h t balance

set_black-IsRedBlack :
    (t : Tree)
    → IsRedBlack t
    → Ensures (set_color black t) (λ t'. IsRedBlack t' × (color t' ≡ black))
set_black-IsRedBlack null h = (tt, refl)
set_black-IsRedBlack (node c x l r) h = ground arith

set_black-black : (t : Tree) → color t ≡ black → set_color black t ≡ some t
set_black-black null h = refl
set_black-black (node c x l r) h = ground arith

delete_left_black-Removed :
    (c : Color) (x y : Segment) (l rl rr : Tree)
    → IsLow c l (node black y rl rr)
    → Ensures
        (delete_left_black (node c x l (node black y rl rr)))
        (RemovedPair c (weight c + height (node black y rl rr)))
unfolding delete_left_black
delete_left_black-Removed c x y l (node red z p q) (node red w s t) h =
    ground (arith, set_black-black l)
delete_left_black-Removed c x y l _ (node red w s t) h = ground (arith, set_black-black l)
delete_left_black-Removed c x y l (node red z p q) _ h = ground (arith, set_black-black l)
delete_left_black-Removed c x y l _ _ h = ground (arith, set_black-black l)

delete_right_black-Removed :
    (c : Color) (x y : Segment) (ll lr r : Tree)
    → IsLow c r (node black y ll lr)
    → Ensures
        (delete_right_black (node c x (node black y ll lr) r))
        (RemovedPair c (weight c + height (node black y ll lr)))
unfolding delete_right_black
delete_right_black-Removed c x y (node red w s t) (node red z p q) r h =
    ground (arith, set_black-black r)
delete_right_black-Removed c x y (node red w s t) _ r h = ground (arith, set_black-black r)
delete_right_black-Removed c x y _ (node red z p q) r h = ground (arith, set_black-black r)
delete_right_black-Removed c x y _ _ r h = ground (arith, set_black-black r)

delete_left-Removed :
    (c : Color) (x : Segment) (l r : Tree)
    → IsLow c l r
    → Ensures (delete_left c x l r) (RemovedPair c (weight c + height r))
unfolding delete_left
delete_left-Removed c x l null h = absurd (omega (arith, h.lower))
delete_left-Removed c x l (node black y rl rr) h = delete_left_black-Removed c x y l rl rr h
delete_left-Removed c x l (node red y rl rr) h =
    Ensures-bind (RemovedPair red (weight red + height rl)) _ (delete_left red x l rl) _
      (delete_left-Removed red x l rl (ground arith)) (λ p g. ground arith)

delete_right-Removed :
    (c : Color) (x : Segment) (l r : Tree)
    → IsLow c r l
    → Ensures (delete_right c x l r) (RemovedPair c (weight c + height l))
unfolding delete_right
delete_right-Removed c x null r h = absurd (omega (arith, h.lower))
delete_right-Removed c x (node black y ll lr) r h = delete_right_black-Removed c x y ll lr r h
delete_right-Removed c x (node red y ll lr) r h =
    Ensures-bind (RemovedPair red (weight red + height lr)) _ (delete_right red x lr r) _
      (delete_right-Removed red x lr r (ground arith)) (λ p g. ground arith)

abbrev RemovedTriple : Color → ℕ → Tree × Bool × Segment → Type 0
RemovedTriple c h (t, balance, target) = Removed c h t balance

-- A node with one child null: the other is null or a single red node.
unlink_lem :
    (c : Color) (t : Tree) (k : ℕ)
    → IsRedBlack t
    → height t ≡ 0
    → (is_red c && is_red (color t)) ≡ false
    → k ≡ weight c
    → Ensures (set_color black t) (λ t'. Removed c k t' (is_red c || is_red (color t)))
unlink_lem c null k h e a q = ground arith
unlink_lem c (node red x l r) k h e a q = ground arith
unlink_lem c (node black x l r) k h e a q = ground arith

-- `if(!*balance) now = mm_delete_left(now, balance)` after a deletion in the left subtree; the node
-- may have been replaced by another segment.
rebalance_left :
    (c : Color) (x y : Segment) (l l' r : Tree) (balance : Bool)
    → IsRedBlack (node c x l r)
    → Removed (color l) (height l) l' balance
    → Ensures
        (if balance then some (node c y l' r, true) else delete_left c y l' r)
        (RemovedPair c (weight c + height l))
rebalance_left c x y l l' r true h g = ground arith
rebalance_left c x y l l' r false h g = rw (h.0) (delete_left-Removed c y l' r (ground arith))

rebalance_right :
    (c : Color) (x y : Segment) (l r r' : Tree) (balance : Bool)
    → IsRedBlack (node c x l r)
    → Removed (color r) (height r) r' balance
    → Ensures
        (if balance then some (node c y l r', true) else delete_right c y l r')
        (RemovedPair c (weight c + height l))
rebalance_right c x y l r r' true h g = ground arith
rebalance_right c x y l r r' false h g = delete_right-Removed c y l r' (ground arith)

delete_min-Removed :
    (t : Tree)
    → IsRedBlack t
    → is_null t ≡ false
    → Ensures (delete_min t) (RemovedTriple (color t) (height t))
unfolding delete_min
delete_min-Removed null h n = cc
delete_min-Removed (node c x null r) h n =
    Ensures-bind (λ t'. Removed c (weight c + 0) t' (is_red c || is_red (color r))) _
      (set_color black r) _
      (unlink_lem c r (weight c + 0) h.3 (sym h.0) (ground arith) (omega arith)) (λ t' g. g)
delete_min-Removed (node c x (node d y a b) r) h n =
    let l : Tree = node d y a b in
    Ensures-bind (RemovedTriple d (height l)) _ (delete_min l) _
      (delete_min-Removed (node d y a b) h.2 refl)
      λ p g.
        Ensures-bind (RemovedPair c (weight c + height l)) _
          (if p.1 then some (node c x p.0 r, true) else delete_left c x p.0 r) _
          (rebalance_left c x x l p.0 r p.1 h g) (λ q k. k)

-- A deletion below, and the rebalancing after it.
delete_lower :
    (c : Color) (x y : Segment) (l r : Tree) (m : Option (Tree × Bool))
    → IsRedBlack (node c x l r)
    → Ensures m (RemovedPair (color l) (height l))
    → Ensures
        (m >>= λ p. if p.1 then some (node c y p.0 r, true) else delete_left c y p.0 r)
        (RemovedPair c (weight c + height l))
delete_lower c x y l r m h g =
    Ensures-bind (RemovedPair (color l) (height l)) _ m _ g
      (λ p k. rebalance_left c x y l p.0 r p.1 h k)

delete_upper :
    (c : Color) (x y : Segment) (l r : Tree) (m : Option (Tree × Bool))
    → IsRedBlack (node c x l r)
    → Ensures m (RemovedPair (color r) (height r))
    → Ensures
        (m >>= λ p. if p.1 then some (node c y l p.0, true) else delete_right c y l p.0)
        (RemovedPair c (weight c + height l))
delete_upper c x y l r m h g =
    Ensures-bind (RemovedPair (color r) (height r)) _ m _ g
      (λ p k. rebalance_right c x y l r p.0 p.1 h k)

delete_found :
    (c : Color) (x : Segment) (l r : Tree) (del : Segment)
    → IsRedBlack (node c x l r)
    → same_node x del ≡ true
    → Ensures (delete_node (node c x l r) del) (RemovedPair c (weight c + height l))
unfolding delete_node
delete_found c x l null del h e = rw e (
    Ensures-bind (λ t'. Removed c (weight c + height l) t' (is_red c || is_red (color l))) _
      (set_color black l) _
      (unlink_lem c l (weight c + height l) h.2 h.0 (ground arith) (omega (arith, h.0)))
      (λ t' g. g))
delete_found c x l (node d y a b) del h e = rw e (
    Ensures-bind (RemovedTriple d (height (node d y a b))) _ (delete_min (node d y a b)) _
      (delete_min-Removed (node d y a b) h.3 refl)
      (λ p g. rebalance_right c x p.2 l (node d y a b) p.0 p.1 h g))

delete_node-Removed :
    (t : Tree) (del : Segment)
    → IsRedBlack t
    → reaches t del ≡ true
    → Ensures (delete_node t del) (RemovedPair (color t) (height t))
unfolding reaches delete_node
delete_node-Removed null del h m = cc
delete_node-Removed (node c x l r) del h m = elim (Bool-cases (same_node x del)) [
  | inl e ↦ delete_found c x l r del h e
  | inr e ↦ elim (Bool-cases (cmp_node del x)) [
    | inl k ↦
        rw (e, k)
          (delete_lower c x x l r (delete_node l del) h
            (delete_node-Removed l del h.2 (ground arith)))
    | inr k ↦
        rw (e, k)
          (delete_upper c x x l r (delete_node r del) h
            (delete_node-Removed r del h.3 (ground arith)))
  ]
]

-- `mm_delete` of a node that its descent comes to does not fault on a red-black tree, and leaves one
-- with a black root.
pub delete-IsRedBlack :
    (t : Tree) (del : Segment)
    → IsRedBlack t
    → reaches t del ≡ true
    → Ensures (delete t del) (λ t'. IsRedBlack t' × (color t' ≡ black))
unfolding delete
delete-IsRedBlack t del h m =
    Ensures-bind (RemovedPair (color t) (height t)) _ (delete_node t del) _
      (delete_node-Removed t del h m) (λ p g. set_black-IsRedBlack p.0 g.sound)
