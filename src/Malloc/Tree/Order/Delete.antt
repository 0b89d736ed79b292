-- ===== src/Malloc/Tree/Order/Delete.antt =====
-- `mm_delete` on the segment list: it takes the one segment out, and leaves the order of the rest.
use splab.Prelude.{
  ◌≡◌, ◌∷◌, ◌++◌, append_assoc, append-nil, refl, sym, true, false, inl, inr, Bool-cases, List,
  Bool, some, if◌then◌else◌, All-append_left, All-append_right,
}
use splab.Prelude.Fault.{Yields, Yields-bind}
use splab.Malloc.Tree.{
  Tree, null, node, Segment, Color, black, red, segments, cmp_node, same_node, set_color, reaches,
}
use splab.Malloc.Tree.Delete.{
  delete_left, delete_left_black, delete_right, delete_right_black, delete_min, delete_node, delete,
}
use splab.Malloc.Tree.Order.List.{
  IsSorted, ◌≺◌, member, IsSorted-append_left, IsSorted-append_right,
}
use splab.Malloc.Tree.Order.Remove.{
  IsAt, remove_found, member_lower, remove_lower, member_upper, remove_upper,
}
use splab.Malloc.Tree.Order.List as Order

abbrev Holds : List Segment → Tree × Bool → Type 0
Holds xs p = segments p.0 ≡ xs

delete_left_black-segments :
    (rl rr l : Tree) (c : Color) (x y : Segment)
    → Yields
        (delete_left_black (node c x l (node black y rl rr)))
        (Holds (segments l ++ (x ∷ segments (node black y rl rr))))
unfolding delete_left_black
delete_left_black-segments (node red z p q) (node red w s t) null c x y = simp append_assoc
delete_left_black-segments (node red z p q) (node red w s t) l c x y = simp append_assoc
delete_left_black-segments (node red z p q) rr null c x y = simp append_assoc
delete_left_black-segments (node red z p q) rr l c x y = simp append_assoc
delete_left_black-segments rl (node red w s t) null c x y = refl
delete_left_black-segments rl (node red w s t) l c x y = simp append_assoc
delete_left_black-segments rl rr l black x y = refl
delete_left_black-segments rl rr l red x y = refl

delete_right_black-segments :
    (ll lr r : Tree) (c : Color) (x y : Segment)
    → Yields
        (delete_right_black (node c x (node black y ll lr) r))
        (Holds (segments (node black y ll lr) ++ (x ∷ segments r)))
unfolding delete_right_black
delete_right_black-segments (node red w s t) (node red z p q) null c x y = simp append_assoc
delete_right_black-segments (node red w s t) (node red z p q) r c x y = simp append_assoc
delete_right_black-segments (node red w s t) lr null c x y = simp append_assoc
delete_right_black-segments (node red w s t) lr r c x y = simp append_assoc
delete_right_black-segments ll (node red z p q) null c x y = simp append_assoc
delete_right_black-segments ll (node red z p q) r c x y = simp append_assoc
delete_right_black-segments ll lr r black x y = refl
delete_right_black-segments ll lr r red x y = refl

delete_left-segments :
    (c : Color) (x : Segment) (l r : Tree)
    → Yields (delete_left c x l r) (Holds (segments l ++ (x ∷ segments r)))
unfolding delete_left
delete_left-segments c x l null = tt
delete_left-segments c x l (node black y rl rr) = delete_left_black-segments rl rr l c x y
delete_left-segments c x l (node red y rl rr) =
    Yields-bind (Holds (segments l ++ (x ∷ segments rl))) _ (delete_left red x l rl) _
      (delete_left-segments red x l rl)
      (λ p g. rw g (append_assoc (segments l) (x ∷ segments rl) (y ∷ segments rr)))

delete_right-segments :
    (c : Color) (x : Segment) (l r : Tree)
    → Yields (delete_right c x l r) (Holds (segments l ++ (x ∷ segments r)))
unfolding delete_right
delete_right-segments c x null r = tt
delete_right-segments c x (node black y ll lr) r = delete_right_black-segments ll lr r c x y
delete_right-segments c x (node red y ll lr) r =
    Yields-bind (Holds (segments lr ++ (x ∷ segments r))) _ (delete_right red x lr r) _
      (delete_right-segments red x lr r)
      (λ p g. rw g (sym (append_assoc (segments ll) (y ∷ segments lr) (x ∷ segments r))))

set_black-segments : (t : Tree) → Yields (set_color black t) (λ t'. segments t' ≡ segments t)
set_black-segments null = refl
set_black-segments (node c x l r) = refl

rebalance_left-segments :
    (c : Color) (y : Segment) (l r : Tree) (balance : Bool)
    → Yields
        (if balance then some (node c y l r, true) else delete_left c y l r)
        (Holds (segments l ++ (y ∷ segments r)))
rebalance_left-segments c y l r true = refl
rebalance_left-segments c y l r false = delete_left-segments c y l r

rebalance_right-segments :
    (c : Color) (y : Segment) (l r : Tree) (balance : Bool)
    → Yields
        (if balance then some (node c y l r, true) else delete_right c y l r)
        (Holds (segments l ++ (y ∷ segments r)))
rebalance_right-segments c y l r true = refl
rebalance_right-segments c y l r false = delete_right-segments c y l r

-- The target is the first segment of the list.
abbrev TakesFirst : List Segment → Tree × Bool × Segment → Type 0
TakesFirst xs p = xs ≡ p.2 ∷ segments p.0

delete_min-segments : (t : Tree) → Yields (delete_min t) (TakesFirst (segments t))
unfolding delete_min
delete_min-segments null = tt
delete_min-segments (node c x null r) =
    Yields-bind (λ t'. segments t' ≡ segments r) _ (set_color black r) _ (set_black-segments r)
      (λ t' g. rw g)
delete_min-segments (node c x (node d y a b) r) =
    Yields-bind (TakesFirst (segments (node d y a b))) _ (delete_min (node d y a b)) _
      (delete_min-segments (node d y a b))
      λ p g.
        Yields-bind (Holds (segments p.0 ++ (x ∷ segments r))) _
          (if p.1 then some (node c x p.0 r, true) else delete_left c x p.0 r) _
          (rebalance_left-segments c x p.0 r p.1) (λ q k. rw (g, k))

-- The node itself: its left subtree takes its place, or the least segment of its right subtree.
found-segments :
    (c : Color) (x : Segment) (l r : Tree) (del : Segment)
    → same_node x del ≡ true
    → Yields (delete_node (node c x l r) del) (Holds (segments l ++ segments r))
unfolding delete_node
found-segments c x l null del e =
    rw (e, append-nil)
      (Yields-bind (λ t'. segments t' ≡ segments l) _ (set_color black l) _ (set_black-segments l)
        (λ t' g. g))
found-segments c x l (node d y u v) del e = rw e (
    Yields-bind (TakesFirst (segments (node d y u v))) _ (delete_min (node d y u v)) _
      (delete_min-segments (node d y u v)) (λ p g. rw g (rebalance_right-segments c p.2 l p.0 p.1)))

delete_node-segments :
    (t : Tree) (del : Segment)
    → IsSorted (segments t)
    → IsAt del (segments t)
    → member del (segments t) ≡ true
    → (reaches t del ≡ true) × Yields (delete_node t del) (Holds (Order.remove del (segments t)))
unfolding delete_node reaches
delete_node-segments null del s a m = cc
delete_node-segments (node c x l r) del s a m = elim (Bool-cases (same_node x del)) [
  | inl e ↦
      (rw e, rw (remove_found del x (segments l) (segments r) s a e) (found-segments c x l r del e))
  | inr e ↦ elim (Bool-cases (cmp_node del x)) [
    | inl k ↦
        let (p, q) =
          delete_node-segments l del (IsSorted-append_left (segments l) _ s)
            (All-append_left _ (segments l) _ a)
            (member_lower del x (segments l) (segments r) s a m e k) in
        rw (e, k, remove_lower del x (segments l) (segments r) s a m e k)
          (
            p,
            Yields-bind _ _ (delete_node l del) _ q
                (λ t g. rw (← g) (rebalance_left-segments c x t.0 r t.1)),
          )
    | inr k ↦
        let (p, q) =
          delete_node-segments r del (IsSorted-append_right (segments l) (x ∷ segments r) s).1
            (All-append_right _ (segments l) (x ∷ segments r) a).1
            (member_upper del x (segments l) (segments r) s a m e k) in
        rw (e, k, remove_upper del x (segments l) (segments r) s a m e k)
          (
            p,
            Yields-bind _ _ (delete_node r del) _ q
                (λ t g. rw (← g) (rebalance_right-segments c x l t.0 t.1)),
          )
  ]
]

-- `mm_delete` of a segment of the tree comes to its node, and takes the segment out of the list.
pub delete-segments :
    (t : Tree) (del : Segment)
    → IsSorted (segments t)
    → IsAt del (segments t)
    → member del (segments t) ≡ true
    → (reaches t del ≡ true)
      × Yields (delete t del) (λ t'. segments t' ≡ Order.remove del (segments t))
unfolding delete
delete-segments t del s a m =
    let (p, q) = delete_node-segments t del s a m in
    (p, Yields-bind _ _ (delete_node t del) _ q (λ u g. rw (← g) (set_black-segments u.0)))
