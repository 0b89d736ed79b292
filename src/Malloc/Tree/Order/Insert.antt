-- ===== src/Malloc/Tree/Order/Insert.antt =====
-- `mm_insert` on the segment list: rotations and recolourings leave it alone.
use splab.Prelude.{
  ◌≡◌, ◌∷◌, ◌++◌, append_assoc, refl, true, false, inl, inr, Bool-cases, All-append_right, List, [],
}
use splab.Prelude.Fault.{Yields, Yields-bind}
use splab.Malloc.Tree.{Tree, null, node, Segment, Color, black, red, segments, cmp_node, set_color}
use splab.Malloc.Tree.Insert.{fix_left, fix_right, insert_node, insert}
use splab.Malloc.Tree.Order.List.{
  IsSorted, ◌≺◌, not_before, IsSorted-append_left, IsSorted-append_right,
}
use splab.Malloc.Tree.Order.List as Order

fix_left-segments :
    (c : Color) (x : Segment) (l r : Tree)
    → Yields (fix_left (node c x l r)) (λ t. segments t ≡ segments l ++ (x ∷ segments r))
unfolding fix_left
fix_left-segments c x null r = refl
fix_left-segments c x (node black y ll lr) r = refl
fix_left-segments c x (node red y (node red u ul ur) (node red v vl vr)) (node red w wl wr) =
    simp append_assoc
fix_left-segments c x (node red y (node red u ul ur) lr) (node red w wl wr) = simp append_assoc
fix_left-segments c x (node red y ll (node red v vl vr)) (node red w wl wr) = simp append_assoc
fix_left-segments c x (node red y ll lr) _ = simp append_assoc

fix_right-segments :
    (c : Color) (x : Segment) (l r : Tree)
    → Yields (fix_right (node c x l r)) (λ t. segments t ≡ segments l ++ (x ∷ segments r))
unfolding fix_right
fix_right-segments c x l null = refl
fix_right-segments c x l (node black y rl rr) = refl
fix_right-segments c x (node red w wl wr) (node red y (node red u ul ur) (node red v vl vr)) =
    simp append_assoc
fix_right-segments c x (node red w wl wr) (node red y rl (node red v vl vr)) = simp append_assoc
fix_right-segments c x (node red w wl wr) (node red y (node red u ul ur) rr) = simp append_assoc
fix_right-segments c x null (node red y (node red u ul ur) rr) = simp append_assoc
fix_right-segments c x null (node red y rl (node red v vl vr)) = refl
fix_right-segments c x null (node red y rl rr) = refl
fix_right-segments c x (node black w wl wr) (node red y (node red u ul ur) rr) = simp append_assoc
fix_right-segments c x (node black w wl wr) (node red y rl (node red v vl vr)) = simp append_assoc
fix_right-segments c x (node black w wl wr) (node red y rl rr) = simp append_assoc
fix_right-segments c x _ (node red y rl rr) = simp append_assoc

-- Insertion into the part of a sorted list that the descent chooses.
insert-append_lower :
    (new x : Segment) (xs ys : List Segment)
    → cmp_node new x ≡ true
    → Order.insert new (xs ++ (x ∷ ys)) ≡ Order.insert new xs ++ (x ∷ ys)
insert-append_lower new x [] ys h = rw h
insert-append_lower new x (y ∷ xs) ys h = elim (Bool-cases (cmp_node new y)) [
  | inl e ↦ rw e
  | inr e ↦ rw (e, insert-append_lower new x xs ys h)
]

insert-append_upper :
    (new x : Segment) (xs ys : List Segment)
    → IsSorted (xs ++ (x ∷ ys))
    → cmp_node new x ≡ false
    → Order.insert new (xs ++ (x ∷ ys)) ≡ xs ++ (x ∷ Order.insert new ys)
insert-append_upper new x [] ys s h = rw h
insert-append_upper new x (y ∷ xs) ys s h =
    let below : y ≺ x = (All-append_right _ xs (x ∷ ys) s.0).0 in
    rw (not_before new x y below h, insert-append_upper new x xs ys s.1 h)

-- `mm_insert_node` puts the segment in its place.
insert_node-segments :
    (t : Tree) (new : Segment)
    → IsSorted (segments t)
    → Yields (insert_node t new) (λ t'. segments t' ≡ Order.insert new (segments t))
unfolding insert_node
insert_node-segments null new s = refl
insert_node-segments (node c x l r) new s = elim (Bool-cases (cmp_node new x)) [
  | inl e ↦ rw e (
      Yields-bind _ _ (insert_node l new) _
        (insert_node-segments l new (IsSorted-append_left (segments l) _ s))
        (λ l' g.
          rw (insert-append_lower new x (segments l) (segments r) e, ← g)
            (fix_left-segments c x l' r)))
  | inr e ↦ rw e (
      Yields-bind _ _ (insert_node r new) _
        (insert_node-segments r new (IsSorted-append_right (segments l) (x ∷ segments r) s).1)
        (λ r' g.
          rw (insert-append_upper new x (segments l) (segments r) s e, ← g)
            (fix_right-segments c x l r')))
]

segments-set_black : (t : Tree) → Yields (set_color black t) (λ t'. segments t' ≡ segments t)
segments-set_black null = refl
segments-set_black (node c x l r) = refl

-- `mm_insert` on the tree is sorted insertion on the list.
pub insert-segments :
    (t : Tree) (new : Segment)
    → IsSorted (segments t)
    → Yields (insert t new) (λ t'. segments t' ≡ Order.insert new (segments t))
unfolding insert
insert-segments t new s =
    Yields-bind _ _ (insert_node t new) _ (insert_node-segments t new s)
      (λ t' g. rw (← g) (segments-set_black t'))
