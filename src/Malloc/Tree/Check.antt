-- ===== src/Malloc/Tree/Check.antt =====
-- `mm_check_node` of malloclab-handout/mm.c, the checker that walks the tree.
use splab.Prelude.{
  ℕ, ◌+◌, ◌≡◌, ◌∷◌, Bool, true, false, ◌&&◌, ◌||◌, if◌then◌else◌, length, length-append, arith,
  All-append_right, All, refl, Bool-cases, inl, inr, ap,
}
use splab.Malloc.Tree.{
  Tree, null, node, Segment, Color, red, black, is_red, color, cmp_node, segments,
}
use splab.Malloc.Tree.Balance.{IsRedBlack}
use splab.Malloc.Tree.Order.List.{
  IsSorted, ◌≺◌, All-before, lt_asymm, IsSorted-append_left, IsSorted-append_right,
}

-- `now->left->null == MM_NULL_NOTNULL && mm_cmp_node(now, now->left)`
abbrev left_broken : Segment → Tree → Bool
left_broken x null = false
left_broken x (node c y l r) = cmp_node x y

abbrev right_broken : Segment → Tree → Bool
right_broken x null = false
right_broken x (node c y l r) = cmp_node y x

-- The result and the count `*cnt`. The operands of `&` are both evaluated, the left one first here.
unfoldable pub check_node : Tree → ℕ → Bool × ℕ
check_node null cnt = (true, cnt)
check_node (node c x l r) cnt =
    let children : Bool × ℕ =
      (let (a, cnt₁) = check_node l (cnt + 1) in
        let (b, cnt₂) = check_node r cnt₁ in (a && b, cnt₂)) in
    if left_broken x l || right_broken x r || (is_red c && (is_red (color l) || is_red (color r)))
    then (false, cnt + 1)
    else children

left-ok : (x : Segment) (l : Tree) → All (λ z. z ≺ x) (segments l) → left_broken x l ≡ false
left-ok x null a = refl
left-ok x (node c y l r) a = lt_asymm y x (All-append_right _ (segments l) (y ∷ segments r) a).0

right-ok : (x : Segment) (r : Tree) → All (λ z. x ≺ z) (segments r) → right_broken x r ≡ false
right-ok x null a = refl
right-ok x (node c y l r) a = lt_asymm x y (All-append_right _ (segments l) (y ∷ segments r) a).0

-- On a sorted red-black tree the checker finds nothing broken, and counts the segments.
pub check_node_lem :
    (t : Tree) (cnt : ℕ)
    → IsRedBlack t
    → IsSorted (segments t)
    → check_node t cnt ≡ (true, cnt + length (segments t))
unfolding check_node
check_node_lem null cnt h s = ground arith
check_node_lem (node c x l r) cnt h s =
    let right_sorted = IsSorted-append_right (segments l) (x ∷ segments r) s in
    ground (
      arith,
      left-ok x l (All-before (segments l) x (segments r) s),
      right-ok x r right_sorted.0,
      check_node_lem l (cnt + 1) h.2 (IsSorted-append_left (segments l) _ s),
      check_node_lem r (cnt + 1 + length (segments l)) h.3 right_sorted.1,
      length-append (segments l) (x ∷ segments r),
    )

-- What the checker looks at: a node and its children. No child on the left comes behind its parent,
-- none on the right before it, and a red node has no red child.
abbrev pub LeftChild : Segment → Tree → Type 0
LeftChild x null = Unit
LeftChild x (node c y l r) = ¬ (x ≺ y)

abbrev pub RightChild : Segment → Tree → Type 0
RightChild x null = Unit
RightChild x (node c y l r) = ¬ (y ≺ x)

abbrev pub IsLocallyFine : Tree → Type 0
IsLocallyFine null = Unit
IsLocallyFine (node c x l r) =
    LeftChild x l
    × RightChild x r
    × (c ≡ red → (color l ≡ black) × (color r ≡ black))
    × IsLocallyFine l
    × IsLocallyFine r

left_child : (x : Segment) (l : Tree) → left_broken x l ≡ false → LeftChild x l
left_child x null e = tt
left_child x (node c y l r) e = λ k. ground arith

right_child : (x : Segment) (r : Tree) → right_broken x r ≡ false → RightChild x r
right_child x null e = tt
right_child x (node c y l r) e = λ k. ground arith

red_children :
    (c a b : Color)
    → (is_red c && (is_red a || is_red b)) ≡ false
    → c ≡ red
    → (a ≡ black) × (b ≡ black)
red_children red black black e k = (refl, refl)
red_children black a b e k = cc
red_children red red b e k = cc
red_children red black red e k = cc

-- If the checker finds nothing broken, no node is out of order with a child, no red node has a red
-- child, and the count is that of the nodes.
pub check_node_sound :
    (t : Tree) (cnt n : ℕ)
    → check_node t cnt ≡ (true, n)
    → IsLocallyFine t × (n ≡ cnt + length (segments t))
unfolding check_node
check_node_sound null cnt n e = (tt, ground arith)
check_node_sound (node c x l r) cnt n e =
    elim (Bool-cases (
      left_broken x l
      || right_broken x r
      || (is_red c && (is_red (color l) || is_red (color r))))) [
        | inl f ↦
            let broken : (false, cnt + 1) ≡ (true, n) = rw f at e in
            let no : false ≡ true = ap (λ p. p.0) broken in cc
        | inr f ↦
            let left = check_node l (cnt + 1) in
            let right = check_node r left.1 in
            let walked : (left.0 && right.0, right.1) ≡ (true, n) = rw f at e in
            let both : (left.0 && right.0) ≡ true = ap (λ p. p.0) walked in
            let count : right.1 ≡ n = ap (λ p. p.1) walked in
            let a : left.0 ≡ true = ground arith in
            let b : right.0 ≡ true = ground arith in
            let (fine_left, counted_left) =
              check_node_sound l (cnt + 1) left.1 (ap (λ (v : Bool). (v, left.1)) a) in
            let (fine_right, counted_right) =
              check_node_sound r left.1 right.1 (ap (λ (v : Bool). (v, right.1)) b) in
            (
              (
                left_child x l (ground arith),
                right_child x r (ground arith),
                red_children c (color l) (color r) (ground arith),
                fine_left,
                fine_right,
              ),
              omega (
                arith,
                count,
                counted_left,
                counted_right,
                length-append (segments l) (x ∷ segments r),
              ),
            )
      ]
