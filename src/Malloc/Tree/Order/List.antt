-- ===== src/Malloc/Tree/Order/List.antt =====
-- Sorted lists of segments under `mm_cmp_node`, the abstract view of the tree.
use splab.Prelude.{
  ℕ, leb, Option, none, some, ◌≡◌, Bool, true, false, ◌||◌, List, [], ◌∷◌, ◌++◌, All,
  All-append_left, All-append_right, All-imp, arith, if◌then◌else◌, Bool-cases, inl, inr,
}
use splab.Malloc.Tree.{Segment, cmp_node, same_node}

abbrev pub ◌≺◌ : Segment → Segment → Type 0
x ≺ y = cmp_node x y ≡ true

infix 50 ◌≺◌
abbrev pub IsSorted : List Segment → Type 0
IsSorted [] = Unit
IsSorted (x ∷ xs) = All (λ y. x ≺ y) xs × IsSorted xs

-- The first segment of at least that size.
abbrev pub first_fit : ℕ → List Segment → Option Segment
first_fit size [] = none
first_fit size (x ∷ xs) = let later = first_fit size xs in if leb size x.size then some x else later

-- Before the first greater segment.
abbrev pub insert : Segment → List Segment → List Segment
insert new [] = new ∷ []
insert new (x ∷ xs) = if cmp_node new x then new ∷ x ∷ xs else x ∷ insert new xs

-- Without the first segment at that address.
abbrev pub remove : Segment → List Segment → List Segment
remove del [] = []
remove del (x ∷ xs) = if same_node x del then xs else x ∷ remove del xs

abbrev pub member : Segment → List Segment → Bool
member del [] = false
member del (x ∷ xs) = same_node x del || member del xs

pub lt_trans : (x y z : Segment) → x ≺ y → y ≺ z → x ≺ z
unfolding cmp_node
lt_trans x y z p q = ground arith

pub lt_asymm : (x y : Segment) → x ≺ y → cmp_node y x ≡ false
unfolding cmp_node
lt_asymm x y p = ground arith

pub lt_irrefl : (x : Segment) → cmp_node x x ≡ false
unfolding cmp_node
lt_irrefl x = ground arith

pub same_node_symm : (x y : Segment) → same_node x y ≡ same_node y x
same_node_symm x y = ground arith

-- Two segments at different addresses are ordered one way or the other.
pub lt_total : (x y : Segment) → cmp_node x y ≡ false → same_node x y ≡ false → y ≺ x
unfolding cmp_node
lt_total x y p q = ground arith

-- What is not before `x` is not before anything that `x` is after.
pub not_before : (new x y : Segment) → y ≺ x → cmp_node new x ≡ false → cmp_node new y ≡ false
unfolding cmp_node
not_before new x y p q = ground arith

pub All-insert :
    (P : Segment → Type 0) (new : Segment) (xs : List Segment)
    → P new
    → All P xs
    → All P (insert new xs)
All-insert P new [] p h = (p, tt)
All-insert P new (x ∷ xs) p h = ground (arith, All-insert P new xs p h.1)

All-later : (x y : Segment) (xs : List Segment) → x ≺ y → All (λ z. y ≺ z) xs → All (λ z. x ≺ z) xs
All-later x y xs p h = All-imp (λ z q. lt_trans x y z p q) xs h

-- A segment at a new address goes into a sorted list in order.
pub insert-IsSorted :
    (new : Segment) (xs : List Segment)
    → IsSorted xs
    → member new xs ≡ false
    → IsSorted (insert new xs)
insert-IsSorted new [] s m = (tt, tt)
insert-IsSorted new (x ∷ xs) s m = elim (Bool-cases (cmp_node new x)) [
  | inl e ↦ rw e ((e, All-later new x xs e s.0), s)
  | inr e ↦ rw e (
    All-insert (λ z. x ≺ z) new xs (lt_total new x e (ground (arith, same_node_symm x new))) s.0,
    insert-IsSorted new xs s.1 (ground arith),
  )
]

pub IsSorted-append_left : (xs ys : List Segment) → IsSorted (xs ++ ys) → IsSorted xs
IsSorted-append_left [] ys s = tt
IsSorted-append_left (x ∷ xs) ys s = (All-append_left _ xs ys s.0, IsSorted-append_left xs ys s.1)

pub IsSorted-append_right : (xs ys : List Segment) → IsSorted (xs ++ ys) → IsSorted ys
IsSorted-append_right [] ys s = s
IsSorted-append_right (x ∷ xs) ys s = IsSorted-append_right xs ys s.1

-- What stands left of `x` in a sorted list is before it.
pub All-before :
    (xs : List Segment) (x : Segment) (ys : List Segment)
    → IsSorted (xs ++ (x ∷ ys))
    → All (λ z. z ≺ x) xs
All-before [] x ys s = tt
All-before (z ∷ xs) x ys s = ((All-append_right _ xs (x ∷ ys) s.0).0, All-before xs x ys s.1)
