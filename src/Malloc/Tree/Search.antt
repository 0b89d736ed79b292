-- ===== src/Malloc/Tree/Search.antt =====
-- `mm_search_node` finds the best fit.
use splab.Prelude.{
  ℕ, ◌≤◌, ◌<◌, ◌≡◌, ◌∷◌, ◌++◌, refl, ap, Bool-cases, inl, inr, false, leb, List, [], All, Option,
  none, some, arith,
}
use splab.Malloc.Tree.{Tree, null, node, Segment, segments, search_node, cmp_node}
use splab.Malloc.Tree.Order.List.{
  IsSorted, ◌≺◌, first_fit, IsSorted-append_left, IsSorted-append_right, All-before,
}

-- The first choice, or else the second.
abbrev or_else : Option Segment → Option Segment → Option Segment
or_else none b = b
or_else (some x) b = some x

first_fit-append :
    (size : ℕ) (xs ys : List Segment)
    → first_fit size (xs ++ ys) ≡ or_else (first_fit size xs) (first_fit size ys)
first_fit-append size [] ys = refl
first_fit-append size (x ∷ xs) ys = ground (arith, first_fit-append size xs ys)

-- What is before a segment is not larger.
size-le_of_lt : (x y : Segment) → x ≺ y → x.size ≤ y.size
unfolding cmp_node
size-le_of_lt x y h = ground arith

first_fit_small :
    (size : ℕ) (x : Segment) (xs : List Segment)
    → All (λ y. y ≺ x) xs
    → leb size x.size ≡ false
    → first_fit size xs ≡ none
first_fit_small size x [] a h = refl
first_fit_small size x (y ∷ xs) a h =
    ground (arith, size-le_of_lt y x a.0, first_fit_small size x xs a.1)

-- The descent finds the first segment of the list that is large enough.
pub search_node_lem :
    (t : Tree) (size : ℕ) → IsSorted (segments t) → search_node t size ≡ first_fit size (segments t)
unfolding search_node
search_node_lem null size s = refl
search_node_lem (node c x l r) size s = ground (
  arith,
  first_fit-append size (segments l) (x ∷ segments r),
  search_node_lem l size (IsSorted-append_left (segments l) _ s),
  search_node_lem r size (IsSorted-append_right (segments l) (x ∷ segments r) s).1,
  first_fit_small size x (segments l) (All-before (segments l) x (segments r) s),
)

-- `fit` is in the list, is large enough, and every other segment of the list that is large enough
-- comes after it: it is larger, or as large and at a higher address.
pub record IsBestFit (size : ℕ) (xs : List Segment) (fit : Segment) : Type 0 where
  pub before : List Segment
  pub after : List Segment
  pub split : xs ≡ before ++ (fit ∷ after)
  pub enough : size ≤ fit.size
  pub least : All (λ y. y.size < size) before
  pub next : All (λ y. fit ≺ y) after

abbrev pub FitSpec : ℕ → List Segment → Option Segment → Type 0
FitSpec size xs none = All (λ y. y.size < size) xs
FitSpec size xs (some fit) = IsBestFit size xs fit

FitSpec-cons :
    (size : ℕ) (x : Segment) (xs : List Segment) (o : Option Segment)
    → x.size < size
    → FitSpec size xs o
    → FitSpec size (x ∷ xs) o
FitSpec-cons size x xs none h f = (h, f)
FitSpec-cons size x xs (some fit) h f = record {
  before = x ∷ f.before;
  after = f.after;
  split = ap (λ l. x ∷ l) f.split;
  enough = f.enough;
  least = (h, f.least);
  next = f.next;
}

first_fit-FitSpec :
    (size : ℕ) (xs : List Segment) → IsSorted xs → FitSpec size xs (first_fit size xs)
first_fit-FitSpec size [] s = tt
first_fit-FitSpec size (x ∷ xs) s = elim (Bool-cases (leb size x.size)) [
  | inl e ↦ rw e record {
    before = [];
    after = xs;
    split = refl;
    enough = ground arith;
    least = tt;
    next = s.0;
  }
  | inr e ↦
      rw e
        (FitSpec-cons size x xs (first_fit size xs) (ground arith) (first_fit-FitSpec size xs s.1))
]

-- On a sorted tree `mm_search_node` returns the best fit, and the null pointer only if every segment
-- is too small.
pub search_node-FitSpec :
    (t : Tree) (size : ℕ) → IsSorted (segments t) → FitSpec size (segments t) (search_node t size)
search_node-FitSpec t size s = rw (search_node_lem t size s) (first_fit-FitSpec size (segments t) s)
