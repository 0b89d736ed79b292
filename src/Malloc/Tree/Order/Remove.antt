-- ===== src/Malloc/Tree/Order/Remove.antt =====
-- Taking one segment out of a sorted list.
use splab.Prelude.{
  ◌≡◌, ◌∷◌, ◌++◌, refl, ap, true, false, ◌||◌, List, [], arith, All, All-append_left,
  All-append_right, inl, inr, Bool-cases,
}
use splab.Malloc.Tree.{Segment, cmp_node, same_node}
use splab.Malloc.Tree.Order.List.{
  IsSorted, ◌≺◌, remove, member, lt_asymm, lt_irrefl, All-before, IsSorted-append_right,
}

-- A segment of the list at the address of `del` is `del`.
abbrev pub IsAt : Segment → List Segment → Type 0
IsAt del = All (λ y. same_node y del ≡ true → y ≡ del)

pub member-append :
    (d : Segment) (xs ys : List Segment) → member d (xs ++ ys) ≡ (member d xs || member d ys)
member-append d [] ys = refl
member-append d (x ∷ xs) ys = ground (arith, member-append d xs ys)

pub remove-append_member :
    (d : Segment) (xs ys : List Segment)
    → member d xs ≡ true
    → remove d (xs ++ ys) ≡ remove d xs ++ ys
remove-append_member d [] ys h = cc
remove-append_member d (x ∷ xs) ys h = elim (Bool-cases (same_node x d)) [
  | inl e ↦ rw e
  | inr e ↦ rw (e, remove-append_member d xs ys (ground arith))
]

pub remove-append_absent :
    (d : Segment) (xs ys : List Segment)
    → member d xs ≡ false
    → remove d (xs ++ ys) ≡ xs ++ remove d ys
remove-append_absent d [] ys h = refl
remove-append_absent d (x ∷ xs) ys h = ground (arith, remove-append_absent d xs ys)

pub absent_before :
    (del x : Segment) (xs : List Segment)
    → IsAt del xs
    → All (λ z. z ≺ x) xs
    → cmp_node del x ≡ false
    → member del xs ≡ false
absent_before del x [] a b h = refl
absent_before del x (y ∷ xs) a b h = elim (Bool-cases (same_node y del)) [
  | inl e ↦ cc (ap (λ z. cmp_node z x) (a.0 e))
  | inr e ↦ rw e (absent_before del x xs a.1 b.1 h)
]

pub absent_after :
    (del x : Segment) (xs : List Segment)
    → IsAt del xs
    → All (λ z. x ≺ z) xs
    → cmp_node x del ≡ false
    → member del xs ≡ false
absent_after del x [] a b h = refl
absent_after del x (y ∷ xs) a b h = elim (Bool-cases (same_node y del)) [
  | inl e ↦ cc (ap (cmp_node x) (a.0 e))
  | inr e ↦ rw e (absent_after del x xs a.1 b.1 h)
]

-- Where the segment is, seen from one segment `x` of the sorted list.
module _ (del x : Segment) (xs ys : List Segment) (s : IsSorted (xs ++ (x ∷ ys)))
    (a : IsAt del (xs ++ (x ∷ ys))) where
  pub remove_found : same_node x del ≡ true → remove del (xs ++ (x ∷ ys)) ≡ xs ++ ys
  remove_found e =
      let same : x ≡ del = (All-append_right _ xs (x ∷ ys) a).0 e in
      let absent : member del xs ≡ false =
        absent_before del x xs (All-append_left _ xs (x ∷ ys) a) (All-before xs x ys s)
          (rw same (lt_irrefl del)) in
      rw (remove-append_absent del xs (x ∷ ys) absent, e)

  module _ (m : member del (xs ++ (x ∷ ys)) ≡ true) (ne : same_node x del ≡ false) where
    pub member_lower : cmp_node del x ≡ true → member del xs ≡ true
    member_lower k =
        let absent : member del ys ≡ false =
          absent_after del x ys (All-append_right _ xs (x ∷ ys) a).1
            (IsSorted-append_right xs (x ∷ ys) s).0 (lt_asymm del x k) in
        ground (arith, member-append del xs (x ∷ ys))

    pub remove_lower :
        cmp_node del x ≡ true → remove del (xs ++ (x ∷ ys)) ≡ remove del xs ++ (x ∷ ys)
    remove_lower k = remove-append_member del xs (x ∷ ys) (member_lower k)

    absent_lower : cmp_node del x ≡ false → member del xs ≡ false
    absent_lower k =
        absent_before del x xs (All-append_left _ xs (x ∷ ys) a) (All-before xs x ys s) k

    pub member_upper : cmp_node del x ≡ false → member del ys ≡ true
    member_upper k = ground (arith, member-append del xs (x ∷ ys), absent_lower k)

    pub remove_upper :
        cmp_node del x ≡ false → remove del (xs ++ (x ∷ ys)) ≡ xs ++ (x ∷ remove del ys)
    remove_upper k = rw (remove-append_absent del xs (x ∷ ys) (absent_lower k), ne)

-- What is left is sorted, and its segments were there before.
pub All-remove :
    (P : Segment → Type 0) (del : Segment) (xs : List Segment) → All P xs → All P (remove del xs)
All-remove P del [] h = tt
All-remove P del (x ∷ xs) h = ground (arith, All-remove P del xs h.1)

pub remove-IsSorted : (del : Segment) (xs : List Segment) → IsSorted xs → IsSorted (remove del xs)
remove-IsSorted del [] s = tt
remove-IsSorted del (x ∷ xs) s =
    ground (arith, remove-IsSorted del xs s.1, All-remove (λ z. x ≺ z) del xs s.0)
