-- ===== src/Malloc/Tree/Order/Multiset.antt =====
-- Sorted lists of segments as multisets: what is said of all segments in any order.
use mathlib.Core.Logic.{∥∥₁_elim}
use mathlib.Core.Bool.{Bool-set}
use mathlib.Core.List.{Perm, Permᴰ, perm_middle}
use mathlib.Core.List.Perm
use native.Mathlib.Nat.{ℕ_set}
use splab.Prelude.{
  ◌≡◌, refl, ap, ◌∙◌, Bool, true, false, ◌||◌, List, [], ◌∷◌, ◌++◌, arith, All, inl, inr,
  Bool-cases, length, suc, not, ◌&&◌, ◌==◌,
}
use splab.Malloc.Tree.{Segment, cmp_node, same_node}
use splab.Malloc.Tree.Order.List.{insert, remove, member}
use splab.Malloc.Tree.Order.Remove.{IsAt}

abbrev pub any : (Segment → Bool) → List Segment → Bool
any p [] = false
any p (x ∷ xs) = p x || any p xs

pub any-append :
    (p : Segment → Bool) (xs ys : List Segment) → any p (xs ++ ys) ≡ (any p xs || any p ys)
any-append p [] ys = refl
any-append p (x ∷ xs) ys = ground (arith, any-append p xs ys)

any-Permᴰ : (p : Segment → Bool) {xs ys : List Segment} → Permᴰ xs ys → any p xs ≡ any p ys
any-Permᴰ p Permᴰ.nil = refl
any-Permᴰ p (Permᴰ.cons {a} {b} e d) = ground (arith, any-Permᴰ p d, ap p e)
any-Permᴰ p (Permᴰ.swap {a} {b} {a'} {b'} e f) = ground (arith, ap p e, ap p f)
any-Permᴰ p (Permᴰ.trans d e) = any-Permᴰ p d ∙ any-Permᴰ p e

pub any-perm : (p : Segment → Bool) {xs ys : List Segment} → Perm xs ys → any p xs ≡ any p ys
any-perm p d = ∥∥₁_elim d (Bool-set _ _) (any-Permᴰ p)

-- A predicate that no segment of the list meets.
pub All-none :
    (p : Segment → Bool) (xs : List Segment) → any p xs ≡ false → All (λ x. p x ≡ false) xs
All-none p [] h = tt
All-none p (x ∷ xs) h = (ground arith, All-none p xs (ground arith))

pub member-any : (d : Segment) (xs : List Segment) → member d xs ≡ any (λ x. same_node x d) xs
member-any d [] = refl
member-any d (x ∷ xs) = ap (λ r. same_node x d || r) (member-any d xs)

pub insert-perm : (x : Segment) (xs : List Segment) → Perm (insert x xs) (x ∷ xs)
insert-perm x [] = Perm.refl _
insert-perm x (y ∷ xs) = elim (Bool-cases (cmp_node x y)) [
  | inl e ↦ rw e (Perm.refl _)
  | inr e ↦ rw e (Perm.trans (Perm.cons y (insert-perm x xs)) (Perm.swap x y xs))
]

pub remove-perm :
    (d : Segment) (xs : List Segment) → IsAt d xs → member d xs ≡ true → Perm xs (d ∷ remove d xs)
remove-perm d [] a m = cc
remove-perm d (x ∷ xs) a m = elim (Bool-cases (same_node x d)) [
  | inl e ↦ rw (e, a.0 e) (Perm.refl _)
  | inr e ↦ rw e (Perm.trans (Perm.cons x (remove-perm d xs a.1 (ground arith))) (Perm.swap d x _))
]

-- A segment put in, and one taken out, at any place of the other list.
pub insert_middle :
    (x : Segment) (xs ys zs : List Segment)
    → Perm xs (ys ++ zs)
    → Perm (insert x xs) (ys ++ (x ∷ zs))
insert_middle x xs ys zs p =
    Perm.trans (insert-perm x xs) (Perm.trans (Perm.cons x p) (Perm.symm (perm_middle ys zs)))

pub remove_middle :
    (d : Segment) (xs ys zs : List Segment)
    → IsAt d xs
    → member d xs ≡ true
    → Perm xs (ys ++ (d ∷ zs))
    → Perm (remove d xs) (ys ++ zs)
remove_middle d xs ys zs a m p =
    Perm.cons_inv (Perm.trans (Perm.symm (remove-perm d xs a m)) (Perm.trans p (perm_middle ys zs)))

-- Another segment at the address of `d`
abbrev pub differs : Segment → Segment → Bool
differs d y = same_node y d && not (y.size == d.size)

pub IsAt-any : (d : Segment) (xs : List Segment) → any (differs d) xs ≡ false → IsAt d xs
IsAt-any d [] h = tt
IsAt-any d (x ∷ xs) h = ((λ e. ground arith), IsAt-any d xs (ground arith))

length-Permᴰ : {xs ys : List Segment} → Permᴰ xs ys → length xs ≡ length ys
length-Permᴰ Permᴰ.nil = refl
length-Permᴰ (Permᴰ.cons _ p) = ap suc (length-Permᴰ p)
length-Permᴰ (Permᴰ.swap _ _) = refl
length-Permᴰ (Permᴰ.trans p q) = length-Permᴰ p ∙ length-Permᴰ q

pub length-perm : {xs ys : List Segment} → Perm xs ys → length xs ≡ length ys
length-perm p = ∥∥₁_elim p (ℕ_set _ _) length-Permᴰ
