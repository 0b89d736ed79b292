-- ===== src/Bits/Word/Shifts.antt =====
-- Laws of the shifts.
use native.Mathlib.Nat.{two-pow-succ, mod-lt, div-add-mod', mod-eq_of_lt, pow-le-pow_right}
use splab.Prelude.{
  ℕ, zero, suc, ◌+◌, ◌-◌, ◌*◌, ◌/◌, ◌%◌, ◌^◌, ◌≤◌, ◌<◌, ◌≡◌, inl, inr, sym, subst, ap, ◌∙◌,
  Bool-cases, ltb, arith,
}
use splab.Bits.Word.{modulus, ones, shift_right, shift_left}
use splab.Bits.Word.Fields.{pow_pos, cut-mod}

pub pow_add : (i j : ℕ) → 2 ^ (i + j) ≡ 2 ^ i * 2 ^ j
pow_add zero j = let same : 0 + j ≡ j = omega arith in rw same (omega arith)
pow_add (suc i) j =
    let same : suc i + j ≡ suc (i + j) = omega arith in
    rw same (grind (arith, two-pow-succ (i + j), two-pow-succ i, pow_add i j))

-- Division of a number that is cut at a multiple
pub cut-div : (p q r : ℕ) → r < p → (q * p + r) / p ≡ q
cut-div p q r h = grind arith

pub div_bound : (p q x : ℕ) → x < p * q → 0 < p → x / p < q
div_bound p q x h l = grind (arith, div-add-mod' x p)

-- A product, around the multiple below z
pub split_around : (p q z : ℕ) → 0 < p → z < p * q → p * q ≡ z / p * p + p + (q - 1 - z / p) * p
split_around p q z l h =
    let t = q - 1 - z / p in
    let parts : q ≡ z / p + 1 + t = omega (arith, div_bound p q z h l) in
    subst (λ (c : ℕ). p * c ≡ z / p * p + p + t * p) (sym parts) (grind arith)

-- `~x` moved to the right is the low part of `~` of what x moved to the right is.
neg_div : (p q z : ℕ) → 0 < p → z < p * q → (p * q - 1 - z) / p ≡ q - 1 - z / p
neg_div p q z l h =
    let r = z % p in
    let t = q - 1 - z / p in
    let m : r < p = mod-lt z l in
    let cut : p * q - 1 - z ≡ t * p + (p - 1 - r) =
      omega (arith, split_around p q z l h, div-add-mod' z p, m) in
    rw cut (cut-div p t (p - 1 - r) (omega (arith, m)))

pred_mul : (p q : ℕ) → 0 < p → p * q ≡ (p - 1) * q + q
pred_mul zero q l = absurd (omega (arith, l))
pred_mul (suc p) q l = let same : suc p - 1 ≡ p = omega arith in rw same (grind arith)

-- A word moved to the right, in its low part
pub shift_right-mod : (i j x : ℕ) → i + j ≡ 32 → x < modulus → shift_right x i % 2 ^ j ≡ x / 2 ^ i
unfolding shift_right
shift_right-mod i j x e p =
    let both : 2 ^ i * 2 ^ j ≡ modulus = sym (pow_add i j) ∙ ap (2 ^◌) e in
    let b = div_bound (2 ^ i) (2 ^ j) x (rw both p) (pow_pos i) in
    elim (Bool-cases (ltb x (2 ^ 31))) [
      | inl f ↦ rw f (mod-eq_of_lt b)
      | inr f ↦
          let z = ones - x in
          let l = div_bound (2 ^ i) (2 ^ j) z (rw both (omega arith)) (pow_pos i) in
          let low = 2 ^ j - 1 - z / 2 ^ i in
          let whole : ones - z / 2 ^ i ≡ (2 ^ i - 1) * 2 ^ j + low =
            omega (arith, both, l, pred_mul (2 ^ i) (2 ^ j) (pow_pos i)) in
          let back : 2 ^ i * 2 ^ j - 1 - z ≡ x = omega (arith, both, p) in
          let moved = rw back at (neg_div (2 ^ i) (2 ^ j) z (pow_pos i) (rw both (omega arith))) in
          rw (f, whole) (cut-mod (2 ^ j) (2 ^ i - 1) low (omega (arith, l)) ∙ sym moved)
    ]

-- `t << i` for a bit t, and its place
pub shift_left-bit : (i t : ℕ) → i < 32 → t < 2 → shift_left t i ≡ t * 2 ^ i
unfolding shift_left
shift_left-bit i zero l m = omega arith
shift_left-bit i (suc zero) l m =
    let below : i ≤ 31 = omega (arith, l) in
    let top : 2 ^ i ≤ 2 ^ 31 = pow-le-pow_right {n = 2} (omega arith) below in omega (arith, top)
shift_left-bit i (suc (suc t)) l m = absurd (omega (arith, m))

pub shift_right-pos : (x n : ℕ) → x < 2 ^ 31 → shift_right x n ≡ x / 2 ^ n
unfolding shift_right
shift_right-pos x n l = ground arith

pub shift_right-neg : (x n : ℕ) → 2 ^ 31 ≤ x → shift_right x n ≡ ones - (ones - x) / 2 ^ n
unfolding shift_right
shift_right-neg x n l = ground arith

-- The sign in all bits
pub sign-pos : (x : ℕ) → x < 2 ^ 31 → shift_right x 31 ≡ 0
sign-pos x l = omega (arith, shift_right-pos x 31 l)

pub sign-neg : (x : ℕ) → 2 ^ 31 ≤ x → x < modulus → shift_right x 31 ≡ ones
sign-neg x l p = omega (arith, shift_right-neg x 31 l)
