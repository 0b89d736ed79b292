-- ===== src/Bits/Logic.antt =====
-- `bitAnd`, `bang`, `negate` and `tmin` of datalab-handout/bits.c against datalab-handout/tests.c.
use splab.Prelude.{
  ℕ, zero, suc, ◌-◌, ◌/◌, ◌%◌, ◌^◌, ◌<◌, ◌≡◌, inl, inr, refl, sym, ◌∙◌, Bool-cases, ◌==◌, arith,
}
use native.Mathlib.Nat.{mod-lt}
use splab.Bits.Word.{modulus, ones, word_not, shift_right, shift_left}
use splab.Bits.Word.Fields.{not_or, and-mask, and_bound, and-ones, and-mod, pow_pos}
use splab.Bits.Puzzles.{bit_and, fold_pass, bang, negate, tmin}
use splab.Bits.Reference.{test_bit_and, test_bang, test_negate, test_tmin}

-- `bitAnd` gives the digits that both words have.
pub bit_and_agrees : (x y : ℕ) → x < modulus → y < modulus → bit_and x y ≡ test_bit_and x y
unfolding bit_and test_bit_and
bit_and_agrees x y p q = omega (arith, not_or 32 x y p q)

pub negate_agrees : (x : ℕ) → x < modulus → negate x ≡ test_negate x
unfolding negate test_negate
negate_agrees x p = omega (arith, p)

tmin_agrees : tmin ≡ test_tmin
unfolding tmin test_tmin shift_left
tmin_agrees = refl

-- A pass of `bang` whose low half is ones had ones in the whole field.
fold_ones :
    (k x : ℕ)
    → shift_right x k % 2 ^ k ≡ x / 2 ^ k % 2 ^ k
    → fold_pass k x % 2 ^ k ≡ 2 ^ k - 1
    → (x % 2 ^ k ≡ 2 ^ k - 1) × (x / 2 ^ k % 2 ^ k ≡ 2 ^ k - 1)
fold_ones k x shifted e =
    let low = mod-lt x (pow_pos k) in
    let high = mod-lt (shift_right x k) (pow_pos k) in
    let (r, s) =
      and-ones k (x % 2 ^ k) (shift_right x k % 2 ^ k) low high
        (sym (and-mod k x (shift_right x k)) ∙ e) in
    (r, sym shifted ∙ s)

bang-zero : bang 0 ≡ test_bang 0
unfolding bang test_bang shift_right
bang-zero = refl

fold_ones_1 : (x : ℕ) → x < modulus → fold_pass 1 x % 2 ^ 1 ≡ 2 ^ 1 - 1 → x % 2 ^ 2 ≡ 2 ^ 2 - 1
unfolding shift_right
fold_ones_1 x p e = let (r, s) = fold_ones 1 x (ground arith) e in omega (arith, r, s)

fold_ones_2 : (x : ℕ) → x < modulus → fold_pass 2 x % 2 ^ 2 ≡ 2 ^ 2 - 1 → x % 2 ^ 4 ≡ 2 ^ 4 - 1
unfolding shift_right
fold_ones_2 x p e = let (r, s) = fold_ones 2 x (ground arith) e in omega (arith, r, s)

fold_ones_4 : (x : ℕ) → x < modulus → fold_pass 4 x % 2 ^ 4 ≡ 2 ^ 4 - 1 → x % 2 ^ 8 ≡ 2 ^ 8 - 1
unfolding shift_right
fold_ones_4 x p e = let (r, s) = fold_ones 4 x (ground arith) e in omega (arith, r, s)

fold_ones_8 : (x : ℕ) → x < modulus → fold_pass 8 x % 2 ^ 8 ≡ 2 ^ 8 - 1 → x % 2 ^ 16 ≡ 2 ^ 16 - 1
unfolding shift_right
fold_ones_8 x p e = let (r, s) = fold_ones 8 x (ground arith) e in omega (arith, r, s)

fold_ones_16 :
    (x : ℕ) → x < modulus → fold_pass 16 x % 2 ^ 16 ≡ 2 ^ 16 - 1 → x % 2 ^ 32 ≡ 2 ^ 32 - 1
unfolding shift_right
fold_ones_16 x p e = let (r, s) = fold_ones 16 x (ground arith) e in omega (arith, r, s)

fold_bound : (k x : ℕ) → x < modulus → fold_pass k x < modulus
fold_bound k x = and_bound 32 x (shift_right x k)

-- All passes give an odd number for -1 only.
folded_ones :
    (x : ℕ)
    → x < modulus
    → fold_pass 1 (fold_pass 2 (fold_pass 4 (fold_pass 8 (fold_pass 16 x)))) % 2 ≡ 1
    → x ≡ ones
folded_ones x p e =
    let x₁ = fold_pass 16 x in
    let p₁ = fold_bound 16 x p in
    let x₂ = fold_pass 8 x₁ in
    let p₂ = fold_bound 8 x₁ p₁ in
    let x₃ = fold_pass 4 x₂ in
    let p₃ = fold_bound 4 x₂ p₂ in
    let p₄ = fold_bound 2 x₃ p₃ in
    let all = fold_ones_16 x p (
      fold_ones_8 x₁ p₁
        (fold_ones_4 x₂ p₂ (fold_ones_2 x₃ p₃ (fold_ones_1 (fold_pass 2 x₃) p₄ e)))) in
    omega (arith, p, all)

-- `bang` is `!x`.
pub bang_agrees : (x : ℕ) → x < modulus → bang x ≡ test_bang x
unfolding bang test_bang
bang_agrees zero p = bang-zero
bang_agrees (suc x) p =
    let folded =
      fold_pass 1 (fold_pass 2 (fold_pass 4 (fold_pass 8 (fold_pass 16 (word_not (suc x)))))) in
    let odd = and-mask 1 folded in
    elim (Bool-cases (folded % 2 == 1)) [
      | inl e ↦
          absurd (omega (arith, p, folded_ones (word_not (suc x)) (omega arith) (ground arith)))
      | inr e ↦ rw odd (ground arith)
    ]
