-- ===== src/Bits/Count.antt =====
-- `bitCount` of datalab-handout/bits.c, which adds up neighbouring fields of doubling width.
mod Fields
use native.Mathlib.Nat.{
  two-pow-succ, mod-lt, div-div-eq-div-mul, mod-eq_of_lt, div-add-mod', mul_comm,
}
use splab.Prelude.{
  ℕ, zero, suc, ◌+◌, ◌-◌, ◌*◌, ◌/◌, ◌%◌, ◌^◌, ◌≤◌, ◌<◌, ◌≡◌, refl, sym, ap, ◌∙◌, arith,
}
use splab.Bits.Word.{modulus, word_and, word_add, shift_left, shift_right}
use splab.Bits.Word.Fields.{and_split, and-mask, and-le_bound, and-mod, cut-mod, pow_pos, double}
use splab.Bits.Word.Shifts.{pow_add, cut-div, shift_right-mod}
use splab.Bits.Puzzles.{count_pass, byte_mask, bit_count}
use splab.Bits.Reference.{count_from, test_bit_count}
use splab.Bits.Count.Fields.{sum_fields, twice, mask, paired, sum_fields-paired}

-- The copies of the sign that a shift brings in do not pass the mask, and the sum fits a word.
count_pass-paired :
    (w j k m x : ℕ)
    → w + j ≡ 32
    → mask w k ≡ m
    → m < 2 ^ j
    → m + m < modulus
    → x < modulus
    → count_pass m w x ≡ paired w k x
unfolding paired
count_pass-paired w j k m x e f l fits p =
    let y = shift_right x w in
    let low = shift_right-mod w j x e p in
    let inside : word_and y m < 2 ^ j = omega (arith, l, and-le_bound j y m l) in
    let cut = rw (mod-eq_of_lt inside, low, mod-eq_of_lt l) at (and-mod j y m) in
    rw (f, cut)
      (mod-eq_of_lt (omega (arith, fits, and-le_bound j x m l, and-le_bound j (x / 2 ^ w) m l)))

-- A pass with the mask of its fields keeps the sum.
sum_fields-count_pass :
    (w j k m x : ℕ)
    → w + j ≡ 32
    → mask w k ≡ m
    → m < 2 ^ j
    → m + m < modulus
    → x < modulus
    → sum_fields (w + w) k (count_pass m w x) ≡ sum_fields w (twice k) x
sum_fields-count_pass w j k m x e f l fits p =
    ap (sum_fields (w + w) k) (count_pass-paired w j k m x e f l fits p) ∙ sum_fields-paired w k x

count_pass_bound : (m n x : ℕ) → count_pass m n x < modulus
count_pass_bound m n x = omega arith

bit_count-sum_fields : (x : ℕ) → x < modulus → bit_count x ≡ sum_fields 1 32 x
unfolding bit_count mask twice sum_fields shift_left
bit_count-sum_fields x p =
    let x₁ = count_pass 0x55555555 1 x in
    let p₁ = count_pass_bound 0x55555555 1 x in
    let x₂ = count_pass 0x33333333 2 x₁ in
    let p₂ = count_pass_bound 0x33333333 2 x₁ in
    let x₃ = count_pass 0x0f0f0f0f 4 x₂ in
    let p₃ = count_pass_bound 0x0f0f0f0f 4 x₂ in
    let x₄ = count_pass 0xff00ff 8 x₃ in
    let p₄ = count_pass_bound 0xff00ff 8 x₃ in
    let p₅ = count_pass_bound 0xffff 16 x₄ in
    let s₁ = sum_fields-count_pass 1 31 16 0x55555555 x refl refl (omega arith) (omega arith) p in
    let s₂ = sum_fields-count_pass 2 30 8 0x33333333 x₁ refl refl (omega arith) (omega arith) p₁ in
    let s₃ = sum_fields-count_pass 4 28 4 0x0f0f0f0f x₂ refl refl (omega arith) (omega arith) p₂ in
    let s₄ = sum_fields-count_pass 8 24 2 0xff00ff x₃ refl refl (omega arith) (omega arith) p₃ in
    let s₅ = sum_fields-count_pass 16 16 1 0xffff x₄ refl refl (omega arith) (omega arith) p₄ in
    let x₅ = count_pass 0xffff 16 x₄ in
    let last : x₅ ≡ sum_fields 32 1 x₅ = omega (arith, p₅) in last ∙ s₅ ∙ s₄ ∙ s₃ ∙ s₂ ∙ s₁

even-mod : (r y : ℕ) → y % 2 ^ suc r % 2 ≡ y % 2
even-mod r y =
    let q = y / 2 ^ suc r in
    let whole : q * 2 ^ r * 2 + y % 2 ^ suc r ≡ y =
      omega (arith, double r q, div-add-mod' y (2 ^ suc r)) in
    omega (arith, whole)

count_from-sum_fields :
    (rounds i x result : ℕ)
    → i + rounds ≡ 32
    → x < modulus
    → result ≤ i
    → count_from rounds i x result ≡ result + sum_fields 1 rounds (x / 2 ^ i)
unfolding count_from sum_fields
count_from-sum_fields zero i x result e p l = omega arith
count_from-sum_fields (suc rounds) i x result e p l =
    let y = shift_right x i in
    let digit : word_and y 1 ≡ x / 2 ^ i % 2 =
      and-mask 1 y ∙ sym (even-mod rounds y) ∙ ap (◌% 2) (shift_right-mod i (suc rounds) x e p) in
    let up : i + 1 ≡ suc i = omega arith in
    let next : x / 2 ^ i / 2 ≡ x / 2 ^ (i + 1) =
      div-div-eq-div-mul x (2 ^ i) 2 ∙ ap (x /◌) (grind (arith, pow_add i 1)) in
    let sum : word_add result (word_and y 1) ≡ result + x / 2 ^ i % 2 =
      rw digit (omega (arith, l, e)) in
    let ih =
      count_from-sum_fields rounds (i + 1) x (result + x / 2 ^ i % 2) (omega (arith, e)) p
        (omega (arith, l)) in
    rw (sum, ih, next) (omega arith)

-- `bitCount` gives the number of ones, as the loop over the 32 bits does.
pub bit_count_agrees : (x : ℕ) → x < modulus → bit_count x ≡ test_bit_count x
unfolding test_bit_count
bit_count_agrees x p =
    let whole : x / 2 ^ 0 ≡ x = omega arith in
    let loop = rw whole at (count_from-sum_fields 32 0 x 0 refl p (omega arith)) in
    omega (arith, loop, bit_count-sum_fields x p)
