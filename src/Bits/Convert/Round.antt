-- ===== src/Bits/Convert/Round.antt =====
-- The rounding of `float_i2f` in datalab-handout/bits.c is to the nearest, and to the even one.
use native.Mathlib.Nat.{two-pow-succ, div-add-mod', div-div-eq-div-mul, mod-lt}
use Prim.Native.Nat.{min, max}
use splab.Prelude.{
  ℕ, zero, suc, ◌+◌, ◌*◌, ◌/◌, ◌%◌, ◌^◌, ◌<◌, ◌≡◌, true, false, ◌==◌, ltb, if◌then◌else◌, refl, sym,
  ap, ◌∙◌, arith, Bool-cases, inl, inr,
}
use splab.Bits.Word.{word_and, word_or, shift_unsigned}
use splab.Bits.Word.Digits.{or_step}
use splab.Bits.Word.Fields.{and-mask, and-mod, double, pow_pos}
use splab.Bits.Convert.{round_off, round_even}
use splab.Bits.Convert.Loops.{sticky}

and_bit : (c d : ℕ) → c < 2 → d < 2 → word_and c d ≡ min c d
and_bit zero zero k l = refl
and_bit zero (suc zero) k l = refl
and_bit (suc zero) zero k l = refl
and_bit (suc zero) (suc zero) k l = refl
and_bit (suc (suc c)) d k l = absurd (omega (arith, k))
and_bit zero (suc (suc d)) k l = absurd (omega (arith, l))
and_bit (suc zero) (suc (suc d)) k l = absurd (omega (arith, l))

-- What is counted up: the digit is 1, and one behind it is or the number is odd without it.
abbrev pub carry : ℕ → ℕ → ℕ
carry c g = min (g % 2) (max c (g / 2 % 2))

pub round_off_lem : (c g : ℕ) → c < 2 → g < 2 ^ 31 → round_off c g ≡ g / 2 + carry c g
unfolding round_off shift_unsigned
round_off_lem c g l k =
    let half : g / 2 ^ 1 ≡ g / 2 = omega arith in
    let other = word_or c (g / 2) in
    let lowest : other % 2 ≡ max c (g / 2 % 2) = omega (arith, or_step c (g / 2), l) in
    let digit : word_and (word_and g other) 1 ≡ carry c g =
      and-mask 1 (word_and g other)
      ∙ and-mod 1 g other
      ∙ ap (word_and (g % 2)) lowest
      ∙ and_bit (g % 2) (max c (g / 2 % 2)) (omega arith) (omega (arith, l)) in
    rw (half, digit) (omega (arith, k))

-- The case of a digit d, with `low` of p behind it
nearest :
    (h d low p : ℕ)
    → d < 2
    → low < p
    → (if ltb ((d * p + low) * 2) (p * 2)
        then h
        else if ltb (p * 2) ((d * p + low) * 2)
        then h + 1
        else h + h % 2)
      ≡ h + min d (max (sticky 0 low) (h % 2))
nearest h zero low p k l =
    let less : ltb ((0 * p + low) * 2) (p * 2) ≡ true = ground arith in
    let least : min 0 (max (sticky 0 low) (h % 2)) ≡ 0 = omega arith in
    rw (less, least) (omega arith)
nearest h (suc zero) low p k l =
    let large : ltb ((1 * p + low) * 2) (p * 2) ≡ false = ground arith in
    elim (Bool-cases (low == 0)) [
      | inl f ↦
          let tie : ltb (p * 2) ((1 * p + low) * 2) ≡ false = ground arith in
          let even : min 1 (max 0 (h % 2)) ≡ h % 2 = omega arith in rw (large, tie, f, even) refl
      | inr f ↦
          let more : ltb (p * 2) ((1 * p + low) * 2) ≡ true = ground arith in
          let one : min 1 (max 1 (h % 2)) ≡ 1 = omega arith in rw (large, more, f, one) refl
    ]
nearest h (suc (suc d)) low p k l = absurd (omega (arith, k))

-- The rounding, from the number without its last j digits and from whether one of them is 1
pub round_even_lem :
    (n j : ℕ) → round_even n (suc j) ≡ n / 2 ^ j / 2 + carry (sticky 0 (n % 2 ^ j)) (n / 2 ^ j)
unfolding round_even
round_even_lem n j =
    let g = n / 2 ^ j in
    let low = n % 2 ^ j in
    let h = g / 2 in
    let d = g % 2 in
    let small : low < 2 ^ j = mod-lt n (pow_pos j) in
    let size : 2 ^ j * 2 ≡ 2 ^ suc j = omega (arith, two-pow-succ j) in
    let quotient : n / 2 ^ suc j ≡ h = sym (div-div-eq-div-mul n (2 ^ j) 2 ∙ ap (n /◌) size) in
    let parts : g ≡ h * 2 + d = omega arith in
    let product : g * 2 ^ j ≡ h * 2 ^ j * 2 + d * 2 ^ j =
      ap (λ (a : ℕ). a * 2 ^ j) parts ∙ grind arith in
    let whole = rw quotient at (div-add-mod' n (2 ^ suc j)) in
    let rest : n % 2 ^ suc j ≡ d * 2 ^ j + low =
      omega (arith, whole, double j h, product, div-add-mod' n (2 ^ j)) in
    rw (quotient, rest, sym size) (nearest h d low (2 ^ j) (omega arith) small)
