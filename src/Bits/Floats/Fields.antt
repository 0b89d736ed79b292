-- ===== src/Bits/Floats/Fields.antt =====
-- The sign, the exponent and the fraction of a pattern in datalab-handout/bits.c.
use Prim.Native.Nat.{differ}
use splab.Prelude.{ℕ, zero, suc, ◌+◌, ◌-◌, ◌*◌, ◌/◌, ◌%◌, ◌^◌, ◌<◌, ◌≡◌, ◌==◌, refl, ap, ◌∙◌, arith}
use splab.Bits.Word.{modulus, word_not, word_and, word_or, word_xor, shift_left}
use splab.Bits.Word.Digits.{zero-or, and-zero, or-zero}
use splab.Bits.Word.Fields.{and_split, or_split, and-mask, and_ones, xor_top}
use splab.Bits.Floats.{pattern_of, value_of, decode}

-- A pattern in its three parts
pub record IsPattern (uf t e m : ℕ) : Type 0 where
  pub parts : uf ≡ pattern_of t e m
  pub sign : t < 2
  pub exponent : e < 2 ^ 8
  pub fraction : m < 2 ^ 23

pub word-IsPattern :
    (uf : ℕ) → uf < modulus → IsPattern uf (uf / 2 ^ 31) (uf / 2 ^ 23 % 2 ^ 8) (uf % 2 ^ 23)
word-IsPattern uf l = record {
  parts = omega arith;
  sign = omega (arith, l);
  exponent = omega arith;
  fraction = omega arith;
}

module _ (t e m : ℕ) (t_bound : t < 2) (e_bound : e < 2 ^ 8) (m_bound : m < 2 ^ 23) where
  pub decode_lem : decode (pattern_of t e m) ≡ value_of (t == 1) e m
  unfolding decode
  decode_lem =
      let sign : pattern_of t e m / 2 ^ 31 ≡ t = omega (arith, e_bound, m_bound) in
      let exponent : pattern_of t e m / 2 ^ 23 % 2 ^ 8 ≡ e = omega (arith, e_bound, m_bound) in
      let fraction : pattern_of t e m % 2 ^ 23 ≡ m = omega (arith, m_bound) in
      rw (sign, exponent, fraction) refl

  -- `uf & 0x80000000`
  pub sign_bit : word_and (pattern_of t e m) 0x80000000 ≡ t * 2 ^ 31
  sign_bit =
      let low = e * 2 ^ 23 + m in
      and_split 31 t 1 low 0 (omega (arith, e_bound, m_bound)) (omega arith)
      ∙ ap (λ (a : ℕ). a * 2 ^ 31 + word_and low 0) (and-mask 1 t)
      ∙ ap (λ (b : ℕ). t % 2 ^ 1 * 2 ^ 31 + b) (and-zero low)
      ∙ omega (arith, t_bound)

  -- `~uf & 0x7f800000` is what the exponent lacks.
  pub exponent_bits : word_and (word_not (pattern_of t e m)) 0x7f800000 ≡ (0xff - e) * 2 ^ 23
  exponent_bits =
      let rest = 2 ^ 23 - 1 - m in
      let low = (0xff - e) * 2 ^ 23 + rest in
      let parts : word_not (pattern_of t e m) ≡ (1 - t) * 2 ^ 31 + low =
        omega (arith, t_bound, e_bound, m_bound) in
      let held : word_and low 0x7f800000 ≡ (0xff - e) * 2 ^ 23 =
        and_split 23 (0xff - e) 0xff rest 0 (omega arith) (omega arith)
        ∙ ap (λ (a : ℕ). a * 2 ^ 23 + word_and rest 0) (and_ones 8 (0xff - e) (omega arith))
        ∙ ap (λ (b : ℕ). (0xff - e) * 2 ^ 23 + b) (and-zero rest)
        ∙ omega arith in
      rw parts (
        and_split 31 (1 - t) 0 low 0x7f800000 (omega (arith, e_bound, m_bound)) (omega arith)
        ∙ ap (λ (a : ℕ). a * 2 ^ 31 + word_and low 0x7f800000) (and-zero (1 - t))
        ∙ omega (arith, held))

  -- `uf & 0x007fffff`
  pub fraction_bits : word_and (pattern_of t e m) 0x007fffff ≡ m
  fraction_bits = and-mask 23 (pattern_of t e m) ∙ omega (arith, m_bound)

  -- `uf ^ (1 << 31)`
  pub sign_flip : word_xor (pattern_of t e m) (shift_left 1 31) ≡ pattern_of (1 - t) e m
  unfolding shift_left
  sign_flip =
      xor_top 31 (e * 2 ^ 23 + m) t 1 (omega (arith, e_bound, m_bound)) t_bound (omega arith)
      ∙ ap (λ (a : ℕ). a * 2 ^ 31 + (e * 2 ^ 23 + m)) (flip t t_bound)
    where
      flip : (u : ℕ) → u < 2 → differ u 1 ≡ 1 - u
      flip zero l = refl
      flip (suc zero) l = refl
      flip (suc (suc u)) l = absurd (omega (arith, l))

-- The sign, before a number of 31 bits
pub sign_or : (t low : ℕ) → low < 2 ^ 31 → word_or (t * 2 ^ 31) low ≡ t * 2 ^ 31 + low
sign_or t low l =
    let whole : t * 2 ^ 31 + 0 ≡ t * 2 ^ 31 = omega arith in
    let none : 0 * 2 ^ 31 + low ≡ low = omega arith in
    let parts = rw (whole, none) at (or_split 31 t 0 0 low (omega arith) l) in
    omega (arith, parts, zero-or low, or-zero t)
