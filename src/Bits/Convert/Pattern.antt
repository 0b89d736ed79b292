-- ===== src/Bits/Convert/Pattern.antt =====
-- `float_i2f` of datalab-handout/bits.c gives the pattern of the float that is nearest.
use native.Mathlib.Nat.{le-div_iff_mul-le, two-pow-succ, mul-le-mul_right}
use splab.Prelude.{
  ℕ, zero, suc, ◌+◌, ◌-◌, ◌*◌, ◌/◌, ◌%◌, ◌^◌, ◌≤◌, ◌<◌, ◌≡◌, true, false, ◌&&◌, ◌==◌, ltb, some,
  refl, sym, subst, ap, ◌∙◌, arith, Bool-cases, inl, inr,
}
use splab.Prelude.Fault.{Ensures}
use splab.Bits.Word.{
  modulus, ones, word_not, word_and, word_or, word_add, shift_left, shift_unsigned, signed,
}
use splab.Bits.Word.Digits.{zero-or, or-zero}
use splab.Bits.Word.Fields.{and-mask, or_split, pow_pos}
use splab.Bits.Word.Shifts.{pow_add, div_bound, sign-pos, sign-neg}
use splab.Bits.Floats.{finite, pattern_of, decode}
use splab.Bits.Floats.Fields.{decode_lem, sign_or}
use splab.Bits.Convert.{
  count_digits, lose_digits, put_together, from_size, float_i2f, round_even, excess, rounded,
  to_float,
}
use splab.Bits.Convert.Loops.{IsLength, count_digits_lem, sticky, drop_digits_lem, excess_lem}
use splab.Bits.Convert.Round.{carry, round_off_lem, round_even_lem}

shift_left_small : (e : ℕ) → e ≤ 159 → shift_left e 23 ≡ e * 2 ^ 23
unfolding shift_left
shift_left_small e l = omega arith

sticky_bound : (c r : ℕ) → sticky c r < 2
sticky_bound c r = elim (Bool-cases (c == 0 && r == 0)) [
  | inl f ↦ rw f (omega arith)
  | inr f ↦ rw f (omega arith)
]

-- What is left of a number without its last j digits
top_digits :
    (n j : ℕ) → 2 ^ (24 + j) ≤ n → n < 2 ^ (25 + j) → (2 ^ 24 ≤ n / 2 ^ j) × (n / 2 ^ j < 2 ^ 25)
top_digits n j low high =
    let low' : 2 ^ 24 * 2 ^ j ≤ n = rw (pow_add 24 j) at low in
    let high' : n < 2 ^ 25 * 2 ^ j = rw (pow_add 25 j) at high in
    (
      (le-div_iff_mul-le (pow_pos j)).1 low',
      div_bound (2 ^ j) (2 ^ 25) n (omega (arith, high')) (pow_pos j),
    )

rounded_lost :
    (n j : ℕ)
    → IsLength n (25 + j)
    → j ≤ 7
    → rounded n ≡ (n / 2 ^ j / 2 + carry (sticky 0 (n % 2 ^ j)) (n / 2 ^ j)) * 2 ^ suc j
unfolding rounded
rounded_lost n j size l =
    let lost : excess 8 n ≡ suc j = excess_lem 8 n (25 + j) size (omega arith) ∙ omega arith in
    rw (lost, round_even_lem n j) refl

lost_value : (n j q : ℕ) → rounded n ≡ q * 2 ^ suc j → q * 2 ^ (25 + j + 125) ≡ rounded n * 2 ^ 149
lost_value n j q e =
    let sum : 25 + j + 125 ≡ suc j + 149 = omega arith in
    rw (e, sum, pow_add (suc j) 149) (grind arith)

-- A number that was rounded up to the next exponent
carried :
    (j q : ℕ) → q ≡ 2 ^ 24 → (2 ^ 23 + q % 2 ^ 23) * 2 ^ (26 + j + 125) ≡ q * 2 ^ (25 + j + 125)
carried j q full =
    let low : 2 ^ 23 + q % 2 ^ 23 ≡ 2 ^ 23 = omega (arith, full) in
    let next : 26 + j + 125 ≡ suc (25 + j + 125) = omega arith in
    rw (low, full, next) (omega (arith, two-pow-succ (25 + j + 125)))

module _ (t : ℕ) (t_bound : t < 2) where
  -- The three parts are put next to each other.
  join_parts :
      (e m : ℕ)
      → e < 2 ^ 8
      → m < 2 ^ 23
      → word_or (word_or (t * 2 ^ 31) m) (e * 2 ^ 23) ≡ pattern_of t e m
  join_parts e m q r =
      let alone : 0 * 2 ^ 23 + m ≡ m = omega arith in
      let top : e * 2 ^ 23 + 0 ≡ e * 2 ^ 23 = omega arith in
      let low = rw (alone, top) at (or_split 23 0 e m 0 r (omega arith)) in
      let none : 0 * 2 ^ 31 + e * 2 ^ 23 ≡ e * 2 ^ 23 = omega arith in
      let whole =
        rw none at (or_split 31 t 0 m (e * 2 ^ 23) (omega (arith, r)) (omega (arith, q))) in
      rw (sign_or t m (omega (arith, r)))
        (omega (arith, whole, low, zero-or e, or-zero t, or-zero m))

  -- The end of `float_i2f`, for a number with digits
  put_together_lem :
      (b f s w : ℕ)
      → 1 ≤ b
      → b ≤ 33
      → shift_left f s ≡ w
      → decode (put_together (t * 2 ^ 31) b f s)
        ≡ finite (t == 1) ((2 ^ 23 + w % 2 ^ 23) * 2 ^ (b + 125))
  unfolding put_together
  put_together_lem b f s w p q e =
      let some_digits : (b == 0) ≡ false = ground arith in
      let biased : word_add b 126 ≡ b + 126 = omega arith in
      let placed : shift_left (b + 126) 23 ≡ (b + 126) * 2 ^ 23 =
        shift_left_small (b + 126) (omega arith) in
      let masked : word_and w 0x007fffff ≡ w % 2 ^ 23 = and-mask 23 w in
      let normal : (b + 126 == 0) ≡ false = ground arith in
      let finite_one : (b + 126 == 0xff) ≡ false = ground arith in
      let less : b + 126 - 1 ≡ b + 125 = omega arith in
      rw
        (
          some_digits,
          e,
          masked,
          biased,
          placed,
          join_parts (b + 126) (w % 2 ^ 23) (omega arith) (omega arith),
          decode_lem t (b + 126) (w % 2 ^ 23) t_bound (omega arith) (omega arith),
          normal,
          finite_one,
          less,
        )
        refl

  rounded_exact : (n : ℕ) → excess 8 n ≡ 0 → rounded n ≡ n
  unfolding rounded round_even
  rounded_exact n e =
      let whole : n / 2 ^ 0 ≡ n = omega arith in
      let none : n % 2 ^ 0 ≡ 0 = omega arith in rw (e, whole, none) (omega arith)

  -- What is to be shown of a number of `m` digits
  abbrev Converts : ℕ → ℕ → Type 0
  Converts n m =
      IsLength n m
      → count_digits 33 0 n ≡ some m
      → Ensures (from_size (t * 2 ^ 31) n) (λ uf. decode uf ≡ finite (t == 1) (rounded n * 2 ^ 149))

  convert_zero : Converts 0 0
  unfolding from_size put_together shift_left rounded excess round_even
  convert_zero size counted =
      let whole : t * 2 ^ 31 ≡ pattern_of t 0 0 = omega arith in
      rw (counted, or-zero (t * 2 ^ 31), or-zero (t * 2 ^ 31), whole)
        (decode_lem t 0 0 t_bound (omega arith) (omega arith))

  -- No digits are lost.
  convert_exact : (n k : ℕ) → suc k ≤ 24 → Converts n (suc k)
  unfolding from_size shift_left
  convert_exact n k l (low, high) counted =
      let s = 24 - suc k in
      let shift : word_add 24 (word_add (word_not (suc k)) 1) ≡ s = omega arith in
      let positive : ltb s (2 ^ 31) ≡ true = ground arith in
      let least : 2 ^ k * 2 ^ s ≤ n * 2 ^ s = mul-le-mul_right (2 ^ s) low in
      let most : suc n * 2 ^ s ≤ 2 ^ suc k * 2 ^ s = mul-le-mul_right (2 ^ s) high in
      let from : 2 ^ k * 2 ^ s ≡ 2 ^ 23 =
        sym (pow_add k s) ∙ ap (2 ^◌) (let sum : k + s ≡ 23 = omega arith in sum) in
      let to : 2 ^ suc k * 2 ^ s ≡ 2 ^ 24 =
        sym (pow_add (suc k) s) ∙ ap (2 ^◌) (let sum : suc k + s ≡ 24 = omega arith in sum) in
      let next : suc n * 2 ^ s ≡ n * 2 ^ s + 2 ^ s = grind arith in
      let w = n * 2 ^ s in
      let bottom : 2 ^ 23 ≤ w = omega (arith, least, from) in
      let top : w < 2 ^ 24 = omega (arith, most, to, next, pow_pos s) in
      let fraction : 2 ^ 23 + w % 2 ^ 23 ≡ w = omega arith in
      let exponent : 2 ^ s * 2 ^ (suc k + 125) ≡ 2 ^ 149 =
        sym (pow_add s (suc k + 125))
        ∙ ap (2 ^◌) (let sum : s + (suc k + 125) ≡ 149 = omega arith in sum) in
      let value : w * 2 ^ (suc k + 125) ≡ n * 2 ^ 149 =
        (let assoc : n * 2 ^ s * 2 ^ (suc k + 125) ≡ n * (2 ^ s * 2 ^ (suc k + 125)) =
            grind arith in
          assoc ∙ ap (n *◌) exponent) in
      let none_lost : excess 8 n ≡ 0 =
        excess_lem 8 n (suc k) (low, high) (omega arith) ∙ omega arith in
      let same : (2 ^ 23 + w % 2 ^ 23) * 2 ^ (suc k + 125) ≡ rounded n * 2 ^ 149 =
        ap (λ (a : ℕ). a * 2 ^ (suc k + 125)) fraction
        ∙ value
        ∙ ap (λ (a : ℕ). a * 2 ^ 149) (sym (rounded_exact n none_lost)) in
      rw (counted, shift, positive)
        (put_together_lem (suc k) n s w (omega arith) (omega arith) (omega (arith, top))
          ∙ ap (finite (t == 1)) same)

  -- `j` digits are lost, and one more.
  convert_lost : (n j : ℕ) → j ≤ 7 → Converts n (25 + j)
  unfolding from_size lose_digits shift_left shift_unsigned
  convert_lost n j l size counted =
      let g = n / 2 ^ j in
      let c = sticky 0 (n % 2 ^ j) in
      let q = g / 2 + carry c g in
      let bits : IsLength n (suc (24 + j)) =
        rw (let sum : 25 + j ≡ suc (24 + j) = omega arith in sum) at size in
      let shift : ltb (word_add 24 (word_add (word_not (25 + j)) 1)) (2 ^ 31) ≡ false =
        ground arith in
      let over : suc (24 + j) ≡ 25 + j = omega arith in
      let high : n < 2 ^ (25 + j) = rw over at bits.1 in
      let (g_low, g_high) = top_digits n j bits.0 high in
      let dropped = drop_digits_lem 33 j 0 n (omega arith) bits.0 high (omega arith) in
      let off = round_off_lem c g (sticky_bound 0 (n % 2 ^ j)) (omega arith) in
      let up : carry c g ≤ 1 = omega arith in
      let q_low : 2 ^ 23 ≤ q = omega (arith, g_low) in
      let q_high : q ≤ 2 ^ 24 = omega (arith, g_high, up) in
      let placed : shift_left q 0 ≡ q = omega (arith, q_high) in
      let value = lost_value n j q (rounded_lost n j size l) in
      elim (Bool-cases (q / 2 ^ 24 == 0)) [
        | inl f ↦
            let fraction : 2 ^ 23 + q % 2 ^ 23 ≡ q =
              (let less : q / 2 ^ 24 ≡ 0 = ground arith in omega (arith, less, q_low)) in
            rw (counted, shift, dropped, off, f)
              (put_together_lem (25 + j) q 0 q (omega arith) (omega arith) placed
                ∙ ap (finite (t == 1)) (ap (λ (a : ℕ). a * 2 ^ (25 + j + 125)) fraction ∙ value))
        | inr f ↦
            let full : q ≡ 2 ^ 24 =
              (let more : 1 ≤ q / 2 ^ 24 = ground arith in omega (arith, more, q_high)) in
            let next : word_add (25 + j) 1 ≡ 26 + j = omega arith in
            rw (counted, shift, dropped, off, f, next)
              (put_together_lem (26 + j) q 0 q (omega arith) (omega arith) placed
                ∙ ap (finite (t == 1)) (carried j q full ∙ value))
      ]

  convert_any : (n m : ℕ) → m ≤ 32 → Converts n m
  convert_any n zero l size counted = rw size (convert_zero refl (rw size at counted))
  convert_any n (suc k) l size counted = elim (Bool-cases (ltb k 24)) [
    | inl f ↦ convert_exact n k (ground arith) size counted
    | inr f ↦
        let j = k - 24 in
        let above : 24 ≤ k = ground arith in
        let sum : suc k ≡ 25 + j = omega arith in
        convert_lost n j (omega arith) (subst (IsLength n) sum size) (rw sum at counted)
  ]

  -- Both loops end, and the pattern is that of the nearest float.
  from_size_lem :
      (n : ℕ)
      → n < modulus
      → Ensures (from_size (t * 2 ^ 31) n) (λ uf. decode uf ≡ finite (t == 1) (rounded n * 2 ^ 149))
  from_size_lem n l =
      let (m, size, bound, counted) = count_digits_lem 33 32 0 n l (omega arith) (omega arith) in
      let same : 0 + m ≡ m = omega arith in convert_any n m bound size (rw same at counted)

-- For every `int`, the loops of `float_i2f` end, and the result is the pattern of the float that is
-- nearest to it, and of two that are as near, of the one with the even fraction.
pub float_i2f_lem :
    (x : ℕ) → x < modulus → Ensures (float_i2f x) (λ uf. decode uf ≡ to_float (signed x))
unfolding float_i2f
float_i2f_lem x l = elim (Bool-cases (ltb x (2 ^ 31))) [
  | inl f ↦ let sign = sign-pos x (ground arith) in rw (sign, f) (from_size_lem 0 (omega arith) x l)
  | inr f ↦
      let sign = sign-neg x (ground arith) l in
      let large : 2 ^ 31 ≤ x = ground arith in
      let size : word_add (word_not x) 1 ≡ ones - x + 1 = omega arith in
      rw (sign, size, f) (from_size_lem 1 (omega arith) (ones - x + 1) (omega (arith, large)))
]
