-- ===== src/Bits/Floats/Twice.antt =====
-- `float_twice` of datalab-handout/bits.c doubles.
use native.Mathlib.Nat.{pow-le-pow_right, mul-le-mul_right}
use splab.Prelude.{
  ℕ, zero, suc, ◌+◌, ◌-◌, ◌*◌, ◌/◌, ◌%◌, ◌^◌, ◌≤◌, ◌<◌, ◌≡◌, ◌≢◌, Bool, true, false, ◌==◌, ltb,
  if◌then◌else◌, refl, sym, ap, ◌∙◌, arith, Bool-cases, inl, inr,
}
use splab.Bits.Word.{modulus, word_and, word_xor, word_add, shift_left, shift_unsigned}
use splab.Bits.Word.Fields.{and-mask, xor-zero, double}
use splab.Bits.Floats.{nan, finite, pattern_of, value_of, decode, doubled, float_twice}
use splab.Bits.Floats.Fields.{word-IsPattern, decode_lem, sign_bit, sign_or}

xor_differs : (e c : ℕ) → e < 2 ^ 8 → c < 2 ^ 8 → e ≢ c → (word_xor e c == 0) ≡ false
xor_differs e c l k n = elim (Bool-cases (word_xor e c == 0)) [
  | inl f ↦ let same : word_xor e c ≡ 0 = ground arith in absurd (n (xor-zero 8 e c l k same))
  | inr f ↦ f
]

module _ (t m : ℕ) (t_bound : t < 2) (m_bound : m < 2 ^ 23) where
  exponent_lem : (e : ℕ) → e < 2 ^ 8 → word_and (shift_unsigned (pattern_of t e m) 23) 0xff ≡ e
  unfolding shift_unsigned
  exponent_lem e l = and-mask 8 (pattern_of t e m / 2 ^ 23) ∙ omega (arith, l, m_bound)

  abbrev Doubles : ℕ → Type 0
  Doubles e = decode (float_twice (pattern_of t e m)) ≡ doubled (decode (pattern_of t e m))

  -- A denormalized number; what it carries becomes an exponent.
  shifted : decode (t * 2 ^ 31 + m * 2) ≡ finite (t == 1) (m * 2)
  shifted = elim (Bool-cases (ltb m (2 ^ 22))) [
    | inl f ↦
        let low : m < 2 ^ 22 = ground arith in
        let whole : t * 2 ^ 31 + m * 2 ≡ pattern_of t 0 (m * 2) = omega arith in
        rw whole (decode_lem t 0 (m * 2) t_bound (omega arith) (omega arith))
    | inr f ↦
        let high : 2 ^ 22 ≤ m = ground arith in
        let rest = m * 2 - 2 ^ 23 in
        let whole : t * 2 ^ 31 + m * 2 ≡ pattern_of t 1 rest = omega arith in
        let value : (2 ^ 23 + rest) * 2 ^ 0 ≡ m * 2 = omega arith in
        rw whole
          (decode_lem t 1 rest t_bound (omega arith) (omega arith) ∙ ap (finite (t == 1)) value)
  ]

  twice_zero : Doubles 0
  unfolding float_twice shift_left
  twice_zero =
      let moved : pattern_of t 0 m * 2 ^ 1 % modulus ≡ m * 2 = omega arith in
      let small : ltb (m * 2) (2 ^ 277) ≡ true = ground arith in
      rw
        (
          exponent_lem 0 (omega arith),
          sign_bit t 0 m t_bound (omega arith) m_bound,
          moved,
          sign_or t (m * 2) (omega arith),
          decode_lem t 0 m t_bound (omega arith) m_bound,
          shifted,
          small,
        )
        refl

  twice_full : Doubles 0xff
  unfolding float_twice
  twice_full =
      rw (exponent_lem 0xff (omega arith), decode_lem t 0xff m t_bound (omega arith) m_bound)
        (elim (Bool-cases (m == 0)) [ inl f ↦ rw f refl | inr f ↦ rw f refl ])

  twice_top : Doubles 0xfe
  unfolding float_twice shift_left
  twice_top =
      let over : ltb ((2 ^ 23 + m) * 2 ^ 253 * 2) (2 ^ 277) ≡ false = ground arith in
      let whole : t * 2 ^ 31 + 0x7f800000 ≡ pattern_of t 0xff 0 = omega arith in
      rw
        (
          exponent_lem 0xfe (omega arith),
          sign_bit t 0xfe m t_bound (omega arith) m_bound,
          sign_or t 0x7f800000 (omega arith),
          whole,
          decode_lem t 0xff 0 t_bound (omega arith) (omega arith),
          decode_lem t 0xfe m t_bound (omega arith) m_bound,
          over,
        )
        refl

  twice_normal : (k : ℕ) → k < 253 → Doubles (suc k)
  unfolding float_twice shift_left
  twice_normal k l =
      let e = suc k in
      let bound : e < 2 ^ 8 = omega arith in
      let next : e + 1 < 2 ^ 8 = omega arith in
      let not_zero : (e == 0) ≡ false = ground arith in
      let not_full : (e == 0xff) ≡ false = ground arith in
      let next_zero : (e + 1 == 0) ≡ false = ground arith in
      let next_full : (e + 1 == 0xff) ≡ false = ground arith in
      let power : 2 ^ k ≤ 2 ^ 252 =
        (let below : k ≤ 252 = omega arith in pow-le-pow_right {n = 2} (omega arith) below) in
      let factor : 2 ^ 23 + m ≤ 2 ^ 24 - 1 = omega arith in
      let product : (2 ^ 23 + m) * 2 ^ k ≤ (2 ^ 24 - 1) * 2 ^ k = mul-le-mul_right (2 ^ k) factor in
      let small : ltb ((2 ^ 23 + m) * 2 ^ k * 2) (2 ^ 277) ≡ true =
        (let less : (2 ^ 23 + m) * 2 ^ k * 2 < 2 ^ 277 = omega (arith, power, product) in
          ground arith) in
      let less_one : suc k - 1 ≡ k = omega arith in
      let counted : e + 1 - 1 ≡ suc k = omega arith in
      let value : (2 ^ 23 + m) * 2 ^ suc k ≡ (2 ^ 23 + m) * 2 ^ k * 2 = double k (2 ^ 23 + m) in
      let whole : word_add (pattern_of t e m) (2 ^ 23) ≡ pattern_of t (e + 1) m = omega arith in
      rw
        (
          exponent_lem e bound,
          not_zero,
          xor_differs e 0xfe bound (omega arith) (λ f. omega (arith, f)),
          xor_differs e 0xff bound (omega arith) (λ f. omega (arith, f)),
          whole,
          decode_lem t (e + 1) m t_bound next m_bound,
          decode_lem t e m t_bound bound m_bound,
          next_zero,
          next_full,
          not_full,
          not_zero,
          counted,
          less_one,
          value,
          small,
        )
        refl

  twice_parts : (e : ℕ) → e < 2 ^ 8 → Doubles e
  twice_parts zero l = twice_zero
  twice_parts (suc k) l = elim (Bool-cases (k == 0xfd)) [
    | inl f ↦ let same : k ≡ 0xfd = ground arith in rw same twice_top
    | inr f ↦ elim (Bool-cases (k == 0xfe)) [
      | inl g ↦ let same : k ≡ 0xfe = ground arith in rw same twice_full
      | inr g ↦ twice_normal k (ground arith)
    ]
  ]

nan_exponent : (negative : Bool) (e m : ℕ) → value_of negative e m ≡ nan → e ≡ 0xff
nan_exponent negative e m h = elim (Bool-cases (e == 0xff)) [
  | inl f ↦ ground arith
  | inr f ↦
      let no : finite negative (if e == 0 then m else (2 ^ 23 + m) * 2 ^ (e - 1)) ≡ nan =
        rw f at h in
      cc
]

-- A pattern that is no number stays as it is.
twice_nan :
    (t e m : ℕ)
    → t < 2
    → e < 2 ^ 8
    → m < 2 ^ 23
    → decode (pattern_of t e m) ≡ nan
    → float_twice (pattern_of t e m) ≡ pattern_of t e m
unfolding float_twice
twice_nan t e m p q r h =
    let full = nan_exponent (t == 1) e m (sym (decode_lem t e m p q r) ∙ h) in
    rw (exponent_lem t m p r e q, full) refl

-- `float_twice` gives the pattern of twice the number, also where the number or the result is
-- denormalized, and that of an infinity where twice the number is 2 ^ 128 or more. An infinity
-- stays as it is, and so does a pattern that is no number.
pub float_twice_lem :
    (uf : ℕ)
    → uf < modulus
    → (decode (float_twice uf) ≡ doubled (decode uf)) × (decode uf ≡ nan → float_twice uf ≡ uf)
float_twice_lem uf l =
    let cut = word-IsPattern uf l in
    rw cut.parts (
      twice_parts _ _ cut.sign cut.fraction _ cut.exponent,
      twice_nan _ _ _ cut.sign cut.exponent cut.fraction,
    )
