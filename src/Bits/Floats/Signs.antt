-- ===== src/Bits/Floats/Signs.antt =====
-- `float_neg` of datalab-handout/bits.c turns the sign.
use splab.Prelude.{
  ℕ, zero, suc, ◌+◌, ◌-◌, ◌*◌, ◌^◌, ◌<◌, ◌≡◌, Bool, true, false, not, ◌||◌, ◌==◌, if◌then◌else◌,
  refl, sym, ◌∙◌, arith, Bool-cases, inl, inr,
}
use splab.Bits.Word.{modulus}
use splab.Bits.Floats.{nan, infinite, finite, pattern_of, value_of, decode, opposite, float_neg}
use splab.Bits.Floats.Fields.{word-IsPattern, decode_lem, exponent_bits, fraction_bits, sign_flip}

opposite-value :
    (t e m : ℕ) → t < 2 → opposite (value_of (t == 1) e m) ≡ value_of ((1 - t) == 1) e m
opposite-value zero e m l = elim (Bool-cases (e == 0xff)) [
  | inl f ↦ elim (Bool-cases (m == 0)) [ inl g ↦ rw (f, g) refl | inr g ↦ rw (f, g) refl ]
  | inr f ↦ rw f refl
]
opposite-value (suc zero) e m l = elim (Bool-cases (e == 0xff)) [
  | inl f ↦ elim (Bool-cases (m == 0)) [ inl g ↦ rw (f, g) refl | inr g ↦ rw (f, g) refl ]
  | inr f ↦ rw f refl
]
opposite-value (suc (suc t)) e m l = absurd (omega (arith, l))

-- What the test of `float_neg` finds: it is a number.
abbrev is_number : ℕ → ℕ → Bool
is_number e m = not ((0xff - e) * 2 ^ 23 == 0) || m == 0

number_lem :
    (negative : Bool) (e m : ℕ) → e < 2 ^ 8 → is_number e m ≡ true → value_of negative e m ≡ nan → ⊥
number_lem negative e m l h k = elim (Bool-cases (e == 0xff)) [
  | inl f ↦ elim (Bool-cases (m == 0)) [
    | inl g ↦ let no : infinite negative ≡ nan = rw (f, g) at k in cc
    | inr g ↦
        let full : ((0xff - e) * 2 ^ 23 == 0) ≡ true = ground arith in
        let no : false ≡ true = rw (full, g) at h in cc
  ]
  | inr f ↦
      let no : finite negative (if e == 0 then m else (2 ^ 23 + m) * 2 ^ (e - 1)) ≡ nan =
        rw f at k in
      cc
]

no_number_lem :
    (negative : Bool) (e m : ℕ) → e < 2 ^ 8 → is_number e m ≡ false → value_of negative e m ≡ nan
no_number_lem negative e m l h =
    let full : (e == 0xff) ≡ true = ground arith in
    let some_bits : (m == 0) ≡ false = ground arith in rw (full, some_bits) refl

neg_parts :
    (t e m : ℕ)
    → t < 2
    → e < 2 ^ 8
    → m < 2 ^ 23
    → (decode (float_neg (pattern_of t e m)) ≡ opposite (decode (pattern_of t e m)))
      × (decode (pattern_of t e m) ≡ nan → float_neg (pattern_of t e m) ≡ pattern_of t e m)
unfolding float_neg
neg_parts t e m p q r =
    let flipped : 1 - t < 2 = omega arith in
    let value = decode_lem t e m p q r in
    elim (Bool-cases (is_number e m)) [
      | inl f ↦
          rw (exponent_bits t e m p q r, fraction_bits t e m p q r, f, sign_flip t e m p q r)
            (
              rw (decode_lem (1 - t) e m flipped q r, value) (sym (opposite-value t e m p)),
              λ k. absurd (number_lem (t == 1) e m q f (sym value ∙ k)),
            )
      | inr f ↦
          let none = no_number_lem (t == 1) e m q f in
          rw (exponent_bits t e m p q r, fraction_bits t e m p q r, f)
            (rw (value, none) refl, λ k. refl)
    ]

-- `float_neg` gives the pattern of the number or infinity with the other sign, and a pattern that
-- is no number as it is.
pub float_neg_lem :
    (uf : ℕ)
    → uf < modulus
    → (decode (float_neg uf) ≡ opposite (decode uf)) × (decode uf ≡ nan → float_neg uf ≡ uf)
float_neg_lem uf l =
    let cut = word-IsPattern uf l in
    rw cut.parts (neg_parts _ _ _ cut.sign cut.exponent cut.fraction)
