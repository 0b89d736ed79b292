-- ===== src/Bits/Compare.antt =====
-- `fitsBits`, `isPositive` and `isLessOrEqual` of datalab-handout/bits.c against
-- datalab-handout/tests.c.
use native.Mathlib.Nat.{pow-le-pow_right, div-le_self}
use splab.Prelude.{
  ℕ, ◌+◌, ◌-◌, ◌*◌, ◌/◌, ◌^◌, ◌≤◌, ◌<◌, ◌≡◌, ◌⊎◌, refl, ap, Bool, Bool-cases, inl, inr, true, false,
  ltb, leb, ◌==◌, ◌&&◌, some, arith,
}
use splab.Prelude.Int.{pos, negsuc}
use splab.Bits.Word.{modulus, ones, word_not, word_or, word_add, logical_not, shift_right, signed}
use splab.Bits.Word.Digits.{and-zero}
use splab.Bits.Word.Fields.{pow_pos}
use splab.Bits.Word.Shifts.{sign-pos, sign-neg, shift_right-pos, shift_right-neg, shift_left-bit}
use splab.Bits.Puzzles.{fits_bits, is_positive, is_less_or_equal}
use splab.Bits.Reference.{from_bool, minus, test_fits_bits, test_is_positive, test_is_less_or_equal}

pub is_positive_agrees : (x : ℕ) → x < modulus → is_positive x ≡ test_is_positive x
unfolding is_positive test_is_positive
is_positive_agrees x p = elim (Bool-cases (ltb x (2 ^ 31))) [
  | inl e ↦ elim (Bool-cases (x == 0)) [
    | inl f ↦
        let g : leb 1 x ≡ false = ground arith in rw (sign-pos x (ground arith), e, f) (rw g refl)
    | inr f ↦
        let g : leb 1 x ≡ true = ground arith in rw (sign-pos x (ground arith), e, f) (rw g refl)
  ]
  | inr e ↦ let f : (x == 0) ≡ false = ground arith in rw (sign-neg x (ground arith) p, e, f) refl
]

-- `ss` of `isLessOrEqual`: 1 if the difference is not negative
difference : ℕ → ℕ → ℕ
difference x y = word_add (shift_right (word_add (word_add (word_not x) y) 1) 31) 1

difference-le : (x y : ℕ) → x < modulus → y < modulus → x ≤ y → y < x + 2 ^ 31 → difference x y ≡ 1
unfolding difference
difference-le x y p q l m =
    let d = word_add (word_add (word_not x) y) 1 in rw (sign-pos d (omega (arith, p, q, l, m))) refl

difference-gt : (x y : ℕ) → x < modulus → y < modulus → y < x → x ≤ y + 2 ^ 31 → difference x y ≡ 0
unfolding difference
difference-gt x y p q l m =
    let d = word_add (word_add (word_not x) y) 1 in
    rw (sign-neg d (omega (arith, p, q, l, m)) (omega arith)) refl

difference_bit : (x y : ℕ) → (difference x y ≡ 0) ⊎ (difference x y ≡ 1)
unfolding difference
difference_bit x y =
    let d = word_add (word_add (word_not x) y) 1 in
    elim (Bool-cases (ltb d (2 ^ 31))) [
      | inl e ↦ inr (rw (sign-pos d (ground arith)) refl)
      | inr e ↦ inl (rw (sign-neg d (ground arith) (omega arith)) refl)
    ]

-- `isLessOrEqual` compares by value, also where the difference overflows.
pub is_less_or_equal_agrees :
    (x y : ℕ) → x < modulus → y < modulus → is_less_or_equal x y ≡ test_is_less_or_equal x y
unfolding is_less_or_equal test_is_less_or_equal difference
is_less_or_equal_agrees x y p q = elim (Bool-cases (ltb x (2 ^ 31))) [
  | inl e ↦ elim (Bool-cases (ltb y (2 ^ 31))) [
    | inl f ↦
        rw (sign-pos x (ground arith), sign-pos y (ground arith), e, f)
          (elim (Bool-cases (leb x y)) [
            | inl g ↦ rw (difference-le x y p q (ground arith) (ground arith), g) refl
            | inr g ↦ rw (difference-gt x y p q (ground arith) (ground arith), g) refl
          ])
    | inr f ↦
        rw (sign-pos x (ground arith), sign-neg y (ground arith) q, e, f)
          (and-zero (word_or 0 (difference x y)))
  ]
  | inr e ↦ elim (Bool-cases (ltb y (2 ^ 31))) [
    | inl f ↦
        rw (sign-neg x (ground arith) p, sign-pos y (ground arith), e, f)
          (elim (difference_bit x y) [ inl g ↦ rw g refl | inr g ↦ rw g refl ])
    | inr f ↦
        rw (sign-neg x (ground arith) p, sign-neg y (ground arith) q, e, f)
          (elim (Bool-cases (leb (ones - y) (ones - x))) [
            | inl g ↦ rw (difference-le x y p q (ground arith) (ground arith), g) refl
            | inr g ↦ rw (difference-gt x y p q (ground arith) (ground arith), g) refl
          ])
  ]
]

div-zero : (size z : ℕ) → z < size → z / size ≡ 0
div-zero size z l = grind arith

div_pos : (size z : ℕ) → 0 < size → size ≤ z → 0 < z / size
div_pos size z l m = grind arith

-- What `fitsBits` computes from the word moved to the right, for an `int` that is not negative
fits-pos :
    (x size : ℕ)
    → x < 2 ^ 31
    → 0 < size
    → word_or (logical_not (x / size)) (logical_not (word_add (x / size) 1))
      ≡ from_bool (leb x (size - 1))
fits-pos x size l m =
    let small = div-le_self x size in
    let some_left : (word_add (x / size) 1 == 0) ≡ false = ground arith in
    elim (Bool-cases (leb x (size - 1))) [
      | inl e ↦ rw (some_left, div-zero size x (ground arith), e) refl
      | inr e ↦
          let more = div_pos size x m (ground arith) in
          let nonzero : (x / size == 0) ≡ false = ground arith in rw (some_left, nonzero, e) refl
    ]

-- ... and for a negative one
fits-neg :
    (z size : ℕ)
    → z < 2 ^ 31
    → 0 < size
    → word_or (logical_not (ones - z / size)) (logical_not (word_add (ones - z / size) 1))
      ≡ from_bool (leb z (size - 1))
fits-neg z size l m =
    let small = div-le_self z size in
    let nonzero : (ones - z / size == 0) ≡ false = ground arith in
    elim (Bool-cases (leb z (size - 1))) [
      | inl e ↦ rw (nonzero, div-zero size z (ground arith), e) refl
      | inr e ↦
          let more = div_pos size z m (ground arith) in
          let some_left : (word_add (ones - z / size) 1 == 0) ≡ false = ground arith in
          rw (nonzero, some_left, e) refl
    ]

and_true : (b : Bool) → (b && true) ≡ b
and_true true = refl
and_true false = refl

-- `fitsBits` says whether an `int` has n bits, for every n from 1 to 32.
pub fits_bits_agrees : (x n : ℕ) → x < modulus → 0 < n → n ≤ 32 → fits_bits x n ≡ test_fits_bits x n
unfolding fits_bits test_fits_bits
fits_bits_agrees x n p l m =
    let back : word_add n ones ≡ n - 1 = omega (arith, l, m) in
    let in_range : ltb (n - 1) 32 ≡ true = ground arith in
    let one = shift_left-bit (n - 1) 1 (omega (arith, l, m)) (omega arith) in
    let unit : 1 * 2 ^ (n - 1) ≡ 2 ^ (n - 1) = omega arith in
    let below : n - 1 ≤ 31 = omega (arith, m) in
    let size = 2 ^ (n - 1) in
    let top : size ≤ 2 ^ 31 = pow-le-pow_right {n = 2} (omega arith) below in
    let some_size = pow_pos (n - 1) in
    let least : signed (minus size) ≡ negsuc (size - 1) = ground arith in
    let greatest : signed (word_add size ones) ≡ pos (size - 1) = ground arith in
    rw (back, in_range)
      (rw (one, unit)
        (rw (least, greatest)
          (ap some (elim (Bool-cases (ltb x (2 ^ 31))) [
            | inl e ↦
                rw (e, shift_right-pos x (n - 1) (ground arith))
                  (fits-pos x size (ground arith) some_size)
            | inr e ↦
                rw (e, shift_right-neg x (n - 1) (ground arith))
                  (rw (and_true (leb (ones - x) (size - 1)))
                    (fits-neg (ones - x) size (ground arith) some_size))
          ]))))
