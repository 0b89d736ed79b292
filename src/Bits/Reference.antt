-- ===== src/Bits/Reference.antt =====
-- What the puzzles on integers are to compute: the functions of datalab-handout/tests.c.
use splab.Prelude.{
  ℕ, zero, suc, ◌+◌, ◌-◌, ◌/◌, ◌%◌, ◌^◌, Bool, true, false, ◌&&◌, leb, ◌==◌, if◌then◌else◌, Option,
  none, some,
}
use splab.Prelude.Int.{ℤ, pos, negsuc}
use splab.Prelude.Fault.{◌>>=◌}
use splab.Bits.Word.{
  modulus, ones, word_and, word_add, logical_not, shift_left, shift_right, shift_unsigned,
  shift_count, signed,
}

-- `x <= y` for `int`s
abbrev pub int_leb : ℤ → ℤ → Bool
int_leb (pos a) (pos b) = leb a b
int_leb (pos a) (negsuc b) = false
int_leb (negsuc a) (pos b) = true
int_leb (negsuc a) (negsuc b) = leb b a

-- The value of a comparison
abbrev pub from_bool : Bool → ℕ
from_bool true = 1
from_bool false = 0

-- `-x`, which wraps at the least `int`
abbrev pub minus : ℕ → ℕ
minus x = (modulus - x) % modulus

-- `x / d` for a positive `int` d: the quotient of the sizes, with the sign of x
abbrev pub int_div : ℤ → ℕ → ℕ
int_div (pos a) d = a / d
int_div (negsuc a) d = minus ((a + 1) / d)

-- `test_bitAnd`
unfoldable pub test_bit_and : ℕ → ℕ → ℕ
test_bit_and = word_and

-- `test_getByte`: the conversion to `unsigned char` keeps the low byte.
unfoldable pub test_get_byte : ℕ → ℕ → ℕ
test_get_byte x n =
    let by = if n == 0 then 0 else if n == 1 then 8 else if n == 2 then 16 else 24 in
    shift_right x by % 2 ^ 8

-- `test_logicalShift`
unfoldable pub test_logical_shift : ℕ → ℕ → Option ℕ
test_logical_shift x n = do by ← shift_count n; some (shift_unsigned x by)

-- The loop of `test_bitCount` from `i` on, with the rounds left
unfoldable pub count_from : ℕ → ℕ → ℕ → ℕ → ℕ
count_from zero i x result = result
count_from (suc rounds) i x result =
    count_from rounds (i + 1) x (word_add result (word_and (shift_right x i) 1))

-- `test_bitCount`
unfoldable pub test_bit_count : ℕ → ℕ
test_bit_count x = count_from 32 0 x 0

-- `test_bang`
unfoldable pub test_bang : ℕ → ℕ
test_bang = logical_not

-- `test_tmin`
unfoldable pub test_tmin : ℕ
test_tmin = 0x80000000

-- `test_fitsBits`
unfoldable pub test_fits_bits : ℕ → ℕ → Option ℕ
test_fits_bits x n = do
  by ← shift_count (word_add n ones)
  let tmin_n = minus (shift_left 1 by)
  let tmax_n = word_add (shift_left 1 by) ones
  some (from_bool (int_leb (signed tmin_n) (signed x) && int_leb (signed x) (signed tmax_n)))

-- `test_divpwr2`, for n of 30 at most, where `1 << n` is positive
unfoldable pub test_divpwr2 : ℕ → ℕ → Option ℕ
test_divpwr2 x n = do by ← shift_count n; some (int_div (signed x) (shift_left 1 by))

-- `test_negate`
unfoldable pub test_negate : ℕ → ℕ
test_negate = minus

-- `test_isPositive`
unfoldable pub test_is_positive : ℕ → ℕ
test_is_positive x = from_bool (int_leb (pos 1) (signed x))

-- `test_isLessOrEqual`
unfoldable pub test_is_less_or_equal : ℕ → ℕ → ℕ
test_is_less_or_equal x y = from_bool (int_leb (signed x) (signed y))

-- The loop of `test_ilog2` at `result`. Below 0 the shift has no result.
unfoldable pub leftmost_from : ℕ → ℕ → Option ℕ
leftmost_from zero x = if word_and x (shift_left 1 0) == 0 then none else some 0
leftmost_from (suc result) x =
    let rest = leftmost_from result x in
    if word_and x (shift_left 1 (suc result)) == 0 then rest else some (suc result)

-- `test_ilog2`
unfoldable pub test_ilog2 : ℕ → Option ℕ
test_ilog2 = leftmost_from 31
