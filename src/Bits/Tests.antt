-- ===== src/Bits/Tests.antt =====
-- The puzzles at words, and the theorems at them.
use splab.Prelude.{◌-◌, ◌≡◌, refl, some, arith}
use splab.Bits.Word.{shift_left, shift_right}
use splab.Bits.Puzzles.{get_byte, logical_shift, bit_count, divpwr2, is_less_or_equal, ilog2}
use splab.Bits.Reference.{test_bit_count, test_ilog2, test_divpwr2, test_is_less_or_equal}
use splab.Bits.Count.{bit_count_agrees}
use splab.Bits.Log.{ilog2_agrees}
use splab.Bits.Shift.{divpwr2_agrees}
use splab.Bits.Compare.{is_less_or_equal_agrees}
use splab.Bits.Floats.{nan, decode, opposite, doubled, float_neg, float_twice}
use splab.Bits.Convert.{
  to_float, float_i2f, from_size, count_digits, lose_digits, drop_digits, round_off, put_together,
}
use splab.Bits.Convert.Pattern.{float_i2f_lem}
use splab.Prelude.Fault.{Ensures}
use splab.Bits.Word.{signed, shift_unsigned}
use splab.Bits.Floats.Signs.{float_neg_lem}
use splab.Bits.Floats.Twice.{float_twice_lem}

-- The examples in the comments of bits.c
get_byte_test : get_byte 0x12345678 1 ≡ some 0x56
unfolding get_byte shift_left shift_right
get_byte_test = refl

logical_shift_test : logical_shift 0x87654321 4 ≡ some 0x08765432
unfolding logical_shift shift_left shift_right
logical_shift_test = refl

divpwr2_test : divpwr2 (0x1_0000_0000 - 33) 4 ≡ some (0x1_0000_0000 - 2)
unfolding divpwr2 shift_left shift_right
divpwr2_test = refl

bit_count_agrees_example : bit_count 0x4007e8f0 ≡ test_bit_count 0x4007e8f0
bit_count_agrees_example = bit_count_agrees 0x4007e8f0 (omega arith)

ilog2_agrees_example : test_ilog2 1000 ≡ some (ilog2 1000)
ilog2_agrees_example = ilog2_agrees 1000 (omega arith) (omega arith)

-- -33 by 16
divpwr2_agrees_example : divpwr2 0xffffffdf 4 ≡ test_divpwr2 0xffffffdf 4
divpwr2_agrees_example = divpwr2_agrees 0xffffffdf 4 (omega arith) (omega arith)

-- The least `int` and the greatest, whose difference overflows
is_less_or_equal_agrees_example :
    is_less_or_equal 0x80000000 0x7fffffff ≡ test_is_less_or_equal 0x80000000 0x7fffffff
is_less_or_equal_agrees_example =
    is_less_or_equal_agrees 0x80000000 0x7fffffff (omega arith) (omega arith)

float_twice_lem_example :
    (decode (float_twice 0x7f000001) ≡ doubled (decode 0x7f000001))
    × (decode 0x7f000001 ≡ nan → float_twice 0x7f000001 ≡ 0x7f000001)
float_twice_lem_example = float_twice_lem 0x7f000001 (omega arith)

float_neg_lem_example :
    (decode (float_neg 0x7fc00000) ≡ opposite (decode 0x7fc00000))
    × (decode 0x7fc00000 ≡ nan → float_neg 0x7fc00000 ≡ 0x7fc00000)
float_neg_lem_example = float_neg_lem 0x7fc00000 (omega arith)

-- -16777219 has 25 digits and lies between two floats.
float_i2f_lem_example :
    Ensures (float_i2f 0xfefffffd) (λ uf. decode uf ≡ to_float (signed 0xfefffffd))
float_i2f_lem_example = float_i2f_lem 0xfefffffd (omega arith)

float_i2f_test : float_i2f 0xfefffffd ≡ some 0xcb800002
unfolding float_i2f from_size count_digits lose_digits drop_digits round_off put_together shift_left
    shift_right shift_unsigned
float_i2f_test = refl
