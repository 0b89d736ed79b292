-- ===== src/Bits/Word.antt =====
-- The words of datalab-handout/bits.c: an `int` is its pattern of 32 bits, a number below 2 ^ 32. As
-- the rules at the top of that file say, arithmetic is in two's complement, a shift to the right
-- keeps the sign, and a shift by the size of the word or more has no result.
pub mod Digits
pub mod Fields
pub mod Shifts
use Prim.Native.Nat.{bit_and, bit_or, bit_xor}
use splab.Prelude.{
  ℕ, ◌+◌, ◌-◌, ◌*◌, ◌/◌, ◌%◌, ◌^◌, Bool, ltb, ◌==◌, if◌then◌else◌, Option, none, some,
}
use splab.Prelude.Int.{ℤ, pos, negsuc}

-- The number of words, and -1
abbrev pub modulus : ℕ
modulus = 2 ^ 32

abbrev pub ones : ℕ
ones = 2 ^ 32 - 1

-- `~x`
abbrev pub word_not : ℕ → ℕ
word_not x = ones - x

-- `x & y`, `x | y` and `x ^ y`
abbrev pub word_and : ℕ → ℕ → ℕ
word_and = bit_and

abbrev pub word_or : ℕ → ℕ → ℕ
word_or = bit_or

abbrev pub word_xor : ℕ → ℕ → ℕ
word_xor = bit_xor

-- `x + y`
abbrev pub word_add : ℕ → ℕ → ℕ
word_add x y = (x + y) % modulus

-- `!x`
abbrev pub logical_not : ℕ → ℕ
logical_not x = if x == 0 then 1 else 0

-- `x << n` and `x >> n` for an `int`, and for an `unsigned`, where n is below 32
unfoldable pub shift_left : ℕ → ℕ → ℕ
shift_left x n = x * 2 ^ n % modulus

unfoldable pub shift_right : ℕ → ℕ → ℕ
shift_right x n = if ltb x (2 ^ 31) then x / 2 ^ n else ones - (ones - x) / 2 ^ n

unfoldable pub shift_unsigned : ℕ → ℕ → ℕ
shift_unsigned x n = x / 2 ^ n

-- A count for which a shift has a result
abbrev pub shift_count : ℕ → Option ℕ
shift_count n = if ltb n 32 then some n else none

-- The value of an `int`
abbrev pub signed : ℕ → ℤ
signed x = if ltb x (2 ^ 31) then pos x else negsuc (ones - x)
