-- ===== src/Bits/Floats.antt =====
-- The puzzles on floats in datalab-handout/bits.c, and the value of a pattern of a float.
pub mod Fields
pub mod Signs
pub mod Twice
use splab.Prelude.{
  ℕ, zero, suc, ◌+◌, ◌-◌, ◌*◌, ◌/◌, ◌%◌, ◌^◌, Bool, true, false, not, ◌&&◌, ◌||◌, ltb, ◌==◌,
  if◌then◌else◌,
}
use splab.Bits.Word.{word_not, word_and, word_or, word_xor, word_add, shift_left, shift_unsigned}

-- `float_neg`
unfoldable pub float_neg : ℕ → ℕ
float_neg uf =
    if not (word_and (word_not uf) 0x7f800000 == 0) || word_and uf 0x007fffff == 0
    then word_xor uf (shift_left 1 31)
    else uf

-- The first case of `float_twice`, on `e` and `uf`: a denormalized number
abbrev pub twice_small : ℕ × ℕ → ℕ × ℕ
twice_small (e, uf) =
    if e == 0 then (0xff, word_or (word_and uf 0x80000000) (shift_left uf 1)) else (e, uf)

-- The second case: an overflow
abbrev pub twice_large : ℕ × ℕ → ℕ × ℕ
twice_large (e, uf) =
    if word_xor e 0xfe == 0
    then (0xff, word_or (word_and uf 0x80000000) (shift_left 0xff 23))
    else (e, uf)

-- The last step: the exponent is counted up.
abbrev pub twice_step : ℕ × ℕ → ℕ
twice_step (e, uf) = if word_xor e 0xff == 0 then uf else word_add uf (shift_left 1 23)

-- `float_twice`
unfoldable pub float_twice : ℕ → ℕ
float_twice uf = twice_step (twice_large (twice_small (word_and (shift_unsigned uf 23) 0xff, uf)))

-- The value of a pattern, for IEEE single precision: no number, an infinity or a number, each with
-- whether it is negative. The size of a number is counted in units of 2 ^ -149, the least one.
pub data Value : Type 0 where
  nan : Value
  infinite : Bool → Value
  finite : Bool → ℕ → Value

-- The pattern with the sign `t`, the exponent `e` and the fraction `m`
abbrev pub pattern_of : ℕ → ℕ → ℕ → ℕ
pattern_of t e m = t * 2 ^ 31 + (e * 2 ^ 23 + m)

abbrev pub value_of : Bool → ℕ → ℕ → Value
value_of negative e m =
    if e == 0xff
    then (if m == 0 then infinite negative else nan)
    else finite negative (if e == 0 then m else (2 ^ 23 + m) * 2 ^ (e - 1))

unfoldable pub decode : ℕ → Value
decode uf = value_of (uf / 2 ^ 31 == 1) (uf / 2 ^ 23 % 2 ^ 8) (uf % 2 ^ 23)

-- `-f`
abbrev pub opposite : Value → Value
opposite nan = nan
opposite (infinite negative) = infinite (not negative)
opposite (finite negative size) = finite (not negative) size

-- `2 * f`: what is not below 2 ^ 128 is infinite.
abbrev pub doubled : Value → Value
doubled nan = nan
doubled (infinite negative) = infinite negative
doubled (finite negative size) =
    if ltb (size * 2) (2 ^ 277) then finite negative (size * 2) else infinite negative
