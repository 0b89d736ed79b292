-- ===== src/Bits/Convert.antt =====
-- `float_i2f` of datalab-handout/bits.c, and the float that is nearest to an `int`. The loops take 33
-- rounds as fuel: each drops a digit of a word, which has 32.
pub mod Loops
pub mod Round
pub mod Pattern
use splab.Prelude.{
  ℕ, zero, suc, ◌+◌, ◌-◌, ◌*◌, ◌/◌, ◌%◌, ◌^◌, Bool, true, false, not, ltb, ◌==◌, if◌then◌else◌,
  Option, none, some,
}
use splab.Prelude.Int.{ℤ, pos, negsuc}
use splab.Prelude.Fault.{◌>>=◌}
use splab.Bits.Word.{word_not, word_and, word_or, word_add, shift_left, shift_right, shift_unsigned}
use splab.Bits.Floats.{Value, finite}

-- `while(t)`, which counts the digits
unfoldable pub count_digits : ℕ → ℕ → ℕ → Option ℕ
count_digits zero b t = none
count_digits (suc fuel) b t =
    let rest = count_digits fuel (word_add b 1) (shift_unsigned t 1) in
    if t == 0 then some b else rest

-- `while(f >> 25)`, which drops digits and keeps in `c` whether one of them was 1
unfoldable pub drop_digits : ℕ → ℕ → ℕ → Option (ℕ × ℕ)
drop_digits zero c f = none
drop_digits (suc fuel) c f =
    let rest = drop_digits fuel (word_or c (word_and f 1)) (shift_unsigned f 1) in
    if shift_unsigned f 25 == 0 then some (c, f) else rest

-- `f = (f >> 1) + (f & (c | (f >> 1)) & 1)`
unfoldable pub round_off : ℕ → ℕ → ℕ
round_off c f =
    word_add (shift_unsigned f 1) (word_and (word_and f (word_or c (shift_unsigned f 1))) 1)

-- The case of digits that are lost, on `b` and `f`; it leaves `s` at 0.
unfoldable pub lose_digits : ℕ → ℕ → Option (ℕ × ℕ × ℕ)
lose_digits b f = do
  (c, f₁) ← drop_digits 33 0 f
  let f₂ = round_off c f₁
  some (if shift_unsigned f₂ 24 == 0 then b else word_add b 1, f₂, 0)

-- What is put together at the end, from `r`, `b`, `f` and `s`
unfoldable pub put_together : ℕ → ℕ → ℕ → ℕ → ℕ
put_together r b f s =
    let b₁ = if b == 0 then word_add (word_not 126) 1 else b in
    let r₁ = word_or r (word_and (shift_left f s) 0x007fffff) in
    word_or r₁ (shift_left (word_add b₁ 126) 23)

-- `float_i2f` from the sign bit and the absolute value on
unfoldable pub from_size : ℕ → ℕ → Option ℕ
from_size r f = do
  b ← count_digits 33 0 f
  let s = word_add 24 (word_add (word_not b) 1)
  (b₁, f₁, s₁) ← if ltb s (2 ^ 31) then some (b, f, s) else lose_digits b f
  some (put_together r b₁ f₁ s₁)

-- `float_i2f`
unfoldable pub float_i2f : ℕ → Option ℕ
float_i2f x =
    if shift_right x 31 == 0 then from_size 0 x else from_size 0x80000000 (word_add (word_not x) 1)

-- The nearest number to n / 2 ^ k, and of two such numbers the even one
unfoldable pub round_even : ℕ → ℕ → ℕ
round_even n k =
    let q = n / 2 ^ k in
    let r = n % 2 ^ k in
    if ltb (r * 2) (2 ^ k) then q else if ltb (2 ^ k) (r * 2) then q + 1 else q + q % 2

-- By how many digits a number has more than 24, as far as the count goes
unfoldable pub excess : ℕ → ℕ → ℕ
excess zero n = 0
excess (suc count) n = let rest = excess count (n / 2) in if ltb n (2 ^ 24) then 0 else suc rest

-- A number of 32 digits, rounded to the 24 that a float has
unfoldable pub rounded : ℕ → ℕ
rounded n = let k = excess 8 n in round_even n k * 2 ^ k

-- `(float)x`
abbrev pub to_float : ℤ → Value
to_float (pos n) = finite false (rounded n * 2 ^ 149)
to_float (negsuc n) = finite true (rounded (n + 1) * 2 ^ 149)
