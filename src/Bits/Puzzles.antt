-- ===== src/Bits/Puzzles.antt =====
-- The puzzles on integers in datalab-handout/bits.c.
use splab.Prelude.{ℕ, Option, some}
use splab.Prelude.Fault.{◌>>=◌}
use splab.Bits.Word.{
  word_not, word_and, word_or, word_xor, word_add, logical_not, shift_left, shift_right,
  shift_count, ones,
}

-- `bitAnd`
unfoldable pub bit_and : ℕ → ℕ → ℕ
bit_and x y = word_not (word_or (word_not x) (word_not y))

-- `getByte`
unfoldable pub get_byte : ℕ → ℕ → Option ℕ
get_byte x n = do by ← shift_count (shift_left n 3); some (word_and (shift_right x by) 0xff)

-- `logicalShift`
unfoldable pub logical_shift : ℕ → ℕ → Option ℕ
logical_shift x n = do
  let t = word_and (shift_right x 31) 1
  let x' = word_xor x (shift_left t 31)
  by ← shift_count n
  back ← shift_count (word_add 32 (word_not n))
  some (word_xor (shift_right x' by) (shift_left t back))

-- A pass of `bitCount` with the mask `m`: `x = (x & m) + ((x >> n) & m)`
abbrev pub count_pass : ℕ → ℕ → ℕ → ℕ
count_pass m n x = word_add (word_and x m) (word_and (shift_right x n) m)

-- The mask of the first three passes, from a byte
abbrev pub byte_mask : ℕ → ℕ
byte_mask b = let o = word_or b (shift_left b 8) in word_or o (shift_left o 16)

-- `bitCount`
unfoldable pub bit_count : ℕ → ℕ
bit_count x =
    let x₁ = count_pass (byte_mask 0x55) 1 x in
    let x₂ = count_pass (byte_mask 0x33) 2 x₁ in
    let x₃ = count_pass (byte_mask 0x0f) 4 x₂ in
    let x₄ = count_pass (word_or 0xff (shift_left 0xff 16)) 8 x₃ in
    count_pass (word_or 0xff (shift_left 0xff 8)) 16 x₄

-- A pass of `bang`: `x = x & (x >> n)`
abbrev pub fold_pass : ℕ → ℕ → ℕ
fold_pass n x = word_and x (shift_right x n)

-- `bang`
unfoldable pub bang : ℕ → ℕ
bang x =
    word_and (fold_pass 1 (fold_pass 2 (fold_pass 4 (fold_pass 8 (fold_pass 16 (word_not x)))))) 1

-- `tmin`
unfoldable pub tmin : ℕ
tmin = shift_left 1 31

-- `fitsBits`
unfoldable pub fits_bits : ℕ → ℕ → Option ℕ
fits_bits x n = do
  by ← shift_count (word_add n ones)
  let x' = shift_right x by
  some (word_or (logical_not x') (logical_not (word_add x' 1)))

-- `divpwr2`
unfoldable pub divpwr2 : ℕ → ℕ → Option ℕ
divpwr2 x n = do
  by ← shift_count n
  let rb = word_and x (word_add (shift_left 1 by) ones)
  some (word_add (shift_right x by) (word_and (shift_right x 31) (word_xor 1 (logical_not rb))))

-- `negate`
unfoldable pub negate : ℕ → ℕ
negate x = word_add (word_not x) 1

-- `isPositive`
unfoldable pub is_positive : ℕ → ℕ
is_positive x = word_xor (word_add (shift_right x 31) 1) (logical_not x)

-- `isLessOrEqual`
unfoldable pub is_less_or_equal : ℕ → ℕ → ℕ
is_less_or_equal x y =
    let ps = word_and (word_and (shift_right x 31) 1) (word_add (shift_right y 31) 1) in
    let ns = word_and (word_add (shift_right x 31) 1) (word_and (shift_right y 31) 1) in
    let ss = word_add (shift_right (word_add (word_add (word_not x) y) 1) 31) 1 in
    word_and (word_or ps ss) (word_xor 1 ns)

-- A pass of `ilog2` on `c` and `x`: `r = ((!(x >> n)) + (~0)) & n; c = c + r; x = x >> r`
abbrev pub log_pass : ℕ → ℕ × ℕ → ℕ × ℕ
log_pass n (c, x) =
    let r = word_and (word_add (logical_not (shift_right x n)) ones) n in
    (word_add c r, shift_right x r)

-- `ilog2`
unfoldable pub ilog2 : ℕ → ℕ
ilog2 x = (log_pass 1 (log_pass 2 (log_pass 4 (log_pass 8 (log_pass 16 (0, x)))))).0
