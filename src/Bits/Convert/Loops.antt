-- ===== src/Bits/Convert/Loops.antt =====
-- The loops of `float_i2f` in datalab-handout/bits.c.
use native.Mathlib.Nat.{two-pow-succ, div-add-mod', div-div-eq-div-mul, pow-le-pow_right}
use Prim.Native.Nat.{max}
use splab.Prelude.{
  ℕ, zero, suc, ◌+◌, ◌-◌, ◌*◌, ◌/◌, ◌%◌, ◌^◌, ◌≤◌, ◌<◌, ◌≡◌, true, false, ◌&&◌, ◌==◌, ltb,
  if◌then◌else◌, some, refl, ap, ◌∙◌, arith, Bool-cases, inl, inr,
}
use splab.Bits.Word.{word_and, word_or, word_add, shift_unsigned}
use splab.Bits.Word.Fields.{and-mask, double}
use splab.Bits.Convert.{count_digits, drop_digits, excess}

-- `m` is the number of digits of `n`.
abbrev pub IsLength : ℕ → ℕ → Type 0
IsLength n zero = n ≡ 0
IsLength n (suc m) = (2 ^ m ≤ n) × (n < 2 ^ suc m)

IsLength-suc : (n m : ℕ) → (n == 0) ≡ false → IsLength (n / 2) m → IsLength n (suc m)
IsLength-suc n zero f h = let some_bits : 0 < n = ground arith in (omega arith, omega arith)
IsLength-suc n (suc m) f (low, high) =
    (omega (arith, low, two-pow-succ m), omega (arith, high, two-pow-succ (suc m)))

half-IsLength : (n m : ℕ) → 0 < m → IsLength n (suc m) → IsLength (n / 2) m
half-IsLength n zero p h = absurd (omega (arith, p))
half-IsLength n (suc m) p (low, high) =
    (omega (arith, low, two-pow-succ m), omega (arith, high, two-pow-succ (suc m)))

abbrev pub Counts : ℕ → ℕ → ℕ → ℕ → Type 0
Counts fuel n b t = (m : ℕ) × IsLength t m × (m ≤ n) × (count_digits fuel b t ≡ some (b + m))

count_next :
    (fuel n b t : ℕ)
    → t < 2 ^ suc n
    → b + suc n < 2 ^ 31
    → (t == 0) ≡ false
    → Counts fuel n (b + 1) (t / 2)
    → Counts (suc fuel) (suc n) b t
unfolding count_digits shift_unsigned
count_next fuel n b t l small f (m, size, bound, e) =
    let step : word_add b 1 ≡ b + 1 = omega arith in
    let half : t / 2 ^ 1 ≡ t / 2 = omega arith in
    let sum : b + 1 + m ≡ b + suc m = omega arith in
    (suc m, IsLength-suc t m f size, omega arith, rw (f, step, half, e) (ap some sum))

-- The first loop ends and counts the digits.
pub count_digits_lem : (fuel n b t : ℕ) → t < 2 ^ n → n < fuel → b + n < 2 ^ 31 → Counts fuel n b t
unfolding count_digits
count_digits_lem zero n b t l less small = absurd (omega (arith, less))
count_digits_lem (suc fuel) zero b t l less small =
    let none_left : t ≡ 0 = omega arith in
    let same : b ≡ b + 0 = omega arith in (0, none_left, omega arith, rw none_left (ap some same))
count_digits_lem (suc fuel) (suc n) b t l less small = elim (Bool-cases (t == 0)) [
  | inl f ↦
      let none_left : t ≡ 0 = ground arith in
      let same : b ≡ b + 0 = omega arith in (0, none_left, omega arith, rw f (ap some same))
  | inr f ↦ count_next fuel n b t l small f (
      count_digits_lem fuel n (b + 1) (t / 2) (omega (arith, l, two-pow-succ n)) (omega arith)
        (omega arith))
]

-- 1 where a digit was lost, or `c` was 1
abbrev pub sticky : ℕ → ℕ → ℕ
sticky c r = if c == 0 && r == 0 then 0 else 1

or_bit : (c d : ℕ) → c < 2 → d < 2 → word_or c d ≡ max c d
or_bit zero zero k l = refl
or_bit zero (suc zero) k l = refl
or_bit (suc zero) zero k l = refl
or_bit (suc zero) (suc zero) k l = refl
or_bit (suc (suc c)) d k l = absurd (omega (arith, k))
or_bit zero (suc (suc d)) k l = absurd (omega (arith, l))
or_bit (suc zero) (suc (suc d)) k l = absurd (omega (arith, l))

-- Division and remainder by the next power of 2
pub div_next : (f j : ℕ) → f / 2 / 2 ^ j ≡ f / 2 ^ suc j
div_next f j =
    let size : 2 * 2 ^ j ≡ 2 ^ suc j = omega (arith, two-pow-succ j) in
    div-div-eq-div-mul f 2 (2 ^ j) ∙ ap (f /◌) size

pub mod_next : (f j : ℕ) → f % 2 ^ suc j ≡ f / 2 % 2 ^ j * 2 + f % 2
mod_next f j =
    let lower = rw (div_next f j) at (div-add-mod' (f / 2) (2 ^ j)) in
    omega (arith, lower, div-add-mod' f (2 ^ suc j), double j (f / 2 ^ suc j))

sticky_next :
    (c f j : ℕ) → c < 2 → sticky (max c (f % 2)) (f / 2 % 2 ^ j) ≡ sticky c (f % 2 ^ suc j)
sticky_next c f j l = rw (mod_next f j) (ground arith)

-- The second loop ends with 25 digits, and `c` says whether a digit that it dropped was 1.
pub drop_digits_lem :
    (fuel j c f : ℕ)
    → c < 2
    → 2 ^ (24 + j) ≤ f
    → f < 2 ^ (25 + j)
    → j < fuel
    → drop_digits fuel c f ≡ some (sticky c (f % 2 ^ j), f / 2 ^ j)
unfolding drop_digits shift_unsigned
drop_digits_lem zero j c f l low high less = absurd (omega (arith, less))
drop_digits_lem (suc fuel) zero c f l low high less =
    let done : (f / 2 ^ 25 == 0) ≡ true = ground arith in
    let kept : sticky c (f % 2 ^ 0) ≡ c = ground arith in
    let whole : f / 2 ^ 0 ≡ f = omega arith in rw (done, kept, whole) refl
drop_digits_lem (suc fuel) (suc j) c f l low high less =
    let above : 25 ≤ 24 + suc j = omega arith in
    let least : 2 ^ 25 ≤ 2 ^ (24 + suc j) = pow-le-pow_right {n = 2} (omega arith) above in
    let some_left : 1 ≤ f / 2 ^ 25 = omega (arith, least, low) in
    let more : (f / 2 ^ 25 == 0) ≡ false = ground arith in
    let under : 24 + suc j ≡ suc (24 + j) = omega arith in
    let over : 25 + suc j ≡ suc (25 + j) = omega arith in
    let low' : 2 ^ suc (24 + j) ≤ f = rw under at low in
    let high' : f < 2 ^ suc (25 + j) = rw over at high in
    let lowest : word_and f 1 ≡ f % 2 = and-mask 1 f in
    let held : word_or c (f % 2) ≡ max c (f % 2) = or_bit c (f % 2) l (omega arith) in
    let half : f / 2 ^ 1 ≡ f / 2 = omega arith in
    let rest =
      drop_digits_lem fuel j (max c (f % 2)) (f / 2) (omega arith)
        (omega (arith, low', two-pow-succ (24 + j))) (omega (arith, high', two-pow-succ (25 + j)))
        (omega arith) in
    rw (more, lowest, held, half, rest, sticky_next c f j l, div_next f j) refl

-- The digits that are too many
pub excess_lem : (count n m : ℕ) → IsLength n m → m ≤ 24 + count → excess count n ≡ m - 24
unfolding excess
excess_lem zero n m h l = omega arith
excess_lem (suc count) n zero h l =
    let small : ltb n (2 ^ 24) ≡ true = ground arith in rw small refl
excess_lem (suc count) n (suc m) (low, high) l = elim (Bool-cases (ltb m 24)) [
  | inl f ↦
      let below : suc m ≤ 24 = ground arith in
      let bound : 2 ^ suc m ≤ 2 ^ 24 = pow-le-pow_right {n = 2} (omega arith) below in
      let inside : n < 2 ^ 24 = omega (arith, bound, high) in
      let small : ltb n (2 ^ 24) ≡ true = ground arith in rw small (omega arith)
  | inr f ↦
      let above : 24 ≤ m = ground arith in
      let bound : 2 ^ 24 ≤ 2 ^ m = pow-le-pow_right {n = 2} (omega arith) above in
      let outside : 2 ^ 24 ≤ n = omega (arith, bound, low) in
      let large : ltb n (2 ^ 24) ≡ false = ground arith in
      rw
        (
          large,
          excess_lem count (n / 2) m (half-IsLength n m (omega arith) (low, high)) (omega arith),
        )
        (omega arith)
]
