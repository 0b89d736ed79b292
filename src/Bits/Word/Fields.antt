-- ===== src/Bits/Word/Fields.antt =====
-- Laws of the bitwise operations on words that are cut in two.
use Prim.Native.Nat.{min, max, bit_and, bit_or, bit_xor, differ}
use native.Mathlib.Nat.{two-pow-succ, mod-lt, div-add-mod'}
use splab.Prelude.{ℕ, zero, suc, ◌+◌, ◌-◌, ◌*◌, ◌/◌, ◌%◌, ◌^◌, ◌≤◌, ◌<◌, ◌≡◌, refl, sym, arith}
use splab.Bits.Word.Digits.{and_step, or_step, xor_step, and-zero, zero-and}

pub double : (k a : ℕ) → a * 2 ^ suc k ≡ a * 2 ^ k * 2
double k a = grind (arith, two-pow-succ k)

pub pow_pos : (k : ℕ) → 0 < 2 ^ k
pow_pos zero = omega arith
pow_pos (suc k) = omega (arith, two-pow-succ k, pow_pos k)

-- The high and the low part on their own, for an operation that goes digit by digit
module _ (op f : ℕ → ℕ → ℕ) (nothing : op 0 0 ≡ 0)
    (step : (a b : ℕ) → op a b ≡ op (a / 2) (b / 2) * 2 + f (a % 2) (b % 2)) where
  low_digit : (a b r s : ℕ) → r < 2 → s < 2 → op (a * 2 + r) (b * 2 + s) ≡ op a b * 2 + f r s
  low_digit a b r s p q =
      let left : (a * 2 + r) / 2 ≡ a = omega arith in
      let right : (b * 2 + s) / 2 ≡ b = omega arith in
      let first : (a * 2 + r) % 2 ≡ r = omega arith in
      let second : (b * 2 + s) % 2 ≡ s = omega arith in
      rw (left, right, first, second) at (step (a * 2 + r) (b * 2 + s))

  digits_split :
      (k a b r s : ℕ)
      → r < 2 ^ k
      → s < 2 ^ k
      → op (a * 2 ^ k + r) (b * 2 ^ k + s) ≡ op a b * 2 ^ k + op r s
  digits_split zero a b r s p q =
      let none_left : r ≡ 0 = omega (arith, p) in
      let none_right : s ≡ 0 = omega (arith, q) in
      let left : a * 2 ^ 0 + 0 ≡ a = omega arith in
      let right : b * 2 ^ 0 + 0 ≡ b = omega arith in
      rw (none_left, none_right) (rw (left, right, nothing) (omega arith))
  digits_split (suc k) a b r s p q =
      let left : a * 2 ^ suc k + r ≡ (a * 2 ^ k + r / 2) * 2 + r % 2 = omega (arith, double k a) in
      let right : b * 2 ^ suc k + s ≡ (b * 2 ^ k + s / 2) * 2 + s % 2 = omega (arith, double k b) in
      rw (left, right)
        (omega (
          arith,
          low_digit (a * 2 ^ k + r / 2) (b * 2 ^ k + s / 2) (r % 2) (s % 2) (omega arith)
              (omega arith),
          digits_split k a b (r / 2) (s / 2) (omega (arith, p, two-pow-succ k))
              (omega (arith, q, two-pow-succ k)),
          step r s,
          double k (op a b),
        ))

pub and_split :
    (k a b r s : ℕ)
    → r < 2 ^ k
    → s < 2 ^ k
    → bit_and (a * 2 ^ k + r) (b * 2 ^ k + s) ≡ bit_and a b * 2 ^ k + bit_and r s
and_split = digits_split bit_and min refl and_step

pub or_split :
    (k a b r s : ℕ)
    → r < 2 ^ k
    → s < 2 ^ k
    → bit_or (a * 2 ^ k + r) (b * 2 ^ k + s) ≡ bit_or a b * 2 ^ k + bit_or r s
or_split = digits_split bit_or max refl or_step

differ_bits : (r s : ℕ) → r < 2 → s < 2 → differ r s ≡ 0 → r ≡ s
differ_bits zero zero p q e = refl
differ_bits zero (suc s) p q e = sym e
differ_bits (suc r) zero p q e = e
differ_bits (suc zero) (suc zero) p q e = refl
differ_bits (suc (suc r)) (suc s) p q e = absurd (omega (arith, p))
differ_bits (suc zero) (suc (suc s)) p q e = absurd (omega (arith, q))

-- `x ^ y` is 0 for the same number only.
pub xor-zero : (k x y : ℕ) → x < 2 ^ k → y < 2 ^ k → bit_xor x y ≡ 0 → x ≡ y
xor-zero zero x y p q e = omega (arith, p, q)
xor-zero (suc k) x y p q e =
    let rest : bit_xor (x / 2) (y / 2) ≡ 0 = omega (arith, xor_step x y, e) in
    let digit : differ (x % 2) (y % 2) ≡ 0 = omega (arith, xor_step x y, e) in
    omega (
      arith,
      xor-zero k (x / 2) (y / 2) (omega (arith, p, two-pow-succ k))
          (omega (arith, q, two-pow-succ k)) rest,
      differ_bits (x % 2) (y % 2) (omega arith) (omega arith) digit,
    )

pub and_ones : (k r : ℕ) → r < 2 ^ k → bit_and r (2 ^ k - 1) ≡ r
and_ones zero r p = let nothing : r ≡ 0 = omega (arith, p) in rw nothing refl
and_ones (suc k) r p =
    let half : (2 ^ suc k - 1) / 2 ≡ 2 ^ k - 1 = omega (arith, two-pow-succ k, pow_pos k) in
    let digit : (2 ^ suc k - 1) % 2 ≡ 1 = omega (arith, two-pow-succ k, pow_pos k) in
    let step = rw (half, digit) at (and_step r (2 ^ suc k - 1)) in
    omega (arith, step, and_ones k (r / 2) (omega (arith, p, two-pow-succ k)))

-- A mask of the low bits, on a number that is cut there
and_mask : (k q r : ℕ) → r < 2 ^ k → bit_and (q * 2 ^ k + r) (2 ^ k - 1) ≡ r
and_mask k q r p =
    let low : 0 * 2 ^ k + (2 ^ k - 1) ≡ 2 ^ k - 1 = omega arith in
    let cut =
      rw (low, and-zero q) at (and_split k q 0 r (2 ^ k - 1) p (omega (arith, pow_pos k))) in
    omega (arith, cut, and_ones k r p)

-- `x & (2 ^ k - 1)`
pub and-mask : (k x : ℕ) → bit_and x (2 ^ k - 1) ≡ x % 2 ^ k
and-mask k x =
    let size = 2 ^ k in
    rw (div-add-mod' x size) at (and_mask k (x / size) (x % size) (mod-lt x (pow_pos k)))

pub and_bound : (k a b : ℕ) → a < 2 ^ k → bit_and a b < 2 ^ k
and_bound zero a b p =
    let nothing : a ≡ 0 = omega (arith, p) in rw nothing (omega (arith, zero-and b))
and_bound (suc k) a b p = omega (
  arith,
  and_step a b,
  and_bound k (a / 2) (b / 2) (omega (arith, two-pow-succ k, p)),
  two-pow-succ k,
)

-- A mask bounds what it lets through.
pub and-le_bound : (k a b : ℕ) → b < 2 ^ k → bit_and a b ≤ b
and-le_bound zero a b p =
    let nothing : b ≡ 0 = omega (arith, p) in rw nothing (omega (arith, and-zero a))
and-le_bound (suc k) a b p =
    omega (arith, and_step a b, and-le_bound k (a / 2) (b / 2) (omega (arith, two-pow-succ k, p)))

-- Only ones give ones.
pub and-ones :
    (k r s : ℕ)
    → r < 2 ^ k
    → s < 2 ^ k
    → bit_and r s ≡ 2 ^ k - 1
    → (r ≡ 2 ^ k - 1) × (s ≡ 2 ^ k - 1)
and-ones zero r s p q e = (omega (arith, p), omega (arith, q))
and-ones (suc k) r s p q e =
    let half = r / 2 in
    let half' = s / 2 in
    let l = and_bound k half half' (omega (arith, two-pow-succ k, p)) in
    let rest =
      and-ones k half half' (omega (arith, two-pow-succ k, p)) (omega (arith, two-pow-succ k, q))
        (omega (arith, two-pow-succ k, e, and_step r s, l)) in
    (
      omega (arith, two-pow-succ k, e, and_step r s, l, rest.0, pow_pos k),
      omega (arith, two-pow-succ k, e, and_step r s, l, rest.1, pow_pos k),
    )

pub cut-mod : (p q r : ℕ) → r < p → (q * p + r) % p ≡ r
cut-mod p q r h = grind arith

-- The low part of `x & y`
pub and-mod : (k x y : ℕ) → bit_and x y % 2 ^ k ≡ bit_and (x % 2 ^ k) (y % 2 ^ k)
and-mod k x y =
    let size = 2 ^ k in
    let l : x % size < size = mod-lt x (pow_pos k) in
    let m : y % size < size = mod-lt y (pow_pos k) in
    let cut =
      rw (div-add-mod' x size, div-add-mod' y size) at
        (and_split k (x / size) (y / size) (x % size) (y % size) l m) in
    rw cut (
      cut-mod size (bit_and (x / size) (y / size)) (bit_and (x % size) (y % size))
        (and_bound k (x % size) (y % size) l))

-- `~(~x | ~y)` is `x & y`.
pub not_or :
    (k x y : ℕ)
    → x < 2 ^ k
    → y < 2 ^ k
    → bit_or (2 ^ k - 1 - x) (2 ^ k - 1 - y) + bit_and x y ≡ 2 ^ k - 1
not_or zero x y p q =
    let none_left : x ≡ 0 = omega (arith, p) in
    let none_right : y ≡ 0 = omega (arith, q) in rw (none_left, none_right) refl
not_or (suc k) x y p q =
    let left : (2 ^ suc k - 1 - x) / 2 ≡ 2 ^ k - 1 - x / 2 = omega (arith, two-pow-succ k, p) in
    let right : (2 ^ suc k - 1 - y) / 2 ≡ 2 ^ k - 1 - y / 2 = omega (arith, two-pow-succ k, q) in
    let step = rw (left, right) at (or_step (2 ^ suc k - 1 - x) (2 ^ suc k - 1 - y)) in
    omega (
      arith,
      step,
      and_step x y,
      not_or k (x / 2) (y / 2) (omega (arith, two-pow-succ k, p))
          (omega (arith, two-pow-succ k, q)),
      two-pow-succ k,
      p,
      q,
    )

differ-zero : (a : ℕ) → differ a 0 ≡ a
differ-zero zero = refl
differ-zero (suc a) = refl

-- The highest bit is flipped by its own mask.
pub xor_top :
    (k y t u : ℕ)
    → y < 2 ^ k
    → t < 2
    → u < 2
    → bit_xor (t * 2 ^ k + y) (u * 2 ^ k) ≡ differ t u * 2 ^ k + y
xor_top zero y (suc (suc t)) u p q r = absurd (omega (arith, q))
xor_top zero y t (suc (suc u)) p q r = absurd (omega (arith, r))
xor_top zero y zero zero p q r = let nothing : y ≡ 0 = omega (arith, p) in rw nothing refl
xor_top zero y zero (suc zero) p q r = let nothing : y ≡ 0 = omega (arith, p) in rw nothing refl
xor_top zero y (suc zero) zero p q r = let nothing : y ≡ 0 = omega (arith, p) in rw nothing refl
xor_top zero y (suc zero) (suc zero) p q r =
    let nothing : y ≡ 0 = omega (arith, p) in rw nothing refl
xor_top (suc k) y t u p q r =
    let left : (t * 2 ^ suc k + y) / 2 ≡ t * 2 ^ k + y / 2 = omega (arith, double k t) in
    let right : u * 2 ^ suc k / 2 ≡ u * 2 ^ k = omega (arith, double k u) in
    let first : (t * 2 ^ suc k + y) % 2 ≡ y % 2 = omega (arith, double k t) in
    let second : u * 2 ^ suc k % 2 ≡ 0 = omega (arith, double k u) in
    let step = rw (left, right, first, second) at (xor_step (t * 2 ^ suc k + y) (u * 2 ^ suc k)) in
    omega (
      arith,
      step,
      xor_top k (y / 2) t u (omega (arith, two-pow-succ k, p)) q r,
      double k (differ t u),
      differ-zero (y % 2),
    )
