-- ===== src/Bits/Word/Digits.antt =====
-- Laws of the bitwise operations, from the lowest digit up.
use Prim.Native.Nat.{
  min, max, bit_and, bit_or, bit_xor, digits, bitwise, differ, bit_and-bitwise, bit_or-bitwise,
  bit_xor-bitwise,
}
use splab.Prelude.{ℕ, zero, suc, ◌+◌, ◌*◌, ◌/◌, ◌%◌, ◌≤◌, ◌≡◌, refl, ap, arith}

-- An operation on digits, with what it gives on the rest once the first number has run out
module _ (z : ℕ → ℕ) (f : ℕ → ℕ → ℕ) where
  -- More rounds than the first number has digits change nothing.
  digits_rounds : (n m a b : ℕ) → a ≤ n → a ≤ m → digits z f n a b ≡ digits z f m a b
  digits_rounds zero zero a b p q = refl
  digits_rounds zero (suc m) zero b p q = refl
  digits_rounds zero (suc m) (suc a) b p q = absurd (omega (arith, p))
  digits_rounds (suc n) zero zero b p q = refl
  digits_rounds (suc n) zero (suc a) b p q = absurd (omega (arith, q))
  digits_rounds (suc n) (suc m) zero b p q = refl
  digits_rounds (suc n) (suc m) (suc a) b p q =
      ap (λ (rest : ℕ). rest * 2 + f (suc a % 2) (b % 2))
        (digits_rounds n m (suc a / 2) (b / 2) (omega arith) (omega arith))

  bitwise_step :
      ((b : ℕ) → z b ≡ z (b / 2) * 2 + f 0 (b % 2))
      → (a b : ℕ) → bitwise z f a b ≡ bitwise z f (a / 2) (b / 2) * 2 + f (a % 2) (b % 2)
  bitwise_step last zero b = last b
  bitwise_step last (suc a) b =
      ap (λ (rest : ℕ). rest * 2 + f (suc a % 2) (b % 2))
        (digits_rounds a (suc a / 2) (suc a / 2) (b / 2) (omega arith) (omega arith))

pub and_step : (a b : ℕ) → bit_and a b ≡ bit_and (a / 2) (b / 2) * 2 + min (a % 2) (b % 2)
and_step a b =
    rw (bit_and-bitwise a b, bit_and-bitwise (a / 2) (b / 2))
      (bitwise_step (λ c. 0) min (λ c. omega arith) a b)

pub or_step : (a b : ℕ) → bit_or a b ≡ bit_or (a / 2) (b / 2) * 2 + max (a % 2) (b % 2)
or_step a b =
    rw (bit_or-bitwise a b, bit_or-bitwise (a / 2) (b / 2))
      (bitwise_step (λ c. c) max (λ c. omega arith) a b)

pub xor_step : (a b : ℕ) → bit_xor a b ≡ bit_xor (a / 2) (b / 2) * 2 + differ (a % 2) (b % 2)
xor_step a b =
    rw (bit_xor-bitwise a b, bit_xor-bitwise (a / 2) (b / 2))
      (bitwise_step (λ c. c) differ (λ c. omega arith) a b)

pub zero-and : (a : ℕ) → bit_and 0 a ≡ 0
zero-and a = bit_and-bitwise 0 a

pub zero-or : (a : ℕ) → bit_or 0 a ≡ a
zero-or a = bit_or-bitwise 0 a

pub zero-xor : (a : ℕ) → bit_xor 0 a ≡ a
zero-xor a = bit_xor-bitwise 0 a

and-zero_bound : (n a : ℕ) → a ≤ n → bit_and a 0 ≡ 0
and-zero_bound n zero h = refl
and-zero_bound zero (suc a) h = absurd (omega (arith, h))
and-zero_bound (suc n) (suc a) h =
    omega (arith, and_step (suc a) 0, and-zero_bound n (suc a / 2) (omega (arith, h)))

pub and-zero : (a : ℕ) → bit_and a 0 ≡ 0
and-zero a = and-zero_bound a a (omega arith)

or-zero_bound : (n a : ℕ) → a ≤ n → bit_or a 0 ≡ a
or-zero_bound n zero h = refl
or-zero_bound zero (suc a) h = absurd (omega (arith, h))
or-zero_bound (suc n) (suc a) h =
    omega (arith, or_step (suc a) 0, or-zero_bound n (suc a / 2) (omega (arith, h)))

pub or-zero : (a : ℕ) → bit_or a 0 ≡ a
or-zero a = or-zero_bound a a (omega arith)
