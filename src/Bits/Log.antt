-- ===== src/Bits/Log.antt =====
-- `ilog2` of datalab-handout/bits.c, which halves the number of places five times.
use native.Mathlib.Nat.{two-pow-succ, div-div-eq-div-mul, mod-lt, div-add-mod', pow-le-pow_right}
use splab.Prelude.{
  ℕ, zero, suc, ◌+◌, ◌*◌, ◌/◌, ◌%◌, ◌^◌, ◌≤◌, ◌<◌, ◌≡◌, refl, sym, ap, subst, ◌∙◌, Bool-cases, inl,
  inr, false, ◌==◌, some, arith,
}
use splab.Bits.Word.{modulus, ones, word_and, word_add, shift_right, shift_left}
use splab.Bits.Word.Digits.{and-zero, zero-and}
use splab.Bits.Word.Fields.{and_split, pow_pos}
use splab.Bits.Word.Shifts.{pow_add, div_bound, shift_right-pos, shift_left-bit}
use splab.Bits.Puzzles.{log_pass, ilog2}
use splab.Bits.Reference.{leftmost_from, test_ilog2}

-- `c` and `x` of `ilog2` on x₀, with b places to go
record Halves (x₀ b : ℕ) (s : ℕ × ℕ) : Type 0 where
  quotient : s.1 ≡ x₀ / 2 ^ s.0
  some_left : 0 < s.1
  below : s.1 < 2 ^ b
  count : s.0 + b ≤ 32

log_pass-zero : (n c y : ℕ) → y < 2 ^ 31 → c < modulus → y / 2 ^ n ≡ 0 → log_pass n (c, y) ≡ (c, y)
log_pass-zero n c y l m e =
    let sum : word_add c 0 ≡ c = omega (arith, m) in
    let same : shift_right y 0 ≡ y = shift_right-pos y 0 l ∙ omega arith in
    rw (shift_right-pos y n l, e) (rw (zero-and n) (rw (sum, same) refl))

log_pass-some :
    (n c y : ℕ)
    → y < 2 ^ 31
    → c + n < modulus
    → word_and ones n ≡ n
    → 0 < y / 2 ^ n
    → log_pass n (c, y) ≡ (c + n, y / 2 ^ n)
log_pass-some n c y l m all some_left =
    let test : (y / 2 ^ n == 0) ≡ false = ground arith in
    let sum : word_add c n ≡ c + n = omega (arith, m) in
    rw (shift_right-pos y n l, test) (rw all (rw (sum, shift_right-pos y n l) refl))

div-small : (size y : ℕ) → 0 < size → y / size ≡ 0 → y < size
div-small size y l e = grind (arith, div-add-mod' y size, mod-lt y l)

log_pass-Halves :
    (x₀ n : ℕ) (s : ℕ × ℕ)
    → s.1 < 2 ^ 31
    → word_and ones n ≡ n
    → Halves x₀ (n + n) s
    → Halves x₀ n (log_pass n s)
log_pass-Halves x₀ n (c, y) l all h =
    let count = h.count in
    let below = h.below in
    elim (Bool-cases (y / 2 ^ n == 0)) [
      | inl e ↦ rw (log_pass-zero n c y l (omega (arith, count)) (ground arith)) record {
        quotient = h.quotient;
        some_left = h.some_left;
        below = div-small (2 ^ n) y (pow_pos n) (ground arith);
        count = omega (arith, count);
      }
      | inr e ↦ rw (log_pass-some n c y l (omega (arith, count)) all (ground arith)) record {
        quotient =
            ap (◌/ 2 ^ n) h.quotient
            ∙ div-div-eq-div-mul x₀ (2 ^ c) (2 ^ n)
            ∙ ap (x₀ /◌) (sym (pow_add c n));
        some_left = ground arith;
        below = div_bound (2 ^ n) (2 ^ n) y (rw (pow_add n n) at below) (pow_pos n);
        count = omega (arith, count);
      }
    ]

-- `x₀` has its highest one at place c.
IsTop : ℕ → ℕ → Type 0
IsTop x c = x / 2 ^ c ≡ 1

ilog2-IsTop : (x : ℕ) → 0 < x → x < 2 ^ 31 → IsTop x (ilog2 x) × (ilog2 x < 32)
unfolding ilog2 IsTop
ilog2-IsTop x l m =
    let s₁ = log_pass 16 (0, x) in
    let h₀ : Halves x 32 (0, x) = record {
      quotient = omega arith;
      some_left = l;
      below = omega (arith, m);
      count = omega arith;
    } in
    let h₁ = log_pass-Halves x 16 (0, x) m refl h₀ in
    let b₁ = h₁.below in
    let s₂ = log_pass 8 s₁ in
    let h₂ = log_pass-Halves x 8 s₁ (omega (arith, b₁)) refl h₁ in
    let b₂ = h₂.below in
    let s₃ = log_pass 4 s₂ in
    let h₃ = log_pass-Halves x 4 s₂ (omega (arith, b₂)) refl h₂ in
    let b₃ = h₃.below in
    let s₄ = log_pass 2 s₃ in
    let h₄ = log_pass-Halves x 2 s₃ (omega (arith, b₃)) refl h₃ in
    let b₄ = h₄.below in
    let h₅ = log_pass-Halves x 1 s₄ (omega (arith, b₄)) refl h₄ in
    let below = h₅.below in
    let some_left = h₅.some_left in
    let count = h₅.count in
    (sym h₅.quotient ∙ omega (arith, below, some_left), omega (arith, count))

-- The bit at a place above the highest, and at it
bit-above : (x r : ℕ) → x < 2 ^ r → word_and x (2 ^ r) ≡ 0
bit-above x r l =
    let left : 0 * 2 ^ r + x ≡ x = omega arith in
    let right : 1 * 2 ^ r + 0 ≡ 2 ^ r = omega arith in
    let cut = rw (left, right) at (and_split r 0 1 x 0 l (pow_pos r)) in
    omega (arith, cut, and-zero x)

bit-at : (x r : ℕ) → IsTop x r → word_and x (2 ^ r) ≡ 2 ^ r
unfolding IsTop
bit-at x r e =
    let low = x % 2 ^ r in
    let left : 1 * 2 ^ r + low ≡ x = rw (sym e) (div-add-mod' x (2 ^ r)) in
    let right : 1 * 2 ^ r + 0 ≡ 2 ^ r = omega arith in
    let cut = rw (left, right) at (and_split r 1 1 low 0 (mod-lt x (pow_pos r)) (pow_pos r)) in
    omega (arith, cut, and-zero low)

IsTop-below : (x c r : ℕ) → IsTop x c → c < r → x < 2 ^ r
unfolding IsTop
IsTop-below x c r e l =
    let size = 2 ^ c in
    let whole = div-add-mod' x size in
    let product : x / size * size ≡ size = rw e (omega arith) in
    let up : suc c ≤ r = omega (arith, l) in
    let power : 2 ^ suc c ≤ 2 ^ r = pow-le-pow_right {n = 2} (omega arith) up in
    omega (arith, whole, product, mod-lt x (pow_pos c), two-pow-succ c, power)

leftmost_from-IsTop : (r c x : ℕ) → c ≤ r → r < 32 → IsTop x c → leftmost_from r x ≡ some c
unfolding leftmost_from
leftmost_from-IsTop zero c x l m e =
    let least : c ≡ 0 = omega (arith, l) in
    let one : shift_left 1 0 ≡ 1 * 2 ^ 0 = shift_left-bit 0 1 (omega arith) (omega arith) in
    let found : word_and x 1 ≡ 1 = bit-at x 0 (subst (IsTop x) least e) in
    rw (one, least) (rw found refl)
leftmost_from-IsTop (suc r) c x l m e =
    let one = shift_left-bit (suc r) 1 m (omega arith) in
    let unit : 1 * 2 ^ suc r ≡ 2 ^ suc r = omega arith in
    elim (Bool-cases (c == suc r)) [
      | inl f ↦
          let here : c ≡ suc r = ground arith in
          let found = bit-at x (suc r) (subst (IsTop x) here e) in
          let test : (2 ^ suc r == 0) ≡ false = ground (arith, pow_pos (suc r)) in
          rw (one, unit) (rw (found, test, here) refl)
      | inr f ↦
          let lower : c ≤ r = ground arith in
          let nothing = bit-above x (suc r) (IsTop-below x c (suc r) e (omega (arith, lower))) in
          rw (one, unit) (rw (nothing, leftmost_from-IsTop r c x lower (omega (arith, m)) e) refl)
    ]

-- `ilog2` gives the place of the highest one, as the loop from bit 31 down does, which then ends.
pub ilog2_agrees : (x : ℕ) → 0 < x → x < 2 ^ 31 → test_ilog2 x ≡ some (ilog2 x)
unfolding test_ilog2
ilog2_agrees x l m =
    let (top, below) = ilog2-IsTop x l m in
    leftmost_from-IsTop 31 (ilog2 x) x (omega (arith, below)) (omega arith) top
