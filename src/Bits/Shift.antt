-- ===== src/Bits/Shift.antt =====
-- `getByte`, `logicalShift` and `divpwr2` of datalab-handout/bits.c against
-- datalab-handout/tests.c.
use native.Mathlib.Nat.{mod-lt, div-add-mod', pow-le-pow_right, div-le_self, add-mul-div_right}
use Prim.Native.Nat.{differ}
use splab.Prelude.{
  ℕ, zero, suc, ◌+◌, ◌-◌, ◌*◌, ◌/◌, ◌%◌, ◌^◌, ◌≤◌, ◌<◌, ◌≡◌, refl, sym, ap, ◌∙◌, Bool-cases, inl,
  inr, true, false, ltb, ◌==◌, if◌then◌else◌, some, arith,
}
use splab.Bits.Word.{
  modulus, ones, word_not, word_and, word_xor, word_add, logical_not, shift_right, shift_left,
  shift_unsigned,
}
use splab.Bits.Word.Digits.{zero-and}
use splab.Bits.Word.Fields.{and-mask, xor_top, cut-mod, pow_pos}
use splab.Bits.Word.Shifts.{
  pow_add, div_bound, cut-div, split_around, shift_left-bit, shift_right-mod, shift_right-pos,
  shift_right-neg, sign-pos, sign-neg,
}
use splab.Bits.Puzzles.{get_byte, logical_shift, divpwr2}
use splab.Bits.Reference.{test_get_byte, test_logical_shift, test_divpwr2}

-- `getByte` gives the byte of that number.
pub get_byte_agrees : (x n : ℕ) → x < modulus → n < 4 → get_byte x n ≡ some (test_get_byte x n)
unfolding get_byte test_get_byte shift_left
get_byte_agrees x zero p l = ap some (and-mask 8 (shift_right x 0))
get_byte_agrees x (suc zero) p l = ap some (and-mask 8 (shift_right x 8))
get_byte_agrees x (suc (suc zero)) p l = ap some (and-mask 8 (shift_right x 16))
get_byte_agrees x (suc (suc (suc zero))) p l = ap some (and-mask 8 (shift_right x 24))
get_byte_agrees x (suc (suc (suc (suc n)))) p l = absurd (omega (arith, l))

differ_self : (t : ℕ) → t < 2 → differ t t ≡ 0
differ_self zero l = refl
differ_self (suc zero) l = refl
differ_self (suc (suc t)) l = absurd (omega (arith, l))

-- `logicalShift` moves zeros in from the left.
pub logical_shift_agrees :
    (x n : ℕ) → x < modulus → n < 32 → logical_shift x n ≡ test_logical_shift x n
unfolding logical_shift test_logical_shift shift_unsigned
logical_shift_agrees x n p l =
    let t = x / 2 ^ 31 in
    let low = x % 2 ^ 31 in
    let sign : word_and (shift_right x 31) 1 ≡ t =
      and-mask 1 (shift_right x 31) ∙ shift_right-mod 31 1 x refl p in
    let m : t < 2 = omega (arith, p) in
    let place = shift_left-bit 31 t (omega arith) m in
    let back : word_add 32 (word_not n) ≡ 31 - n = omega (arith, l) in
    let in_range : ltb n 32 ≡ true = ground arith in
    let in_range' : ltb (31 - n) 32 ≡ true = ground arith in
    let size = 2 ^ n in
    let top = 2 ^ (31 - n) in
    let both : size * top ≡ 2 ^ 31 =
      sym (pow_add n (31 - n))
      ∙ ap (2 ^◌) (let sum : n + (31 - n) ≡ 31 = omega (arith, l) in sum) in
    let small : low < size * top = rw both (omega arith) in
    let fits = div_bound size top low small (pow_pos n) in
    let whole : t * 2 ^ 31 + low ≡ x = omega arith in
    let no_top : 0 * 2 ^ 31 + low ≡ low = omega arith in
    let cleared : word_xor x (t * 2 ^ 31) ≡ low =
      rw (whole, differ_self t m, no_top) at (xor_top 31 low t t (omega arith) m m) in
    let moved : shift_right low n ≡ low / size = shift_right-pos low n (omega arith) in
    let alone : 0 * top + low / size ≡ low / size = omega arith in
    let set = rw alone at (xor_top (31 - n) (low / size) 0 t fits (omega arith) m) in
    let parts : low + t * top * size ≡ x = grind (arith, whole, both) in
    let quotient = rw parts at (add-mul-div_right low (t * top) (pow_pos n)) in
    let at_top = shift_left-bit (31 - n) t (omega arith) m in
    rw (sign, place, cleared, back, in_range, in_range', moved, at_top, set, quotient)
      (ap some (omega arith))

-- The quotient of a size, from that of what is one less, and the low bits of its negative
round_up :
    (size top x z : ℕ)
    → 0 < size
    → size * top ≡ x + (z + 1)
    → (z + 1) / size ≡ z / size + (if x % size == 0 then 1 else 0)
round_up size top x z l e =
    let q = z / size in
    let r = z % size in
    let m : r < size = mod-lt z l in
    let t = top - 1 - q in
    let around = split_around size top z l (omega (arith, e)) in
    let cut = div-add-mod' z size in
    elim (Bool-cases (r + 1 == size)) [
      | inl f ↦
          let full : r + 1 ≡ size = ground arith in
          let up : z + 1 ≡ (q + 1) * size + 0 = grind (arith, full, cut) in
          let down : x ≡ t * size + 0 = omega (arith, e, around, cut, full) in
          let whole : x % size ≡ 0 = ap (◌% size) down ∙ cut-mod size t 0 l in
          rw (whole, up) (cut-div size (q + 1) 0 l)
      | inr f ↦
          let left : r + 1 < size = ground arith in
          let up : z + 1 ≡ q * size + (r + 1) = omega (arith, cut) in
          let down : x ≡ t * size + (size - 1 - r) = omega (arith, e, around, cut, left) in
          let rest : x % size ≡ size - 1 - r =
            ap (◌% size) down ∙ cut-mod size t (size - 1 - r) (omega (arith, left)) in
          let some_left : (x % size == 0) ≡ false = ground (arith, rest, left) in
          rw (some_left, up) (cut-div size q (r + 1) left ∙ omega arith)
    ]

-- `divpwr2` divides with rounding toward zero, also for the least `int`.
pub divpwr2_agrees : (x n : ℕ) → x < modulus → n ≤ 30 → divpwr2 x n ≡ test_divpwr2 x n
unfolding divpwr2 test_divpwr2
divpwr2_agrees x n p l =
    let size = 2 ^ n in
    let below : n ≤ 31 = omega (arith, l) in
    let small : size ≤ 2 ^ 31 = pow-le-pow_right {n = 2} (omega arith) below in
    let in_range : ltb n 32 ≡ true = ground arith in
    let one = shift_left-bit n 1 (omega (arith, l)) (omega arith) in
    let unit : 1 * size ≡ size = omega arith in
    let mask : word_add size ones ≡ size - 1 = omega (arith, small, pow_pos n) in
    let rb = and-mask n x in
    elim (Bool-cases (ltb x (2 ^ 31))) [
      | inl f ↦
          let positive : x < 2 ^ 31 = ground arith in
          let sign : shift_right x 31 ≡ 0 = sign-pos x positive in
          let none_set = zero-and (word_xor 1 (logical_not (x % size))) in
          let moved = shift_right-pos x n positive in
          rw (in_range, one, unit, mask, rb, f)
            (rw (sign, none_set, moved) (ap some (omega (arith, div-le_self x size))))
      | inr f ↦
          let sign : shift_right x 31 ≡ ones = sign-neg x (ground arith) p in
          let moved : shift_right x n ≡ ones - (ones - x) / size =
            shift_right-neg x n (ground arith) in
          let parts : size * 2 ^ (32 - n) ≡ x + (ones - x + 1) =
            sym (pow_add n (32 - n))
            ∙ ap (2 ^◌) (let sum : n + (32 - n) ≡ 32 = omega (arith, l) in sum)
            ∙ omega (arith, p) in
          let rounded = round_up size (2 ^ (32 - n)) x (ones - x) (pow_pos n) parts in
          let bounded = div-le_self (ones - x) size in
          rw (in_range, one, unit, mask, rb, f)
            (rw (sign, moved, rounded)
              (elim (Bool-cases (x % size == 0)) [
                | inl g ↦ rw g (ap some (omega (arith, bounded)))
                | inr g ↦ rw g (ap some (omega (arith, bounded)))
              ]))
    ]
