-- ===== src/Bits/Count/Fields.antt =====
-- Sums over the fields of a word.
use native.Mathlib.Nat.{mod-lt, div-div-eq-div-mul, div-add-mod', mul_comm}
use splab.Prelude.{ℕ, zero, suc, ◌+◌, ◌-◌, ◌*◌, ◌/◌, ◌%◌, ◌^◌, ◌<◌, ◌≡◌, refl, sym, ap, ◌∙◌, arith}
use splab.Bits.Word.{word_and}
use splab.Bits.Word.Fields.{and_split, and-mask, cut-mod, pow_pos}
use splab.Bits.Word.Shifts.{pow_add, cut-div}

-- The sum of `k` fields of `w` bits
unfoldable pub sum_fields : ℕ → ℕ → ℕ → ℕ
sum_fields w zero x = 0
sum_fields w (suc k) x = sum_fields w k (x / 2 ^ w) + x % 2 ^ w

unfoldable pub twice : ℕ → ℕ
twice zero = 0
twice (suc k) = suc (suc (twice k))

-- The low halves of `k` fields of `w + w` bits
unfoldable pub mask : ℕ → ℕ → ℕ
mask w zero = 0
mask w (suc k) = mask w k * 2 ^ (w + w) + (2 ^ w - 1)

-- A pass, without overflow
unfoldable pub paired : ℕ → ℕ → ℕ → ℕ
paired w k x = word_and x (mask w k) + word_and (x / 2 ^ w) (mask w k)

two_low : (p r s : ℕ) → r < p → s < p → r + s < p * p
two_low zero r s l m = absurd (omega (arith, l))
two_low (suc p) r s l m = grind (arith, l, m)

module _ (w : ℕ) where
  square : 2 ^ (w + w) ≡ 2 ^ w * 2 ^ w
  square = pow_add w w

  halves : (x : ℕ) → x % 2 ^ (w + w) % 2 ^ w ≡ x % 2 ^ w
  halves x =
      let size = 2 ^ w in
      let y = x % 2 ^ (w + w) in
      let high = x / 2 ^ (w + w) in
      let whole : (high * size + y / size) * size + y % size ≡ x =
        grind (arith, square, div-add-mod' x (2 ^ (w + w)), div-add-mod' y size) in
      let cut = cut-mod size (high * size + y / size) (y % size) (mod-lt y (pow_pos w)) in
      sym (rw whole at cut)

  masked :
      (k x : ℕ)
      → word_and x (mask w (suc k))
        ≡ word_and (x / 2 ^ (w + w)) (mask w k) * 2 ^ (w + w) + x % 2 ^ w
  unfolding mask
  masked k x =
      let field = 2 ^ (w + w) in
      let fits : 2 ^ w - 1 < field =
        rw square (grind (arith, two_low (2 ^ w) (2 ^ w - 1) 0, pow_pos w)) in
      let cut = rw (div-add-mod' x field) at (
        and_split (w + w) (x / field) (mask w k) (x % field) (2 ^ w - 1)
          (mod-lt x (pow_pos (w + w))) fits) in
      cut ∙ ap (word_and (x / field) (mask w k) * field +◌) (and-mask w (x % field) ∙ halves x)

  swap : (x : ℕ) → x / 2 ^ w / 2 ^ (w + w) ≡ x / 2 ^ (w + w) / 2 ^ w
  swap x =
      div-div-eq-div-mul x (2 ^ w) (2 ^ (w + w))
      ∙ ap (x /◌) (mul_comm (2 ^ w) (2 ^ (w + w)))
      ∙ sym (div-div-eq-div-mul x (2 ^ (w + w)) (2 ^ w))

  paired-suc :
      (k x : ℕ)
      → paired w (suc k) x
        ≡ paired w k (x / 2 ^ (w + w)) * 2 ^ (w + w) + (x % 2 ^ w + x / 2 ^ w % 2 ^ w)
  unfolding paired
  paired-suc k x =
      let other = rw (swap x) at (masked k (x / 2 ^ w)) in grind (arith, masked k x, other)

  -- A pass keeps the sum, over half as many fields.
  pub sum_fields-paired : (k x : ℕ) → sum_fields (w + w) k (paired w k x) ≡ sum_fields w (twice k) x
  unfolding sum_fields twice
  sum_fields-paired zero x = refl
  sum_fields-paired (suc k) x =
      let field = 2 ^ (w + w) in
      let size = 2 ^ w in
      let low = x % size + x / size % size in
      let fits : low < field = rw square (
        two_low size (x % size) (x / size % size) (mod-lt x (pow_pos w))
          (mod-lt (x / size) (pow_pos w))) in
      let rest = paired w k (x / field) in
      let high = cut-div field rest low fits in
      let lower = cut-mod field rest low fits in
      let quarter : x / size / size ≡ x / field =
        div-div-eq-div-mul x size size ∙ ap (x /◌) (sym square) in
      rw (paired-suc k x, high, lower, quarter) (omega (arith, sum_fields-paired k (x / field)))
