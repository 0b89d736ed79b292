-- ===== src/Malloc/Heap/Resize/Absorb.antt =====
-- The two loops of `mm_realloc` in malloclab-handout/mm.c over the free segments that follow.
use splab.Prelude.{
  ℕ, zero, suc, ◌+◌, ◌%◌, ◌^◌, ◌≡◌, ◌≤◌, ◌<◌, true, false, ltb, ◌==◌, if◌then◌else◌, List, [], ◌∷◌,
  Option, some, length, arith, refl, sym, ◌∙◌, Bool-cases, inl, inr, subst,
}
use splab.Prelude.Fault.{Ensures, Ensures-bind, Ensures-imp}
use splab.Malloc.Heap.{Header, Heap, first, read, set_size, delete_segment}
use splab.Malloc.Heap.Entry.{measure, absorb}
use splab.Malloc.Heap.Check.{Block}
use splab.Malloc.Heap.Layout.{Linked}
use splab.Malloc.Heap.Blocks.{reach, reach-le}
use splab.Malloc.Heap.Regions.{Intact}
use splab.Malloc.Heap.Release.Open.{IsOpen, others}
use splab.Malloc.Heap.Release.Join.{Frame, next-IsRooted, next-IsOpen}
use splab.Malloc.Heap.Release.Neighbours.{Intact-refl, Intact-trans}

-- The units of the free segments that a list of blocks starts with
abbrev pub room : List Block → ℕ
room [] = 0
room (block ∷ blocks) = let rest = room blocks in if block.alloc then 0 else block.size + rest

-- The blocks lie one behind the other, so there are no more of them than units.
pub Linked-length :
    (units : List Header) (prev : Option ℕ) (now : ℕ) (blocks : List Block) (stop : ℕ)
    → Linked units prev now blocks stop
    → now + length blocks ≤ reach now blocks
Linked-length units prev now [] stop l = omega arith
Linked-length units prev now (block ∷ blocks) stop (two, e, l) =
    let rest = Linked-length units (some now) (now + block.size) blocks stop l in omega arith

-- What the first loop ends with: a segment that is there, and a sum that is large enough.
abbrev pub Measured : Heap → ℕ → ℕ × ℕ → Type 0
Measured h size (next, sum) = (header : Header) × (read h next ≡ some header) × (size ≤ sum)

-- Where the free segments have room, the first loop finds as much.
pub measure-Measured :
    (fuel : ℕ) (prev : Option ℕ) (next sum size : ℕ) (h : Heap) (blocks : List Block) (stop : ℕ)
    → Linked h.units prev next blocks stop
    → length blocks < fuel
    → sum ≤ next
    → reach next blocks < 2 ^ 32
    → size ≤ sum + room blocks
    → Ensures (measure fuel next sum size h) (Measured h size)
unfolding measure
measure-Measured zero prev next sum size h blocks stop l less low small enough =
    absurd (omega (arith, less))
measure-Measured (suc fuel) prev next sum size h [] stop (e, s) less low small enough =
    rw e (_, e, omega arith)
measure-Measured (suc fuel) prev next sum size h (block ∷ blocks) stop (two, e, l) less low small
      enough =
    let some_units : (block.size == 0) ≡ false = ground arith in
    elim (Bool-cases block.alloc) [
      | inl a ↦
          let enough' : size ≤ sum = ground arith in rw (e, some_units) (simp a (_, e, enough'))
      | inr a ↦ elim (Bool-cases (ltb sum size)) [
        | inl b ↦
            let bound = reach-le (next + block.size) blocks in
            let wrap : (sum + block.size) % 2 ^ 32 ≡ sum + block.size = omega arith in
            rw (e, some_units, a, b, wrap)
              (measure-Measured fuel (some next) (next + block.size) (sum + block.size) size h
                blocks stop l (omega arith) (omega arith) small (ground arith))
        | inr b ↦ rw (e, some_units, a, b) (_, e, ground arith)
      ]
    ]

-- The segment behind `xs` has grown from `n` units over free segments of `ys`, to `units` at least.
-- Only its header is written.
pub record IsAbsorbed (h : Heap) (xs : List Block) (n : ℕ) (ys : List Block) (units : ℕ) (h' : Heap)
    : Type 0 where
  pub size : ℕ
  pub follow : List Block
  pub open_at : IsOpen xs size follow h'
  pub in_use : open_at.alloc ≡ true
  pub more : n ≤ size
  pub enough : units ≤ size
  pub same : others xs size follow ≡ others xs n ys
  pub intact : Intact h.units h'.units (others xs n ys)
  pub frame : Frame (reach first xs) h.units h'.units

abbrev pub Absorbs : ℕ → Heap → List Block → ℕ → List Block → ℕ → Type 0
Absorbs fuel h xs n ys units =
    (o : IsOpen xs n ys h)
    → o.alloc ≡ true
    → length ys < fuel
    → units ≤ n + room ys
    → Ensures (absorb fuel (reach first xs) (reach first xs + n) units h)
        (IsAbsorbed h xs n ys units)

IsAbsorbed-refl :
    (h : Heap) (xs : List Block) (n : ℕ) (ys : List Block) (units : ℕ) (o : IsOpen xs n ys h)
    → o.alloc ≡ true
    → units ≤ n
    → IsAbsorbed h xs n ys units h
IsAbsorbed-refl h xs n ys units o a enough = record {
  size = n;
  follow = ys;
  open_at = o;
  in_use = a;
  more = omega arith;
  enough = enough;
  same = refl;
  intact = Intact-refl h.units (others xs n ys);
  frame = λ i ne. refl;
}

-- A round of the last loop
absorb_next :
    (fuel : ℕ) (xs : List Block) (n m : ℕ) (ys : List Block) (units : ℕ)
    → ((h : Heap) → Absorbs fuel h xs (n + m) ys units)
    → ltb n units ≡ true
    → (h : Heap) → Absorbs (suc fuel) h xs n (record { size = m; alloc = false } ∷ ys) units
unfolding absorb
absorb_next fuel xs n m ys units ih short h o a less enough =
    let now = reach first xs in
    let behind : Block = record { size = m; alloc = false } in
    let least = o.tail.1.0 in
    let some_units : (m == 0) ≡ false = ground arith in
    let assoc : now + (n + m) ≡ now + n + m = omega arith in
    rw (o.tail.1.1, o.own, some_units, short)
      (Ensures-bind _ (IsAbsorbed h xs n (behind ∷ ys) units) (delete_segment (now + n) h) _
        (next-IsRooted xs n m ys h o)
        λ h₁ r.
          Ensures-bind _ (IsAbsorbed h xs n (behind ∷ ys) units) (set_size now (n + m) h₁) _
            (next-IsOpen xs n m ys h o h₁ r)
            λ h₂ (o₂, intact, kept, frame). rw (sym assoc) (
              Ensures-imp (IsAbsorbed h₂ xs (n + m) ys units)
                (IsAbsorbed h xs n (behind ∷ ys) units) (absorb fuel now (now + (n + m)) units h₂)
                (ih h₂ o₂ (kept ∙ a) (omega arith) (omega arith))
                λ h' g.
                  let same : others xs (n + m) ys ≡ others xs n (behind ∷ ys) = rw assoc refl in
                  record {
                    size = g.size;
                    follow = g.follow;
                    open_at = g.open_at;
                    in_use = g.in_use;
                    more = let more = g.more in omega arith;
                    enough = g.enough;
                    same = g.same ∙ same;
                    intact =
                        Intact-trans h.units h₂.units h'.units (others xs n (behind ∷ ys)) intact
                          (rw same at g.intact);
                    frame = λ i ne. g.frame i ne ∙ frame i ne;
                  }))

-- Where the free segments have room, the last loop makes the segment large enough.
pub absorb-IsAbsorbed :
    (fuel : ℕ) (xs : List Block) (n : ℕ) (ys : List Block) (units : ℕ) (h : Heap)
    → Absorbs fuel h xs n ys units
unfolding absorb
absorb-IsAbsorbed zero xs n ys units h o a less enough = absurd (omega (arith, less))
absorb-IsAbsorbed (suc fuel) xs n [] units h o a less enough =
    rw (o.tail.1.0, o.own) (IsAbsorbed-refl h xs n [] units o a (omega arith))
absorb-IsAbsorbed (suc fuel) xs n (block ∷ ys) units h o a less enough =
    let least = o.tail.1.0 in
    let some_units : (block.size == 0) ≡ false = ground arith in
    elim (Bool-cases block.alloc) [
      | inl e ↦
          let enough' : units ≤ n = ground arith in
          let refl' = IsAbsorbed-refl h xs n (block ∷ ys) units o a enough' in
          rw (o.tail.1.1, o.own, some_units) (simp e refl')
      | inr e ↦ elim (Bool-cases (ltb n units)) [
        | inl f ↦
            let same : block ≡ record { size = block.size; alloc = false } = rw e refl in
            let next =
              absorb_next fuel xs n block.size ys units
                (λ h'. absorb-IsAbsorbed fuel xs (n + block.size) ys units h') f h in
            subst (λ b. Absorbs (suc fuel) h xs n (b ∷ ys) units) (sym same) next o a less enough
        | inr f ↦
            rw (o.tail.1.1, o.own, some_units, f)
              (simp e (IsAbsorbed-refl h xs n (block ∷ ys) units o a (ground arith)))
      ]
    ]
