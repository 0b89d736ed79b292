-- ===== src/Malloc/Heap/Regions.antt =====
-- The regions that the user has, and what a call leaves alone in them.
use mathlib.Core.List.{Perm, perm_middle}
use splab.Prelude.{
  ℕ, ◌+◌, ◌≡◌, ◌≤◌, ◌<◌, true, List, [], ◌∷◌, ◌++◌, get_elem?, arith, All, All-append, Bool-cases,
  inl, inr,
}
use splab.Malloc.Tree.{Segment}
use splab.Malloc.Heap.{Header, first}
use splab.Malloc.Heap.Check.{Block}
use splab.Malloc.Heap.Blocks.{reach, used_at, reach-le, used_at-append}

-- The units of a region behind its header are the same in both memories.
abbrev pub Same : List Header → List Header → Segment → Type 0
Same units units' region =
    (i : ℕ) → region.ptr < i → i < region.ptr + region.size → get_elem? units' i ≡ get_elem? units i

abbrev pub Intact : List Header → List Header → List Segment → Type 0
Intact units units' = All (Same units units')

All-used_above :
    (P : Segment → Type 0) (now : ℕ) (blocks : List Block)
    → ((y : Segment) → now ≤ y.ptr → P y)
    → All P (used_at now blocks)
All-used_above P now [] h = tt
All-used_above P now (block ∷ blocks) h =
    let rest = All-used_above P (now + block.size) blocks (λ y l. h y (omega arith)) in
    elim (Bool-cases block.alloc) [
      | inl e ↦ rw e (h (record { size = block.size; ptr = now }) (omega arith), rest)
      | inr e ↦ rw e rest
    ]

pub All-used_below :
    (P : Segment → Type 0) (now : ℕ) (blocks : List Block)
    → ((y : Segment) → y.ptr + y.size ≤ reach now blocks → P y)
    → All P (used_at now blocks)
All-used_below P now [] h = tt
All-used_below P now (block ∷ blocks) h =
    let rest = All-used_below P (now + block.size) blocks h in
    elim (Bool-cases block.alloc) [
      | inl e ↦
          rw e
            (h (record { size = block.size; ptr = now }) (reach-le (now + block.size) blocks), rest)
      | inr e ↦ rw e rest
    ]

-- What is written between two lists of blocks leaves both intact.
pub Intact-around :
    (units units' : List Header) (low high : ℕ) (xs ys : List Block)
    → reach first xs ≤ low
    → ((i : ℕ) → i < low → get_elem? units' i ≡ get_elem? units i)
    → ((i : ℕ) → high < i → get_elem? units' i ≡ get_elem? units i)
    → Intact units units' (used_at first xs ++ used_at high ys)
Intact-around units units' low high xs ys l below above =
    All-append (Same units units') (used_at first xs) (used_at high ys)
      (All-used_below (Same units units') first xs λ y h i a b. below i (omega arith))
      (All-used_above (Same units units') high ys λ y h i a b. above i (omega arith))

-- A block in use between two lists of blocks.
pub used_at_middle :
    (xs ys : List Block) (n : ℕ)
    → Perm (used_at first (xs ++ (record { size = n; alloc = true } ∷ ys))) (
        record { size = n; ptr = reach first xs }
        ∷ (used_at first xs ++ used_at (reach first xs + n) ys))
used_at_middle xs ys n =
    let block : Block = record { size = n; alloc = true } in
    rw (used_at-append first xs (block ∷ ys))
      (perm_middle (used_at first xs) (used_at (reach first xs + n) ys))
