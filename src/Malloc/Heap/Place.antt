-- ===== src/Malloc/Heap/Place.antt =====
-- The block of a region of the heap.
use splab.Prelude.{
  ℕ, ◌+◌, ◌≡◌, Bool, true, false, not, ◌&&◌, ◌==◌, List, [], ◌∷◌, ◌++◌, arith, ap, Bool-cases, inl,
  inr,
}
use splab.Malloc.Tree.{Segment}
use splab.Malloc.Tree.Order.Multiset.{any}
use splab.Malloc.Heap.Check.{Block}
use splab.Malloc.Heap.Blocks.{reach, free_at, used_at}

-- The same region
abbrev pub is : Segment → Segment → Bool
is x y = y.size == x.size && y.ptr == x.ptr

-- The region is that of one of the blocks.
pub record IsPlaced (region : Segment) (alloc : Bool) (now : ℕ) (blocks : List Block) : Type 0 where
  pub xs : List Block
  pub ys : List Block
  pub split : blocks ≡ xs ++ (record { size = region.size; alloc = alloc } ∷ ys)
  pub at : reach now xs ≡ region.ptr

module _ (region : Segment) (alloc : Bool) (now : ℕ) (block : Block) (blocks : List Block) where
  here :
      (block.size == region.size && now == region.ptr) ≡ true
      → block.alloc ≡ alloc
      → IsPlaced region alloc now (block ∷ blocks)
  here e a = record {
    xs = [];
    ys = blocks;
    split =
        let same : block ≡ record { size = region.size; alloc = alloc } = ground arith in
        ap (λ b. b ∷ blocks) same;
    at = ground arith;
  }

  later :
      IsPlaced region alloc (now + block.size) blocks → IsPlaced region alloc now (block ∷ blocks)
  later p = record { xs = block ∷ p.xs; ys = p.ys; split = ap (λ l. block ∷ l) p.split; at = p.at }

pub find_free :
    (region : Segment) (now : ℕ) (blocks : List Block)
    → any (is region) (free_at now blocks) ≡ true
    → IsPlaced region false now blocks
find_free region now [] h = cc
find_free region now (block ∷ blocks) h =
    elim (Bool-cases (not block.alloc && (block.size == region.size && now == region.ptr))) [
      | inl e ↦ here region false now block blocks (ground arith) (ground arith)
      | inr e ↦
          later region false now block blocks
            (find_free region (now + block.size) blocks (ground arith))
    ]

pub find_used :
    (region : Segment) (now : ℕ) (blocks : List Block)
    → any (is region) (used_at now blocks) ≡ true
    → IsPlaced region true now blocks
find_used region now [] h = cc
find_used region now (block ∷ blocks) h =
    elim (Bool-cases (block.alloc && (block.size == region.size && now == region.ptr))) [
      | inl e ↦ here region true now block blocks (ground arith) (ground arith)
      | inr e ↦
          later region true now block blocks
            (find_used region (now + block.size) blocks (ground arith))
    ]
