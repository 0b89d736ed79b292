-- ===== src/Malloc/Heap/Blocks.antt =====
-- Lists of blocks: where they lie, and the regions of the heap that are free or in use.
use splab.Prelude.{
  ℕ, ◌+◌, ◌≡◌, ◌≤◌, ◌<◌, Bool, false, if◌then◌else◌, List, [], ◌∷◌, ◌++◌, Option, some, get_elem?,
  arith, refl, ◌∙◌, All,
}
use splab.Malloc.Tree.{Segment}
use splab.Malloc.Tree.Order.Multiset.{any}
use splab.Malloc.Heap.{Header}
use splab.Malloc.Heap.Check.{Block}
use splab.Malloc.Heap.Layout.{Linked}

-- The unit behind the blocks that start at `now`.
abbrev pub reach : ℕ → List Block → ℕ
reach now [] = now
reach now (block ∷ blocks) = reach (now + block.size) blocks

-- What the header behind the blocks points back to.
abbrev pub last : Option ℕ → ℕ → List Block → Option ℕ
last prev now [] = prev
last prev now (block ∷ blocks) = last (some now) (now + block.size) blocks

-- The regions of the free blocks, and of those in use.
abbrev pub free_at : ℕ → List Block → List Segment
free_at now [] = []
free_at now (block ∷ blocks) =
    let rest = free_at (now + block.size) blocks in
    if block.alloc then rest else record { size = block.size; ptr = now } ∷ rest

abbrev pub used_at : ℕ → List Block → List Segment
used_at now [] = []
used_at now (block ∷ blocks) =
    let rest = used_at (now + block.size) blocks in
    if block.alloc then record { size = block.size; ptr = now } ∷ rest else rest

abbrev pub Sized : List Block → Type 0
Sized = All (λ block. 2 ≤ block.size)

-- The first blocks of a longer list.
abbrev pub Chunk : List Header → Option ℕ → ℕ → List Block → Type 0
Chunk units prev now [] = Unit
Chunk units prev now (block ∷ blocks) =
    (2 ≤ block.size)
    × (get_elem? units now ≡ some (record { prev = prev; size = block.size; alloc = block.alloc }))
    × Chunk units (some now) (now + block.size) blocks

pub reach-le : (now : ℕ) (blocks : List Block) → now ≤ reach now blocks
reach-le now [] = omega arith
reach-le now (block ∷ blocks) = omega (arith, reach-le (now + block.size) blocks)

pub reach-append : (now : ℕ) (xs ys : List Block) → reach now (xs ++ ys) ≡ reach (reach now xs) ys
reach-append now [] ys = refl
reach-append now (x ∷ xs) ys = reach-append (now + x.size) xs ys

pub free_at-append :
    (now : ℕ) (xs ys : List Block)
    → free_at now (xs ++ ys) ≡ free_at now xs ++ free_at (reach now xs) ys
free_at-append now [] ys = refl
free_at-append now (x ∷ xs) ys = ground (arith, free_at-append (now + x.size) xs ys)

pub used_at-append :
    (now : ℕ) (xs ys : List Block)
    → used_at now (xs ++ ys) ≡ used_at now xs ++ used_at (reach now xs) ys
used_at-append now [] ys = refl
used_at-append now (x ∷ xs) ys = ground (arith, used_at-append (now + x.size) xs ys)

pub Linked-split :
    (units : List Header) (prev : Option ℕ) (now : ℕ) (xs ys : List Block) (stop : ℕ)
    → Linked units prev now (xs ++ ys) stop
    → Chunk units prev now xs × Linked units (last prev now xs) (reach now xs) ys stop
Linked-split units prev now [] ys stop l = (tt, l)
Linked-split units prev now (x ∷ xs) ys stop (n, e, l) =
    let (c, r) = Linked-split units (some now) (now + x.size) xs ys stop l in ((n, e, c), r)

pub Linked-join :
    (units : List Header) (prev : Option ℕ) (now : ℕ) (xs ys : List Block) (stop : ℕ)
    → Chunk units prev now xs
    → Linked units (last prev now xs) (reach now xs) ys stop
    → Linked units prev now (xs ++ ys) stop
Linked-join units prev now [] ys stop c l = l
Linked-join units prev now (x ∷ xs) ys stop (n, e, c) l =
    (n, e, Linked-join units (some now) (now + x.size) xs ys stop c l)

pub Linked-Sized :
    (units : List Header) (prev : Option ℕ) (now : ℕ) (blocks : List Block) (stop : ℕ)
    → Linked units prev now blocks stop
    → Sized blocks
Linked-Sized units prev now [] stop l = tt
Linked-Sized units prev now (block ∷ blocks) stop (n, e, l) =
    (n, Linked-Sized units (some now) (now + block.size) blocks stop l)

pub Linked-stop :
    (units : List Header) (prev : Option ℕ) (now : ℕ) (blocks : List Block) (stop : ℕ)
    → Linked units prev now blocks stop
    → reach now blocks ≡ stop
Linked-stop units prev now [] stop l = l.1
Linked-stop units prev now (block ∷ blocks) stop (n, e, l) =
    Linked-stop units (some now) (now + block.size) blocks stop l

pub Chunk-Sized :
    (units : List Header) (prev : Option ℕ) (now : ℕ) (blocks : List Block)
    → Chunk units prev now blocks
    → Sized blocks
Chunk-Sized units prev now [] c = tt
Chunk-Sized units prev now (block ∷ blocks) (n, e, c) =
    (n, Chunk-Sized units (some now) (now + block.size) blocks c)

-- A change of the memory behind the blocks.
pub Chunk-frame :
    (units units' : List Header) (prev : Option ℕ) (now : ℕ) (blocks : List Block)
    → ((i : ℕ) → i < reach now blocks → get_elem? units' i ≡ get_elem? units i)
    → Chunk units prev now blocks
    → Chunk units' prev now blocks
Chunk-frame units units' prev now [] same c = tt
Chunk-frame units units' prev now (block ∷ blocks) same (n, e, c) = (
  n,
  same now (omega (arith, reach-le (now + block.size) blocks)) ∙ e,
  Chunk-frame units units' (some now) (now + block.size) blocks same c,
)

-- A predicate that fails behind `now`, or before the end of the blocks.
pub any-free_above :
    (p : Segment → Bool) (now : ℕ) (blocks : List Block)
    → ((y : Segment) → now ≤ y.ptr → p y ≡ false)
    → any p (free_at now blocks) ≡ false
any-free_above p now [] h = refl
any-free_above p now (block ∷ blocks) h =
    let rest = any-free_above p (now + block.size) blocks (λ y l. h y (omega arith)) in
    ground (arith, h (record { size = block.size; ptr = now }) (omega arith))

pub any-free_below :
    (p : Segment → Bool) (now : ℕ) (blocks : List Block)
    → Sized blocks
    → ((y : Segment) → y.ptr < reach now blocks → p y ≡ false)
    → any p (free_at now blocks) ≡ false
any-free_below p now [] s h = refl
any-free_below p now (block ∷ blocks) s h =
    let rest = any-free_below p (now + block.size) blocks s.1 h in
    let here =
      h (record { size = block.size; ptr = now })
        (let l = reach-le (now + block.size) blocks in omega (arith, s.0)) in
    ground arith

-- All the blocks as a chunk, and the end mark behind them.
pub Linked-Chunk :
    (units : List Header) (prev : Option ℕ) (now : ℕ) (blocks : List Block) (stop : ℕ)
    → Linked units prev now blocks stop
    → Chunk units prev now blocks
      × (get_elem? units (reach now blocks)
          ≡ some (record { prev = last prev now blocks; size = 0; alloc = false }))
Linked-Chunk units prev now [] stop (e, l) = (tt, e)
Linked-Chunk units prev now (block ∷ blocks) stop (n, e, l) =
    let (c, end) = Linked-Chunk units (some now) (now + block.size) blocks stop l in
    ((n, e, c), end)

pub last-append :
    (prev : Option ℕ) (now : ℕ) (xs ys : List Block)
    → last prev now (xs ++ ys) ≡ last (last prev now xs) (reach now xs) ys
last-append prev now [] ys = refl
last-append prev now (x ∷ xs) ys = last-append (some now) (now + x.size) xs ys

pub Chunk-split :
    (units : List Header) (prev : Option ℕ) (now : ℕ) (xs ys : List Block)
    → Chunk units prev now (xs ++ ys)
    → Chunk units prev now xs × Chunk units (last prev now xs) (reach now xs) ys
Chunk-split units prev now [] ys c = (tt, c)
Chunk-split units prev now (x ∷ xs) ys (n, e, c) =
    let (a, b) = Chunk-split units (some now) (now + x.size) xs ys c in ((n, e, a), b)
