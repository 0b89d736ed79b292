-- ===== src/Malloc/Heap/Alloc/Grow.antt =====
-- `mm_malloc` of malloclab-handout/mm.c where the heap grows.
use mathlib.Core.List.{Perm}
use splab.Prelude.{
  ℕ, ◌+◌, ◌-◌, ◌*◌, ◌^◌, ◌≡◌, ◌≤◌, ◌<◌, true, false, ltb, leb, List, [], ◌∷◌, ◌++◌, none, some,
  get_elem?, length, arith, refl, ◌∙◌, All, All-imp, append-nil, Bool-cases, inl, inr, zero, suc,
}
use splab.Prelude.Fault.{Ensures, Ensures-imp}
use splab.Malloc.Tree.{Segment, segments}
use splab.Malloc.Tree.Order.Multiset.{any-perm, All-none, insert_middle}
use splab.Malloc.Heap.{Heap, first, read}
use splab.Malloc.Heap.Entry.{sbrk}
use splab.Malloc.Heap.Check.{Block}
use splab.Malloc.Heap.Layout.{Linked}
use splab.Malloc.Heap.Blocks.{
  reach, last, free_at, used_at, Chunk, reach-append, free_at-append, Linked-join, Linked-Chunk,
  Linked-Sized, Chunk-frame, any-free_below, Linked-stop,
}
use splab.Malloc.Heap.State.{IsHeap}
use splab.Malloc.Heap.Regions.{Same, All-used_below, used_at_middle}
use splab.Malloc.Heap.Extend.{added, added_units, IsExtended, sbrk_refines}
use splab.Malloc.Heap.Extend.Fresh.{IsEnd}
use splab.Malloc.Heap.Alloc.Fit.{IsAllocated}

get_inside :
    {A : Type 0} (list : List A) (i : ℕ) → i < length list → (a : A) × (get_elem? list i ≡ some a)
get_inside [] i l = absurd (omega arith)
get_inside (x ∷ list) zero l = (x, refl)
get_inside (x ∷ list) (suc i) l = get_inside list i (omega arith)

-- The heap behind `mm_sbrk` for `units` units: behind the blocks there is one more in use, and what
-- `rest` adds is free.
pub record IsGrown (h : Heap) (blocks : List Block) (units : ℕ) (result : ℕ × Heap) : Type 0 where
  pub size : ℕ
  pub rest : List Block
  pub at : result.0 ≡ reach first blocks
  pub heap : IsHeap result.1 (blocks ++ (record { size = size; alloc = true } ∷ rest))
  pub unused : used_at (reach first blocks + size) rest ≡ []
  pub enough : units ≤ size
  pub before : (i : ℕ) → i < reach first blocks → get_elem? result.1.units i ≡ get_elem? h.units i

module _ (h : Heap) (blocks : List Block) (units : ℕ) (s : IsHeap h blocks) where
  abbrev stop : ℕ
  stop = reach first blocks

  parts :
      Chunk h.units none first blocks
      × (read h stop ≡ some (record { prev = last none first blocks; size = 0; alloc = false }))
  parts = Linked-Chunk h.units none first blocks stop s.linked

  low : All (λ x. x.ptr < stop) (segments h.root)
  low =
      All-imp (λ x e. ground arith) (segments h.root)
        (All-none (λ x. leb stop x.ptr) (segments h.root)
          (any-perm (λ x. leb stop x.ptr) s.tree
            ∙ any-free_below (λ x. leb stop x.ptr) first blocks
                (Linked-Sized h.units none first blocks stop s.linked) (λ y l. ground arith)))

  -- The new blocks are one in use and `rest`, which are free.
  grown :
      (result : ℕ × Heap)
      → IsExtended h (last none first blocks) stop units result
      → (size : ℕ) (rest : List Block) → added units ≡ record { size = size; alloc = true } ∷ rest
      → Perm (segments result.1.root) (free_at first blocks ++ free_at (stop + size) rest)
      → used_at (stop + size) rest ≡ []
      → units ≤ size
      → h.brk + added_units units * 8 ≤ h.max_addr
      → IsGrown h blocks units result
  grown result x size rest new tree same more fits =
      let taken : Block = record { size = size; alloc = true } in
      let linked : Linked result.1.units (last none first blocks) stop (taken ∷ rest)
          (stop + added_units units) =
        rw new at x.linked in
      let end : reach first (blocks ++ (taken ∷ rest)) ≡ stop + added_units units =
        reach-append first blocks (taken ∷ rest)
        ∙ Linked-stop result.1.units (some stop) (stop + size) rest (stop + added_units units)
            linked.2 in
      let break_at = s.break_at in
      record {
        size = size;
        rest = rest;
        at = x.at;
        heap = record {
          linked = rw end (
              Linked-join result.1.units none first blocks (taken ∷ rest) (stop + added_units units)
                (Chunk-frame h.units result.1.units none first blocks x.before parts.0) linked);
          valid = x.valid;
          tree = rw (free_at-append first blocks (taken ∷ rest)) tree;
          break_at = rw (end, x.brk) (omega arith);
          within = rw (x.brk, x.limit) fits;
          extent = rw (x.limit, x.extent) s.extent;
          limit = rw x.limit s.limit;
        };
        unused = same;
        enough = more;
        before = x.before;
      }

  IsGrown-IsAllocated :
      (result : ℕ × Heap)
      → IsGrown h blocks units result
      → IsAllocated h blocks units result.0 result.1
  IsGrown-IsAllocated result g = record {
    blocks' = blocks ++ (record { size = g.size; alloc = true } ∷ g.rest);
    size = g.size;
    heap = g.heap;
    enough = g.enough;
    used =
        rw g.at (
          rw (g.unused, append-nil (used_at first blocks)) at
            (used_at_middle blocks g.rest g.size));
    intact =
        All-used_below (Same h.units result.1.units) first blocks
          λ y l i a b. g.before i (omega arith);
  }

  abbrev free_list : List Segment
  free_list = free_at first blocks

  free_list-nil : Perm (segments h.root) (free_list ++ [])
  free_list-nil = rw (append-nil free_list) s.tree

  pub sbrk-IsGrown :
      1 ≤ units
      → units < 2 ^ 28
      → h.brk + added_units units * 8 ≤ h.max_addr
      → Ensures (sbrk (units * 8) h) (IsGrown h blocks units)
  sbrk-IsGrown some_units small fits =
      let break_at = s.break_at in
      let extent = s.extent in
      let (beyond, there) = get_inside h.units (stop + added_units units) (omega arith) in
      let end : IsEnd h (last none first blocks) stop = record {
        mark = parts.1;
        break_at = s.break_at;
      } in
      Ensures-imp _ _ (sbrk (units * 8) h)
        (sbrk_refines h (last none first blocks) stop units beyond end there fits some_units small
          s.valid low)
        λ result x. elim (Bool-cases (ltb units 18)) [
          | inr e ↦
              grown result x units [] (rw e refl) (rw (rw e at x.tree) free_list-nil) refl
                (omega arith) fits
          | inl e ↦ elim (Bool-cases (ltb 18 (units + 1 + 2))) [
            | inl f ↦
                grown result x 18 [] (rw (e, f) refl) (rw (rw (e, f) at x.tree) free_list-nil) refl
                  (ground arith) fits
            | inr f ↦
                let rest : Block = record { size = 18 - (units + 1); alloc = false } in
                let segment : Segment = record {
                  size = 18 - (units + 1);
                  ptr = stop + (units + 1);
                } in
                grown result x (units + 1) (rest ∷ []) (rw (e, f) refl)
                  (rw (rw (e, f) at x.tree)
                    (insert_middle segment (segments h.root) free_list [] free_list-nil))
                  refl (omega arith) fits
          ]
        ]

  pub sbrk-IsAllocated :
      1 ≤ units
      → units < 2 ^ 28
      → h.brk + added_units units * 8 ≤ h.max_addr
      → Ensures
          (sbrk (units * 8) h)
          (λ result. (result.0 ≡ stop) × IsAllocated h blocks units result.0 result.1)
  sbrk-IsAllocated some_units small fits =
      Ensures-imp (IsGrown h blocks units)
        (λ result. (result.0 ≡ stop) × IsAllocated h blocks units result.0 result.1)
        (sbrk (units * 8) h) (sbrk-IsGrown some_units small fits)
        λ result g. (g.at, IsGrown-IsAllocated result g)
