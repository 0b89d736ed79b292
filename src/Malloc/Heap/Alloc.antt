-- ===== src/Malloc/Heap/Alloc.antt =====
-- `mm_malloc` of malloclab-handout/mm.c keeps the heap and gives the user a new region.
pub mod Fit
pub mod Grow
pub mod Exhausted
use mathlib.Core.List.{Perm}
use mathlib.Core.List.Perm
use splab.Prelude.{
  ℕ, ◌+◌, ◌-◌, ◌*◌, ◌%◌, ◌^◌, ◌≡◌, ◌≢◌, ◌≤◌, ◌<◌, Bool, true, false, ◌||◌, ◌&&◌, ◌==◌, not, ltb,
  if◌then◌else◌, List, [], ◌∷◌, ◌++◌, Option, none, some, get_elem?, set, length, arith, refl, ap,
  sym, ◌∙◌, All, Bool-cases, Option-cases, inl, inr, subst, length-set,
}
use splab.Prelude.Fault.{◌>>=◌, Ensures, Ensures-bind, Ensures-imp}
use splab.Malloc.Tree.{Segment, segments, search_node}
use splab.Malloc.Tree.Order.Multiset.{any, any-append, any-perm}
use splab.Malloc.Tree.Search.{IsBestFit, FitSpec, search_node-FitSpec}
use splab.Malloc.Heap.{Header, Heap, first, read, search}
use splab.Malloc.Heap.Entry.{units_for, to_user, malloc, sbrk}
use splab.Malloc.Heap.Check.{Block}
use splab.Malloc.Heap.Blocks.{reach, free_at, used_at}
use splab.Malloc.Heap.Place.{is, IsPlaced, find_free}
use splab.Malloc.Heap.State.{IsHeap}
use splab.Malloc.Heap.Extend.{added_units, IsExtended, sbrk_refines}
use splab.Malloc.Heap.Request.{units_for_fits}
use splab.Malloc.Heap.Alloc.Grow.{sbrk-IsAllocated}
use splab.Malloc.Heap.Alloc.Fit.{IsAllocated, IsGiven, fit-IsAllocated}

any-is : (fit : Segment) (xs ys : List Segment) → any (is fit) (xs ++ (fit ∷ ys)) ≡ true
any-is fit xs ys = ground (arith, any-append (is fit) xs (fit ∷ ys))

-- A segment of the tree is a block of the heap.
place :
    (h : Heap) (blocks : List Block) (size : ℕ) (fit : Segment)
    → IsHeap h blocks
    → search h size ≡ some fit
    → IsPlaced fit false first blocks × (size ≤ fit.size)
place h blocks size fit s e =
    let best : IsBestFit size (segments h.root) fit =
      rw e at (search_node-FitSpec h.root size s.valid.sorted) in
    (
      find_free fit first blocks (
          sym (any-perm (is fit) s.tree)
          ∙ ap (any (is fit)) best.split
          ∙ any-is fit best.before best.after),
      best.enough,
    )

-- On a heap in order, for a request of at least one byte and at most 2 ^ 32 - 16, where no memory
-- has to be had from the system or there is enough of it, `mm_malloc` does not fault. It leaves a
-- heap in order, where the regions in use are those of before and a new one, which has room for the
-- header and the request, and to whose payload the result points. The contents of the other
-- regions are as they were.
pub malloc_refines :
    (h : Heap) (blocks : List Block) (size : ℕ)
    → IsHeap h blocks
    → 1 ≤ size
    → size + 16 ≤ 2 ^ 32
    → (search h (units_for size) ≡ none → h.brk + added_units (units_for size) * 8 ≤ h.max_addr)
    → Ensures (malloc size h) (IsGiven h blocks (units_for size))
unfolding malloc
malloc_refines h blocks size s positive small memory =
    let units = units_for size in
    let room = units_for_fits size small in
    elim (Option-cases (search h units)) [
      | inl e ↦
          let fits = memory e in
          let within : units * 8 < 2 ^ 31 = let limit = s.limit in ground arith in
          let whole : units * 8 % 2 ^ 32 ≡ units * 8 = omega arith in
          rw (e, malloc)
            (rw whole (
              Ensures-bind _ _ (sbrk (units * 8) h) _
                (sbrk-IsAllocated h blocks units s (omega arith) (omega arith) fits)
                λ result a. record { now = result.0; at = refl; allocated = a.1 }))
      | inr (fit, e) ↦
          let (placed, enough) = place h blocks units fit s e in
          rw (e, malloc)
            (rw placed.split (
              rw placed.at at (
                fit-IsAllocated h placed.xs placed.ys fit.size units (rw placed.split at s) enough
                  (omega arith))))
    ]
