-- ===== src/Malloc/Heap/Resize.antt =====
-- `mm_realloc` of malloclab-handout/mm.c where the region keeps its place: it is large enough, the
-- free segments behind it have room, or it is at the end of the heap.
pub mod Result
pub mod Shrink
pub mod Absorb
pub mod Expand
pub mod Added
pub mod Extend
use mathlib.Core.List.{Perm}
use splab.Prelude.{
  ℕ, ◌+◌, ◌-◌, ◌*◌, ◌/◌, ◌^◌, ◌≡◌, ◌≢◌, ◌≤◌, ◌<◌, Bool, true, false, ltb, leb, ◌==◌, List, ◌∷◌,
  ◌++◌, Option, none, some, get_elem?, length, arith, refl, ap, sym, ◌∙◌, Bool-cases, inl, inr,
}
use Prim.Native.Nat.{min}
use splab.Prelude.Fault.{◌>>=◌, Ensures, Ensures-bind, Ensures-imp}
use splab.Malloc.Tree.{Segment, segments, same_node}
use splab.Malloc.Tree.Order.List.{member}
use splab.Malloc.Tree.Order.List as Order
use splab.Malloc.Tree.Order.Multiset.{any, any-append, any-perm, member-any, insert_middle}
use splab.Malloc.Heap.{Header, Heap, first, read, frag_node}
use splab.Malloc.Heap.Entry.{to_user, units_for, malloc, free, grow, realloc}
use splab.Malloc.Heap.Check.{Block}
use splab.Malloc.Heap.Layout.{Linked}
use splab.Malloc.Heap.Blocks.{
  reach, last, free_at, used_at, Sized, Chunk, reach-le, reach-append, free_at-append,
  used_at-append, Linked-split, Linked-join, Chunk-Sized, Chunk-frame, any-free_above,
  any-free_below, Linked-stop,
}
use splab.Malloc.Heap.Place.{IsPlaced}
use splab.Malloc.Heap.State.{IsHeap}
use splab.Malloc.Heap.Regions.{Same, Intact, Intact-around, used_at_middle}
use splab.Malloc.Heap.Request.{units_for_fits}
use splab.Malloc.Heap.Frag.{IsFragmented, fragments, frag_node_refines}
use splab.Malloc.Heap.Release.Open.{IsOpen, used-IsOpen}
use splab.Malloc.Heap.Resize.Result.{IsKept}
use splab.Malloc.Heap.Resize.Shrink.{parts, fragmented, cut_or_whole}
use splab.Malloc.Heap.Extend.{added_units}
use splab.Malloc.Heap.Resize.Absorb.{room}
use splab.Malloc.Heap.Resize.Added.{Free}
use splab.Malloc.Heap.Resize.Extend.{grow_end}
use splab.Malloc.Heap.Resize.Expand.{grow-IsKept}

shrink_block_lem :
    (h : Heap) (xs ys : List Block) (n size : ℕ)
    → IsHeap h (xs ++ (record { size = n; alloc = true } ∷ ys))
    → (size == 0) ≡ false
    → leb (units_for size) n ≡ true
    → 2 ≤ units_for size
    → Ensures (realloc (some (to_user (reach first xs))) size h) (
        IsKept h
          (xs ++ (record { size = n; alloc = true } ∷ ys))
          (record { size = n; ptr = reach first xs })
          (units_for size)
          (units_for size))
unfolding realloc
shrink_block_lem h xs ys n size s positive enough two =
    let segment : (reach first xs * 8 + 8 - 8) / 8 ≡ reach first xs = omega arith in
    let fits : units_for size ≤ n = ground arith in
    rw (segment, (parts h xs ys n (units_for size) s fits two).1.1, positive, enough)
      (Ensures-bind _ _ (frag_node (reach first xs) (units_for size) h) _
        (fragmented h xs ys n (units_for size) s fits two)
        λ h' g. record {
          at = refl;
          resized = cut_or_whole h xs ys n (units_for size) s fits two h' g;
        })

grow_block_lem :
    (h : Heap) (xs ys : List Block) (n size : ℕ)
    → IsHeap h (xs ++ (record { size = n; alloc = true } ∷ ys))
    → (size == 0) ≡ false
    → leb (units_for size) n ≡ false
    → units_for size ≤ n + room ys
    → Ensures (realloc (some (to_user (reach first xs))) size h) (
        IsKept h
          (xs ++ (record { size = n; alloc = true } ∷ ys))
          (record { size = n; ptr = reach first xs })
          (units_for size)
          n)
unfolding realloc
grow_block_lem h xs ys n size s positive short enough =
    let segment : (reach first xs * 8 + 8 - 8) / 8 ≡ reach first xs = omega arith in
    let (o, used) = used-IsOpen xs ys n h s in
    rw (segment, o.own, positive, short) (grow-IsKept h xs n ys size o used enough)

extend_block_lem :
    (h : Heap) (xs ys : List Block) (n size : ℕ)
    → IsHeap h (xs ++ (record { size = n; alloc = true } ∷ ys))
    → Free ys
    → (size == 0) ≡ false
    → n + room ys < units_for size
    → h.brk + added_units (units_for size - (n + room ys)) * 8 ≤ h.max_addr
    → Ensures (realloc (some (to_user (reach first xs))) size h) (
        IsKept h
          (xs ++ (record { size = n; alloc = true } ∷ ys))
          (record { size = n; ptr = reach first xs })
          (units_for size)
          n)
unfolding realloc
extend_block_lem h xs ys n size s free positive short memory =
    let segment : (reach first xs * 8 + 8 - 8) / 8 ≡ reach first xs = omega arith in
    let (o, used) = used-IsOpen xs ys n h s in
    let small : leb (units_for size) n ≡ false = ground arith in
    rw (segment, o.own, positive, small)
      (grow_end h xs ys n (units_for size) s free size refl short memory)

-- On a heap in order, for the pointer to a region in use behind which all segments are free but
-- without room for the request, of at least one byte, and where the system has the memory that is
-- lacking, `mm_realloc` does not fault and returns the same pointer. It leaves a heap in order,
-- where the region keeps its place and its contents and has the units of the request, and the other regions in
-- use are as they were.
pub realloc_at_end :
    (h : Heap) (blocks : List Block) (region : Segment) (size : ℕ)
    → IsHeap h blocks
    → (placed : IsPlaced region true first blocks) → Free placed.ys
    → 1 ≤ size
    → region.size + room placed.ys < units_for size
    → h.brk + added_units (units_for size - (region.size + room placed.ys)) * 8 ≤ h.max_addr
    → Ensures
        (realloc (some (to_user region.ptr)) size h)
        (IsKept h blocks region (units_for size) region.size)
realloc_at_end h blocks region size s placed free positive short memory = rw placed.split (
    rw placed.at at (
      extend_block_lem h placed.xs placed.ys region.size size (rw placed.split at s) free
        (ground arith) short memory))

-- On a heap in order, for the pointer to a region in use and a request of at least one byte and at
-- most 2 ^ 32 - 16 for which the region and the free segments directly behind it have room,
-- `mm_realloc` does not fault and returns the same pointer. It leaves a heap in order, where the
-- region keeps its place and has room for the header and the request. The contents of the region are as they
-- were, as far as both its old and its new size go, and so are the other regions in use.
pub realloc_in_place :
    (h : Heap) (blocks : List Block) (region : Segment) (size : ℕ)
    → IsHeap h blocks
    → (placed : IsPlaced region true first blocks) → 1 ≤ size
    → size + 16 ≤ 2 ^ 32
    → units_for size ≤ region.size + room placed.ys
    → Ensures
        (realloc (some (to_user region.ptr)) size h)
        (IsKept h blocks region (units_for size) (min (units_for size) region.size))
realloc_in_place h blocks region size s placed positive small enough =
    let units = units_for size in
    let lower = units_for_fits size small in
    elim (Bool-cases (leb units region.size)) [
      | inl e ↦
          let fits : units ≤ region.size = ground arith in
          let least : min units region.size ≡ units = omega arith in
          rw (least, placed.split)
            (rw placed.at at (
              shrink_block_lem h placed.xs placed.ys region.size size (rw placed.split at s)
                (ground arith) e (omega arith)))
      | inr e ↦
          let short : region.size < units = ground arith in
          let least : min units region.size ≡ region.size = omega arith in
          rw (least, placed.split)
            (rw placed.at at (
              grow_block_lem h placed.xs placed.ys region.size size (rw placed.split at s)
                (ground arith) e enough))
    ]
