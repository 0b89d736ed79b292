-- ===== src/Malloc/Heap/Resize/Result.antt =====
-- What `mm_realloc` of malloclab-handout/mm.c gives where the region keeps its place.
use mathlib.Core.List.{Perm}
use splab.Prelude.{ℕ, ◌≡◌, ◌≤◌, List, ◌∷◌}
use splab.Malloc.Tree.{Segment}
use splab.Malloc.Heap.{Heap, first}
use splab.Malloc.Heap.Entry.{to_user}
use splab.Malloc.Heap.Check.{Block}
use splab.Malloc.Heap.Blocks.{used_at}
use splab.Malloc.Heap.State.{IsHeap}
use splab.Malloc.Heap.Regions.{Intact}

-- What a call of `mm_realloc` for `units` units makes of the heap `h` of `blocks`: `region` keeps its
-- place and has `units` units at least, and the first `kept` units of it and the other regions in
-- use have their contents of before.
pub record IsResized (h : Heap) (blocks : List Block) (region : Segment) (units kept : ℕ)
    (h' : Heap) : Type 0 where
  pub blocks' : List Block
  pub size : ℕ
  pub rest : List Segment
  pub heap : IsHeap h' blocks'
  pub enough : units ≤ size
  pub before : Perm (used_at first blocks) (region ∷ rest)
  pub after : Perm (used_at first blocks') (record { size = size; ptr = region.ptr } ∷ rest)
  pub intact : Intact h.units h'.units (record { size = kept; ptr = region.ptr } ∷ rest)

-- The result of such a call: the pointer that it was given, and the heap.
pub record IsKept (h : Heap) (blocks : List Block) (region : Segment) (units kept : ℕ)
    (result : ℕ × Heap) : Type 0 where
  pub at : result.0 ≡ to_user region.ptr
  pub resized : IsResized h blocks region units kept result.1
