-- ===== src/Malloc/Heap/Release.antt =====
-- `mm_free` of malloclab-handout/mm.c keeps the heap and takes one region from the user.
pub mod Open
pub mod Join
pub mod Neighbours
use mathlib.Core.List.{Perm}
use mathlib.Core.List.Perm
use splab.Prelude.{
  ℕ, ◌+◌, ◌-◌, ◌*◌, ◌/◌, ◌≡◌, ◌≢◌, ◌≤◌, ◌<◌, ◌⊎◌, Bool, true, false, not, ◌||◌, ◌&&◌, ◌==◌, ltb,
  if◌then◌else◌, List, [], ◌∷◌, ◌++◌, Option, none, some, get_elem?, arith, refl, ap, sym, ◌∙◌, All,
  Bool-cases, inl, inr, subst,
}
use splab.Prelude.Fault.{◌>>=◌, Ensures, Ensures-bind, Ensures-imp}
use splab.Malloc.Tree.{Segment}
use splab.Malloc.Tree.Order.Multiset.{any}
use splab.Malloc.Heap.{
  Header, Heap, first, read, set_size, set_alloc, link_next, insert_segment, delete_segment,
}
use splab.Malloc.Heap.Entry.{to_user, join_prev, join_next, free}
use splab.Malloc.Heap.Check.{Block}
use splab.Malloc.Heap.Layout.{Linked, Tail}
use splab.Malloc.Heap.Blocks.{
  reach, last, free_at, used_at, Chunk, reach-append, last-append, Chunk-split, used_at-append,
}
use splab.Malloc.Heap.Place.{is, find_used}
use splab.Malloc.Heap.State.{IsHeap, IsRooted}
use splab.Malloc.Heap.Regions.{Same, Intact, used_at_middle}
use splab.Malloc.Heap.Release.Open.{IsOpen, others, IsHeap-IsOpen, close-IsHeap}
use splab.Malloc.Heap.Release.Join.{
  next-IsRooted, next-IsOpen, prev-IsRooted, prev-IsOpen, prev-others,
}
use splab.Malloc.Heap.Release.Neighbours.{
  Intact-trans, IsJoined, IsLowered, join_next-IsJoined, join_prev-IsLowered,
}

-- What a call of `mm_free` for a region makes of the heap `h` of `blocks`: the region is no longer
-- in use.
pub record IsReleased (h : Heap) (blocks : List Block) (region : Segment) (h' : Heap) : Type 0 where
  pub blocks' : List Block
  pub heap : IsHeap h' blocks'
  pub used : Perm (used_at first blocks) (region ∷ used_at first blocks')
  pub intact : Intact h.units h'.units (used_at first blocks')

free_block_lem :
    (h : Heap) (xs ys : List Block) (n : ℕ)
    → IsHeap h (xs ++ (record { size = n; alloc = true } ∷ ys))
    → Ensures (free (to_user (reach first xs)) h) (
        IsReleased h
          (xs ++ (record { size = n; alloc = true } ∷ ys))
          (record { size = n; ptr = reach first xs }))
unfolding free
free_block_lem h xs ys n s =
    let o = IsHeap-IsOpen xs ys n h s in
    let segment : (reach first xs * 8 + 8 - 8) / 8 ≡ reach first xs = omega arith in
    rw (segment, o.own)
      (Ensures-bind _ _ (join_prev (reach first xs) (last none first xs) h) _
        (join_prev-IsLowered h xs n ys o)
        λ (now, h₁) l.
          rw (l.at, sym l.end)
            (Ensures-bind _ _ (join_next (reach first l.blocks) (reach first l.blocks + l.size) h₁)
              _ (join_next-IsJoined h₁ l.blocks l.size ys l.open_at)
              λ h₂ j. rw j.at (
                Ensures-imp _
                  (IsReleased h (xs ++ (record { size = n; alloc = true } ∷ ys))
                    (record { size = n; ptr = reach first xs }))
                  _ (close-IsHeap j.blocks j.size j.follow h₂ j.open_at)
                  λ h' c.
                    let kept : used_at first
                          (j.blocks ++ (record { size = j.size; alloc = false } ∷ j.follow))
                        ≡ others xs n ys =
                      used_at-append first j.blocks _ ∙ j.same ∙ l.same in
                    record {
                      blocks' = j.blocks ++ (record { size = j.size; alloc = false } ∷ j.follow);
                      heap = c.0;
                      used = rw kept (used_at_middle xs ys n);
                      intact = rw kept (
                          Intact-trans h.units h₂.units h'.units _
                            (Intact-trans h.units h₁.units h₂.units _ l.intact
                              (rw l.same at j.intact))
                            (rw (j.same ∙ l.same) at c.1));
                    })))

-- On a heap in order, for the pointer to a region in use, `mm_free` does not fault. It leaves a heap
-- in order, where the regions in use are those of before without this one, and the contents of
-- the others are as they were.
pub free_refines :
    (h : Heap) (blocks : List Block) (region : Segment)
    → IsHeap h blocks
    → any (is region) (used_at first blocks) ≡ true
    → Ensures (free (to_user region.ptr) h) (IsReleased h blocks region)
free_refines h blocks region s held =
    let placed = find_used region first blocks held in
    rw placed.split
      (rw placed.at at (free_block_lem h placed.xs placed.ys region.size (rw placed.split at s)))
