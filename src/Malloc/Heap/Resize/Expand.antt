-- ===== src/Malloc/Heap/Resize/Expand.antt =====
-- The expand case of `mm_realloc` in malloclab-handout/mm.c, where the free segments behind the
-- region have room.
use splab.Prelude.{
  ℕ, ◌+◌, ◌-◌, ◌*◌, ◌/◌, ◌≡◌, ◌≤◌, ◌<◌, true, false, ltb, List, ◌∷◌, ◌++◌, none, some, set, length,
  arith, refl, sym, ◌∙◌, length-set,
}
use splab.Prelude.Fault.{Ensures, Ensures-bind, Ensures-imp}
use splab.Malloc.Heap.{Heap, first, link_next}
use splab.Malloc.Heap.Entry.{units_for, to_user, measure, absorb, expand, grow}
use splab.Malloc.Heap.Check.{Block}
use splab.Malloc.Heap.Layout.{Linked-head, Linked-link, head, get-set_other}
use splab.Malloc.Heap.Blocks.{reach, reach-append, free_at-append, Linked-join, Chunk-frame}
use splab.Malloc.Heap.State.{IsHeap}
use splab.Malloc.Heap.Frag.Cut.{relink}
use splab.Malloc.Heap.Regions.{Intact-around, used_at_middle}
use splab.Malloc.Heap.Release.Open.{IsOpen, others}
use splab.Malloc.Heap.Release.Join.{Frame}
use splab.Malloc.Heap.Release.Neighbours.{Intact-trans}
use splab.Malloc.Heap.Resize.Result.{IsResized, IsKept}
use splab.Malloc.Heap.Resize.Absorb.{
  room, Linked-length, Measured, measure-Measured, absorb-IsAbsorbed,
}

-- The link behind the segment is set, and the heap is in order again.
relink-IsHeap :
    (xs : List Block) (n : ℕ) (ys : List Block) (h : Heap) (o : IsOpen xs n ys h)
    → o.alloc ≡ true
    → Ensures (link_next (reach first xs) h) (λ h'.
      IsHeap h' (xs ++ (record { size = n; alloc = true } ∷ ys))
      × Frame (reach first xs + n) h.units h'.units)
relink-IsHeap xs n ys h o a =
    let now = reach first xs in
    let two = o.two in
    let block : Block = record { size = n; alloc = true } in
    let next = head (some now) ys in
    let frame : Frame (now + n) h.units (set h.units (now + n) next) =
      λ i ne. get-set_other h.units (now + n) i next (λ e. ne (sym e)) in
    let end : reach first (xs ++ (block ∷ ys)) ≡ reach (now + n) ys =
      reach-append first xs (block ∷ ys) in
    rw (o.own, Linked-head h.units o.tail.0 (now + n) ys _ o.tail.1, relink o.tail.0 (some now) ys)
      (
        record {
          linked = rw end (
              Linked-join (set h.units (now + n) next) none first xs (block ∷ ys)
                (reach (now + n) ys)
                (Chunk-frame h.units (set h.units (now + n) next) none first xs
                  (λ i l. frame i (omega arith)) o.chunk)
                (
                  two,
                  frame now (omega arith) ∙ o.own ∙ rw a refl,
                  Linked-link h.units o.tail.0 (some now) (now + n) ys (reach (now + n) ys)
                      o.tail.1,
                ));
          valid = o.valid;
          tree = rw (free_at-append first xs (block ∷ ys)) o.tree;
          break_at = rw end o.break_at;
          within = o.within;
          extent = rw (length-set h.units (now + n) next) o.extent;
          limit = o.limit;
        },
        frame,
      )

-- The end of the expand case, on a heap in order
pub expand-IsResized :
    (h : Heap) (xs : List Block) (n : ℕ) (ys : List Block) (units : ℕ) (o : IsOpen xs n ys h)
    → o.alloc ≡ true
    → units ≤ n + room ys
    → Ensures (expand (reach first xs) units h) (λ h'.
      (g : IsResized h
        (xs ++ (record { size = n; alloc = true } ∷ ys))
        (record { size = n; ptr = reach first xs })
        units
        n
        h')
      × (g.rest ≡ others xs n ys))
unfolding expand
expand-IsResized h xs n ys units o a enough =
    let now = reach first xs in
    let fuel : length ys < length h.units =
      (let brk = o.break_at in
        let within = o.within in
        let extent = o.extent in
        omega (arith, Linked-length h.units o.tail.0 (now + n) ys _ o.tail.1)) in
    rw o.own (
      Ensures-bind _ _ (absorb (length h.units) now (now + n) units h) _
        (absorb-IsAbsorbed (length h.units) xs n ys units h o a fuel enough)
        λ h₁ g.
          Ensures-imp _ _ (link_next now h₁)
            (relink-IsHeap xs g.size g.follow h₁ g.open_at g.in_use)
            λ h' (heap, frame).
              let more = g.more in
              (
                record {
                  blocks' = xs ++ (record { size = g.size; alloc = true } ∷ g.follow);
                  size = g.size;
                  rest = others xs n ys;
                  heap = heap;
                  enough = g.enough;
                  before = used_at_middle xs ys n;
                  after = rw g.same at (used_at_middle xs g.follow g.size);
                  intact = (
                    (λ i l m. frame i (omega arith) ∙ g.frame i (omega arith)),
                    Intact-trans h.units h₁.units h'.units (others xs n ys) g.intact (
                        rw g.same at (
                          Intact-around h₁.units h'.units (now + g.size) (now + g.size) xs g.follow
                            (omega arith) (λ i l. frame i (omega arith))
                            (λ i l. frame i (omega arith)))),
                  );
                },
                refl,
              ))

-- `mm_realloc` of a region that is too small, where what is free behind it is enough
pub grow-IsKept :
    (h : Heap) (xs : List Block) (n : ℕ) (ys : List Block) (size : ℕ) (o : IsOpen xs n ys h)
    → o.alloc ≡ true
    → units_for size ≤ n + room ys
    → Ensures (grow (to_user (reach first xs)) size h) (
        IsKept h
          (xs ++ (record { size = n; alloc = true } ∷ ys))
          (record { size = n; ptr = reach first xs })
          (units_for size)
          n)
unfolding grow
grow-IsKept h xs n ys size o a enough =
    let now = reach first xs in
    let units = units_for size in
    let stop = reach (now + n) ys in
    let segment : (now * 8 + 8 - 8) / 8 ≡ now = omega arith in
    let brk = o.break_at in
    let within = o.within in
    let extent = o.extent in
    let limit = o.limit in
    let fuel : length ys < length h.units =
      omega (arith, Linked-length h.units o.tail.0 (now + n) ys stop o.tail.1) in
    rw (segment, o.own)
      (Ensures-bind (Measured h units) _ (measure (length h.units) (now + n) n units h) _
        (measure-Measured (length h.units) o.tail.0 (now + n) n units h ys stop o.tail.1 fuel
          (omega arith) (omega arith) enough)
        λ (next, sum) (header, there, found).
          let in_place : ltb sum units ≡ false = ground arith in
          rw (there, in_place)
            (Ensures-bind _
              (IsKept h (xs ++ (record { size = n; alloc = true } ∷ ys))
                (record { size = n; ptr = now }) units n)
              (expand now units h) _ (expand-IsResized h xs n ys units o a enough)
              λ h' g. record { at = refl; resized = g.0 }))
