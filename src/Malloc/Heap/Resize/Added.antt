-- ===== src/Malloc/Heap/Resize/Added.antt =====
-- The end of the heap in `mm_realloc` of malloclab-handout/mm.c: a segment that was taken from the
-- system becomes a free one behind the others.
use splab.Prelude.{
  ℕ, zero, suc, ◌+◌, ◌%◌, ◌^◌, ◌≡◌, ◌≤◌, ◌<◌, true, false, ltb, ◌==◌, List, [], ◌∷◌, ◌++◌, Option,
  none, some, set, length, arith, refl, ap, sym, ◌∙◌, All, length-set,
}
use splab.Prelude.Fault.{◌>>=◌, Ensures, Ensures-imp}
use splab.Malloc.Tree.{Segment, same_node}
use splab.Malloc.Heap.{Header, Heap, first, set_alloc, insert_segment}
use splab.Malloc.Heap.Entry.{measure}
use splab.Malloc.Heap.Check.{Block}
use splab.Malloc.Heap.Layout.{Linked, Linked-set, get-set_same, get-set_other}
use splab.Malloc.Heap.Blocks.{
  reach, last, free_at, reach-le, reach-append, free_at-append, Linked-split, Linked-join,
  Chunk-Sized, Chunk-frame, any-free_above, any-free_below,
}
use splab.Malloc.Heap.State.{IsHeap, insert-IsRooted}
use splab.Malloc.Heap.Release.Join.{Frame}
use splab.Malloc.Heap.Resize.Absorb.{room}

-- All the blocks are free.
abbrev pub Free : List Block → Type 0
Free = All (λ block. block.alloc ≡ false)

-- Where the segments that follow are free and not enough, the first loop ends at the end mark.
pub measure_end :
    (fuel : ℕ) (prev : Option ℕ) (next sum size : ℕ) (h : Heap) (blocks : List Block) (stop : ℕ)
    → Linked h.units prev next blocks stop
    → Free blocks
    → length blocks < fuel
    → sum ≤ next
    → reach next blocks < 2 ^ 32
    → sum + room blocks < size
    → measure fuel next sum size h ≡ some (reach next blocks, sum + room blocks)
unfolding measure
measure_end zero prev next sum size h blocks stop l free less low small short =
    absurd (omega (arith, less))
measure_end (suc fuel) prev next sum size h [] stop (e, s) free less low small short =
    let same : sum + 0 ≡ sum = omega arith in rw (e, same) refl
measure_end (suc fuel) prev next sum size h (block ∷ blocks) stop (two, e, l) (a, free) less low
      small short =
    let some_units : (block.size == 0) ≡ false = ground arith in
    let bound = reach-le (next + block.size) blocks in
    let wrap : (sum + block.size) % 2 ^ 32 ≡ sum + block.size = omega arith in
    let counted : sum + room (block ∷ blocks) ≡ sum + block.size + room blocks = ground arith in
    let more : ltb sum size ≡ true = ground arith in
    let assoc : sum + block.size + room blocks ≡ sum + (block.size + room blocks) = omega arith in
    rw (e, some_units, a, more, wrap)
      (measure_end fuel (some next) (next + block.size) (sum + block.size) size h blocks stop l free
          (omega arith) (omega arith) small (omega (arith, short, counted))
        ∙ ap (λ (s : ℕ). some (reach (next + block.size) blocks, s)) assoc)

module _ (h : Heap) (xs ys : List Block) (n : ℕ)
    (s : IsHeap h (xs ++ (record { size = n; alloc = true } ∷ ys))) where
  abbrev now : ℕ
  now = reach first xs

  abbrev header : Header
  header = record { prev = last none first xs; size = n; alloc = false }

  abbrev block : Block
  block = record { size = n; alloc = false }

  abbrev marked : List Header
  marked = set h.units now header

  -- A segment in use becomes a free one, without a look at its neighbours.
  pub insert-IsHeap :
      Ensures
        (do h₁ ← set_alloc now false h; insert_segment now h₁)
        (λ h'. IsHeap h' (xs ++ (block ∷ ys)) × Frame now h.units h'.units)
  insert-IsHeap =
      let used : Block = record { size = n; alloc = true } in
      let stop = reach (now + n) ys in
      let end : reach first (xs ++ (used ∷ ys)) ≡ stop = reach-append first xs (used ∷ ys) in
      let end' : reach first (xs ++ (block ∷ ys)) ≡ stop = reach-append first xs (block ∷ ys) in
      let parts = Linked-split h.units none first xs (used ∷ ys) stop (rw end at s.linked) in
      let two = parts.1.0 in
      let segment : Segment = record { size = n; ptr = now } in
      let frame : Frame now h.units marked =
        λ i ne. get-set_other h.units now i header (λ e. ne (sym e)) in
      let own = get-set_same h.units now _ header parts.1.1 in
      let tree = rw (free_at-append first xs (used ∷ ys)) at s.tree in
      rw parts.1.1 (
        Ensures-imp _ (λ h'. IsHeap h' (xs ++ (block ∷ ys)) × Frame now h.units h'.units) _
          (insert-IsRooted (record h { units = marked }) now header (free_at first xs)
            (free_at (now + n) ys) s.valid own
            (any-free_below (λ x. same_node x segment) first xs
              (Chunk-Sized h.units none first xs parts.0) (λ y l. ground arith))
            (any-free_above (λ x. same_node x segment) (now + n) ys (λ y l. ground arith)) tree
            (ground arith))
          λ h' r. (
            record {
              linked =
                  rw (end', r.units)
                    (Linked-join marked none first xs (block ∷ ys) stop
                      (Chunk-frame h.units marked none first xs (λ i l. frame i (omega arith))
                        parts.0)
                      (
                        two,
                        own,
                        Linked-set h.units now header (some now) (now + n) ys stop (omega arith)
                            parts.1.2,
                      ));
              valid = r.valid;
              tree = rw (free_at-append first xs (block ∷ ys)) r.tree;
              break_at = rw (end', r.brk) (rw end at s.break_at);
              within = rw (r.brk, r.limit) s.within;
              extent = rw (r.limit, r.units, length-set h.units now header) s.extent;
              limit = rw r.limit s.limit;
            },
            rw r.units frame,
          ))

pub room-append : (ys zs : List Block) → Free ys → room (ys ++ zs) ≡ room ys + room zs
room-append [] zs f = omega arith
room-append (y ∷ ys) zs (a, f) = rw (a, room-append ys zs f) (omega arith)
