-- ===== src/Malloc/Heap/Release/Open.antt =====
-- The heap in the middle of `mm_free` and of `mm_realloc` in malloclab-handout/mm.c: one segment is
-- out of the tree, and the link behind it may be old.
use mathlib.Core.List.{Perm}
use splab.Prelude.{
  ℕ, ◌+◌, ◌*◌, ◌^◌, ◌≡◌, ◌≢◌, ◌≤◌, ◌<◌, Bool, true, false, List, ◌∷◌, ◌++◌, Option, none, some,
  get_elem?, set, length, arith, refl, sym, ◌∙◌, length-set,
}
use splab.Prelude.Fault.{◌>>=◌, Ensures, Ensures-imp}
use splab.Malloc.Tree.{Segment, segments, same_node}
use splab.Malloc.Tree.Refine.{IsValid}
use splab.Malloc.Heap.{Header, Heap, first, read, set_alloc, link_next, insert_segment}
use splab.Malloc.Heap.Check.{Block}
use splab.Malloc.Heap.Layout.{
  Linked, Tail, Linked-set, Linked-head, Linked-link, head, get-set_same, get-set_other,
}
use splab.Malloc.Heap.Blocks.{
  reach, last, free_at, used_at, Chunk, reach-le, reach-append, free_at-append, Linked-split,
  Linked-join, Chunk-Sized, Chunk-frame, any-free_above, any-free_below,
}
use splab.Malloc.Heap.State.{IsHeap, IsRooted, insert-IsRooted}
use splab.Malloc.Heap.Regions.{Intact, Intact-around}
use splab.Malloc.Heap.Frag.Cut.{relink}

-- The segment of `n` units between the blocks `xs` and `ys` is out of the tree.
pub record IsOpen (xs : List Block) (n : ℕ) (ys : List Block) (h : Heap) : Type 0 where
  pub chunk : Chunk h.units none first xs
  pub alloc : Bool
  pub own :
      read h (reach first xs) ≡ some (record { prev = last none first xs; size = n; alloc = alloc })
  pub two : 2 ≤ n
  pub tail : Tail h.units (reach first xs + n) ys (reach (reach first xs + n) ys)
  pub valid : IsValid h.root
  pub tree : Perm (segments h.root) (free_at first xs ++ free_at (reach first xs + n) ys)
  pub break_at : h.brk ≡ reach (reach first xs + n) ys * 8 + 8
  pub within : h.brk ≤ h.max_addr
  pub extent : h.max_addr ≤ length h.units * 8
  pub limit : h.max_addr < 2 ^ 31

-- The regions in use but for that segment.
abbrev pub others : List Block → ℕ → List Block → List Segment
others xs n ys = used_at first xs ++ used_at (reach first xs + n) ys

pub IsOpen-small :
    (xs : List Block) (n : ℕ) (ys : List Block) (h : Heap) → IsOpen xs n ys h → n < 2 ^ 28
IsOpen-small xs n ys h o =
    let brk = o.break_at in
    let within = o.within in let limit = o.limit in omega (arith, reach-le (reach first xs + n) ys)

-- The block of a region in use, opened
pub used-IsOpen :
    (xs ys : List Block) (n : ℕ) (h : Heap)
    → IsHeap h (xs ++ (record { size = n; alloc = true } ∷ ys))
    → (o : IsOpen xs n ys h) × (o.alloc ≡ true)
used-IsOpen xs ys n h s =
    let block : Block = record { size = n; alloc = true } in
    let end : reach first (xs ++ (block ∷ ys)) ≡ reach (reach first xs + n) ys =
      reach-append first xs (block ∷ ys) in
    let parts = Linked-split h.units none first xs (block ∷ ys) _ (rw end at s.linked) in
    (
      record {
        chunk = parts.0;
        alloc = true;
        own = parts.1.1;
        two = parts.1.0;
        tail = (some (reach first xs), parts.1.2);
        valid = s.valid;
        tree = rw (free_at-append first xs (block ∷ ys)) at s.tree;
        break_at = rw end at s.break_at;
        within = s.within;
        extent = s.extent;
        limit = s.limit;
      },
      refl,
    )

pub IsHeap-IsOpen :
    (xs ys : List Block) (n : ℕ) (h : Heap)
    → IsHeap h (xs ++ (record { size = n; alloc = true } ∷ ys))
    → IsOpen xs n ys h
IsHeap-IsOpen xs ys n h s = (used-IsOpen xs ys n h s).0

module _ (xs : List Block) (n : ℕ) (ys : List Block) (h : Heap) (o : IsOpen xs n ys h) where
  abbrev now : ℕ
  now = reach first xs

  abbrev prev : Option ℕ
  prev = last none first xs

  abbrev next : Header
  next = head (some now) ys

  -- The two headers that the end of `mm_free` writes.
  abbrev closed : List Header
  closed = set (set h.units now (record { prev = prev; size = n; alloc = false })) (now + n) next

  frame : (i : ℕ) → i ≢ now → i ≢ now + n → get_elem? closed i ≡ get_elem? h.units i
  frame i a b =
      get-set_other _ (now + n) i next (λ e. b (sym e))
      ∙ get-set_other h.units now i _ (λ e. a (sym e))

  own_closed : get_elem? closed now ≡ some (record { prev = prev; size = n; alloc = false })
  own_closed =
      let two = o.two in
      get-set_other _ (now + n) now next (omega arith) ∙ get-set_same h.units now _ _ o.own

  abbrev free_block : Block
  free_block = record { size = n; alloc = false }

  closed-Linked : Linked closed none first (xs ++ (free_block ∷ ys)) (reach (now + n) ys)
  closed-Linked =
      let two = o.two in
      Linked-join closed none first xs (free_block ∷ ys) (reach (now + n) ys)
        (Chunk-frame h.units closed none first xs (λ i l. frame i (omega arith) (omega arith))
          o.chunk)
        (
          two,
          own_closed,
          Linked-link _ o.tail.0 (some now) (now + n) ys (reach (now + n) ys) (
              Linked-set h.units now _ o.tail.0 (now + n) ys (reach (now + n) ys) (omega arith)
                o.tail.1),
        )

  intact : Intact h.units closed (others xs n ys)
  intact =
      let two = o.two in
      Intact-around h.units closed now (now + n) xs ys (omega arith)
        (λ i l. frame i (omega arith) (omega arith)) (λ i l. frame i (omega arith) (omega arith))

  inserted : Ensures (insert_segment now (record h { units = closed })) (
      IsRooted
        (record h { units = closed })
        (free_at first xs ++ (record { size = n; ptr = now } ∷ free_at (now + n) ys)))
  inserted =
      let two = o.two in
      let header : Header = record { prev = prev; size = n; alloc = false } in
      let segment : Segment = record { size = n; ptr = now } in
      insert-IsRooted (record h { units = closed }) now header (free_at first xs)
        (free_at (now + n) ys) o.valid own_closed
        (any-free_below (λ x. same_node x segment) first xs
          (Chunk-Sized h.units none first xs o.chunk) (λ y l. ground arith))
        (any-free_above (λ x. same_node x segment) (now + n) ys (λ y l. ground arith)) o.tree
        (ground arith)

  -- The end of `mm_free` makes it a free segment.
  pub close-IsHeap :
      Ensures
        (do h₁ ← set_alloc now false h; h₂ ← link_next now h₁; insert_segment now h₂)
        (λ h'. IsHeap h' (xs ++ (free_block ∷ ys)) × Intact h.units h'.units (others xs n ys))
  close-IsHeap =
      let two = o.two in
      let header : Header = record { prev = prev; size = n; alloc = false } in
      let end : reach first (xs ++ (free_block ∷ ys)) ≡ reach (now + n) ys =
        reach-append first xs (free_block ∷ ys) in
      rw
        (
          o.own,
          get-set_same h.units now _ header o.own,
          get-set_other h.units now (now + n) header (omega arith),
          Linked-head h.units o.tail.0 (now + n) ys _ o.tail.1,
          relink o.tail.0 (some now) ys,
        )
        (Ensures-imp _
          (λ h'. IsHeap h' (xs ++ (free_block ∷ ys)) × Intact h.units h'.units (others xs n ys)) _
          inserted
          λ h' r. (
            record {
              linked = rw (end, r.units) closed-Linked;
              valid = r.valid;
              tree = rw (free_at-append first xs (free_block ∷ ys)) r.tree;
              break_at = rw (end, r.brk) o.break_at;
              within = rw (r.brk, r.limit) o.within;
              extent =
                  rw
                    (
                      r.limit,
                      r.units,
                      length-set (set h.units now header) (now + n) next,
                      length-set h.units now header,
                    )
                    o.extent;
              limit = rw r.limit o.limit;
            },
            rw r.units intact,
          ))
