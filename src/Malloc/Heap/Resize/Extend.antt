-- ===== src/Malloc/Heap/Resize/Extend.antt =====
-- `mm_realloc` of malloclab-handout/mm.c at the end of the heap: what is lacking is had from the
-- system.
use mathlib.Core.List.{Perm, append_assoc}
use splab.Prelude.{
  append-nil, ℕ, ◌+◌, ◌-◌, ◌*◌, ◌/◌, ◌%◌, ◌^◌, ◌≡◌, ◌≤◌, ◌<◌, true, false, ltb, List, [], ◌∷◌, ◌++◌,
  some, get_elem?, length, arith, refl, sym, subst, ◌∙◌, All-append,
}
use splab.Prelude.Fault.{◌>>=◌, Ensures, Ensures-bind, Ensures-bind_two}
use splab.Malloc.Tree.{Segment}
use splab.Malloc.Heap.{Heap, first, set_alloc, insert_segment}
use splab.Malloc.Heap.Entry.{units_for, to_user, sbrk, expand, grow}
use splab.Malloc.Heap.Check.{Block}
use splab.Malloc.Heap.Blocks.{reach, used_at, reach-le, reach-append, used_at-append, Linked-Chunk}
use splab.Malloc.Heap.State.{IsHeap}
use splab.Malloc.Heap.Regions.{Same, Intact, All-used_below, used_at_middle}
use splab.Malloc.Heap.Extend.{added_units}
use splab.Malloc.Heap.Alloc.Grow.{IsGrown, sbrk-IsGrown}
use splab.Malloc.Heap.Release.Open.{others, used-IsOpen}
use splab.Malloc.Heap.Release.Join.{Frame}
use splab.Malloc.Heap.Release.Neighbours.{Intact-trans}
use splab.Malloc.Heap.Resize.Result.{IsKept}
use splab.Malloc.Heap.Resize.Absorb.{room, Linked-length}
use splab.Malloc.Heap.Resize.Expand.{expand-IsResized}
use splab.Malloc.Heap.Resize.Added.{Free, measure_end, insert-IsHeap, room-append}

module _ (h : Heap) (xs ys : List Block) (n units : ℕ)
    (s : IsHeap h (xs ++ (record { size = n; alloc = true } ∷ ys))) (free : Free ys) where
  abbrev now : ℕ
  now = reach first xs

  abbrev used : Block
  used = record { size = n; alloc = true }

  abbrev blocks : List Block
  blocks = xs ++ (used ∷ ys)

  abbrev region : Segment
  region = record { size = n; ptr = now }

  end : reach first blocks ≡ reach (now + n) ys
  end = reach-append first xs (used ∷ ys)

  -- The other regions in use, with `new` free blocks behind
  others_end :
      (new : List Block)
      → used_at (reach first blocks) new ≡ []
      → others xs n (ys ++ new) ≡ others xs n ys
  others_end new e =
      let none : used_at (reach (now + n) ys) new ≡ [] = rw end at e in
      rw (used_at-append (now + n) ys new, none, append-nil (used_at (now + n) ys)) refl

  Intact-below :
      (h' : Heap)
      → ((i : ℕ) → i < reach first blocks → get_elem? h'.units i ≡ get_elem? h.units i)
      → Intact h.units h'.units (region ∷ others xs n ys)
  Intact-below h' same =
      let low = reach-le (now + n) ys in
      (
        (λ i l m. same i (omega (arith, end, low))),
        All-append (Same h.units h'.units) (used_at first xs) (used_at (now + n) ys)
            (All-used_below (Same h.units h'.units) first xs
              λ y l i a b. same i (omega (arith, end, low)))
            (All-used_below (Same h.units h'.units) (now + n) ys
              λ y l i a b. same i (omega (arith, end))),
      )

  -- What follows the call of `mm_sbrk` for `more` units
  pub extended :
      (more : ℕ) (h₁ : Heap)
      → (g : IsGrown h blocks more (reach first blocks, h₁)) → units ≤ n + room ys + more
      → Ensures
          (do
            h₂ ← set_alloc (reach first blocks) false h₁
            h₃ ← insert_segment (reach first blocks) h₂
            h₄ ← expand now units h₃
            some (to_user now, h₄))
          (IsKept h blocks region units n)
  extended more h₁ g enough =
      let block : Block = record { size = g.size; alloc = false } in
      let new = block ∷ g.rest in
      Ensures-bind_two
        (λ h₃. IsHeap h₃ (blocks ++ new) × Frame (reach first blocks) h₁.units h₃.units)
        (IsKept h blocks region units n) (set_alloc (reach first blocks) false h₁) _ _
        (insert-IsHeap h₁ blocks g.rest g.size g.heap)
        λ h₃ (heap, frame).
          let whole : IsHeap h₃ (xs ++ (used ∷ (ys ++ new))) = rw append_assoc at heap in
          let (o, a) = used-IsOpen xs (ys ++ new) n h₃ whole in
          let room_for : units ≤ n + room (ys ++ new) =
            (let more_units = g.enough in omega (arith, room-append ys new free, enough)) in
          let others_same = others_end new g.unused in
          let kept = Intact-below h₃ (λ i l. frame i (omega arith) ∙ g.before i l) in
          Ensures-bind _ (IsKept h blocks region units n) (expand now units h₃) _
            (expand-IsResized h₃ xs n (ys ++ new) units o a room_for)
            λ h₄ (r, e).
              let same = e ∙ others_same in
              let later : Intact h₃.units h₄.units (region ∷ others xs n ys) =
                subst (λ rest. Intact h₃.units h₄.units (region ∷ rest)) same r.intact in
              record {
                at = refl;
                resized = record {
                  blocks' = r.blocks';
                  size = r.size;
                  rest = others xs n ys;
                  heap = r.heap;
                  enough = r.enough;
                  before = used_at_middle xs ys n;
                  after =
                      subst
                        (λ rest.
                          Perm (used_at first r.blocks')
                            (record { size = r.size; ptr = now } ∷ rest))
                        same r.after;
                  intact =
                      Intact-trans h.units h₃.units h₄.units (region ∷ others xs n ys) kept later;
                };
              }

  -- The units that are lacking
  abbrev lack : ℕ
  lack = units - (n + room ys)

  -- `mm_realloc` of a region with only free segments behind it, which are not enough
  pub grow_end :
      (size : ℕ)
      → units ≡ units_for size
      → n + room ys < units
      → h.brk + added_units lack * 8 ≤ h.max_addr
      → Ensures (grow (to_user now) size h) (IsKept h blocks region units n)
  unfolding grow
  grow_end size asked short memory =
      let segment : (now * 8 + 8 - 8) / 8 ≡ now = omega arith in
      let (o, a) = used-IsOpen xs ys n h s in
      let stop = reach (now + n) ys in
      let brk = o.break_at in
      let within = o.within in
      let extent = o.extent in
      let limit = o.limit in
      let fuel : length ys < length h.units =
        omega (arith, Linked-length h.units o.tail.0 (now + n) ys stop o.tail.1) in
      let measured =
        measure_end (length h.units) o.tail.0 (now + n) n units h ys stop o.tail.1 free fuel
          (omega arith) (omega arith) short in
      let (_, mark) = Linked-Chunk h.units o.tail.0 (now + n) ys stop o.tail.1 in
      let lacking : ltb (n + room ys) units ≡ true = ground arith in
      let small : lack * 8 < 2 ^ 31 = ground arith in
      let whole : lack * 8 % 2 ^ 32 ≡ lack * 8 = omega arith in
      rw (segment, sym asked, o.own, measured, mark, lacking, whole)
        (Ensures-bind (IsGrown h blocks lack) (IsKept h blocks region units n) (sbrk (lack * 8) h) _
          (sbrk-IsGrown h blocks lack s (omega arith) (omega arith) memory)
          λ (new, h₁) g. rw g.at (
            extended lack h₁
              (record {
                size = g.size;
                rest = g.rest;
                at = refl;
                heap = g.heap;
                unused = g.unused;
                enough = g.enough;
                before = g.before;
              })
              (omega arith)))
