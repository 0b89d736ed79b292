-- ===== src/Malloc/Heap/Release/Join.antt =====
-- Coalescing in malloclab-handout/mm.c: a free neighbour is taken out of the tree and joined.
use mathlib.Core.List.{Perm, append_assoc}
use splab.Prelude.{
  append-nil, ℕ, ◌+◌, ◌*◌, ◌%◌, ◌^◌, ◌≡◌, ◌≢◌, ◌<◌, false, List, [], ◌∷◌, ◌++◌, none, some,
  get_elem?, set, arith, refl, sym, length-set,
}
use splab.Prelude.Fault.{Ensures}
use splab.Malloc.Tree.{Segment, segments, same_node}
use splab.Malloc.Heap.{Header, Heap, first, set_size, delete_segment}
use splab.Malloc.Heap.Check.{Block}
use splab.Malloc.Heap.Layout.{Linked, Linked-set, get-set_same, get-set_other}
use splab.Malloc.Heap.Blocks.{
  reach, last, free_at, used_at, Chunk, Chunk-Sized, Chunk-frame, any-free_above, any-free_below,
  reach-le, reach-append, Chunk-split, free_at-append, used_at-append,
}
use splab.Malloc.Heap.State.{IsRooted, delete-IsRooted}
use splab.Malloc.Heap.Regions.{Intact, Intact-around}
use splab.Malloc.Heap.Release.Open.{IsOpen, others}

-- Only the unit `now` is written.
abbrev pub Frame : ℕ → List Header → List Header → Type 0
Frame now units units' = (i : ℕ) → i ≢ now → get_elem? units' i ≡ get_elem? units i

module _ (xs : List Block) (n m : ℕ) (ys : List Block) (h : Heap)
    (o : IsOpen xs n (record { size = m; alloc = false } ∷ ys) h) where
  abbrev now : ℕ
  now = reach first xs

  abbrev behind : Block
  behind = record { size = m; alloc = false }

  whole : now + (n + m) ≡ now + n + m
  whole = omega arith

  pub next-IsRooted :
      Ensures
        (delete_segment (now + n) h)
        (IsRooted h (free_at first xs ++ free_at (now + n + m) ys))
  next-IsRooted =
      let two = o.two in
      let least = o.tail.1.0 in
      let segment : Segment = record { size = m; ptr = now + n } in
      delete-IsRooted h (now + n) (record { prev = o.tail.0; size = m; alloc = false })
        (free_at first xs) (free_at (now + n + m) ys) o.valid o.tail.1.1
        (any-free_below (λ x. same_node x segment) first xs
          (Chunk-Sized h.units none first xs o.chunk) (λ y l. ground arith))
        (any-free_above (λ x. same_node x segment) (now + n + m) ys (λ y l. ground arith)) o.tree

  pub next-IsOpen :
      (h₁ : Heap)
      → IsRooted h (free_at first xs ++ free_at (now + n + m) ys) h₁
      → Ensures (set_size now (n + m) h₁) (λ h'.
        (o' : IsOpen xs (n + m) ys h') × Intact h.units h'.units (others xs n (behind ∷ ys))
        × (o'.alloc ≡ o.alloc)
        × Frame now h.units h'.units)
  next-IsOpen h₁ r =
      let two = o.two in
      let least = o.tail.1.0 in
      let small : n + m < 2 ^ 29 =
        (let brk = o.break_at in
          let within = o.within in
          let limit = o.limit in omega (arith, reach-le (now + n + m) ys)) in
      let wrap : (n + m) % 2 ^ 29 ≡ n + m = omega arith in
      let header : Header = record { prev = last none first xs; size = n + m; alloc = o.alloc } in
      let frame : (i : ℕ) → i ≢ now → get_elem? (set h.units now header) i ≡ get_elem? h.units i =
        λ i a. get-set_other h.units now i header (λ e. a (sym e)) in
      rw (r.units, o.own, wrap)
        (
          record {
            chunk =
                Chunk-frame h.units (set h.units now header) none first xs
                  (λ i l. frame i (omega arith)) o.chunk;
            alloc = o.alloc;
            own = get-set_same h.units now _ header o.own;
            two = omega arith;
            tail = rw whole (
              some (now + n),
              Linked-set h.units now header (some (now + n)) (now + n + m) ys
                  (reach (now + n + m) ys) (omega arith) o.tail.1.2,
            );
            valid = r.valid;
            tree = rw whole r.tree;
            break_at = rw (whole, r.brk) o.break_at;
            within = rw (r.brk, r.limit) o.within;
            extent = rw (r.limit, length-set h.units now header) o.extent;
            limit = rw r.limit o.limit;
          },
          Intact-around h.units (set h.units now header) now (now + n) xs (behind ∷ ys)
              (omega arith) (λ i l. frame i (omega arith)) (λ i l. frame i (omega arith)),
          refl,
          frame,
        )

module _ (zs : List Block) (m n : ℕ) (ys : List Block) (h : Heap)
    (o : IsOpen (zs ++ (record { size = m; alloc = false } ∷ [])) n ys h) where
  abbrev before : ℕ
  before = reach first zs

  abbrev free_block : Block
  free_block = record { size = m; alloc = false }

  abbrev segment : Segment
  segment = record { size = m; ptr = before }

  at : reach first (zs ++ (free_block ∷ [])) ≡ before + m
  at = reach-append first zs (free_block ∷ [])

  parts :
      Chunk h.units none first zs
      × Chunk h.units (last none first zs) (reach first zs) (free_block ∷ [])
  parts = Chunk-split h.units none first zs (free_block ∷ []) o.chunk

  tree : Perm (segments h.root) (free_at first zs ++ (segment ∷ free_at (before + m + n) ys))
  tree = rw append_assoc at (rw (at, free_at-append first zs (free_block ∷ [])) at o.tree)

  tail_at : before + (m + n) ≡ before + m + n
  tail_at = omega arith

  pub prev-others : others zs (m + n) ys ≡ others (zs ++ (free_block ∷ [])) n ys
  prev-others =
      rw (at, tail_at, used_at-append first zs (free_block ∷ []), append-nil (used_at first zs))
        refl

  pub prev-IsRooted :
      Ensures
        (delete_segment before h)
        (IsRooted h (free_at first zs ++ free_at (before + m + n) ys))
  prev-IsRooted =
      let least = parts.1.0 in
      delete-IsRooted h before (record { prev = last none first zs; size = m; alloc = false })
        (free_at first zs) (free_at (before + m + n) ys) o.valid parts.1.1
        (any-free_below (λ x. same_node x segment) first zs
          (Chunk-Sized h.units none first zs parts.0) (λ y l. ground arith))
        (any-free_above (λ x. same_node x segment) (before + m + n) ys (λ y l. ground arith)) tree

  pub prev-IsOpen :
      (h₁ : Heap)
      → IsRooted h (free_at first zs ++ free_at (before + m + n) ys) h₁
      → Ensures (set_size before (m + n) h₁) (λ h'.
        IsOpen zs (m + n) ys h' × Intact h.units h'.units (others (zs ++ (free_block ∷ [])) n ys))
  prev-IsOpen h₁ r =
      let two = o.two in
      let break_at : h.brk ≡ reach (before + m + n) ys * 8 + 8 = rw at at o.break_at in
      let small : m + n < 2 ^ 29 =
        (let within = o.within in
          let limit = o.limit in omega (arith, reach-le (before + m + n) ys)) in
      let wrap : (m + n) % 2 ^ 29 ≡ m + n = omega arith in
      let header : Header = record { prev = last none first zs; size = m + n; alloc = false } in
      let frame : (i : ℕ)
          → i ≢ before
          → get_elem? (set h.units before header) i ≡ get_elem? h.units i =
        λ i a. get-set_other h.units before i header (λ e. a (sym e)) in
      let own_tail : Linked h.units o.tail.0 (before + m + n) ys (reach (before + m + n) ys) =
        rw at at o.tail.1 in
      rw (r.units, parts.1.1, wrap, sym prev-others)
        (
          record {
            chunk =
                Chunk-frame h.units (set h.units before header) none first zs
                  (λ i l. frame i (omega arith)) parts.0;
            alloc = false;
            own = get-set_same h.units before _ header parts.1.1;
            two = omega arith;
            tail = rw tail_at (
              o.tail.0,
              Linked-set h.units before header o.tail.0 (before + m + n) ys
                  (reach (before + m + n) ys) (omega arith) own_tail,
            );
            valid = r.valid;
            tree = rw tail_at r.tree;
            break_at = rw (tail_at, r.brk) break_at;
            within = rw (r.brk, r.limit) o.within;
            extent = rw (r.limit, length-set h.units before header) o.extent;
            limit = rw r.limit o.limit;
          },
          Intact-around h.units (set h.units before header) before (before + (m + n)) zs ys
              (omega arith) (λ i l. frame i (omega arith)) (λ i l. frame i (omega arith)),
        )
