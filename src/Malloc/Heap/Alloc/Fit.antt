-- ===== src/Malloc/Heap/Alloc/Fit.antt =====
-- `mm_malloc` of malloclab-handout/mm.c where a free segment is large enough.
use mathlib.Core.List.{Perm}
use splab.Prelude.{
  ℕ, ◌+◌, ◌-◌, ◌^◌, ◌≡◌, ◌≢◌, ◌≤◌, ◌<◌, true, false, ltb, List, ◌∷◌, ◌++◌, Option, none, some,
  get_elem?, set, length, arith, refl, ap, sym, ◌∙◌, Bool-cases, inl, inr, length-set,
}
use splab.Prelude.Fault.{◌>>=◌, Ensures, Ensures-bind}
use splab.Malloc.Tree.{Segment, segments, same_node}
use splab.Malloc.Tree.Order.List.{member}
use splab.Malloc.Tree.Order.List as Order
use splab.Malloc.Tree.Order.Multiset.{any-append, any-perm, member-any, insert_middle}
use splab.Malloc.Heap.{Header, Heap, first, set_alloc, frag_node, delete_segment}
use splab.Malloc.Heap.Entry.{to_user}
use splab.Malloc.Heap.Check.{Block}
use splab.Malloc.Heap.Layout.{Linked, Linked-set, get-set_same, get-set_other}
use splab.Malloc.Heap.Blocks.{
  reach, last, free_at, used_at, Sized, Chunk, reach-le, reach-append, free_at-append,
  used_at-append, Linked-split, Linked-join, Chunk-Sized, Chunk-frame, any-free_above,
  any-free_below, Linked-stop,
}
use splab.Malloc.Heap.State.{IsHeap, IsRooted, delete-IsRooted}
use splab.Malloc.Heap.Regions.{Intact, Intact-around, used_at_middle}
use splab.Malloc.Heap.Frag.{IsFragmented, frag_node_refines}

-- What a call of `mm_malloc` for `units` units makes of the heap `h` of `blocks`: one more region
-- is in use.
pub record IsAllocated (h : Heap) (blocks : List Block) (units now : ℕ) (h' : Heap) : Type 0 where
  pub blocks' : List Block
  pub size : ℕ
  pub heap : IsHeap h' blocks'
  pub enough : units ≤ size
  pub used : Perm (used_at first blocks') (record { size = size; ptr = now } ∷ used_at first blocks)
  pub intact : Intact h.units h'.units (used_at first blocks)

-- The result of such a call: the user's pointer to the region, and the heap.
pub record IsGiven (h : Heap) (blocks : List Block) (units : ℕ) (result : ℕ × Heap) : Type 0 where
  pub now : ℕ
  pub at : result.0 ≡ to_user now
  pub allocated : IsAllocated h blocks units now result.1

module _ (h : Heap) (xs ys : List Block) (n units : ℕ)
    (s : IsHeap h (xs ++ (record { size = n; alloc = false } ∷ ys))) (enough : units ≤ n)
    (two : 2 ≤ units) where
  abbrev block : Block
  block = record { size = n; alloc = false }

  abbrev now : ℕ
  now = reach first xs

  abbrev prev : Option ℕ
  prev = last none first xs

  abbrev stop : ℕ
  stop = reach (now + n) ys

  end_at : reach first (xs ++ (block ∷ ys)) ≡ stop
  end_at = reach-append first xs (block ∷ ys)

  parts : Chunk h.units none first xs × Linked h.units prev now (block ∷ ys) stop
  parts = Linked-split h.units none first xs (block ∷ ys) stop (rw end_at at s.linked)

  sized : Sized xs
  sized = Chunk-Sized h.units none first xs parts.0

  fits : n < 2 ^ 28
  fits =
      let brk = s.break_at in
      let within = s.within in let limit = s.limit in omega (arith, end_at, reach-le (now + n) ys)

  taken_out : Ensures (delete_segment now h) (IsRooted h (free_at first xs ++ free_at (now + n) ys))
  taken_out =
      let header : Header = record { prev = prev; size = n; alloc = false } in
      let segment : Segment = record { size = n; ptr = now } in
      delete-IsRooted h now header (free_at first xs) (free_at (now + n) ys) s.valid parts.1.1
        (any-free_below (λ x. same_node x segment) first xs sized (λ y l. ground arith))
        (any-free_above (λ x. same_node x segment) (now + n) ys
          (λ y l. let p = parts.1.0 in ground arith))
        (rw (free_at-append first xs (block ∷ ys)) at s.tree)

  fragmented :
      (h₁ : Heap)
      → IsRooted h (free_at first xs ++ free_at (now + n) ys) h₁
      → Ensures (frag_node now units h₁) (IsFragmented now units prev block ys stop h₁)
  fragmented h₁ r =
      let segment : Segment = record { size = n - units; ptr = now + units } in
      frag_node_refines h₁ now units prev block ys stop (rw r.units parts.1.1)
        (some now, rw r.units parts.1.2) (omega (arith, fits)) two enough r.valid
        λ cut.
          member-any segment (segments h₁.root)
          ∙ any-perm (λ x. same_node x segment) r.tree
          ∙ any-append (λ x. same_node x segment) (free_at first xs) (free_at (now + n) ys)
          ∙ ground (
            arith,
            any-free_below (λ x. same_node x segment) first xs sized (λ y l. ground arith),
            any-free_above (λ x. same_node x segment) (now + n) ys (λ y l. ground arith),
          )

  module _ (h₁ h₂ : Heap) (r : IsRooted h (free_at first xs ++ free_at (now + n) ys) h₁)
      (g : IsFragmented now units prev block ys stop h₁ h₂) where
    frame :
        (header : Header) (i : ℕ)
        → i ≢ now
        → i ≢ now + units
        → i ≢ now + n
        → get_elem? (set h₂.units now header) i ≡ get_elem? h.units i
    frame header i a b c =
        get-set_other h₂.units now i header (λ e. a (sym e))
        ∙ g.frame i a b c
        ∙ ap (λ u. get_elem? u i) r.units

    -- `size` units are taken, and `rest` follows.
    marked :
        (size : ℕ) (rest : List Block)
        → Linked h₂.units prev now (record { size = size; alloc = false } ∷ rest) stop
        → Perm (segments h₂.root) (free_at first xs ++ free_at (now + size) rest)
        → used_at (now + size) rest ≡ used_at (now + n) ys
        → units ≤ size
        → Ensures (set_alloc now true h₂) (IsAllocated h (xs ++ (block ∷ ys)) units now)
    marked size rest (two', own, follow) tree same more =
        let header : Header = record { prev = prev; size = size; alloc = true } in
        let taken : Block = record { size = size; alloc = true } in
        let end : reach first (xs ++ (taken ∷ rest)) ≡ stop =
          reach-append first xs (taken ∷ rest)
          ∙ Linked-stop h₂.units (some now) (now + size) rest stop follow in
        rw own record {
          blocks' = xs ++ (taken ∷ rest);
          size = size;
          heap = record {
            linked = rw end (
                Linked-join (set h₂.units now header) none first xs (taken ∷ rest) stop
                  (Chunk-frame h.units (set h₂.units now header) none first xs
                    (λ i l. frame header i (omega arith) (omega arith) (omega arith)) parts.0)
                  (
                    two',
                    get-set_same h₂.units now _ header own,
                    Linked-set h₂.units now header (some now) (now + size) rest stop (omega arith)
                        follow,
                  ));
            valid = g.valid;
            tree = rw (free_at-append first xs (taken ∷ rest)) tree;
            break_at = g.brk ∙ r.brk ∙ s.break_at ∙ omega (arith, end, end_at);
            within = rw (g.brk ∙ r.brk, g.limit ∙ r.limit) s.within;
            extent =
                rw (g.limit ∙ r.limit, length-set h₂.units now header, g.extent ∙ ap length r.units)
                  s.extent;
            limit = rw (g.limit ∙ r.limit) s.limit;
          };
          enough = more;
          used =
              rw (used_at-append first xs (block ∷ ys)) (rw same at (used_at_middle xs rest size));
          intact = rw (used_at-append first xs (block ∷ ys)) (
              Intact-around h.units (set h₂.units now header) now (now + n) xs ys (omega arith)
                (λ i l. frame header i (omega arith) (omega arith) (omega arith))
                (λ i l. frame header i (omega arith) (omega arith) (omega arith)));
        }

    cut_or_whole : Ensures (set_alloc now true h₂) (IsAllocated h (xs ++ (block ∷ ys)) units now)
    cut_or_whole = elim (Bool-cases (ltb n (units + 2))) [
      | inl e ↦
          let tree : segments h₂.root ≡ segments h₁.root = rw e at g.tree in
          marked n ys (rw e at g.linked) (rw tree r.tree) refl enough
      | inr e ↦
          let rest : Block = record { size = n - units; alloc = false } in
          let segment : Segment = record { size = n - units; ptr = now + units } in
          let tree : segments h₂.root ≡ Order.insert segment (segments h₁.root) = rw e at g.tree in
          let whole : now + units + (n - units) ≡ now + n = omega arith in
          marked units (rest ∷ ys) (rw e at g.linked)
            (rw (tree, whole)
              (insert_middle segment (segments h₁.root) (free_at first xs) (free_at (now + n) ys)
                r.tree))
            (rw whole refl) (omega arith)
    ]

  pub fit-IsAllocated :
      Ensures
        (do
          h₁ ← delete_segment now h
          h₂ ← frag_node now units h₁
          h₃ ← set_alloc now true h₂
          some (to_user now, h₃))
        (IsGiven h (xs ++ (block ∷ ys)) units)
  fit-IsAllocated = Ensures-bind _ _ (delete_segment now h) _ taken_out λ h₁ r.
      Ensures-bind _ _ (frag_node now units h₁) _ (fragmented h₁ r) λ h₂ g.
        Ensures-bind _ _ (set_alloc now true h₂) _ (cut_or_whole h₁ h₂ r g)
          λ h₃ a. record { now = now; at = refl; allocated = a }
