-- ===== src/Malloc/Heap/Resize/Shrink.antt =====
-- `mm_realloc` of malloclab-handout/mm.c where the region is large enough: the shrink case.
use mathlib.Core.List.{Perm}
use splab.Prelude.{
  ℕ, ◌+◌, ◌-◌, ◌^◌, ◌≡◌, ◌≤◌, ◌<◌, true, false, ltb, List, ◌∷◌, ◌++◌, Option, none, some, arith,
  refl, ◌∙◌, Bool-cases, inl, inr,
}
use splab.Prelude.Fault.{Ensures}
use splab.Malloc.Tree.{Segment, segments, same_node}
use splab.Malloc.Tree.Order.List.{member}
use splab.Malloc.Tree.Order.List as Order
use splab.Malloc.Tree.Order.Multiset.{any-append, any-perm, member-any, insert_middle}
use splab.Malloc.Heap.{Heap, first, frag_node}
use splab.Malloc.Heap.Check.{Block}
use splab.Malloc.Heap.Layout.{Linked}
use splab.Malloc.Heap.Blocks.{
  reach, last, free_at, used_at, Sized, Chunk, reach-le, reach-append, free_at-append, Linked-split,
  Linked-join, Chunk-Sized, Chunk-frame, any-free_above, any-free_below, Linked-stop,
}
use splab.Malloc.Heap.State.{IsHeap}
use splab.Malloc.Heap.Regions.{Intact-around, used_at_middle}
use splab.Malloc.Heap.Resize.Result.{IsResized}
use splab.Malloc.Heap.Frag.{IsFragmented, fragments, frag_node_refines}

module _ (h : Heap) (xs ys : List Block) (n units : ℕ)
    (s : IsHeap h (xs ++ (record { size = n; alloc = true } ∷ ys))) (enough : units ≤ n)
    (two : 2 ≤ units) where
  abbrev block : Block
  block = record { size = n; alloc = true }

  abbrev now : ℕ
  now = reach first xs

  abbrev prev : Option ℕ
  prev = last none first xs

  abbrev stop : ℕ
  stop = reach (now + n) ys

  end_at : reach first (xs ++ (block ∷ ys)) ≡ stop
  end_at = reach-append first xs (block ∷ ys)

  pub parts : Chunk h.units none first xs × Linked h.units prev now (block ∷ ys) stop
  parts = Linked-split h.units none first xs (block ∷ ys) stop (rw end_at at s.linked)

  sized : Sized xs
  sized = Chunk-Sized h.units none first xs parts.0

  tree : Perm (segments h.root) (free_at first xs ++ free_at (now + n) ys)
  tree = rw (free_at-append first xs (block ∷ ys)) at s.tree

  fits : n < 2 ^ 28
  fits =
      let brk = s.break_at in
      let within = s.within in let limit = s.limit in omega (arith, end_at, reach-le (now + n) ys)

  pub fragmented : Ensures (frag_node now units h) (IsFragmented now units prev block ys stop h)
  fragmented =
      let segment : Segment = record { size = n - units; ptr = now + units } in
      frag_node_refines h now units prev block ys stop parts.1.1 (some now, parts.1.2)
        (omega (arith, fits)) two enough s.valid
        λ cut.
          member-any segment (segments h.root)
          ∙ any-perm (λ x. same_node x segment) tree
          ∙ any-append (λ x. same_node x segment) (free_at first xs) (free_at (now + n) ys)
          ∙ ground (
            arith,
            any-free_below (λ x. same_node x segment) first xs sized (λ y l. ground arith),
            any-free_above (λ x. same_node x segment) (now + n) ys (λ y l. ground arith),
          )

  module _ (h' : Heap) (g : IsFragmented now units prev block ys stop h h') where
    -- `size` units are kept, and `behind` follows.
    kept :
        (size : ℕ) (behind : List Block)
        → fragments units block ys ≡ record { size = size; alloc = true } ∷ behind
        → Perm (segments h'.root) (free_at first xs ++ free_at (now + size) behind)
        → used_at (now + size) behind ≡ used_at (now + n) ys
        → units ≤ size
        → IsResized h (xs ++ (block ∷ ys)) (record { size = n; ptr = now }) units units h'
    kept size behind split held same more =
        let short : Block = record { size = size; alloc = true } in
        let linked : Linked h'.units prev now (short ∷ behind) stop = rw split at g.linked in
        let end : reach first (xs ++ (short ∷ behind)) ≡ stop =
          reach-append first xs (short ∷ behind)
          ∙ Linked-stop h'.units (some now) (now + size) behind stop linked.2 in
        record {
          blocks' = xs ++ (short ∷ behind);
          size = size;
          rest = used_at first xs ++ used_at (now + n) ys;
          heap = record {
            linked = rw end (
                Linked-join h'.units none first xs (short ∷ behind) stop
                  (Chunk-frame h.units h'.units none first xs
                    (λ i l. g.frame i (omega arith) (omega arith) (omega arith)) parts.0)
                  linked);
            valid = g.valid;
            tree = rw (free_at-append first xs (short ∷ behind)) held;
            break_at = g.brk ∙ s.break_at ∙ omega (arith, end, end_at);
            within = rw (g.brk, g.limit) s.within;
            extent = rw (g.limit, g.extent) s.extent;
            limit = rw g.limit s.limit;
          };
          enough = more;
          before = used_at_middle xs ys n;
          after = rw same at (used_at_middle xs behind size);
          intact = (
            (λ i a b. g.frame i (omega arith) (omega arith) (omega arith)),
            Intact-around h.units h'.units now (now + n) xs ys (omega arith)
                (λ i l. g.frame i (omega arith) (omega arith) (omega arith))
                (λ i l. g.frame i (omega arith) (omega arith) (omega arith)),
          );
        }

    pub cut_or_whole :
        IsResized h (xs ++ (block ∷ ys)) (record { size = n; ptr = now }) units units h'
    cut_or_whole = elim (Bool-cases (ltb n (units + 2))) [
      | inl e ↦
          let tree' : segments h'.root ≡ segments h.root = rw e at g.tree in
          kept n ys (rw e refl) (rw tree' tree) refl enough
      | inr e ↦
          let rest : Block = record { size = n - units; alloc = false } in
          let segment : Segment = record { size = n - units; ptr = now + units } in
          let tree' : segments h'.root ≡ Order.insert segment (segments h.root) = rw e at g.tree in
          let whole : now + units + (n - units) ≡ now + n = omega arith in
          kept units (rest ∷ ys) (rw e refl)
            (rw (tree', whole)
              (insert_middle segment (segments h.root) (free_at first xs) (free_at (now + n) ys)
                tree))
            (rw whole refl) (omega arith)
    ]
