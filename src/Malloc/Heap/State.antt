-- ===== src/Malloc/Heap/State.antt =====
-- The invariant of the allocator between two calls, and what `mm_insert` and `mm_delete` do to it.
use mathlib.Core.List.{Perm}
use splab.Prelude.{
  ℕ, ◌+◌, ◌*◌, ◌^◌, ◌≡◌, ◌≤◌, ◌<◌, true, false, ltb, List, [], ◌∷◌, ◌++◌, none, some, arith, refl,
  ◌∙◌, length,
}
use splab.Prelude.Fault.{Ensures, Ensures-bind}
use splab.Malloc.Tree.{Segment, segments, same_node}
use splab.Malloc.Tree.Insert as Insert
use splab.Malloc.Tree.Delete as Delete
use splab.Malloc.Tree.Order.List.{member}
use splab.Malloc.Tree.Order.Multiset.{
  any, any-append, any-perm, member-any, insert_middle, remove_middle, differs, IsAt-any,
}
use splab.Malloc.Tree.Refine.{IsValid, insert_refines, delete_refines}
use splab.Malloc.Heap.{Header, Heap, first, read, insert_segment, delete_segment}
use splab.Malloc.Heap.Check.{Block}
use splab.Malloc.Heap.Layout.{Linked}
use splab.Malloc.Heap.Blocks.{reach, free_at}

-- The segments of the heap are `blocks`: they are linked both ways, the tree is valid and holds
-- exactly the free ones, and the break is behind the end mark and in the memory.
pub record IsHeap (h : Heap) (blocks : List Block) : Type 0 where
  pub linked : Linked h.units none first blocks (reach first blocks)
  pub valid : IsValid h.root
  pub tree : Perm (segments h.root) (free_at first blocks)
  pub break_at : h.brk ≡ reach first blocks * 8 + 8
  pub within : h.brk ≤ h.max_addr
  pub extent : h.max_addr ≤ length h.units * 8
  pub limit : h.max_addr < 2 ^ 31

-- `h'` is `h` with another tree, which is valid and holds those segments.
pub record IsRooted (h : Heap) (list : List Segment) (h' : Heap) : Type 0 where
  pub units : h'.units ≡ h.units
  pub brk : h'.brk ≡ h.brk
  pub limit : h'.max_addr ≡ h.max_addr
  pub valid : IsValid h'.root
  pub tree : Perm (segments h'.root) list

-- No segment at the address of `d`
abbrev pub Absent : Segment → List Segment → Type 0
Absent d xs = any (λ x. same_node x d) xs ≡ false

differs_none : (d : Segment) (xs : List Segment) → Absent d xs → any (differs d) xs ≡ false
differs_none d [] h = refl
differs_none d (x ∷ xs) h = ground (arith, differs_none d xs)

module _ (h : Heap) (now : ℕ) (header : Header) (ys zs : List Segment) (v : IsValid h.root)
    (own : read h now ≡ some header) (above : Absent (record { size = header.size; ptr = now }) ys)
    (below : Absent (record { size = header.size; ptr = now }) zs) where
  abbrev own_segment : Segment
  own_segment = record { size = header.size; ptr = now }

  pub delete-IsRooted :
      Perm (segments h.root) (ys ++ (own_segment ∷ zs))
      → Ensures (delete_segment now h) (IsRooted h (ys ++ zs))
  unfolding delete_segment
  delete-IsRooted p =
      let held : member own_segment (segments h.root) ≡ true = ground (
        arith,
        member-any own_segment (segments h.root),
        any-perm (λ x. same_node x own_segment) p,
        any-append (λ x. same_node x own_segment) ys (own_segment ∷ zs),
      ) in
      let alone = IsAt-any own_segment (segments h.root) (
        any-perm (differs own_segment) p
        ∙ ground (
          arith,
          any-append (differs own_segment) ys (own_segment ∷ zs),
          differs_none own_segment ys above,
          differs_none own_segment zs below,
        )) in
      rw own (
        Ensures-bind _ _ (Delete.delete h.root own_segment) _
          (delete_refines h.root own_segment v alone held)
          λ root g. record {
            units = refl;
            brk = refl;
            limit = refl;
            valid = g.0;
            tree = rw g.1 (remove_middle own_segment (segments h.root) ys zs alone held p);
          })

  pub insert-IsRooted :
      Perm (segments h.root) (ys ++ zs)
      → ltb header.size 2 ≡ false
      → Ensures (insert_segment now h) (IsRooted h (ys ++ (own_segment ∷ zs)))
  unfolding insert_segment
  insert-IsRooted p large =
      let absent : member own_segment (segments h.root) ≡ false = ground (
        arith,
        member-any own_segment (segments h.root),
        any-perm (λ x. same_node x own_segment) p,
        any-append (λ x. same_node x own_segment) ys zs,
      ) in
      rw own (
        Ensures-bind _ _ (Insert.insert h.root own_segment) _
          (insert_refines h.root own_segment v absent)
          λ root g. rw large record {
            units = refl;
            brk = refl;
            limit = refl;
            valid = g.0;
            tree = rw g.1 (insert_middle own_segment (segments h.root) ys zs p);
          })
