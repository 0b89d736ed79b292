-- ===== src/Malloc/Heap/Frag.antt =====
-- `mm_frag_node` of malloclab-handout/mm.c, in both cases.
pub mod Cut
use splab.Prelude.{
  length-set, ℕ, zero, suc, ◌+◌, ◌-◌, ◌*◌, ◌%◌, ◌^◌, ◌≡◌, ◌≢◌, ◌≤◌, ◌<◌, ◌⊎◌, inl, inr, Bool, true,
  false, ltb, if◌then◌else◌, List, [], ◌∷◌, ◌++◌, Option, none, some, get_elem?, set, length, arith,
  refl, ap, sym, subst, ◌∙◌, Bool-cases, Option-cases,
}
use splab.Prelude.Fault.{◌>>=◌, Ensures, Ensures-bind, Ensures-imp, Ensures-some}
use splab.Malloc.Tree.{Tree, Segment, segments}
use splab.Malloc.Tree.Insert as Insert
use splab.Malloc.Tree.Order.List as Order
use splab.Malloc.Tree.Order.List.{member}
use splab.Malloc.Tree.Refine.{IsValid, insert_refines}
use splab.Malloc.Heap.{
  Header, Heap, read, update, cleared, set_size, set_alloc, set_prev, clear_header, get_next,
  link_next, insert_segment, frag_node,
}
use splab.Malloc.Heap.Check.{Block}
use splab.Malloc.Heap.Layout.{
  get-set_same, get-set_other, get_below, Linked, Tail, Linked-set, Linked-link, Linked-head, head,
  set-set, set-get,
}
use splab.Malloc.Heap.Frag.Cut.{
  relink, memory-Linked, frag_node_cut, insert_cut, memory_frame, memory_extent,
}

-- The blocks behind `mm_frag_node`: the second half of a cut is free.
abbrev pub fragments : ℕ → Block → List Block → List Block
fragments size block blocks =
    if ltb block.size (size + 2)
    then block ∷ blocks
    else (record { size = size; alloc = block.alloc })
      ∷ (record { size = block.size - size; alloc = false })
      ∷ blocks

-- The sorted list of the tree behind `mm_frag_node`.
abbrev pub with_rest : ℕ → ℕ → Block → List Segment → List Segment
with_rest now size block xs =
    if ltb block.size (size + 2)
    then xs
    else Order.insert (record { size = block.size - size; ptr = now + size }) xs

-- The heap behind `mm_frag_node`.
pub record IsFragmented (now size : ℕ) (prev : Option ℕ) (block : Block) (blocks : List Block)
    (stop : ℕ) (h h' : Heap) : Type 0 where
  pub linked : Linked h'.units prev now (fragments size block blocks) stop
  pub valid : IsValid h'.root
  pub tree : segments h'.root ≡ with_rest now size block (segments h.root)
  pub frame :
      (i : ℕ)
      → i ≢ now
      → i ≢ now + size
      → i ≢ now + block.size
      → get_elem? h'.units i ≡ get_elem? h.units i
  pub extent : length h'.units ≡ length h.units
  pub brk : h'.brk ≡ h.brk
  pub limit : h'.max_addr ≡ h.max_addr

-- The segment `now` has the units `block.size`, at least `size` of them, which is 2 at least, and the blocks behind it are
-- linked up to the end mark, but for the link of the next one, which may be anything; the tree is
-- valid and, if the segment will be cut, has nothing at `now + size`. Then `mm_frag_node` does not fault. If two units or
-- more would be left, it cuts the segment in two, sets all three links and puts the second
-- part into the tree; if not, it only sets the link of the next segment. The break and the rest of
-- the memory stay as they are.
pub frag_node_refines :
    (h : Heap) (now size : ℕ) (prev : Option ℕ) (block : Block) (blocks : List Block) (stop : ℕ)
    → read h now ≡ some (record { prev = prev; size = block.size; alloc = block.alloc })
    → Tail h.units (now + block.size) blocks stop
    → block.size < 2 ^ 29
    → 2 ≤ size
    → size ≤ block.size
    → IsValid h.root
    → (size + 2 ≤ block.size
        → member (record { size = block.size - size; ptr = now + size }) (segments h.root) ≡ false)
    → Ensures (frag_node now size h) (IsFragmented now size prev block blocks stop h)
unfolding frag_node
frag_node_refines h now size prev block blocks stop own tail small room fits v m =
    elim (Bool-cases (ltb block.size (size + 2))) [
      | inl e ↦
          let first = head (some now) blocks in
          rw
            (
              own,
              e,
              Linked-head h.units tail.0 _ blocks stop tail.1,
              relink tail.0 (some now) blocks,
            )
            record {
              linked = rw e (
                omega arith,
                get-set_other h.units (now + block.size) now first (omega arith) ∙ own,
                Linked-link h.units tail.0 (some now) (now + block.size) blocks stop tail.1,
              );
              valid = v;
              tree = rw e refl;
              frame = λ i a b c. get-set_other h.units (now + block.size) i first (λ g. c (sym g));
              extent = length-set h.units (now + block.size) first;
              brk = refl;
              limit = refl;
            }
      | inr e ↦
          let cut : size + 2 ≤ block.size = ground arith in
          rw (frag_node_cut h now size prev block blocks stop own tail small room cut) (
            Ensures-imp _ (IsFragmented now size prev block blocks stop h) _
              (insert_cut h now size prev block blocks stop own tail small room cut v (m cut))
              λ h' g. record {
                linked = rw e (
                    subst
                      (λ u.
                        Linked u prev now
                          (record { size = size; alloc = block.alloc }
                            ∷ record { size = block.size - size; alloc = false }
                            ∷ blocks)
                          stop)
                      (sym g.units)
                      (memory-Linked h now size prev block blocks stop own tail small room cut));
                valid = g.valid;
                tree = rw e g.tree;
                frame = λ i a b c. rw g.units (
                    memory_frame h now size prev block blocks stop own tail small room cut i a b c);
                extent =
                    ap length g.units
                    ∙ memory_extent h now size prev block blocks stop own tail small room cut;
                brk = g.brk;
                limit = g.limit;
              })
    ]
