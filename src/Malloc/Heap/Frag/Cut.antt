-- ===== src/Malloc/Heap/Frag/Cut.antt =====
-- `mm_frag_node` of malloclab-handout/mm.c where it cuts: the three headers that it writes.
use splab.Prelude.{
  ◌≢◌, sym, length, length-set, ℕ, ◌+◌, ◌-◌, ◌%◌, ◌^◌, ◌≡◌, ◌≤◌, ◌<◌, false, ltb, List, [], ◌∷◌,
  Option, none, some, get_elem?, set, arith, refl, ◌∙◌,
}
use splab.Prelude.Fault.{Ensures, Ensures-bind}
use splab.Malloc.Tree.{Segment, segments}
use splab.Malloc.Tree.Insert as Insert
use splab.Malloc.Tree.Order.List as Order
use splab.Malloc.Tree.Order.List.{member}
use splab.Malloc.Tree.Refine.{IsValid, insert_refines}
use splab.Malloc.Heap.{Header, Heap, read, cleared, insert_segment, frag_node}
use splab.Malloc.Heap.Check.{Block}
use splab.Malloc.Heap.Layout.{
  get-set_same, get-set_other, get_below, Linked, Tail, Linked-set, Linked-link, Linked-head, head,
  set-set, set-get,
}

-- The header at the start of the blocks, with another link.
pub relink :
    (q p : Option ℕ) (blocks : List Block) → record (head q blocks) { prev = p } ≡ head p blocks
relink q p [] = refl
relink q p (block ∷ blocks) = refl

module _ (h : Heap) (now size : ℕ) (prev : Option ℕ) (block : Block) (blocks : List Block)
    (stop : ℕ)
    (own : read h now ≡ some (record { prev = prev; size = block.size; alloc = block.alloc }))
    (tail : Tail h.units (now + block.size) blocks stop) (small : block.size < 2 ^ 29)
    (room : 2 ≤ size) (cut : size + 2 ≤ block.size) where
  abbrev rest : ℕ
  rest = block.size - size

  abbrev kept : Header
  kept = record { prev = prev; size = size; alloc = block.alloc }

  abbrev new : Header
  new = record { prev = some now; size = rest; alloc = false }

  abbrev first_write : List Header
  first_write = set h.units now kept

  abbrev second_write : List Header
  second_write = set first_write (now + size) new

  -- The memory behind the cut: three headers are written.
  abbrev pub memory : List Header
  memory = set second_write (now + block.size) (head (some (now + size)) blocks)

  whole : now + size + rest ≡ now + block.size
  whole = omega arith

  inner : (b : Header) × (get_elem? first_write (now + size) ≡ some b)
  inner =
      let (b, e) =
        get_below h.units (now + size) (now + block.size) _
          (Linked-head h.units tail.0 _ blocks stop tail.1) (omega arith) in
      (b, get-set_other h.units now (now + size) kept (omega arith) ∙ e)

  read_new : get_elem? second_write (now + size) ≡ some new
  read_new = get-set_same first_write (now + size) _ new inner.1

  second-Tail : Linked second_write tail.0 (now + block.size) blocks stop
  second-Tail =
      Linked-set first_write (now + size) new tail.0 (now + block.size) blocks stop (omega arith)
        (Linked-set h.units now kept tail.0 (now + block.size) blocks stop (omega arith) tail.1)

  read_again : get_elem? memory (now + size) ≡ some new
  read_again = get-set_other second_write (now + block.size) (now + size) _ (omega arith) ∙ read_new

  pub memory-Linked :
      Linked memory prev now
        (record { size = size; alloc = block.alloc }
          ∷ record { size = rest; alloc = false }
          ∷ blocks)
        stop
  memory-Linked = (
    room,
    get-set_other second_write (now + block.size) now _ (omega arith)
        ∙ get-set_other first_write (now + size) now new (omega arith)
        ∙ get-set_same h.units now _ kept own,
    (
      omega arith,
      read_again,
      rw whole (
          Linked-link second_write tail.0 (some (now + size)) (now + block.size) blocks stop
            second-Tail),
    ),
  )

  pub frag_node_cut :
      frag_node now size h ≡ insert_segment (now + size) (record h { units = memory })
  unfolding frag_node
  frag_node_cut =
      let m₁ : size % 2 ^ 29 ≡ size = omega arith in
      let m₂ : rest % 2 ^ 29 ≡ rest = omega arith in
      let large : ltb block.size (size + 2) ≡ false = ground arith in
      rw (own, large, m₁, get-set_same h.units now _ kept own)
        (rw
          (
            inner.1,
            get-set_same first_write (now + size) _ cleared inner.1,
            m₂,
            set-set first_write (now + size) cleared
                (record { prev = none; size = rest; alloc = false }),
            get-set_same first_write (now + size) _
                (record { prev = none; size = rest; alloc = false }) inner.1,
            set-set first_write (now + size) (record { prev = none; size = rest; alloc = false })
                new,
          )
          (rw
            (
              read_new,
              whole,
              Linked-head second_write tail.0 _ blocks stop second-Tail,
              relink tail.0 (some (now + size)) blocks,
              read_again,
              set-get memory (now + size) new read_again,
            )
            refl))

  -- The heap behind a cut.
  pub record IsInserted (h' : Heap) : Type 0 where
    pub units : h'.units ≡ memory
    pub valid : IsValid h'.root
    pub tree :
        segments h'.root ≡ Order.insert (record { size = rest; ptr = now + size }) (segments h.root)
    pub brk : h'.brk ≡ h.brk
    pub limit : h'.max_addr ≡ h.max_addr

  pub insert_cut :
      IsValid h.root
      → member (record { size = rest; ptr = now + size }) (segments h.root) ≡ false
      → Ensures (insert_segment (now + size) (record h { units = memory })) IsInserted
  unfolding insert_segment
  insert_cut v m =
      let large : ltb rest 2 ≡ false = ground arith in
      let segment : Segment = record { size = rest; ptr = now + size } in
      rw read_again (
        Ensures-bind _ _ (Insert.insert h.root segment) _ (insert_refines h.root segment v m)
          λ root g.
            rw large record { units = refl; valid = g.0; tree = g.1; brk = refl; limit = refl })

  pub memory_frame :
      (i : ℕ)
      → i ≢ now
      → i ≢ now + size
      → i ≢ now + block.size
      → get_elem? memory i ≡ get_elem? h.units i
  memory_frame i a b c =
      get-set_other second_write (now + block.size) i _ (λ e. c (sym e))
      ∙ get-set_other first_write (now + size) i new (λ e. b (sym e))
      ∙ get-set_other h.units now i kept (λ e. a (sym e))

  pub memory_extent : length memory ≡ length h.units
  memory_extent =
      length-set second_write (now + block.size) _
      ∙ length-set first_write (now + size) new
      ∙ length-set h.units now kept
