-- ===== src/Malloc/Heap/Start.antt =====
-- `mm_init` of malloclab-handout/mm.c makes a heap in order, and `mm_check` accepts every one.
use mathlib.Core.List.Perm
use splab.Prelude.{
  none, length-set, ltb, false, true, ◌/◌, ◌*◌, ℕ, ◌+◌, ◌^◌, ◌≡◌, ◌≤◌, ◌<◌, List, [], ◌∷◌, Option,
  some, arith, refl, length, sym, ◌∙◌,
}
use splab.Prelude.Fault.{Ensures}
use splab.Malloc.Tree.{segments}
use splab.Malloc.Tree.Order.Multiset.{length-perm}
use splab.Malloc.Heap.{Header, Heap, read, cleared, first, mem_sbrk}
use splab.Malloc.Heap.Entry.{init, check}
use splab.Malloc.Heap.Check.{Block, Chain, free_count, check_lem}
use splab.Malloc.Heap.Layout.{get-set_same, Linked, Linked-head, head}
use splab.Malloc.Heap.Blocks.{free_at}
use splab.Malloc.Heap.State.{IsHeap}

-- On an empty heap that can grow by 32 bytes `mm_init` does not fault, whatever the memory
-- contains, and leaves a heap in order that has no segments.
pub init-IsHeap :
    (h : Heap) (junk : Header)
    → h.brk ≡ 0
    → 32 ≤ h.max_addr
    → h.max_addr ≤ length h.units * 8
    → h.max_addr < 2 ^ 31
    → read h first ≡ some junk
    → Ensures (init h) (λ h'. IsHeap h' [])
unfolding init mem_sbrk
init-IsHeap h junk at room extent limit there =
    let e₁ : ltb h.max_addr (h.brk + 24) ≡ false = ground arith in
    let e₂ : ltb h.max_addr (h.brk + 24 + 8) ≡ false = ground arith in
    let e₃ : (h.brk + 24) / 8 ≡ 3 = omega arith in
    let mark = get-set_same h.units first junk cleared there in
    rw (e₁, e₂, e₃, there)
      record {
        linked = (mark, refl);
        valid = record { red_black = ground arith; black_root = refl; sorted = ground arith };
        tree = Perm.nil;
        break_at = omega arith;
        within = omega arith;
        extent = rw (length-set h.units first cleared) extent;
        limit = limit;
      }

head-prev : (prev : Option ℕ) (blocks : List Block) → (head prev blocks).prev ≡ prev
head-prev prev [] = refl
head-prev prev (block ∷ blocks) = refl

Linked-Chain :
    (h : Heap) (prev : Option ℕ) (now : ℕ) (blocks : List Block) (stop : ℕ)
    → Linked h.units prev now blocks stop
    → Chain h now blocks
Linked-Chain h prev now [] stop (e, l) = (_, e, refl)
Linked-Chain h prev now (block ∷ blocks) stop (n, e, l) = (
  omega arith,
  (prev, e),
  (
    head (some now) blocks,
    Linked-head h.units (some now) (now + block.size) blocks stop l,
    head-prev (some now) blocks,
  ),
  Linked-Chain h (some now) (now + block.size) blocks stop l,
)

free_count-length :
    (now : ℕ) (blocks : List Block) → free_count blocks ≡ length (free_at now blocks)
free_count-length now [] = refl
free_count-length now (block ∷ blocks) = ground (arith, free_count-length (now + block.size) blocks)

-- On a heap in order `mm_check` does not fault and returns 1.
pub check-IsHeap : (h : Heap) (blocks : List Block) → IsHeap h blocks → check h ≡ some true
check-IsHeap h blocks s =
    let count : free_count blocks ≡ length (segments h.root) =
      free_count-length first blocks ∙ sym (length-perm s.tree) in
    check_lem h blocks (Linked-Chain h none first blocks _ s.linked) s.valid ∙ ground arith
