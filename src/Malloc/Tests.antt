-- ===== src/Malloc/Tests.antt =====
-- The allocator on a small heap, and the theorems at it.
use splab.Prelude.{◌≡◌, ◌*◌, ◌∷◌, ◌++◌, [], List, true, false, none, some, refl, arith}
use splab.Malloc.Tree.{null, node, black}
use splab.Malloc.Tree.Refine.{IsValid}
use splab.Malloc.Tree.Check.{IsLocallyFine}
use splab.Malloc.Tree.{segments}
use splab.Prelude.{length}
use splab.Malloc.Heap.{Header, frag_node, Heap, cleared}
use splab.Malloc.Heap.Entry.{units_for, check}
use splab.Malloc.Heap.Check.{Block, Chain, free_count, check_lem, check_sound}
use splab.Prelude.Fault.{Ensures}
use splab.Prelude.{ℕ, zero, suc}
use splab.Malloc.Heap.Entry.{init, sbrk, malloc, free, to_user}
use mathlib.Core.List.Perm
use splab.Malloc.Tree.{search_node}
use splab.Malloc.Heap.State.{IsHeap}
use splab.Malloc.Heap.Alloc.{malloc_refines}
use splab.Malloc.Heap.Alloc.Fit.{IsGiven}
use splab.Malloc.Heap.Alloc.Exhausted.{malloc_exhausted}
use splab.Malloc.Heap.Release.{IsReleased, free_refines}
use Prim.Native.Nat.{min}
use splab.Malloc.Heap.Entry.{realloc}
use splab.Malloc.Heap.Resize.Result.{IsKept}
use splab.Malloc.Heap.Resize.{realloc_in_place, realloc_at_end}
use splab.Malloc.Heap.Start.{init-IsHeap, check-IsHeap}
use splab.Malloc.Heap.Extend.{IsExtended, sbrk_refines}
use splab.Malloc.Heap.Frag.{IsFragmented, frag_node_refines}
use splab.Malloc.Heap.Request.{units_for_wraps}

-- A segment in use and a free one.
abbrev sample : Heap
sample = record {
  root = node black (record { size = 3; ptr = 5 }) null null;
  units =
      cleared
      ∷ cleared
      ∷ cleared
      ∷ (record { prev = none; size = 2; alloc = true })
      ∷ cleared
      ∷ (record { prev = some 3; size = 3; alloc = false })
      ∷ cleared
      ∷ cleared
      ∷ (record { prev = some 5; size = 0; alloc = false })
      ∷ [];
  brk = 72;
  max_addr = 400;
}

abbrev blocks : List Block
blocks = (record { size = 2; alloc = true }) ∷ (record { size = 3; alloc = false }) ∷ []

sample-Chain : Chain sample 3 blocks
sample-Chain = (
  omega arith,
  (none, refl),
  (_, refl, refl),
  (omega arith, (some 3, refl), (_, refl, refl), (_, refl, refl)),
)

sample-IsValid : IsValid sample.root
sample-IsValid = record { red_black = ground arith; black_root = refl; sorted = ground arith }

check_sound_example :
    (blocks' : List Block) × Chain sample 3 blocks'
    × IsLocallyFine sample.root
    × (length (segments sample.root) ≡ free_count blocks')
check_sound_example = check_sound sample (check_lem sample blocks sample-Chain sample-IsValid)

units_for_wraps_example : units_for 4294967295 ≡ 1
units_for_wraps_example = units_for_wraps 4294967295 (omega arith) (omega arith)

-- Memory that is all 0.
abbrev blank : ℕ → List Header
blank zero = []
blank (suc n) = cleared ∷ blank n

-- One segment, which is in use.
abbrev single : Heap
single = record {
  root = null;
  units =
      cleared
      ∷ cleared
      ∷ cleared
      ∷ (record { prev = none; size = 5; alloc = true })
      ∷ cleared
      ∷ cleared
      ∷ cleared
      ∷ cleared
      ∷ cleared
      ∷ [];
  brk = 72;
  max_addr = 400;
}

null-IsValid : IsValid null
null-IsValid = record { red_black = ground arith; black_root = refl; sorted = ground arith }

abbrev single_block : Block
single_block = record { size = 5; alloc = true }

frag_node_refines_example :
    Ensures (frag_node 3 2 single) (IsFragmented 3 2 none single_block [] 8 single)
frag_node_refines_example =
    frag_node_refines single 3 2 none single_block [] 8 refl (none, (refl, refl)) (omega arith)
      (omega arith) (omega arith) null-IsValid (λ _. refl)

-- A heap without segments, with memory behind the break.
abbrev unused : Heap
unused = record { root = null; units = blank 30; brk = 32; max_addr = 240 }

sbrk_refines_example : Ensures (sbrk (4 * 8) unused) (IsExtended unused none 3 4)
sbrk_refines_example =
    sbrk_refines unused none 3 4 cleared record { mark = refl; break_at = refl } refl (omega arith)
      (omega arith) (omega arith) null-IsValid tt

init-IsHeap_example : Ensures (init (record unused { brk = 0 })) (λ h'. IsHeap h' [])
init-IsHeap_example =
    init-IsHeap (record unused { brk = 0 }) cleared refl (omega arith) (omega arith) (omega arith)
      refl

-- `sample` with no memory left.
abbrev ordered : Heap
ordered = record sample { max_addr = 72 }

ordered-IsHeap : IsHeap ordered blocks
ordered-IsHeap = record {
  linked = (omega arith, refl, (omega arith, refl, (refl, refl)));
  valid = sample-IsValid;
  tree = Perm.refl _;
  break_at = refl;
  within = omega arith;
  extent = omega arith;
  limit = omega arith;
}

malloc_refines_example : Ensures (malloc 16 ordered) (IsGiven ordered blocks (units_for 16))
unfolding search_node units_for
malloc_refines_example =
    malloc_refines ordered blocks 16 ordered-IsHeap (omega arith) (omega arith) (λ e. cc)

free_refines_example :
    Ensures (free (to_user 3) ordered) (IsReleased ordered blocks (record { size = 2; ptr = 3 }))
free_refines_example =
    free_refines ordered blocks (record { size = 2; ptr = 3 }) ordered-IsHeap refl

check-IsHeap_example : check ordered ≡ some true
check-IsHeap_example = check-IsHeap ordered blocks ordered-IsHeap

malloc_exhausted_example : malloc 1000 ordered ≡ none
unfolding search_node units_for
malloc_exhausted_example = malloc_exhausted ordered 1000 refl (omega arith)

realloc_in_place_example :
    Ensures
      (realloc (some (to_user 3)) 16 ordered)
      (IsKept ordered blocks (record { size = 2; ptr = 3 }) (units_for 16) (min (units_for 16) 2))
unfolding units_for
realloc_in_place_example =
    realloc_in_place ordered blocks (record { size = 2; ptr = 3 }) 16 ordered-IsHeap
      (record { xs = []; ys = (record { size = 3; alloc = false }) ∷ []; split = refl; at = refl })
      (omega arith) (omega arith) (omega arith)

-- `sample` with memory behind the break.
abbrev roomy : Heap
roomy = record sample { units = sample.units ++ blank 41 }

roomy-IsHeap : IsHeap roomy blocks
roomy-IsHeap = record {
  linked = (omega arith, refl, (omega arith, refl, (refl, refl)));
  valid = sample-IsValid;
  tree = Perm.refl _;
  break_at = refl;
  within = omega arith;
  extent = omega arith;
  limit = omega arith;
}

realloc_at_end_example :
    Ensures
      (realloc (some (to_user 3)) 100 roomy)
      (IsKept roomy blocks (record { size = 2; ptr = 3 }) (units_for 100) 2)
unfolding units_for
realloc_at_end_example =
    realloc_at_end roomy blocks (record { size = 2; ptr = 3 }) 100 roomy-IsHeap
      (record { xs = []; ys = (record { size = 3; alloc = false }) ∷ []; split = refl; at = refl })
      (refl, tt) (omega arith) (omega arith) (omega arith)
