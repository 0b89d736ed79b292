-- ===== src/Malloc/Heap.antt =====
-- The segment list and the entry points of malloclab-handout/mm.c, over the heap of
-- malloclab-handout/memlib.c. Memory is a list of units of 8 bytes, and a unit is read as the header
-- that may stand there. Addresses are relative to `mem_heap_lo()`: a `PNODE` is the index of its
-- unit, and a pointer of the user and the break are counted in bytes. `none` is a fault: an access
-- outside the memory, through the result of a failed `mem_sbrk`, or a tree node in a segment that
-- is too small for its links, which would overwrite the next header.
pub mod Entry
pub mod Check
pub mod Request
pub mod Layout
pub mod Blocks
pub mod State
pub mod Place
pub mod Regions
pub mod Alloc
pub mod Release
pub mod Frag
pub mod Extend
pub mod Start
pub mod Resize
use splab.Prelude.{
  ℕ, zero, suc, ◌+◌, ◌-◌, ◌*◌, ◌/◌, ◌%◌, ◌^◌, Bool, true, false, not, ◌&&◌, ◌||◌, ltb, leb, ◌==◌,
  if◌then◌else◌, List, [], ◌∷◌, Option, none, some, get_elem?, set,
}
use splab.Prelude.Fault.{◌>>=◌}
use splab.Malloc.Tree.{Tree, null, Segment, search_node}
use splab.Malloc.Tree.Insert as Insert
use splab.Malloc.Tree.Delete as Delete
use splab.Malloc.Tree.Check.{check_node}

-- The fields `prev`, `size` and `alloc` of a `struct MM_Node`.
pub record Header : Type 0 where
  pub prev : Option ℕ
  pub size : ℕ
  pub alloc : Bool

-- `data->root`, the memory, and the variables `mem_brk` and `mem_max_addr`
pub record Heap : Type 0 where
  pub root : Tree
  pub units : List Header
  pub brk : ℕ
  pub max_addr : ℕ

abbrev pub unit_bytes : ℕ
unit_bytes = 8

abbrev pub mm_unit : ℕ
mm_unit = 144

abbrev pub header_size : ℕ
header_size = 8

abbrev pub data_size : ℕ
data_size = 24

-- The unit of the first segment, behind `struct MM_Data`
abbrev pub first : ℕ
first = 3

-- What `mm_clear_header` leaves.
abbrev pub cleared : Header
cleared = record { prev = none; size = 0; alloc = false }

abbrev pub read : Heap → ℕ → Option Header
read h now = get_elem? h.units now

-- A write of fields of the header at `now`.
abbrev pub update : ℕ → (Header → Header) → Heap → Option Heap
update now change h = do old ← read h now; some (record h { units = set h.units now (change old) })

abbrev pub set_prev : ℕ → Option ℕ → Heap → Option Heap
set_prev now prev = update now (λ header. record header { prev = prev })

-- A write of the bit-field `size`, which has 29 bits
abbrev pub set_size : ℕ → ℕ → Heap → Option Heap
set_size now size = update now (λ header. record header { size = size % 2 ^ 29 })

abbrev pub set_alloc : ℕ → Bool → Heap → Option Heap
set_alloc now alloc = update now (λ header. record header { alloc = alloc })

-- `mem_sbrk`; an `int` of 32 bits with the top bit set is negative
unfoldable pub mem_sbrk : ℕ → Heap → Option ℕ × Heap
mem_sbrk incr h =
    if leb (2 ^ 31) incr || ltb h.max_addr (h.brk + incr)
    then (none, h)
    else (some h.brk, record h { brk = h.brk + incr })

-- `mm_get_prev`
abbrev pub get_prev : Heap → ℕ → Option (Option ℕ)
get_prev h now = do header ← read h now; some header.prev

-- `mm_get_next`
abbrev pub get_next : Heap → ℕ → Option ℕ
get_next h now = do header ← read h now; some (now + header.size)

-- `mm_clear_header`
abbrev pub clear_header : ℕ → Heap → Option Heap
clear_header now = update now (λ header. cleared)

-- `mm_search`
abbrev pub search : Heap → ℕ → Option Segment
search h size = search_node h.root size

-- `mm_insert`, which writes the links into the second unit of the segment
unfoldable pub insert_segment : ℕ → Heap → Option Heap
insert_segment new h = do
  header ← read h new
  root ← Insert.insert h.root (record { size = header.size; ptr = new })
  if ltb header.size 2 then none else some (record h { root = root })

-- `mm_delete`
unfoldable pub delete_segment : ℕ → Heap → Option Heap
delete_segment del h = do
  header ← read h del
  root ← Delete.delete h.root (record { size = header.size; ptr = del })
  some (record h { root = root })

-- `mm_get_next(now)->prev = now`
abbrev pub link_next : ℕ → Heap → Option Heap
link_next now h = do next ← get_next h now; set_prev next (some now) h

-- `mm_frag_node`; it returns its argument
unfoldable pub frag_node : ℕ → ℕ → Heap → Option Heap
frag_node now size h = do
  header ← read h now
  let split = (do
    h₁ ← set_size now size h
    next ← get_next h₁ now
    h₂ ← clear_header next h₁
    h₃ ← set_size next (header.size - size) h₂
    h₄ ← set_prev next (some now) h₃
    h₅ ← link_next next h₄
    h₆ ← set_alloc next false h₅
    insert_segment next h₆)
  if ltb header.size (size + 2) then link_next now h else split
