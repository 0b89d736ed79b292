-- ===== src/Malloc/Heap/Entry.antt =====
-- `mm_init`, `mm_malloc`, `mm_free`, `mm_realloc` and `mm_check` of malloclab-handout/mm.c. A loop
-- over the segments takes the number of units as fuel: each segment has one at least. The
-- payload that `mm_memcpy` copies is a whole number of units.
use splab.Prelude.{
  ℕ, zero, suc, ◌+◌, ◌-◌, ◌*◌, ◌/◌, ◌%◌, ◌^◌, Bool, true, false, not, ◌&&◌, ltb, leb, ◌==◌,
  if◌then◌else◌, Option, none, some, length,
}
use splab.Prelude.Fault.{◌>>=◌}
use splab.Malloc.Tree.{null}
use splab.Malloc.Tree.Check.{check_node}
use splab.Malloc.Heap.{
  Heap, unit_bytes, mm_unit, header_size, data_size, first, read, update, set_size, set_alloc,
  mem_sbrk, get_prev, get_next, clear_header, search, insert_segment, delete_segment, link_next,
  frag_node,
}

-- The result of `mem_sbrk` used as an address without a check.
abbrev pub address : Option ℕ × Heap → Option (ℕ × Heap)
address (none, h) = none
address (some a, h) = some (a, h)

-- `mm_init`
unfoldable pub init : Heap → Option Heap
init h = do
  (base, h₁) ← address (mem_sbrk data_size h)
  (header, h₂) ← address (mem_sbrk header_size h₁)
  clear_header (header / unit_bytes) (record h₂ { root = null })

-- `mm_sbrk`
unfoldable pub sbrk : ℕ → Heap → Option (ℕ × Heap)
sbrk size h =
    let small : Option (ℕ × Heap) = (do
      (old, h₁) ← address (mem_sbrk mm_unit h)
      let ptr = (old - header_size) / unit_bytes
      h₂ ← set_size ptr (mm_unit / unit_bytes) h₁
      h₃ ← clear_header (ptr + mm_unit / unit_bytes) h₂
      h₄ ← set_alloc ptr true h₃
      h₅ ← frag_node ptr ((size + header_size) / unit_bytes) h₄
      some (ptr, h₅)) in
    let large : Option (ℕ × Heap) = (do
      (old, h₁) ← address (mem_sbrk size h)
      let ptr = (old - header_size) / unit_bytes
      h₂ ← set_size ptr (size / unit_bytes) h₁
      h₃ ← clear_header (ptr + size / unit_bytes) h₂
      h₄ ← set_alloc ptr true h₃
      h₅ ← link_next ptr h₄
      some (ptr, h₅)) in
    if ltb size mm_unit then small else large

-- The units of a segment for a request: `(ALIGN(size) + MM_HEADER_SIZE) >> MM_ALIGN`, in 32 bits
unfoldable pub units_for : ℕ → ℕ
units_for size =
    let aligned = (size + 7) % 2 ^ 32 / 8 * 8 in (aligned + header_size) % 2 ^ 32 / unit_bytes

-- A segment and the pointer that the user has to it
abbrev pub to_user : ℕ → ℕ
to_user now = now * unit_bytes + header_size

abbrev pub to_segment : ℕ → ℕ
to_segment ptr = (ptr - header_size) / unit_bytes

-- `mm_malloc`
unfoldable pub malloc : ℕ → Heap → Option (ℕ × Heap)
malloc size h = elim (search h (units_for size)) [
  | none ↦ do (now, h₁) ← sbrk (units_for size * unit_bytes % 2 ^ 32) h; some (to_user now, h₁)
  | some fit ↦ do
    h₁ ← delete_segment fit.ptr h
    h₂ ← frag_node fit.ptr (units_for size) h₁
    h₃ ← set_alloc fit.ptr true h₂
    some (to_user fit.ptr, h₃)
]

-- The first half of `mm_free`: the segment before it, if it is free
unfoldable pub join_prev : ℕ → Option ℕ → Heap → Option (ℕ × Heap)
join_prev now none h = some (now, h)
join_prev now (some prev) h = do
  before ← read h prev
  let joined = (do
    h₁ ← delete_segment prev h
    header ← read h₁ now
    h₂ ← set_size prev (before.size + header.size) h₁
    some (prev, h₂))
  if before.alloc then some (now, h) else joined

-- The second half: the segment behind it
unfoldable pub join_next : ℕ → ℕ → Heap → Option Heap
join_next now next h = do
  behind ← read h next
  let joined = (do
    h₁ ← delete_segment next h
    header ← read h₁ now
    set_size now (header.size + behind.size) h₁)
  if not (behind.size == 0) && not behind.alloc then joined else some h

-- `mm_free`
unfoldable pub free : ℕ → Heap → Option Heap
free ptr h = do
  let segment = to_segment ptr
  prev ← get_prev h segment
  next ← get_next h segment
  (now, h₁) ← join_prev segment prev h
  h₂ ← join_next now next h₁
  h₃ ← set_alloc now false h₂
  h₄ ← link_next now h₃
  insert_segment now h₄

-- The first loop of `mm_realloc`: the free segments that follow, and the sum of their sizes
unfoldable pub measure : ℕ → ℕ → ℕ → ℕ → Heap → Option (ℕ × ℕ)
measure zero next sum size h = none
measure (suc fuel) next sum size h = do
  header ← read h next
  let more = measure fuel (next + header.size) ((sum + header.size) % 2 ^ 32) size h
  if not (header.size == 0) && not header.alloc && ltb sum size then more else some (next, sum)

-- The last loop of `mm_realloc`
unfoldable pub absorb : ℕ → ℕ → ℕ → ℕ → Heap → Option Heap
absorb zero now next size h = none
absorb (suc fuel) now next size h = do
  header ← read h next
  own ← read h now
  let more = (do
    h₁ ← delete_segment next h
    h₂ ← set_size now (own.size + header.size) h₁
    absorb fuel now (next + header.size) size h₂)
  if not (header.size == 0) && not header.alloc && ltb own.size size then more else some h

-- `mm_memcpy` on whole units
unfoldable pub copy_units : ℕ → ℕ → ℕ → Heap → Option Heap
copy_units zero dst src h = some h
copy_units (suc n) dst src h = do
  unit ← read h src
  h₁ ← update dst (λ _. unit) h
  copy_units n (dst + 1) (src + 1) h₁

-- The end of the expand case of `mm_realloc`
unfoldable pub expand : ℕ → ℕ → Heap → Option Heap
expand now units h = do
  next ← get_next h now
  h₁ ← absorb (length h.units) now next units h
  link_next now h₁

-- The case of `mm_realloc` that moves the data
unfoldable pub move : ℕ → ℕ → Heap → Option (ℕ × Heap)
move ptr size h = do
  let now = to_segment ptr
  (new, h₁) ← malloc size h
  header ← read h₁ now
  h₂ ← copy_units (header.size - 1) (to_segment new + 1) (now + 1) h₁
  h₃ ← free ptr h₂
  some (new, h₃)

-- `mm_realloc` of a segment that is too small
unfoldable pub grow : ℕ → ℕ → Heap → Option (ℕ × Heap)
grow ptr size h = do
  let now = to_segment ptr
  let units = units_for size
  header ← read h now
  (next, sum) ← measure (length h.units) (now + header.size) header.size units h
  last ← read h next
  let extended = (do
    (new, h₁) ← sbrk ((units - sum) * unit_bytes % 2 ^ 32) h
    h₂ ← set_alloc new false h₁
    h₃ ← insert_segment new h₂
    h₄ ← expand now units h₃
    some (ptr, h₄))
  let expanded = (do h₁ ← expand now units h; some (ptr, h₁))
  let moved = move ptr size h
  if not (ltb sum units) then expanded else if last.size == 0 then extended else moved

-- `mm_realloc`; `none` as a pointer is NULL
unfoldable pub realloc : Option ℕ → ℕ → Heap → Option (ℕ × Heap)
realloc none size h = malloc size h
realloc (some ptr) size h = do
  header ← read h (to_segment ptr)
  let freed = (do h₁ ← free ptr h; some (ptr, h₁))
  let shrunk = (do h₁ ← frag_node (to_segment ptr) (units_for size) h; some (ptr, h₁))
  let grown = grow ptr size h
  if size == 0 then freed else if leb (units_for size) header.size then shrunk else grown

-- The loop of `mm_check`: the number of free segments, or `none` inside where the list is broken
unfoldable pub check_list : ℕ → ℕ → ℕ → Heap → Option (Option ℕ)
check_list zero now nfree h = none
check_list (suc fuel) now nfree h = do
  header ← read h now
  let rest = (do
    behind ← read h (now + header.size)
    let more = check_list fuel (now + header.size) (if header.alloc then nfree else nfree + 1) h
    elim behind.prev [ none ↦ some none | some prev ↦ if prev == now then more else some none ])
  if header.size == 0 then some (some nfree) else rest

-- `mm_check`
unfoldable pub check : Heap → Option Bool
check h = do
  walked ← check_list (length h.units) first 0 h
  let (fine, nnode) = check_node h.root 0
  some (elim walked [ none ↦ false | some nfree ↦ fine && nfree == nnode ])
