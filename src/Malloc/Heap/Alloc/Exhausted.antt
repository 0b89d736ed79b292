-- ===== src/Malloc/Heap/Alloc/Exhausted.antt =====
-- `mm_malloc` of malloclab-handout/mm.c without memory.
use splab.Prelude.{
  ℕ, ◌+◌, ◌*◌, ◌%◌, ◌^◌, ◌≡◌, ◌<◌, true, false, ltb, leb, ◌||◌, none, arith, Bool-cases, inl, inr,
}
use splab.Malloc.Heap.{Heap, search, mem_sbrk}
use splab.Malloc.Heap.Entry.{malloc, sbrk, units_for}
use splab.Malloc.Heap.Extend.{added_units}

units_for_bound : (size : ℕ) → units_for size < 2 ^ 29
unfolding units_for
units_for_bound size = omega arith

refused :
    (h : Heap) (incr : ℕ)
    → h.max_addr < h.brk + incr
    → (leb (2 ^ 31) incr || ltb h.max_addr (h.brk + incr)) ≡ true
refused h incr l = ground arith

-- If no free segment is large enough and the system has not the memory that a new one takes,
-- `mm_malloc` does not return the null pointer: `mm_sbrk` writes through the -1 of `mem_sbrk`.
pub malloc_exhausted :
    (h : Heap) (size : ℕ)
    → search h (units_for size) ≡ none
    → h.max_addr < h.brk + added_units (units_for size) * 8
    → malloc size h ≡ none
unfolding malloc sbrk mem_sbrk
malloc_exhausted h size e l =
    let whole : units_for size * 8 % 2 ^ 32 ≡ units_for size * 8 =
      omega (arith, units_for_bound size) in
    elim (Bool-cases (ltb (units_for size) 18)) [
      | inl f ↦
          let small : ltb (units_for size * 8) 144 ≡ true = ground arith in
          let no_room = refused h 144 (rw f at l) in rw (e, malloc) (rw (whole, small, no_room))
      | inr f ↦
          let large : ltb (units_for size * 8) 144 ≡ false = ground arith in
          let no_room = refused h (units_for size * 8) (rw f at l) in
          rw (e, malloc) (rw (whole, large, no_room))
    ]
