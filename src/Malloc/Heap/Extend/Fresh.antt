-- ===== src/Malloc/Heap/Extend/Fresh.antt =====
-- What `mm_sbrk` of malloclab-handout/mm.c writes behind the old end of the heap.
use splab.Prelude.{
  length, length-set, ℕ, ◌+◌, ◌-◌, ◌*◌, ◌/◌, ◌%◌, ◌^◌, ◌≡◌, ◌≤◌, ◌<◌, true, false, ltb, List, [],
  Option, none, some, get_elem?, set, arith, refl, ◌∙◌,
}
use splab.Malloc.Heap.{Header, Heap, read, cleared, mem_sbrk}
use splab.Malloc.Heap.Entry.{sbrk}
use splab.Malloc.Heap.Layout.{get-set_same, get-set_other, Tail}

-- The heap ends in an end mark at the unit `stop`, right before the break.
pub record IsEnd (h : Heap) (prev : Option ℕ) (stop : ℕ) : Type 0 where
  pub mark : read h stop ≡ some (record { prev = prev; size = 0; alloc = false })
  pub break_at : h.brk ≡ stop * 8 + 8

module _ (h : Heap) (prev : Option ℕ) (stop : ℕ) (end : IsEnd h prev stop) (n : ℕ) (beyond : Header)
    (small : n < 2 ^ 28) (some_units : 1 ≤ n) (there : read h (stop + n) ≡ some beyond) where
  abbrev own : Header
  own = record { prev = prev; size = n; alloc = true }

  -- The new segment of `n` units, and the new end mark.
  abbrev pub fresh : List Header
  fresh =
      set
        (set (set h.units stop (record { prev = prev; size = n; alloc = false })) (stop + n)
          cleared)
        stop own

  -- The heap before `mm_frag_node`.
  abbrev pub begun : Heap
  begun = record h { units = fresh; brk = h.brk + n * 8 }

  pub fresh-own : get_elem? fresh stop ≡ some own
  fresh-own = get-set_same _ stop _ own (
      get-set_other _ (stop + n) stop cleared (omega arith)
      ∙ get-set_same h.units stop _ _ end.mark)

  pub fresh-mark : get_elem? fresh (stop + n) ≡ some cleared
  fresh-mark =
      get-set_other _ stop (stop + n) own (omega arith)
      ∙ get-set_same _ (stop + n) _ cleared
          (get-set_other h.units stop (stop + n) _ (omega arith) ∙ there)

  pub fresh_before : (i : ℕ) → i < stop → get_elem? fresh i ≡ get_elem? h.units i
  fresh_before i l =
      get-set_other _ stop i own (omega arith)
      ∙ get-set_other _ (stop + n) i cleared (omega arith)
      ∙ get-set_other h.units stop i _ (omega arith)

  pub fresh_extent : length fresh ≡ length h.units
  fresh_extent = length-set _ stop own ∙ length-set _ (stop + n) cleared ∙ length-set h.units stop _

  pub fresh-Tail : Tail fresh (stop + n) [] (stop + n)
  fresh-Tail = (none, (fresh-mark, refl))

  abbrev sized : Header
  sized = record { prev = prev; size = n; alloc = false }

  pub read_beyond : get_elem? (set h.units stop sized) (stop + n) ≡ some beyond
  read_beyond = get-set_other h.units stop (stop + n) sized (omega arith) ∙ there

  pub read_sized : get_elem? (set (set h.units stop sized) (stop + n) cleared) stop ≡ some sized
  read_sized =
      get-set_other _ (stop + n) stop cleared (omega arith)
      ∙ get-set_same h.units stop _ sized end.mark

  pub pointer : (h.brk - 8) / 8 ≡ stop
  pointer = let at = end.break_at in omega arith

  -- `mem_sbrk` gives the memory.
  pub extended :
      h.brk + n * 8 ≤ h.max_addr
      → mem_sbrk (n * 8) h ≡ (some h.brk, record h { brk = h.brk + n * 8 })
  unfolding mem_sbrk
  extended fits = ground arith

  pub sbrk_large :
      h.brk + n * 8 ≤ h.max_addr
      → 18 ≤ n
      → sbrk (n * 8) h
        ≡ some (
          stop,
          record h {
            units = set fresh (stop + n) (record cleared { prev = some stop });
            brk = h.brk + n * 8;
          },
        )
  unfolding sbrk
  sbrk_large fits large =
      let e₁ : ltb (n * 8) 144 ≡ false = ground arith in
      let e₂ : n * 8 / 8 ≡ n = omega arith in
      let m : n % 2 ^ 29 ≡ n = omega arith in
      rw
        (
          e₁,
          extended fits,
          pointer,
          end.mark,
          e₂,
          m,
          read_beyond,
          read_sized,
          fresh-own,
          fresh-mark,
        )
        refl
