-- ===== src/Malloc/Heap/Extend.antt =====
-- `mm_sbrk` of malloclab-handout/mm.c: a new segment at the end of the heap.
pub mod Fresh
use splab.Prelude.{
  length-set, ℕ, zero, suc, ◌+◌, ◌-◌, ◌*◌, ◌/◌, ◌%◌, ◌^◌, ◌≡◌, ◌≢◌, ◌≤◌, ◌<◌, inl, inr, Bool, true,
  false, ◌||◌, ltb, leb, if◌then◌else◌, List, [], ◌∷◌, Option, All, none, some, get_elem?, set,
  length, arith, refl, ap, sym, subst, ◌∙◌, Bool-cases,
}
use splab.Prelude.Fault.{◌>>=◌, Ensures, Ensures-bind, Ensures-imp}
use splab.Malloc.Tree.{Segment, segments}
use splab.Malloc.Tree.Order.List.{member}
use splab.Malloc.Tree.Refine.{IsValid}
use splab.Malloc.Heap.{
  Header, Heap, read, cleared, mem_sbrk, set_size, set_alloc, clear_header, link_next, frag_node,
}
use splab.Malloc.Heap.Entry.{sbrk, address}
use splab.Malloc.Heap.Check.{Block}
use splab.Malloc.Heap.Layout.{get-set_same, get-set_other, Linked, Tail, set-set}
use splab.Malloc.Heap.Frag.{fragments, with_rest, IsFragmented, frag_node_refines}
use splab.Malloc.Heap.Extend.Fresh.{
  IsEnd, begun, fresh-own, fresh-mark, fresh_before, fresh_extent, fresh-Tail, read_beyond,
  read_sized, pointer, extended, sbrk_large,
}

abbrev unit_block : Block
unit_block = record { size = 18; alloc = true }

-- The blocks that a request of `units` adds, and the tree's segments behind it.
abbrev pub added : ℕ → List Block
added units =
    if ltb units 18
    then fragments (units + 1) (record { size = 18; alloc = true }) []
    else (record { size = units; alloc = true }) ∷ []

abbrev pub added_units : ℕ → ℕ
added_units units = if ltb units 18 then 18 else units

abbrev pub added_segments : ℕ → ℕ → List Segment → List Segment
added_segments stop units xs =
    if ltb units 18 then with_rest stop (units + 1) (record { size = 18; alloc = true }) xs else xs

member-below :
    (x : Segment) (stop : ℕ) (xs : List Segment)
    → All (λ y. y.ptr < stop) xs
    → stop ≤ x.ptr
    → member x xs ≡ false
member-below x stop [] a l = refl
member-below x stop (y ∷ xs) a l = ground (arith, member-below x stop xs)

-- The heap behind `mm_sbrk`, which returns the new segment.
pub record IsExtended (h : Heap) (prev : Option ℕ) (stop units : ℕ) (result : ℕ × Heap)
    : Type 0 where
  pub at : result.0 ≡ stop
  pub linked : Linked result.1.units prev stop (added units) (stop + added_units units)
  pub valid : IsValid result.1.root
  pub tree : segments result.1.root ≡ added_segments stop units (segments h.root)
  pub before : (i : ℕ) → i < stop → get_elem? result.1.units i ≡ get_elem? h.units i
  pub extent : length result.1.units ≡ length h.units
  pub brk : result.1.brk ≡ h.brk + added_units units * 8
  pub limit : result.1.max_addr ≡ h.max_addr

module _ (h : Heap) (prev : Option ℕ) (stop : ℕ) (end : IsEnd h prev stop) (units : ℕ)
    (beyond : Header) (v : IsValid h.root) (low : All (λ x. x.ptr < stop) (segments h.root)) where
  extend_small :
      read h (stop + 18) ≡ some beyond
      → h.brk + 144 ≤ h.max_addr
      → 1 ≤ units
      → ltb units 18 ≡ true
      → Ensures (sbrk (units * 8) h) (IsExtended h prev stop units)
  unfolding sbrk
  extend_small there fits some_units e =
      let l : 18 < 2 ^ 28 = omega arith in
      let o : 1 ≤ 18 = omega arith in
      let e₁ : ltb (units * 8) 144 ≡ true = ground arith in
      let e₂ : (units * 8 + 8) / 8 ≡ units + 1 = omega arith in
      rw
        (
          e₁,
          extended h prev stop end 18 beyond l o there fits,
          pointer h prev stop end 18 beyond l o there,
          end.mark,
          read_beyond h prev stop end 18 beyond l o there,
          read_sized h prev stop end 18 beyond l o there,
          e₂,
        )
        (Ensures-bind
          (IsFragmented stop (units + 1) prev unit_block [] (stop + 18)
            (begun h prev stop end 18 beyond l o there))
          (IsExtended h prev stop units)
          (frag_node stop (units + 1) (begun h prev stop end 18 beyond l o there)) _
          (frag_node_refines (begun h prev stop end 18 beyond l o there) stop (units + 1) prev
            unit_block [] (stop + 18) (fresh-own h prev stop end 18 beyond l o there)
            (fresh-Tail h prev stop end 18 beyond l o there) (omega arith) (omega arith)
            (ground arith) v
            (λ _.
              member-below (record { size = 18 - (units + 1); ptr = stop + (units + 1) }) stop
                (segments h.root) low (omega arith)))
          λ h' g. record {
            at = refl;
            linked = rw e g.linked;
            valid = g.valid;
            tree = rw e g.tree;
            before = λ i b.
                g.frame i (omega arith) (omega arith) (omega arith)
                ∙ fresh_before h prev stop end 18 beyond l o there i b;
            extent = g.extent ∙ fresh_extent h prev stop end 18 beyond l o there;
            limit = g.limit;
            brk = rw e g.brk;
          })

  extend_large :
      read h (stop + units) ≡ some beyond
      → h.brk + units * 8 ≤ h.max_addr
      → units < 2 ^ 28
      → ltb units 18 ≡ false
      → Ensures (sbrk (units * 8) h) (IsExtended h prev stop units)
  extend_large there fits small e =
      let large : 18 ≤ units = ground arith in
      let o : 1 ≤ units = omega arith in
      let end_mark = fresh-mark h prev stop end units beyond small o there in
      rw (sbrk_large h prev stop end units beyond small o there fits large) record {
        at = refl;
        linked = rw e (
          omega arith,
          get-set_other _ (stop + units) stop _ (omega arith)
              ∙ fresh-own h prev stop end units beyond small o there,
          (get-set_same _ (stop + units) _ _ end_mark, refl),
        );
        valid = v;
        tree = rw e refl;
        before = λ i l.
            get-set_other _ (stop + units) i _ (omega arith)
            ∙ fresh_before h prev stop end units beyond small o there i l;
        extent =
            length-set _ (stop + units) _ ∙ fresh_extent h prev stop end units beyond small o there;
        brk = rw e refl;
        limit = refl;
      }

-- On a heap that ends in an end mark at the unit `stop`, right before the break, with a valid tree
-- of segments that all come before it, and with enough memory, `mm_sbrk` does not fault. It returns
-- the segment at `stop`. For less than 18 units it takes 18, keeps one unit more than asked for
-- and cuts off the rest as a free segment if two units are left; otherwise it takes what is asked
-- for. Links, end mark, tree and break are as they should be, and the memory before `stop` is as it was.
pub sbrk_refines :
    (h : Heap) (prev : Option ℕ) (stop units : ℕ) (beyond : Header)
    → IsEnd h prev stop
    → read h (stop + added_units units) ≡ some beyond
    → h.brk + added_units units * 8 ≤ h.max_addr
    → 1 ≤ units
    → units < 2 ^ 28
    → IsValid h.root
    → All (λ x. x.ptr < stop) (segments h.root)
    → Ensures (sbrk (units * 8) h) (IsExtended h prev stop units)
sbrk_refines h prev stop units beyond end there fits some_units small v low =
    elim (Bool-cases (ltb units 18)) [
      | inl e ↦
          extend_small h prev stop end units beyond v low (rw e at there) (rw e at fits) some_units
            e
      | inr e ↦
          extend_large h prev stop end units beyond v low (rw e at there) (rw e at fits) small e
    ]
