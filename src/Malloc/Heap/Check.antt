-- ===== src/Malloc/Heap/Check.antt =====
-- What `mm_check` of malloclab-handout/mm.c finds: the segments from the first one to the end mark.
use splab.Prelude.{
  ℕ, zero, suc, ◌+◌, ◌≡◌, ◌≢◌, ◌<◌, inl, inr, Bool, true, ◌==◌, if◌then◌else◌, List, [], ◌∷◌,
  Option, ap, some, get_elem?, length, arith, ◌∙◌, Bool-cases, Option-cases,
}
use splab.Malloc.Tree.{segments}
use splab.Malloc.Tree.Check.{check_node, check_node_lem, IsLocallyFine, check_node_sound}
use splab.Malloc.Tree.Refine.{IsValid}
use splab.Malloc.Heap.{Heap, Header, read, first}
use splab.Malloc.Heap.Entry.{check_list, check}

-- A segment as the list of segments has it.
pub record Block : Type 0 where
  pub size : ℕ
  pub alloc : Bool

-- The units from `now` on hold the headers of those segments: each is followed by the header of the
-- next one, which points back to it, and the last by an end mark of size 0.
abbrev pub Chain : Heap → ℕ → List Block → Type 0
Chain h now [] = (header : Header) × (read h now ≡ some header) × (header.size ≡ 0)
Chain h now (block ∷ blocks) =
    (block.size ≢ 0)
    × ((prev : Option ℕ) × (read h now
          ≡ some (record { prev = prev; size = block.size; alloc = block.alloc })))
    × ((behind : Header) × (read h (now + block.size) ≡ some behind) × (behind.prev ≡ some now))
    × Chain h (now + block.size) blocks

abbrev pub free_count : List Block → ℕ
free_count [] = 0
free_count (block ∷ blocks) = if block.alloc then free_count blocks else suc (free_count blocks)

get_elem_bound :
    {A : Type 0} (list : List A) (i : ℕ) (a : A) → get_elem? list i ≡ some a → i < length list
get_elem_bound [] i a e = cc
get_elem_bound (x ∷ list) zero a e = omega arith
get_elem_bound (x ∷ list) (suc i) a e = let rest = get_elem_bound list i a e in omega arith

-- There are fewer segments than units.
Chain-bound :
    (h : Heap) (now : ℕ) (blocks : List Block)
    → Chain h now blocks
    → now + length blocks < length h.units
Chain-bound h now [] (header, e, z) = let bound = get_elem_bound h.units now header e in omega arith
Chain-bound h now (block ∷ blocks) (n, own, behind, c) =
    let rest = Chain-bound h (now + block.size) blocks c in omega arith

check_list_lem :
    (fuel now nfree : ℕ) (h : Heap) (blocks : List Block)
    → Chain h now blocks
    → length blocks < fuel
    → check_list fuel now nfree h ≡ some (some (nfree + free_count blocks))
unfolding check_list
check_list_lem zero now nfree h blocks c l = ground arith
check_list_lem (suc fuel) now nfree h [] (header, e, z) l = rw e (ground arith)
check_list_lem (suc fuel) now nfree h (block ∷ blocks) (n, (prev, e), (behind, f, p), c) l =
    let rest =
      check_list_lem fuel (now + block.size) (if block.alloc then nfree else nfree + 1) h blocks c
        (omega arith) in
    rw (e, f, p) (ground arith)

-- On a heap whose first segments, up to the end mark, are `blocks`, and whose tree is a valid one,
-- `mm_check` does not fault and does not find the list or the tree broken: it returns 1 if there are as
-- many free blocks as segments in the tree, and 0 if not.
pub check_lem :
    (h : Heap) (blocks : List Block)
    → Chain h first blocks
    → IsValid h.root
    → check h ≡ some (free_count blocks == length (segments h.root))
unfolding check
check_lem h blocks c v =
    let bound = Chain-bound h first blocks c in
    let walked = check_list_lem (length h.units) first 0 h blocks c (omega arith) in
    let counted = check_node_lem h.root 0 v.red_black v.sorted in
    rw (walked, counted) (ground arith)

check_list_sound :
    (fuel now nfree m : ℕ) (h : Heap)
    → check_list fuel now nfree h ≡ some (some m)
    → (blocks : List Block) × Chain h now blocks × (m ≡ nfree + free_count blocks)
unfolding check_list
check_list_sound zero now nfree m h e = cc
check_list_sound (suc fuel) now nfree m h e = elim (Option-cases (read h now)) [
  | inl f ↦ let no : ⊥ = ground arith in absurd no
  | inr (header, f) ↦ elim (Bool-cases (header.size == 0)) [
    | inl z ↦ ([], (header, f, ground arith), ground arith)
    | inr z ↦ elim (Option-cases (read h (now + header.size))) [
      | inl g ↦ let no : ⊥ = ground arith in absurd no
      | inr (behind, g) ↦ elim (Option-cases behind.prev) [
        | inl p ↦ let no : ⊥ = ground arith in absurd no
        | inr (prev, p) ↦ elim (Bool-cases (prev == now)) [
          | inl q ↦
              let rest : check_list fuel (now + header.size)
                    (if header.alloc then nfree else nfree + 1) h
                  ≡ some (some m) =
                ground arith in
              let (blocks, c, s) = check_list_sound fuel (now + header.size) _ m h rest in
              let block : Block = record { size = header.size; alloc = header.alloc } in
              let back : prev ≡ now = ground arith in
              (
                block ∷ blocks,
                (ground arith, (header.prev, f), (behind, g, rw p (ap some back)), c),
                ground arith,
              )
          | inr q ↦ let no : ⊥ = ground arith in absurd no
        ]
      ]
    ]
  ]
]

-- If `mm_check` returns 1, the segments are properly linked up to the end mark, the tree has as many
-- nodes as there are free segments, no node of it is out of order with one of its children, and no
-- red node has a red child.
pub check_sound :
    (h : Heap)
    → check h ≡ some true
    → (blocks : List Block) × Chain h first blocks
      × IsLocallyFine h.root
      × (length (segments h.root) ≡ free_count blocks)
unfolding check
check_sound h e = elim (Option-cases (check_list (length h.units) first 0 h)) [
  | inl f ↦ let no : ⊥ = ground arith in absurd no
  | inr (walked, f) ↦ elim (Option-cases walked) [
    | inl g ↦ let no : ⊥ = ground arith in absurd no
    | inr (m, g) ↦
        let (blocks, c, s) = check_list_sound (length h.units) first 0 m h (f ∙ ap some g) in
        let tree : check_node h.root 0 ≡ (true, free_count blocks) = ground arith in
        let (fine, counted) = check_node_sound h.root 0 (free_count blocks) tree in
        (blocks, c, fine, omega (arith, counted))
  ]
]
