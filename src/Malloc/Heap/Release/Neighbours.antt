-- ===== src/Malloc/Heap/Release/Neighbours.antt =====
-- The two halves of `mm_free` in malloclab-handout/mm.c: both neighbours are joined where they are
-- free.
use splab.Prelude.{
  ℕ, ◌+◌, ◌≡◌, ◌⊎◌, true, false, ◌==◌, List, [], ◌∷◌, ◌++◌, none, arith, refl, ap, sym, ◌∙◌,
  Bool-cases, inl, inr, subst,
}
use splab.Prelude.Fault.{Ensures, Ensures-bind, Ensures-imp}
use splab.Malloc.Tree.{Segment}
use splab.Malloc.Heap.{Header, Heap, first, read, set_size, delete_segment}
use splab.Malloc.Heap.Entry.{join_prev, join_next}
use splab.Malloc.Heap.Check.{Block}
use splab.Malloc.Heap.Blocks.{reach, last, reach-append, last-append, Chunk-split}
use splab.Malloc.Heap.Regions.{Intact}
use splab.Malloc.Heap.Release.Open.{IsOpen, others}
use splab.Malloc.Heap.Release.Join.{
  next-IsRooted, next-IsOpen, prev-IsRooted, prev-IsOpen, prev-others,
}

pub Intact-refl : (units : List Header) (list : List Segment) → Intact units units list
Intact-refl units [] = tt
Intact-refl units (x ∷ list) = ((λ i a b. refl), Intact-refl units list)

pub Intact-trans :
    (u v w : List Header) (list : List Segment)
    → Intact u v list
    → Intact v w list
    → Intact u w list
Intact-trans u v w [] a b = tt
Intact-trans u v w (x ∷ list) a b =
    ((λ i l m. b.0 i l m ∙ a.0 i l m), Intact-trans u v w list a.1 b.1)

-- The open segment has grown over what was between `xs` and `ys` before.
pub record IsJoined (h : Heap) (xs : List Block) (n : ℕ) (ys : List Block) (result : ℕ × Heap)
    : Type 0 where
  pub blocks : List Block
  pub size : ℕ
  pub follow : List Block
  pub open_at : IsOpen blocks size follow result.1
  pub at : result.0 ≡ reach first blocks
  pub same : others blocks size follow ≡ others xs n ys
  pub intact : Intact h.units result.1.units (others xs n ys)

IsJoined-refl :
    (h : Heap) (xs : List Block) (n : ℕ) (ys : List Block)
    → IsOpen xs n ys h
    → IsJoined h xs n ys (reach first xs, h)
IsJoined-refl h xs n ys o = record {
  blocks = xs;
  size = n;
  follow = ys;
  open_at = o;
  at = refl;
  same = refl;
  intact = Intact-refl h.units (others xs n ys);
}

-- The segment behind it is joined where it is free.
pub join_next-IsJoined :
    (h : Heap) (xs : List Block) (n : ℕ) (ys : List Block)
    → IsOpen xs n ys h
    → Ensures
        (join_next (reach first xs) (reach first xs + n) h)
        (λ h'. IsJoined h xs n ys (reach first xs, h'))
unfolding join_next
join_next-IsJoined h xs n [] o = rw o.tail.1.0 (IsJoined-refl h xs n [] o)
join_next-IsJoined h xs n (block ∷ ys) o =
    let least = o.tail.1.0 in
    let some_units : (block.size == 0) ≡ false = ground arith in
    elim (Bool-cases block.alloc) [
      | inl e ↦
          let held : IsOpen xs n (record { size = block.size; alloc = true } ∷ ys) h = rw e at o in
          rw (o.tail.1.1, e, some_units) (IsJoined-refl h xs n _ held)
      | inr e ↦
          let held : IsOpen xs n (record { size = block.size; alloc = false } ∷ ys) h = rw e at o in
          let now = reach first xs in
          let assoc : now + (n + block.size) ≡ now + n + block.size = omega arith in
          rw (o.tail.1.1, e, some_units)
            (Ensures-bind _ _ (delete_segment (now + n) h) _
              (next-IsRooted xs n block.size ys h held)
              λ h₁ r.
                Ensures-bind (λ header. header.size ≡ n) _ (read h₁ now) _
                  (rw (r.units, o.own) refl)
                  λ header f. rw f (
                    Ensures-imp _
                      (λ h'.
                        IsJoined h xs n (record { size = block.size; alloc = false } ∷ ys)
                          (now, h'))
                      (set_size now (n + block.size) h₁)
                      (next-IsOpen xs n block.size ys h held h₁ r)
                      λ h' g. record {
                        blocks = xs;
                        size = n + block.size;
                        follow = ys;
                        open_at = g.0;
                        at = refl;
                        same = rw assoc refl;
                        intact = g.1;
                      }))
    ]

-- The open segment has grown to the front.
pub record IsLowered (h : Heap) (xs : List Block) (n : ℕ) (ys : List Block) (result : ℕ × Heap)
    : Type 0 where
  pub blocks : List Block
  pub size : ℕ
  pub open_at : IsOpen blocks size ys result.1
  pub at : result.0 ≡ reach first blocks
  pub end : reach first blocks + size ≡ reach first xs + n
  pub same : others blocks size ys ≡ others xs n ys
  pub intact : Intact h.units result.1.units (others xs n ys)

IsLowered-refl :
    (h : Heap) (xs : List Block) (n : ℕ) (ys : List Block)
    → IsOpen xs n ys h
    → IsLowered h xs n ys (reach first xs, h)
IsLowered-refl h xs n ys o = record {
  blocks = xs;
  size = n;
  open_at = o;
  at = refl;
  end = refl;
  same = refl;
  intact = Intact-refl h.units (others xs n ys);
}

last_block :
    (xs : List Block) → (xs ≡ []) ⊎ ((zs : List Block) × (z : Block) × (xs ≡ zs ++ (z ∷ [])))
last_block [] = inl refl
last_block (x ∷ xs) = elim (last_block xs) [
  | inl e ↦ inr ([], x, ap (λ l. x ∷ l) e)
  | inr (zs, z, e) ↦ inr (x ∷ zs, z, ap (λ l. x ∷ l) e)
]

abbrev pub Lowers : Heap → ℕ → List Block → List Block → Type 0
Lowers h n ys xs =
    IsOpen xs n ys h
    → Ensures (join_prev (reach first xs) (last none first xs) h) (IsLowered h xs n ys)

module _ (h : Heap) (n : ℕ) (ys zs : List Block) where
  lower_used : (m : ℕ) → Lowers h n ys (zs ++ (record { size = m; alloc = true } ∷ []))
  unfolding join_prev
  lower_used m o =
      let block : Block = record { size = m; alloc = true } in
      let parts = Chunk-split h.units none first zs (block ∷ []) o.chunk in
      rw (last-append none first zs (block ∷ []), join_prev)
        (rw parts.1.1 (IsLowered-refl h (zs ++ (block ∷ [])) n ys o))

  lower_free : (m : ℕ) → Lowers h n ys (zs ++ (record { size = m; alloc = false } ∷ []))
  unfolding join_prev
  lower_free m o =
      let block : Block = record { size = m; alloc = false } in
      let parts = Chunk-split h.units none first zs (block ∷ []) o.chunk in
      rw (last-append none first zs (block ∷ []), join_prev)
        (rw parts.1.1 (
          Ensures-bind _ (IsLowered h (zs ++ (block ∷ [])) n ys) (delete_segment (reach first zs) h)
            _ (prev-IsRooted zs m n ys h o)
            λ h₁ r.
              Ensures-bind (λ header. header.size ≡ n) _
                (read h₁ (reach first (zs ++ (block ∷ [])))) _ (rw (r.units, o.own) refl)
                λ header f. rw f (
                  Ensures-bind _ _ (set_size (reach first zs) (m + n) h₁) _
                    (prev-IsOpen zs m n ys h o h₁ r)
                    λ h' g. record {
                      blocks = zs;
                      size = m + n;
                      open_at = g.0;
                      at = refl;
                      end = rw (reach-append first zs (block ∷ [])) (omega arith);
                      same = prev-others zs m n ys h o;
                      intact = g.1;
                    })))

-- The segment before it is joined where it is free.
pub join_prev-IsLowered : (h : Heap) (xs : List Block) (n : ℕ) (ys : List Block) → Lowers h n ys xs
unfolding join_prev
join_prev-IsLowered h xs n ys = elim (last_block xs) [
  | inl e ↦ subst (Lowers h n ys) (sym e) (λ o. IsLowered-refl h [] n ys o)
  | inr (zs, z, e) ↦ elim (Bool-cases z.alloc) [
    | inl a ↦
        let same : xs ≡ zs ++ (record { size = z.size; alloc = true } ∷ []) = e ∙ rw a refl in
        subst (Lowers h n ys) (sym same) (lower_used h n ys zs z.size)
    | inr a ↦
        let same : xs ≡ zs ++ (record { size = z.size; alloc = false } ∷ []) = e ∙ rw a refl in
        subst (Lowers h n ys) (sym same) (lower_free h n ys zs z.size)
  ]
]
