-- ===== src/Malloc/Heap/Layout.antt =====
-- The segments of the heap, header by header, and what a write to one header leaves alone.
use splab.Prelude.{
  ℕ, zero, suc, ◌+◌, ◌≡◌, ◌≢◌, ◌≤◌, ◌<◌, false, List, [], ◌∷◌, Option, some, get_elem?, set, arith,
  refl, ap, ◌∙◌,
}
use splab.Malloc.Heap.{Header}
use splab.Malloc.Heap.Check.{Block}

pub get-set_same {ℓ} :
    {A : Type ℓ} (list : List A) (i : ℕ) (a b : A)
    → get_elem? list i ≡ some a
    → get_elem? (set list i b) i ≡ some b
get-set_same [] i a b e = cc
get-set_same (x ∷ list) zero a b e = refl
get-set_same (x ∷ list) (suc i) a b e = get-set_same list i a b e

pub get-set_other {ℓ} :
    {A : Type ℓ} (list : List A) (i j : ℕ) (b : A)
    → i ≢ j
    → get_elem? (set list i b) j ≡ get_elem? list j
get-set_other [] i j b n = refl
get-set_other (x ∷ list) zero zero b n = absurd (n refl)
get-set_other (x ∷ list) zero (suc j) b n = refl
get-set_other (x ∷ list) (suc i) zero b n = refl
get-set_other (x ∷ list) (suc i) (suc j) b n = get-set_other list i j b (λ e. n (ap suc e))

-- Below a unit of the memory is another.
pub get_below {ℓ} :
    {A : Type ℓ} (list : List A) (i j : ℕ) (a : A)
    → get_elem? list j ≡ some a
    → i ≤ j
    → (b : A) × (get_elem? list i ≡ some b)
get_below [] i j a e l = cc
get_below (x ∷ list) zero j a e l = (x, refl)
get_below (x ∷ list) (suc i) zero a e l = absurd (omega arith)
get_below (x ∷ list) (suc i) (suc j) a e l = get_below list i j a e (omega arith)

-- From `now` on, where the header points back to `prev`, the blocks follow each other up to the end
-- mark at `stop`.
abbrev pub Linked : List Header → Option ℕ → ℕ → List Block → ℕ → Type 0
Linked units prev now [] stop =
    (get_elem? units now ≡ some (record { prev = prev; size = 0; alloc = false })) × (now ≡ stop)
Linked units prev now (block ∷ blocks) stop =
    (2 ≤ block.size)
    × (get_elem? units now ≡ some (record { prev = prev; size = block.size; alloc = block.alloc }))
    × Linked units (some now) (now + block.size) blocks stop

-- The same with a first header that may point back to anything.
abbrev pub Tail : List Header → ℕ → List Block → ℕ → Type 0
Tail units now blocks stop = (prev : Option ℕ) × Linked units prev now blocks stop

-- What is written before the blocks leaves them alone.
pub Linked-set :
    (units : List Header) (i : ℕ) (header : Header) (prev : Option ℕ) (now : ℕ)
    (blocks : List Block) (stop : ℕ)
    → i < now
    → Linked units prev now blocks stop
    → Linked (set units i header) prev now blocks stop
Linked-set units i header prev now [] stop l (e, s) =
    (get-set_other units i now header (omega arith) ∙ e, s)
Linked-set units i header prev now (block ∷ blocks) stop l (n, e, c) = (
  n,
  get-set_other units i now header (omega arith) ∙ e,
  Linked-set units i header (some now) (now + block.size) blocks stop (omega arith) c,
)

-- The header that a list of blocks starts with.
abbrev pub head : Option ℕ → List Block → Header
head prev [] = record { prev = prev; size = 0; alloc = false }
head prev (block ∷ blocks) = record { prev = prev; size = block.size; alloc = block.alloc }

pub Linked-head :
    (units : List Header) (prev : Option ℕ) (now : ℕ) (blocks : List Block) (stop : ℕ)
    → Linked units prev now blocks stop
    → get_elem? units now ≡ some (head prev blocks)
Linked-head units prev now [] stop (e, s) = e
Linked-head units prev now (block ∷ blocks) stop (n, e, c) = e

-- A write of the link at the start.
pub Linked-link :
    (units : List Header) (prev prev' : Option ℕ) (now : ℕ) (blocks : List Block) (stop : ℕ)
    → Linked units prev now blocks stop
    → Linked (set units now (head prev' blocks)) prev' now blocks stop
Linked-link units prev prev' now [] stop (e, s) = (get-set_same units now _ _ e, s)
Linked-link units prev prev' now (block ∷ blocks) stop (n, e, c) = (
  n,
  get-set_same units now _ _ e,
  Linked-set units now _ (some now) (now + block.size) blocks stop (omega arith) c,
)

-- Of two writes to one unit the second counts.
pub set-set {ℓ} :
    {A : Type ℓ} (list : List A) (i : ℕ) (a b : A) → set (set list i a) i b ≡ set list i b
set-set [] i a b = refl
set-set (x ∷ list) zero a b = refl
set-set (x ∷ list) (suc i) a b = ap (λ rest. x ∷ rest) (set-set list i a b)

-- A write of what is there changes nothing.
pub set-get {ℓ} :
    {A : Type ℓ} (list : List A) (i : ℕ) (a : A) → get_elem? list i ≡ some a → set list i a ≡ list
set-get [] i a e = refl
set-get (x ∷ list) zero a e = ground arith
set-get (x ∷ list) (suc i) a e = ap (λ rest. x ∷ rest) (set-get list i a e)
