-- ===== src/Prelude/Fault.antt =====
-- Computations that may fault: `none` is undefined behaviour of the C program, such as a read
-- through a null pointer. `Ensures m P` says that `m` does not fault and that its result has `P`.
use mathlib.Core.Path.{◌≡◌, refl}
use mathlib.Core.Option.{Option, none, some}

infixl 5 ◌>>=◌
abbrev pub ◌>>=◌ {ℓ κ} : {A : Type ℓ} {B : Type κ} → Option A → (A → Option B) → Option B
none >>= f = none
some a >>= f = f a

abbrev pub Ensures {ℓ} : {A : Type ℓ} → Option A → (A → Type 0) → Type 0
Ensures none P = ⊥
Ensures (some a) P = P a

-- The rule for a step and what follows it.
pub Ensures-bind {ℓ κ} :
    {A : Type ℓ} {B : Type κ} (P : A → Type 0) (Q : B → Type 0) (m : Option A) (f : A → Option B)
    → Ensures m P
    → ((a : A) → P a → Ensures (f a) Q)
    → Ensures (m >>= f) Q
Ensures-bind P Q none f h k = absurd h
Ensures-bind P Q (some a) f h k = k a h

-- The rule for two steps
pub Ensures-bind_two {ℓ κ μ} :
    {A : Type ℓ} {B : Type κ} {C : Type μ} (P : B → Type 0) (Q : C → Type 0) (m : Option A)
    (f : A → Option B) (g : B → Option C)
    → Ensures (m >>= f) P
    → ((b : B) → P b → Ensures (g b) Q)
    → Ensures (m >>= (λ a. f a >>= g)) Q
Ensures-bind_two P Q none f g h k = absurd h
Ensures-bind_two P Q (some a) f g h k = Ensures-bind P Q (f a) g h k

pub Ensures-imp {ℓ} :
    {A : Type ℓ} (P Q : A → Type 0) (m : Option A)
    → Ensures m P
    → ((a : A) → P a → Q a)
    → Ensures m Q
Ensures-imp P Q none h k = absurd h
Ensures-imp P Q (some a) h k = k a h

-- The result, with the equation that says that it is the result.
pub Ensures-some {ℓ} :
    {A : Type ℓ} (P : A → Type 0) (m : Option A) → Ensures m P → (a : A) × (m ≡ some a) × P a
Ensures-some P none h = absurd h
Ensures-some P (some a) h = (a, refl, h)

-- `Yields m P`: if `m` does not fault, its result has `P`.
abbrev pub Yields {ℓ} : {A : Type ℓ} → Option A → (A → Type 0) → Type 0
Yields none P = Unit
Yields (some a) P = P a

pub Yields-bind {ℓ κ} :
    {A : Type ℓ} {B : Type κ} (P : A → Type 0) (Q : B → Type 0) (m : Option A) (f : A → Option B)
    → Yields m P
    → ((a : A) → P a → Yields (f a) Q)
    → Yields (m >>= f) Q
Yields-bind P Q none f h k = tt
Yields-bind P Q (some a) f h k = k a h

pub Yields-imp {ℓ} :
    {A : Type ℓ} (P Q : A → Type 0) (m : Option A) → Yields m P → ((a : A) → P a → Q a) → Yields m Q
Yields-imp P Q none h k = tt
Yields-imp P Q (some a) h k = k a h

pub Ensures-× {ℓ} :
    {A : Type ℓ} (P Q : A → Type 0) (m : Option A)
    → Ensures m P
    → Yields m Q
    → Ensures m (λ a. P a × Q a)
Ensures-× P Q none h k = h
Ensures-× P Q (some a) h k = (h, k)

pub Yields_any {ℓ} : {A : Type ℓ} (m : Option A) → Yields m (λ _. Unit {0})
Yields_any none = tt
Yields_any (some a) = tt
