-- ===== src/Proxy/Socket/Tidy.antt =====
-- Descriptors and mutexes over the calls of `open_serverfd` and `open_proxyfd` in
-- proxylab-handout/proxy.c.
use splab.Prelude.{
  ℕ, ◌≡◌, refl, ap, ◌∙◌, append_assoc, Bool, true, false, ◌==◌, if◌then◌else◌, List, [], ◌∷◌, ◌++◌,
  Option, none, some, Bool-cases, inl, inr, arith,
}
use splab.Prelude.Int.{ℤ, pos, negsuc}
use splab.Prelude.Fault.{Yields, Yields-bind, Yields_any}
use splab.Proxy.Text.{text}
use splab.Proxy.Socket.{
  Mutex, syscall, logfile, Call, lock, unlock, gethostbyname, write_log, opened, close, Answers,
  connected, open_serverfd, open_proxyfd,
}

abbrev pub remove : ℕ → List ℕ → List ℕ
remove fd [] = []
remove fd (x ∷ xs) = if x == fd then xs else x ∷ remove fd xs

-- The descriptors that are open after the calls, if these are open before
abbrev pub left_open : List ℕ → List Call → List ℕ
left_open before [] = before
left_open before (opened fd ∷ calls) = left_open (fd ∷ before) calls
left_open before (close fd ∷ calls) = left_open (remove fd before) calls
left_open before (lock m ∷ calls) = left_open before calls
left_open before (unlock m ∷ calls) = left_open before calls
left_open before (gethostbyname ∷ calls) = left_open before calls
left_open before (write_log ∷ calls) = left_open before calls

-- The mutex that is held after a call; none if the call breaks the discipline: at most one mutex is
-- held, each is released by the one that holds it, and `gethostbyname` and the log are used under
-- their own mutex.
abbrev after_call : Option Mutex → Call → Option (Option Mutex)
after_call none (lock m) = some (some m)
after_call (some syscall) (unlock syscall) = some none
after_call (some logfile) (unlock logfile) = some none
after_call (some syscall) gethostbyname = some (some syscall)
after_call (some logfile) write_log = some (some logfile)
after_call held (opened fd) = some held
after_call held (close fd) = some held
after_call _ _ = none

-- The calls keep the discipline and end with no mutex held.
abbrev pub disciplined : Option Mutex → List Call → Bool
disciplined none [] = true
disciplined (some m) [] = false
disciplined held (call ∷ calls) = elim (after_call held call) [
  | none ↦ false
  | some held' ↦ disciplined held' calls
]

-- Calls that take the open descriptors from `before` to `after`, ahead of any others, and keep the
-- discipline
pub record Moves (before after : List ℕ) (calls : List Call) : Type 0 where
  pub fds :
      (others : List ℕ) (more : List Call)
      → left_open (before ++ others) (calls ++ more) ≡ left_open (after ++ others) more
  pub locks : (more : List Call) → disciplined none (calls ++ more) ≡ disciplined none more

-- The descriptor that a result stands for
abbrev pub result_fds : ℤ → List ℕ
result_fds (pos fd) = fd ∷ []
result_fds (negsuc n) = []

pub Moves-none : Moves [] [] []
Moves-none = record { fds = λ others more. refl; locks = λ more. refl }

same : (fd : ℕ) → (fd == fd) ≡ true
same fd = ground arith

pub remove-first : (fd : ℕ) (fds : List ℕ) → remove fd (fd ∷ fds) ≡ fds
remove-first fd fds = rw (same fd) refl

pub Moves-append :
    (a b c : List ℕ) (xs ys : List Call) → Moves a b xs → Moves b c ys → Moves a c (xs ++ ys)
Moves-append a b c xs ys m n = record {
  fds = λ others more.
      ap (left_open (a ++ others)) (append_assoc xs ys more)
      ∙ m.fds others (ys ++ more)
      ∙ n.fds others more;
  locks =
      λ more. ap (disciplined none) (append_assoc xs ys more) ∙ m.locks (ys ++ more) ∙ n.locks more;
}

pub close-Moves : (fd : ℕ) → Moves (fd ∷ []) [] (close fd ∷ [])
close-Moves fd = record {
  fds = λ others more. ap (λ fds. left_open fds more) (remove-first fd others);
  locks = λ more. refl;
}

opened-Moves : (fd : ℕ) → Moves [] (fd ∷ []) (opened fd ∷ [])
opened-Moves fd = record { fds = λ others more. refl; locks = λ more. refl }

closed-Moves : (fd : ℕ) → Moves [] [] (opened fd ∷ close fd ∷ [])
closed-Moves fd = record {
  fds = λ others more. ap (λ fds. left_open fds more) (remove-first fd others);
  locks = λ more. refl;
}

-- `open_proxyfd` leaves no descriptor open but the one that it gives.
pub open_proxyfd-Moves :
    (sockfd : Option ℕ) (reuses binds listens : Bool)
    → let (res, calls) = open_proxyfd sockfd reuses binds listens in Moves [] (result_fds res) calls
unfolding open_proxyfd
open_proxyfd-Moves none reuses binds listens = Moves-none
open_proxyfd-Moves (some fd) false binds listens = closed-Moves fd
open_proxyfd-Moves (some fd) true false listens = closed-Moves fd
open_proxyfd-Moves (some fd) true true false = closed-Moves fd
open_proxyfd-Moves (some fd) true true true = opened-Moves fd

looked_up-Moves :
    (before after : List ℕ) (calls : List Call)
    → Moves before after calls
    → Moves before after (lock syscall ∷ gethostbyname ∷ unlock syscall ∷ calls)
looked_up-Moves before after calls m = record { fds = m.fds; locks = m.locks }

connected-Moves :
    (sockfd : Option ℕ) (connects : Bool)
    → let (res, calls) =
        connected sockfd connects (lock syscall ∷ gethostbyname ∷ unlock syscall ∷ []) in
      Moves [] (result_fds res) calls
connected-Moves none connects = looked_up-Moves [] [] [] Moves-none
connected-Moves (some fd) true = looked_up-Moves [] (fd ∷ []) _ (opened-Moves fd)
connected-Moves (some fd) false = looked_up-Moves [] [] _ (closed-Moves fd)

-- `open_serverfd` on every answer of the system: it leaves no descriptor open but the one that it
-- gives, calls `gethostbyname` under the mutex only, and releases the mutex.
pub open_serverfd-Moves :
    (answers : Answers) (hostname : List ℕ)
    → Yields (open_serverfd answers hostname) (λ (res, calls). Moves [] (result_fds res) calls)
unfolding open_serverfd
open_serverfd-Moves answers hostname = elim (Bool-cases answers.lock_free) [
  | inr e ↦ simp e Moves-none
  | inl e ↦ simp e (
      Yields-bind (λ _. Unit) _ (text hostname) _ (Yields_any (text hostname))
        λ name t. elim (Bool-cases (answers.resolves name)) [
          | inr f ↦ rw f (looked_up-Moves [] [] [] Moves-none)
          | inl f ↦ rw f (connected-Moves answers.socket answers.connects)
        ])
]
