-- ===== src/Proxy/Main/Sockets.antt =====
-- The sockets that `main` of proxylab-handout/proxy.c leaves open.
use splab.Prelude.{ℕ, ◌+◌, ◌≡◌, Bool, true, false, List, [], ◌∷◌, length, Option, none, some, arith}
use splab.Prelude.Int.{ℤ, pos, negsuc}
use splab.Proxy.Socket.{Call, close, open_proxyfd}
use splab.Proxy.Socket.Tidy.{
  Moves, Moves-none, Moves-append, close-Moves, left_open, result_fds, open_proxyfd-Moves,
}
use splab.Proxy.Main.{start, Arrival, accept_one, accept_loop}

abbrev pub kept_fds : Option ℕ → List ℕ
kept_fds none = []
kept_fds (some fd) = fd ∷ []

start_from :
    (argument mutexes : Bool) (listening : ℤ × List Call) (log : Bool)
    → Moves [] (result_fds listening.0) listening.1
    → let (socket, calls) = start argument mutexes listening log in Moves [] (kept_fds socket) calls
unfolding start
start_from false mutexes listening log m = Moves-none
start_from true false listening log m = Moves-none
start_from true true (negsuc n, calls) log m = m
start_from true true (pos fd, calls) true m = m
start_from true true (pos fd, calls) false m =
    Moves-append [] (fd ∷ []) [] calls (close fd ∷ []) m (close-Moves fd)

-- However the system answers, the start of `main` leaves the listening socket open if the loop is
-- reached, and no descriptor if it exits.
pub start-Moves :
    (argument mutexes log : Bool) (sockfd : Option ℕ) (reuses binds listens : Bool)
    → let (socket, calls) = start argument mutexes (open_proxyfd sockfd reuses binds listens) log in
      Moves [] (kept_fds socket) calls
start-Moves argument mutexes log sockfd reuses binds listens =
    start_from argument mutexes (open_proxyfd sockfd reuses binds listens) log
      (open_proxyfd-Moves sockfd reuses binds listens)

-- 1 for an accepted connection for which no thread starts
abbrev pub unserved : Option ℕ → Bool → ℕ
unserved (some newfd) false = 1
unserved _ _ = 0

abbrev pub failures : List Arrival → ℕ
failures [] = 0
failures (a ∷ arrivals) = unserved a.accepted a.created + failures arrivals

accept_one_leaks :
    (accepted : Option ℕ) (created : Bool) (later : List Call × List ℕ) (n : ℕ)
    → ((fds : List ℕ) → length (left_open fds later.0) ≡ length fds + length later.1 + n)
    → (fds : List ℕ)
    → let (calls, threads) = accept_one accepted created later in
      length (left_open fds calls) ≡ length fds + length threads + (unserved accepted created + n)
unfolding accept_one
accept_one_leaks none created later n ih fds = omega (arith, ih fds)
accept_one_leaks (some fd) true (calls, threads) n ih fds = omega (arith, ih (fd ∷ fds))
accept_one_leaks (some fd) false (calls, threads) n ih fds = omega (arith, ih (fd ∷ fds))

-- The loop of `main` closes nothing itself: after its calls, besides what was open before, a socket is
-- open for each thread, and one for each accepted connection for which no thread started.
pub accept_loop_leaks :
    (arrivals : List Arrival) (fds : List ℕ)
    → let (calls, threads) = accept_loop arrivals in
      length (left_open fds calls) ≡ length fds + length threads + failures arrivals
unfolding accept_loop
accept_loop_leaks [] fds = omega arith
accept_loop_leaks (a ∷ arrivals) fds =
    accept_one_leaks a.accepted a.created (accept_loop arrivals) (failures arrivals)
      (accept_loop_leaks arrivals) fds
