-- ===== src/Proxy/Main.antt =====
-- `main` of proxylab-handout/proxy.c: the start, with what the system answers as arguments, and the
-- loop that accepts connections.
pub mod Sockets
use splab.Prelude.{ℕ, Bool, true, false, List, [], ◌∷◌, ◌++◌, Option, none, some}
use splab.Prelude.Int.{ℤ, pos, negsuc}
use splab.Proxy.Socket.{Call, opened, close}

-- The start of `main`: whether there is one argument, whether neither call of `pthread_mutex_init`
-- gives a negative number (its errors are positive, and pass the test), what
-- `open_proxyfd` gives with its calls, and whether the log opens. Gives the listening socket if the
-- loop is reached.
unfoldable pub start : Bool → Bool → ℤ × List Call → Bool → Option ℕ × List Call
start false mutexes listening log = (none, [])
start true false listening log = (none, [])
start true true (negsuc n, calls) log = (none, calls)
start true true (pos sockfd, calls) true = (some sockfd, calls)
start true true (pos sockfd, calls) false = (none, calls ++ close sockfd ∷ [])

-- What comes to the loop: -1 or the socket that `accept` gives, and whether `pthread_create` starts
-- a thread. `malloc` gives the memory for the data of the thread: that it may fail is not modelled.
pub record Arrival : Type 0 where
  pub accepted : Option ℕ
  pub created : Bool

-- A pass of the loop on what comes, before the calls and the sockets of the threads of later passes
unfoldable pub accept_one : Option ℕ → Bool → List Call × List ℕ → List Call × List ℕ
accept_one none created later = later
accept_one (some newfd) true (calls, threads) = (opened newfd ∷ calls, newfd ∷ threads)
accept_one (some newfd) false (calls, threads) = (opened newfd ∷ calls, threads)

-- The loop: its own calls on sockets, and the sockets that it gives to threads
unfoldable pub accept_loop : List Arrival → List Call × List ℕ
accept_loop [] = ([], [])
accept_loop (a ∷ arrivals) = accept_one a.accepted a.created (accept_loop arrivals)
