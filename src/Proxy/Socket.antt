-- ===== src/Proxy/Socket.antt =====
-- `open_proxyfd` and `open_serverfd` of proxylab-handout/proxy.c. What the system answers is an
-- argument, and the calls that count for the descriptors and the mutexes are listed in order.
pub mod Tidy
use splab.Prelude.{
  ℕ, Bool, true, false, ◌==◌, if◌then◌else◌, List, [], ◌∷◌, ◌++◌, Option, none, some,
}
use splab.Prelude.Int.{ℤ, pos, negsuc}
use splab.Prelude.Fault.{◌>>=◌}
use splab.Proxy.Text.{text}

pub data Mutex : Type 0 where
  syscall logfile : Mutex

pub data Call : Type 0 where
  lock unlock : Mutex → Call
  gethostbyname : Call
  write_log : Call
  opened close : ℕ → Call

-- The answers to the calls of a thread; the network answers with a connection to the server.
-- `socket` is -1 or the new descriptor. The two mutexes are locked by their own calls, and `stamp` is
-- the time as strftime writes it.
pub record Answers : Type 0 where
  pub detached : Bool
  pub lock_free : Bool
  pub resolves : List ℕ → Bool
  pub socket : Option ℕ
  pub connects : Bool
  pub log_locks : Bool
  pub stamp : List ℕ

-- `socket` and `connect` in `open_serverfd`, behind the calls so far
abbrev pub connected : Option ℕ → Bool → List Call → ℤ × List Call
connected none connects calls = (negsuc 0, calls)
connected (some sockfd) true calls = (pos sockfd, calls ++ opened sockfd ∷ [])
connected (some sockfd) false calls = (negsuc 0, calls ++ opened sockfd ∷ close sockfd ∷ [])

-- `open_serverfd`. The port does not steer it.
unfoldable pub open_serverfd : Answers → List ℕ → Option (ℤ × List Call)
open_serverfd answers hostname =
    if answers.lock_free
    then (do
      name ← text hostname
      let looked_up = lock syscall ∷ gethostbyname ∷ unlock syscall ∷ []
      some (
          if answers.resolves name
          then connected answers.socket answers.connects looked_up
          else (negsuc 0, looked_up)))
    else some (negsuc 0, [])

-- `open_proxyfd`, with the results of `socket`, `setsockopt`, `bind` and `listen`
unfoldable pub open_proxyfd : Option ℕ → Bool → Bool → Bool → ℤ × List Call
open_proxyfd none reuses binds listens = (negsuc 0, [])
open_proxyfd (some sockfd) reuses binds listens =
    if reuses
    then if binds
      then if listens
        then (pos sockfd, opened sockfd ∷ [])
        else (negsuc 0, opened sockfd ∷ close sockfd ∷ [])
      else (negsuc 0, opened sockfd ∷ close sockfd ∷ [])
    else (negsuc 0, opened sockfd ∷ close sockfd ∷ [])
