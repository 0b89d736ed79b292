-- ===== src/Shell/Signals.antt =====
-- The signal handlers of shlab-handout/tsh.c, and `waitfg`, which pauses until they have changed the
-- foreground job. What the kernel reports is an argument: a list of events, each delivered at one
-- `pause`. `none` is a fault: the read of a job through the null pointer.
pub mod Foreground
pub mod Reap
pub mod Progress
use splab.Prelude.{
  ℕ, suc, Bool, true, false, ◌&&◌, ◌==◌, if◌then◌else◌, List, [], ◌∷◌, Option, none, some,
  get_elem?, set,
}
use splab.Prelude.Fault.{◌>>=◌}
use splab.Shell.Jobs.{
  Job, Shell, State, fg, st, Signal, sigint, sigtstp, failed, terminated, stopped, sent, quitting,
  say, is_fg, maxjid, getjobpid, deletejob, fgpid,
}

-- `child_status`, by the macro that recognises it
pub data Status : Type 0 where
  signaled : ℕ → Status
  stopped_by : ℕ → Status
  exited : ℕ → Status

-- What one call of `waitpid` returns: -1, 0, or a child with its status.
pub data Wait : Type 0 where
  wait_error : Wait
  nothing : Wait
  changed : ℕ → Status → Wait

-- `job->state = state`, through the index `i`
abbrev pub set_state : ℕ → State → Shell → Option Shell
set_state i state s = do
  job ← get_elem? s.jobs i
  some (record s { jobs = set s.jobs i (record job { state = state }) })

-- The body of the loop of `sigchld_handler` behind the call of `waitpid`.
unfoldable pub reap : Shell → ℕ → Status → Option Shell
reap s pid (signaled sig) = do
  i ← getjobpid s.jobs pid
  job ← get_elem? s.jobs i
  some (deletejob (say (terminated job.jid job.pid sig) s) pid).0
reap s pid (stopped_by sig) = do
  i ← getjobpid s.jobs pid
  job ← get_elem? s.jobs i
  set_state i st (say (stopped job.jid job.pid sig) s)
reap s pid (exited code) = some (deletejob s pid).0

-- `sigchld_handler`, over what `waitpid` returns at each call; behind the end of the list it
-- returns 0.
unfoldable pub sigchld_handler : List Wait → Shell → Option Shell
sigchld_handler [] s = some s
sigchld_handler (wait_error ∷ waits) s = some (if maxjid s.jobs == 0 then s else say failed s)
sigchld_handler (nothing ∷ waits) s = some s
sigchld_handler (changed pid status ∷ waits) s =
    let more = (do s' ← reap s pid status; sigchld_handler waits s') in
    if maxjid s.jobs == 0 then some s else more

-- `kill(-pid, sig)`, which may fail
abbrev pub kill : Bool → ℕ → Signal → Shell → Shell
kill ok pid sig s = if ok then say (sent pid sig) s else say failed s

-- `sigint_handler` and `sigtstp_handler`
unfoldable pub sigint_handler : Bool → Shell → Shell
sigint_handler ok s = let pid = fgpid s.jobs in if pid == 0 then s else kill ok pid sigint s

unfoldable pub sigtstp_handler : Bool → Shell → Shell
sigtstp_handler ok s = let pid = fgpid s.jobs in if pid == 0 then s else kill ok pid sigtstp s

-- A signal that comes to the shell, with what the kernel answers to its handler.
pub data Event : Type 0 where
  chld : List Wait → Event
  int : Bool → Event
  tstp : Bool → Event
  quit : Event

-- What a routine ends in: it returns, with the events that are left; the shell has exited; or it is
-- still waiting behind the last event.
pub data Outcome : Type 0 where
  running : Shell → List Event → Outcome
  gone : Shell → Outcome
  waiting : Shell → Outcome

-- The handler of a signal, but `sigquit_handler`, which exits: the loops that deliver signals take
-- that case. A blocked SIGCHLD is not delivered.
unfoldable pub deliver : Event → Shell → Option Shell
deliver (chld waits) s = if s.masked then some s else sigchld_handler waits s
deliver (int ok) s = some (sigint_handler ok s)
deliver (tstp ok) s = some (sigtstp_handler ok s)
deliver quit s = some s

-- The loop of `waitfg` on the slot that `job` points to.
unfoldable pub wait_loop : ℕ → ℕ → List Event → Shell → Option Outcome
wait_loop i pid [] s = do
  job ← get_elem? s.jobs i
  some (if job.pid == pid && is_fg job.state then waiting s else running s [])
wait_loop i pid (quit ∷ events) s = do
  job ← get_elem? s.jobs i
  some (
      if job.pid == pid && is_fg job.state
      then gone (say quitting s)
      else running s (quit ∷ events))
wait_loop i pid (e ∷ events) s = do
  job ← get_elem? s.jobs i
  let more = (do s' ← deliver e s; wait_loop i pid events s')
  if job.pid == pid && is_fg job.state then more else some (running s (e ∷ events))

-- `waitfg`
unfoldable pub waitfg : ℕ → List Event → Shell → Option Outcome
waitfg pid events s = elim (getjobpid s.jobs pid) [
  | none ↦ some (running s events)
  | some i ↦ wait_loop i pid events s
]
