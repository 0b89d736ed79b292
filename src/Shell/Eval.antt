-- ===== src/Shell/Eval.antt =====
-- `eval`, `builtin_cmd` and `do_bgfg` of shlab-handout/tsh.c. What the system calls answer is an
-- argument. `strtol` is libc's: the number that it reads, as an `int`, and the text behind it.
pub mod Resume
pub mod Prompt
pub mod Faults
pub mod Launch
pub mod Return
pub mod Race
use splab.Prelude.{
  ℕ, Bool, true, false, not, ◌&&◌, ◌||◌, ◌==◌, if◌then◌else◌, List, [], ◌∷◌, Option, none, some,
  get_elem?, set,
}
use splab.Prelude.Int.{ℤ, pos_part}
use splab.Prelude.Fault.{◌>>=◌}
use splab.Shell.Jobs.{
  Job, Shell, State, Message, quitting, fg, bg, sigcont, failed, line, needs_argument, not_a_number,
  no_such_job, no_such_process, command_not_found, say, is_st, getjobpid, getjobjid, addjob,
  listjobs,
}
use splab.Shell.Signals.{
  Event, quit, Outcome, running, gone, waiting, set_state, kill, deliver, waitfg,
}
use splab.Shell.Parse.{parseline}

-- `strcmp(a, b) == 0`
abbrev pub streq : List ℕ → List ℕ → Bool
streq [] [] = true
streq (a ∷ s) (b ∷ t) = a == b && streq s t
streq _ _ = false

abbrev pub quit_word : List ℕ
quit_word = b'q' ∷ b'u' ∷ b'i' ∷ b't' ∷ []

abbrev pub jobs_word : List ℕ
jobs_word = b'j' ∷ b'o' ∷ b'b' ∷ b's' ∷ []

abbrev pub bg_word : List ℕ
bg_word = b'b' ∷ b'g' ∷ []

abbrev pub fg_word : List ℕ
fg_word = b'f' ∷ b'g' ∷ []

-- What `fork` returns in the shell.
pub data Fork : Type 0 where
  fork_failed : Fork
  forked : ℕ → Fork

-- What `do_bgfg` meets once it has found the job: whether `kill` succeeds, and the signals that come
-- before it reads the state of the job, and from then on before it writes it.
pub record Resuming : Type 0 where
  pub kill_ok : Bool
  pub found_then : List Event
  pub read_then : List Event

-- What the system calls of one command answer.
pub record Calls : Type 0 where
  pub malloc_ok : Bool
  pub block_ok : Bool
  pub fork : Fork
  pub unblock_ok : Bool
  pub resuming : Resuming
  pub events : List Event

-- The job that an argument of `bg` or `fg` names: its slot and its process id, or the message.
pub data Target : Type 0 where
  found : ℕ → ℕ → Target
  refused : Shell → Target

-- The signals that come between two statements are delivered, and the routine goes on.
unfoldable pub interrupted : List Event → Shell → (Shell → Option Outcome) → Option Outcome
interrupted [] s go_on = go_on s
interrupted (quit ∷ events) s go_on = some (gone (say quitting s))
interrupted (e ∷ events) s go_on = do s' ← deliver e s; interrupted events s' go_on

-- The end of `do_bgfg`, which writes the state through the pointer that it has
unfoldable pub write_state : Bool → ℕ → ℕ → List Event → Shell → Option Outcome
write_state true i pid events s = do t ← set_state i fg s; waitfg pid events t
write_state false i pid events s = do
  job ← get_elem? s.jobs i
  t ← set_state i bg (say (line job) s)
  some (running t events)

-- The second half of `do_bgfg`, on the job at slot `i`.
unfoldable pub resume : Bool → ℕ → ℕ → Resuming → List Event → Shell → Option Outcome
resume to_fg i pid r events s = interrupted r.found_then s (λ s₁. do
  job ← get_elem? s₁.jobs i
  let stopped = is_st job.state
  let s₂ = if stopped then kill r.kill_ok pid sigcont s₁ else s₁
  let go_on = interrupted r.read_then s₂ (write_state to_fg i pid events)
  if stopped && not r.kill_ok then some (running s₂ events) else go_on)

-- What comes to the shell at its prompt.
pub data Input : Type 0 where
  command : List ℕ → Calls → Input
  signal : Event → Input
  eof : Input

-- The line for a background job: a fault where the job list has no job with that process id
abbrev pub print_job : ℕ → Shell → Option Shell
print_job pid s = do i ← getjobpid s.jobs pid; job ← get_elem? s.jobs i; some (say (line job) s)

-- The events that come behind the end of a command are delivered at the prompt.
unfoldable pub drain : List Event → Shell → Option Outcome
drain [] s = some (running s [])
drain (quit ∷ events) s = some (gone (say quitting s))
drain (e ∷ events) s = do s' ← deliver e s; drain events s'

-- How `execve` in the child goes: the program takes over, or an error is left.
pub data Exec : Type 0 where
  setpgid_failed : Exec
  execve_failed : ℕ → Exec
  execve_done : Exec

-- What the child prints before it exits or becomes the program; 2 is ENOENT.
unfoldable pub child : List ℕ → Exec → List Message
child name setpgid_failed = failed ∷ []
child name (execve_failed errno) = if errno == 2 then command_not_found name ∷ [] else failed ∷ []
child name execve_done = []

-- The rest of `eval` behind `fork`, in the shell.
unfoldable pub after_fork : Fork → List ℕ → Bool → Calls → Shell → Option Outcome
after_fork fork_failed cmdline background calls s = some (running (say failed s) calls.events)
after_fork (forked pid) cmdline background calls s = do
  let s₁ = (addjob s pid (if background then bg else fg) cmdline).0
  s₂ ← if background then print_job pid s₁ else some s₁
  let s₃ : Shell = record s₂ { masked = false }
  if not calls.unblock_ok
      then some (running (say failed s₂) calls.events)
      else if background
      then some (running s₃ calls.events)
      else waitfg pid calls.events s₃

-- The rest of `eval` behind the built-in commands.
unfoldable pub launch : List ℕ → Bool → Calls → Shell → Option Outcome
launch cmdline background calls s =
    if not calls.block_ok
    then some (running (say failed s) calls.events)
    else after_fork calls.fork cmdline background calls (record s { masked = true })

pub data Builtin : Type 0 where
  done : Outcome → Builtin
  external : Builtin

module _ (strtol : List ℕ → ℤ × List ℕ) where
  -- `argv[1]` as a process id
  abbrev pub by_pid : List ℕ → List ℕ → Shell → Option Target
  by_pid name word s =
      let (v, rest) = strtol word in
      if not (streq rest [])
      then some (refused (say (not_a_number name) s))
      else elim (getjobpid s.jobs (pos_part v)) [
        | none ↦ some (refused (say (no_such_process v) s))
        | some i ↦ some (found i (pos_part v))
      ]

  -- `argv[1] + 1` as a job id
  abbrev pub by_jid : List ℕ → List ℕ → Shell → Option Target
  by_jid name word s =
      let (v, rest) = strtol word in
      if not (streq rest [])
      then some (refused (say (not_a_number name) s))
      else elim (getjobjid s.jobs (pos_part v)) [
        | none ↦ some (refused (say (no_such_job v) s))
        | some i ↦ do job ← get_elem? s.jobs i; some (found i job.pid)
      ]

  -- The first half of `do_bgfg`.
  unfoldable pub target : List ℕ → List (List ℕ) → Shell → Option Target
  target name [] s = some (refused (say (needs_argument name) s))
  target name ([] ∷ args) s = by_pid name [] s
  target name ((c ∷ word) ∷ args) s =
      if c == b'%' then by_jid name word s else by_pid name (c ∷ word) s

  -- `do_bgfg`
  unfoldable pub do_bgfg : List ℕ → List (List ℕ) → Resuming → List Event → Shell → Option Outcome
  do_bgfg name args resuming events s = do
    t ← target name args s
    elim t [
      | refused s' ↦ some (running s' events)
      | found i pid ↦ resume (streq name fg_word) i pid resuming events s
    ]

  -- `builtin_cmd`: a fault where `argv[0]` is the null pointer
  unfoldable pub builtin_cmd : List (List ℕ) → Resuming → List Event → Shell → Option Builtin
  builtin_cmd [] resuming events s = none
  builtin_cmd (name ∷ args) resuming events s =
      let resumed = (do o ← do_bgfg name args resuming events s; some (done o)) in
      if streq name quit_word
      then some (done (gone s))
      else if streq name jobs_word
      then some (done (running (listjobs s.jobs s) events))
      else if streq name bg_word || streq name fg_word
      then resumed
      else some external

  -- `eval`
  unfoldable pub eval : List ℕ → Calls → Shell → Option Outcome
  eval cmdline calls s =
      if not calls.malloc_ok then some (running (say failed s) calls.events) else do
        (argv, background) ← parseline cmdline
        b ← builtin_cmd argv calls.resuming calls.events s
        elim b [ done o ↦ some o | external ↦ launch cmdline background calls s ]

  -- The read/eval loop of `main`: a line with what its system calls answer, a signal at the prompt,
  -- or the end of the input.
  unfoldable pub main_loop : List Input → Shell → Option Outcome
  main_loop [] s = some (waiting s)
  main_loop (eof ∷ inputs) s = some (gone s)
  main_loop (signal quit ∷ inputs) s = some (gone (say quitting s))
  main_loop (signal e ∷ inputs) s = do s' ← deliver e s; main_loop inputs s'
  main_loop (command cmdline calls ∷ inputs) s = do
    o ← eval cmdline calls s
    o' ← elim o [
      | running s' events ↦ drain events s'
      | gone s' ↦ some (gone s')
      | waiting s' ↦ some (waiting s')
    ]
    elim o' [
      | running s' events ↦ main_loop inputs s'
      | gone s' ↦ some (gone s')
      | waiting s' ↦ some (waiting s')
    ]
