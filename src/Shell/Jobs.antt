-- ===== src/Shell/Jobs.antt =====
-- The job list of shlab-handout/tsh.c and the routines that manipulate it. A `pid_t` below 1 is the
-- number 0 here: the routines treat all of them alike. A `struct job_t *` is an index of the list.
pub mod Lookup
pub mod Collision
pub mod Jids
use splab.Prelude.{
  ℕ, zero, suc, ◌+◌, Bool, true, false, ltb, ◌==◌, if◌then◌else◌, List, [], ◌∷◌, ◌++◌, Option, none,
  some, get_elem?, set,
}
use splab.Prelude.Int.{ℤ}

-- `UNDEF`, `FG`, `BG` and `ST`
pub data State : Type 0 where
  undef fg bg st : State

-- `struct job_t`; a command line is the list of its bytes.
pub record Job : Type 0 where
  pub pid : ℕ
  pub jid : ℕ
  pub state : State
  pub cmdline : List ℕ

pub data Signal : Type 0 where
  sigint sigtstp sigcont : Signal

-- What the shell prints, and the signals that it sends, in order.
pub data Message : Type 0 where
  added : Job → Message
  too_many : Message
  line : Job → Message
  listed : Job → Message
  terminated : ℕ → ℕ → ℕ → Message
  stopped : ℕ → ℕ → ℕ → Message
  needs_argument : List ℕ → Message
  not_a_number : List ℕ → Message
  no_such_job : ℤ → Message
  no_such_process : ℤ → Message
  command_not_found : List ℕ → Message
  failed : Message
  sent : ℕ → Signal → Message
  quitting : Message

-- The global variables, whether SIGCHLD is blocked, and the output so far.
pub record Shell : Type 0 where
  pub jobs : List Job
  pub nextjid : ℕ
  pub verbose : Bool
  pub masked : Bool
  pub out : List Message

abbrev pub maxjobs : ℕ
maxjobs = 16

abbrev pub say : Message → Shell → Shell
say m s = record s { out = s.out ++ (m ∷ []) }

abbrev pub is_fg : State → Bool
is_fg fg = true
is_fg _ = false

abbrev pub is_st : State → Bool
is_st st = true
is_st _ = false

-- `clearjob`
abbrev pub clearjob : Job → Job
clearjob job = record { pid = 0; jid = 0; state = undef; cmdline = [] }

-- `initjobs`, on the list that it is given
unfoldable pub initjobs : List Job → List Job
initjobs [] = []
initjobs (job ∷ jobs) = clearjob job ∷ initjobs jobs

-- `maxjid`: the loop with the largest so far
unfoldable pub maxjid_from : ℕ → List Job → ℕ
maxjid_from max [] = max
maxjid_from max (job ∷ jobs) = maxjid_from (if ltb max job.jid then job.jid else max) jobs

unfoldable pub maxjid : List Job → ℕ
unfolding maxjid_from
maxjid jobs = maxjid_from 0 jobs

-- The first slot with that pid: the loop that several routines share.
unfoldable pub find_pid : List Job → ℕ → Option ℕ
find_pid [] pid = none
find_pid (job ∷ jobs) pid =
    let later : Option ℕ = elim (find_pid jobs pid) [ none ↦ none | some i ↦ some (suc i) ] in
    if job.pid == pid then some 0 else later

-- `nextjid++`, back to 1 after the last
abbrev pub bump_jid : ℕ → ℕ
bump_jid jid = if ltb maxjobs (jid + 1) then 1 else jid + 1

-- `addjob` at the slot that its loop stops at
abbrev pub addjob_at : Option ℕ → Shell → ℕ → State → List ℕ → Shell × Bool
addjob_at none s pid state cmdline = (say too_many s, false)
addjob_at (some i) s pid state cmdline =
    let job : Job = record { pid = pid; jid = s.nextjid; state = state; cmdline = cmdline } in
    let s' : Shell = record s { jobs = set s.jobs i job; nextjid = bump_jid s.nextjid } in
    (if s.verbose then say (added job) s' else s', true)

-- `addjob`, with the value that it returns
unfoldable pub addjob : Shell → ℕ → State → List ℕ → Shell × Bool
addjob s pid state cmdline =
    if ltb pid 1 then (s, false) else addjob_at (find_pid s.jobs 0) s pid state cmdline

abbrev pub empty : Job
empty = record { pid = 0; jid = 0; state = undef; cmdline = [] }

-- `deletejob` at the slot that its loop stops at
abbrev pub deletejob_at : Option ℕ → Shell → Shell × Bool
deletejob_at none s = (s, false)
deletejob_at (some i) s =
    let jobs = set s.jobs i empty in (record s { jobs = jobs; nextjid = maxjid jobs + 1 }, true)

-- `deletejob`
unfoldable pub deletejob : Shell → ℕ → Shell × Bool
deletejob s pid = if ltb pid 1 then (s, false) else deletejob_at (find_pid s.jobs pid) s

-- `fgpid`
unfoldable pub fgpid : List Job → ℕ
fgpid [] = 0
fgpid (job ∷ jobs) = let later = fgpid jobs in if is_fg job.state then job.pid else later

-- `getjobpid`: the index, or `none` for the null pointer
unfoldable pub getjobpid : List Job → ℕ → Option ℕ
getjobpid jobs pid = if ltb pid 1 then none else find_pid jobs pid

unfoldable pub find_jid : List Job → ℕ → Option ℕ
find_jid [] jid = none
find_jid (job ∷ jobs) jid =
    let later : Option ℕ = elim (find_jid jobs jid) [ none ↦ none | some i ↦ some (suc i) ] in
    if job.jid == jid then some 0 else later

-- `getjobjid`
unfoldable pub getjobjid : List Job → ℕ → Option ℕ
getjobjid jobs jid = if ltb jid 1 then none else find_jid jobs jid

-- `pid2jid`
unfoldable pub pid2jid : List Job → ℕ → ℕ
pid2jid jobs pid = if ltb pid 1 then 0 else elim (find_pid jobs pid) [
  | none ↦ 0
  | some i ↦ elim (get_elem? jobs i) [ none ↦ 0 | some job ↦ job.jid ]
]

-- `listjobs`
unfoldable pub listjobs : List Job → Shell → Shell
listjobs [] s = s
listjobs (job ∷ jobs) s = listjobs jobs (if job.pid == 0 then s else say (listed job) s)
