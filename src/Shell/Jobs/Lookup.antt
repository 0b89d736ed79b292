-- ===== src/Shell/Jobs/Lookup.antt =====
-- The job list as a finite map from process ids to jobs.
use splab.Prelude.{
  ℕ, zero, suc, ◌≡◌, ◌≢◌, true, ◌==◌, if◌then◌else◌, List, [], ◌∷◌, Option, none, some, get_elem?,
  set, arith, refl, ◌⊎◌, inl, inr, Option-cases, is_some,
}
use splab.Shell.Jobs.{Job, Shell, State, empty, find_pid, getjobpid, addjob, deletejob}

-- The job with that process id.
abbrev pub lookup : ℕ → List Job → Option Job
lookup pid [] = none
lookup pid (job ∷ jobs) = let later = lookup pid jobs in if job.pid == pid then some job else later

-- No two jobs have the same process id; an empty slot has the id 0.
abbrev pub Distinct : List Job → Type 0
Distinct [] = Unit
Distinct (job ∷ jobs) = ((job.pid ≡ 0) ⊎ (lookup job.pid jobs ≡ none)) × Distinct jobs

-- The pointer that `getjobpid` returns points to the job with that process id.
pub find_pid-lookup :
    (jobs : List Job) (pid : ℕ)
    → lookup pid jobs ≡ elim (find_pid jobs pid) [ none ↦ none | some i ↦ get_elem? jobs i ]
unfolding find_pid
find_pid-lookup [] pid = refl
find_pid-lookup (job ∷ jobs) pid = ground (arith, find_pid-lookup jobs pid)

pub getjobpid-eq : (jobs : List Job) (pid : ℕ) → pid ≢ 0 → getjobpid jobs pid ≡ find_pid jobs pid
unfolding getjobpid
getjobpid-eq jobs pid n = ground arith

pub getjobpid_found :
    (jobs : List Job) (pid i : ℕ)
    → getjobpid jobs pid ≡ some i
    → (pid ≢ 0) × (find_pid jobs pid ≡ some i)
unfolding getjobpid
getjobpid_found jobs pid i e = (ground arith, ground arith)

pub lookup_of_none : (jobs : List Job) (pid : ℕ) → find_pid jobs pid ≡ none → lookup pid jobs ≡ none
lookup_of_none jobs pid e = rw (find_pid-lookup jobs pid, e)

pub find_pid_found :
    (jobs : List Job) (pid i : ℕ)
    → find_pid jobs pid ≡ some i
    → (job : Job) × (get_elem? jobs i ≡ some job) × (lookup pid jobs ≡ some job) × (job.pid ≡ pid)
unfolding find_pid
find_pid_found [] pid i e = cc
find_pid_found (x ∷ jobs) pid zero e = (x, ground arith, ground arith, ground arith)
find_pid_found (x ∷ jobs) pid (suc i) e =
    let (job, at, found, same) = find_pid_found jobs pid i (ground arith) in
    (job, ground arith, ground arith, same)

lookup-set_empty :
    (jobs : List Job) (i : ℕ) (job : Job) (q : ℕ)
    → find_pid jobs 0 ≡ some i
    → q ≢ 0
    → lookup job.pid jobs ≡ none
    → lookup q (set jobs i job) ≡ (if job.pid == q then some job else lookup q jobs)
unfolding find_pid
lookup-set_empty [] i job q e n f = cc
lookup-set_empty (x ∷ jobs) zero job q e n f = ground arith
lookup-set_empty (x ∷ jobs) (suc i) job q e n f = ground (arith, lookup-set_empty jobs i job q)

lookup-clear :
    (jobs : List Job) (i p q : ℕ)
    → find_pid jobs p ≡ some i
    → p ≢ 0
    → q ≢ 0
    → Distinct jobs
    → lookup q (set jobs i empty) ≡ (if p == q then none else lookup q jobs)
unfolding find_pid
lookup-clear [] i p q e n m d = cc
lookup-clear (x ∷ jobs) zero p q e n m d = ground arith
lookup-clear (x ∷ jobs) (suc i) p q e n m d = ground (arith, lookup-clear jobs i p q)

pub Distinct-set_empty :
    (jobs : List Job) (i : ℕ) (job : Job)
    → find_pid jobs 0 ≡ some i
    → job.pid ≢ 0
    → lookup job.pid jobs ≡ none
    → Distinct jobs
    → Distinct (set jobs i job)
unfolding find_pid
Distinct-set_empty [] i job e n f d = cc
Distinct-set_empty (x ∷ jobs) zero job e n f d = ground arith
Distinct-set_empty (x ∷ jobs) (suc i) job e n f d =
    ground (arith, Distinct-set_empty jobs i job, lookup-set_empty jobs i job x.pid)

pub Distinct-clear :
    (jobs : List Job) (i p : ℕ)
    → find_pid jobs p ≡ some i
    → p ≢ 0
    → Distinct jobs
    → Distinct (set jobs i empty)
unfolding find_pid
Distinct-clear [] i p e n d = cc
Distinct-clear (x ∷ jobs) zero p e n d = ground arith
Distinct-clear (x ∷ jobs) (suc i) p e n d =
    ground (arith, Distinct-clear jobs i p, lookup-clear jobs i p x.pid)

-- The job that `addjob` makes.
abbrev pub new_job : Shell → ℕ → State → List ℕ → Job
new_job s pid state cmdline = record {
  pid = pid;
  jid = s.nextjid;
  state = state;
  cmdline = cmdline;
}

-- With an empty slot, `addjob` of a new process id returns 1, keeps the ids distinct, adds the job
-- with the next job id to the map, and changes nothing else in it.
pub addjob_refines :
    (s : Shell) (pid : ℕ) (state : State) (cmdline : List ℕ) (q i : ℕ)
    → pid ≢ 0
    → q ≢ 0
    → find_pid s.jobs 0 ≡ some i
    → lookup pid s.jobs ≡ none
    → Distinct s.jobs
    → ((addjob s pid state cmdline).1 ≡ true)
      × Distinct (addjob s pid state cmdline).0.jobs
      × (lookup q (addjob s pid state cmdline).0.jobs
          ≡ (if pid == q then some (new_job s pid state cmdline) else lookup q s.jobs))
unfolding addjob
addjob_refines s pid state cmdline q i n m e f d = ground (
  arith,
  lookup-set_empty s.jobs i (new_job s pid state cmdline) q,
  Distinct-set_empty s.jobs i (new_job s pid state cmdline),
)

-- `deletejob` of a process id keeps the ids distinct, takes the job with that id out of the map, and
-- changes nothing else in it; it returns 1 exactly when there was such a job.
pub deletejob_refines :
    (s : Shell) (pid q : ℕ)
    → pid ≢ 0
    → q ≢ 0
    → Distinct s.jobs
    → ((deletejob s pid).1 ≡ is_some (lookup pid s.jobs))
      × Distinct (deletejob s pid).0.jobs
      × (lookup q (deletejob s pid).0.jobs ≡ (if pid == q then none else lookup q s.jobs))
unfolding deletejob
deletejob_refines s pid q n m d = elim (Option-cases (find_pid s.jobs pid)) [
  | inl e ↦ ground (arith, lookup_of_none s.jobs pid e)
  | inr (i, e) ↦ ground (
    arith,
    find_pid_found s.jobs pid i e,
    lookup-clear s.jobs i pid q,
    Distinct-clear s.jobs i pid,
  )
]
