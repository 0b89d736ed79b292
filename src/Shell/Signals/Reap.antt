-- ===== src/Shell/Signals/Reap.antt =====
-- `sigchld_handler` keeps the job list and the children of the shell in step.
use splab.Prelude.{
  ℕ, zero, suc, ◌≡◌, ◌≢◌, ◌≤◌, inl, inr, Bool, true, false, ◌&&◌, not, ◌==◌, if◌then◌else◌, List,
  [], ◌∷◌, none, some, get_elem?, set, arith, refl, ◌∙◌, All, All-set, All-get, Option-cases,
  Bool-cases, is_some,
}
use splab.Prelude.Fault.{Ensures, Ensures-bind}
use splab.Shell.Jobs.{Job, Shell, State, st, empty, say, find_pid, getjobpid, deletejob, maxjid}
use splab.Shell.Jobs.Lookup.{
  lookup, Distinct, find_pid_found, lookup_of_none, getjobpid-eq, deletejob_refines,
}
use splab.Shell.Jobs.Jids.{maxjid-All}
use splab.Shell.Signals.{
  Status, signaled, stopped_by, exited, Wait, wait_error, nothing, changed, reap, sigchld_handler,
}
use splab.Shell.Signals.Foreground.{Distinct-set_same}

-- Every process id but one.
abbrev pub without : ℕ → (ℕ → Bool) → ℕ → Bool
without pid children q = if pid == q then false else children q

-- What `waitpid` returns is about children of the shell: `children` says which process ids are
-- theirs. A child that has terminated is reported once.
abbrev pub Reported : List Wait → (ℕ → Bool) → Type 0
Reported [] children = Unit
Reported (wait_error ∷ waits) children = Unit
Reported (nothing ∷ waits) children = Unit
Reported (changed pid (stopped_by sig) ∷ waits) children =
    (pid ≢ 0) × (children pid ≡ true) × Reported waits children
Reported (changed pid (signaled sig) ∷ waits) children =
    (pid ≢ 0) × (children pid ≡ true) × Reported waits (without pid children)
Reported (changed pid (exited code) ∷ waits) children =
    (pid ≢ 0) × (children pid ≡ true) × Reported waits (without pid children)

-- The children that are left.
abbrev pub survivors : List Wait → (ℕ → Bool) → ℕ → Bool
survivors [] children = children
survivors (wait_error ∷ waits) children = children
survivors (nothing ∷ waits) children = children
survivors (changed pid (stopped_by sig) ∷ waits) children = survivors waits children
survivors (changed pid (signaled sig) ∷ waits) children = survivors waits (without pid children)
survivors (changed pid (exited code) ∷ waits) children = survivors waits (without pid children)

-- The jobs of the list are the children, each with a job id.
pub record Tracks (children : ℕ → Bool) (jobs : List Job) : Type 0 where
  pub distinct : Distinct jobs
  pub numbered : All (λ job. (not (job.pid == 0) && job.jid == 0) ≡ false) jobs
  pub known : (q : ℕ) → q ≢ 0 → is_some (lookup q jobs) ≡ children q

slot_of :
    (jobs : List Job) (pid : ℕ)
    → is_some (lookup pid jobs) ≡ true
    → (i : ℕ) × (find_pid jobs pid ≡ some i)
slot_of jobs pid h = elim (Option-cases (find_pid jobs pid)) [
  | inl e ↦ cc (lookup_of_none jobs pid e)
  | inr (i, e) ↦ (i, e)
]

-- Without a job id no job is live.
lookup-none :
    (jobs : List Job) (m q : ℕ)
    → m ≡ 0
    → q ≢ 0
    → All (λ job. job.jid ≤ m) jobs
    → All (λ job. (not (job.pid == 0) && job.jid == 0) ≡ false) jobs
    → lookup q jobs ≡ none
lookup-none [] m q z n a b = refl
lookup-none (job ∷ jobs) m q z n a b = ground (arith, lookup-none jobs m q)

is_some-lookup-set :
    (jobs : List Job) (job job' : Job) (k q : ℕ)
    → get_elem? jobs k ≡ some job
    → job'.pid ≡ job.pid
    → is_some (lookup q (set jobs k job')) ≡ is_some (lookup q jobs)
is_some-lookup-set [] job job' k q e h = refl
is_some-lookup-set (x ∷ jobs) job job' zero q e h = ground arith
is_some-lookup-set (x ∷ jobs) job job' (suc k) q e h =
    ground (arith, is_some-lookup-set jobs job job' k q)

deletejob-numbered :
    (s : Shell) (pid : ℕ)
    → All (λ job. (not (job.pid == 0) && job.jid == 0) ≡ false) s.jobs
    → All (λ job. (not (job.pid == 0) && job.jid == 0) ≡ false) (deletejob s pid).0.jobs
unfolding deletejob
deletejob-numbered s pid h = elim (Option-cases (find_pid s.jobs pid)) [
  | inl e ↦ ground arith
  | inr (k, e) ↦
      let cleared : All (λ job. (not (job.pid == 0) && job.jid == 0) ≡ false) (set s.jobs k empty) =
        All-set _ s.jobs k empty refl h in
      ground arith
]

deletejob-Tracks :
    (s : Shell) (pid : ℕ) (children : ℕ → Bool)
    → pid ≢ 0
    → Tracks children s.jobs
    → Tracks (without pid children) (deletejob s pid).0.jobs
deletejob-Tracks s pid children n t = record {
  distinct = (deletejob_refines s pid 1 n (omega arith) t.distinct).1;
  numbered = deletejob-numbered s pid t.numbered;
  known = λ q m. ground (arith, t.known q m, (deletejob_refines s pid q n m t.distinct).2);
}

pub set_state-Tracks :
    (s : Shell) (k : ℕ) (job : Job) (children : ℕ → Bool) (state : State)
    → get_elem? s.jobs k ≡ some job
    → Tracks children s.jobs
    → Tracks children (set s.jobs k (record job { state = state }))
set_state-Tracks s k job children state e t =
    let job' : Job = record job { state = state } in
    record {
      distinct = Distinct-set_same job job' refl s.jobs k e t.distinct;
      numbered = All-set _ s.jobs k job' (All-get _ s.jobs k job t.numbered e) t.numbered;
      known = λ q m. is_some-lookup-set s.jobs job job' k q e refl ∙ t.known q m;
    }

-- A child of the shell has a slot, at which its job is found.
pub slot :
    (jobs : List Job) (pid : ℕ) (children : ℕ → Bool)
    → pid ≢ 0
    → children pid ≡ true
    → Tracks children jobs
    → (i : ℕ) × (job : Job) × (getjobpid jobs pid ≡ some i) × (get_elem? jobs i ≡ some job)
slot jobs pid children n c t =
    let (i, e) = slot_of jobs pid (t.known pid n ∙ c) in
    let (job, at, found, same) = find_pid_found jobs pid i e in
    (i, job, getjobpid-eq jobs pid n ∙ e, at)

-- The children behind one report.
abbrev left : ℕ → Status → (ℕ → Bool) → ℕ → Bool
left pid (stopped_by sig) children = children
left pid (signaled sig) children = without pid children
left pid (exited code) children = without pid children

reap-Tracks :
    (s : Shell) (pid : ℕ) (status : Status) (children : ℕ → Bool)
    → pid ≢ 0
    → children pid ≡ true
    → Tracks children s.jobs
    → Ensures (reap s pid status) (λ s'. Tracks (left pid status children) s'.jobs)
unfolding reap
reap-Tracks s pid (signaled sig) children n c t =
    let (i, job, e, f) = slot s.jobs pid children n c t in
    rw (e, f) (deletejob-Tracks (say _ s) pid children n t)
reap-Tracks s pid (stopped_by sig) children n c t =
    let (i, job, e, f) = slot s.jobs pid children n c t in
    rw (e, f) (set_state-Tracks s i job children st f t)
reap-Tracks s pid (exited code) children n c t = deletejob-Tracks s pid children n t

-- The loop of the handler goes on while a child is left.
pub maxjid-children :
    (s : Shell) (pid : ℕ) (children : ℕ → Bool)
    → pid ≢ 0
    → children pid ≡ true
    → Tracks children s.jobs
    → (maxjid s.jobs == 0) ≡ false
maxjid-children s pid children n c t = elim (Bool-cases (maxjid s.jobs == 0)) [
  | inl e ↦
      let gone =
        lookup-none s.jobs (maxjid s.jobs) pid (ground arith) n (maxjid-All s.jobs) t.numbered in
      let here = t.known pid n in cc
  | inr e ↦ e
]

-- If the jobs are the children of the shell and `waitpid` reports children only, SIGCHLD's handler
-- runs without a fault, and behind it the jobs are the children that are left: the terminated
-- ones have lost their slots, no other one has.
pub sigchld_handler-Tracks :
    (waits : List Wait) (children : ℕ → Bool) (s : Shell)
    → Reported waits children
    → Tracks children s.jobs
    → Ensures (sigchld_handler waits s) (λ s'. Tracks (survivors waits children) s'.jobs)
unfolding sigchld_handler
sigchld_handler-Tracks [] children s r t = t
sigchld_handler-Tracks (wait_error ∷ waits) children s r t =
    elim (Bool-cases (maxjid s.jobs == 0)) [ inl e ↦ rw e t | inr e ↦ rw e t ]
sigchld_handler-Tracks (nothing ∷ waits) children s r t = t
sigchld_handler-Tracks (changed pid (stopped_by sig) ∷ waits) children s (n, c, r) t =
    rw (maxjid-children s pid children n c t) (
      Ensures-bind _ _ (reap s pid (stopped_by sig)) _ (reap-Tracks s pid _ children n c t)
        (λ s' t'. sigchld_handler-Tracks waits children s' r t'))
sigchld_handler-Tracks (changed pid (signaled sig) ∷ waits) children s (n, c, r) t =
    rw (maxjid-children s pid children n c t) (
      Ensures-bind _ _ (reap s pid (signaled sig)) _ (reap-Tracks s pid _ children n c t)
        (λ s' t'. sigchld_handler-Tracks waits (without pid children) s' r t'))
sigchld_handler-Tracks (changed pid (exited code) ∷ waits) children s (n, c, r) t =
    rw (maxjid-children s pid children n c t) (
      Ensures-bind _ _ (reap s pid (exited code)) _ (reap-Tracks s pid _ children n c t)
        (λ s' t'. sigchld_handler-Tracks waits (without pid children) s' r t'))
