-- ===== src/Shell/Signals/Foreground.antt =====
-- At most one job is in the foreground while `waitfg` waits, and none when it returns.
use splab.Prelude.{
  ℕ, zero, suc, ◌≡◌, ◌≢◌, ◌⊎◌, inl, inr, Bool, false, ◌&&◌, not, ◌==◌, if◌then◌else◌, List, [], ◌∷◌,
  none, some, get_elem?, set, arith, refl, ◌∙◌, All, All-set, All-get, Option-cases, Bool-cases,
}
use splab.Prelude.Fault.{Yields, Yields-bind, Yields_any}
use native.Mathlib.Decide.{ℕ_discrete}
use splab.Shell.Jobs.{Job, Shell, st, empty, say, is_fg, find_pid, getjobpid, deletejob, maxjid}
use splab.Shell.Jobs.Lookup.{
  lookup, Distinct, find_pid_found, lookup_of_none, Distinct-clear, getjobpid-eq,
}
use splab.Shell.Signals.{
  Status, signaled, stopped_by, exited, Wait, wait_error, nothing, changed, set_state, reap,
  sigchld_handler, sigint_handler, sigtstp_handler, Event, chld, int, tstp, quit, deliver, Outcome,
  running, gone, waiting, wait_loop, waitfg,
}

abbrev pub NoFg : List Job → Type 0
NoFg = All (λ job. is_fg job.state ≡ false)

-- A job in the foreground has that process id.
abbrev pub OnlyFg : ℕ → List Job → Type 0
OnlyFg pid = All (λ job. (is_fg job.state && not (job.pid == pid)) ≡ false)

-- An empty slot has no job id.
abbrev pub Clean : List Job → Type 0
Clean = All (λ job. (job.pid == 0 && not (job.jid == 0)) ≡ false)

-- While the shell waits for `pid`, which was at slot `i` at the start.
pub record Waits (i pid : ℕ) (jobs : List Job) : Type 0 where
  pub distinct : Distinct jobs
  pub clean : Clean jobs
  pub only : OnlyFg pid jobs
  pub at : (find_pid jobs pid ≡ some i) ⊎ (find_pid jobs pid ≡ none)

pub find_pid_absent : (jobs : List Job) (p : ℕ) → lookup p jobs ≡ none → find_pid jobs p ≡ none
unfolding find_pid
find_pid_absent [] p h = refl
find_pid_absent (x ∷ jobs) p h = ground (arith, find_pid_absent jobs p)

pub find_pid-clear :
    (jobs : List Job) (k q p : ℕ)
    → find_pid jobs q ≡ some k
    → q ≢ 0
    → p ≢ 0
    → Distinct jobs
    → find_pid (set jobs k empty) p ≡ (if q == p then none else find_pid jobs p)
unfolding find_pid
find_pid-clear [] k q p e n m d = cc
find_pid-clear (x ∷ jobs) zero q p e n m d = ground (arith, find_pid_absent jobs p)
find_pid-clear (x ∷ jobs) (suc k) q p e n m d = ground (arith, find_pid-clear jobs k q p)

-- A change of a job's other fields.
module _ (job job' : Job) (same : job'.pid ≡ job.pid) where
  pub find_pid-set_same :
      (jobs : List Job) (k p : ℕ)
      → get_elem? jobs k ≡ some job
      → find_pid (set jobs k job') p ≡ find_pid jobs p
  unfolding find_pid
  find_pid-set_same [] k p e = refl
  find_pid-set_same (x ∷ jobs) zero p e = ground arith
  find_pid-set_same (x ∷ jobs) (suc k) p e = ground (arith, find_pid-set_same jobs k p)

  lookup-set_same :
      (jobs : List Job) (k p : ℕ)
      → get_elem? jobs k ≡ some job
      → lookup p jobs ≡ none
      → lookup p (set jobs k job') ≡ none
  lookup-set_same [] k p e h = refl
  lookup-set_same (x ∷ jobs) zero p e h = ground arith
  lookup-set_same (x ∷ jobs) (suc k) p e h = ground (arith, lookup-set_same jobs k p)

  pub Distinct-set_same :
      (jobs : List Job) (k : ℕ)
      → get_elem? jobs k ≡ some job
      → Distinct jobs
      → Distinct (set jobs k job')
  Distinct-set_same [] k e d = tt
  Distinct-set_same (x ∷ jobs) zero e d = ground arith
  Distinct-set_same (x ∷ jobs) (suc k) e d =
      ground (arith, Distinct-set_same jobs k, lookup-set_same jobs k x.pid)

-- When the slot that is waited for is no longer in the foreground, no job is.
NoFg-of :
    (jobs : List Job) (p : ℕ)
    → p ≢ 0
    → Distinct jobs
    → OnlyFg p jobs
    → elim (lookup p jobs) [ none ↦ false | some job ↦ is_fg job.state ] ≡ false
    → NoFg jobs
NoFg-of [] p n d o h = tt
NoFg-of (x ∷ jobs) p n d o h = ground (arith, NoFg-of jobs p)

deletejob-Waits :
    (s : Shell) (q i p : ℕ) → p ≢ 0 → Waits i p s.jobs → Waits i p (deletejob s q).0.jobs
unfolding deletejob
deletejob-Waits s q i p n w = elim (Option-cases (find_pid s.jobs q)) [
  | inl e ↦ ground arith
  | inr (k, e) ↦ elim (ℕ_discrete q 0) [
    | yes z ↦ ground arith
    | no m ↦
        let at = find_pid-clear s.jobs k q p e m n w.distinct in
        let distinct = Distinct-clear s.jobs k q e m w.distinct in
        let clean : Clean (set s.jobs k empty) = All-set _ s.jobs k empty refl w.clean in
        let only : OnlyFg p (set s.jobs k empty) = All-set _ s.jobs k empty refl w.only in
        ground arith
  ]
]

pub set_state-Waits :
    (s : Shell) (k i p : ℕ) → Waits i p s.jobs → Yields (set_state k st s) (λ s'. Waits i p s'.jobs)
set_state-Waits s k i p w = elim (Option-cases (get_elem? s.jobs k)) [
  | inl e ↦ rw e tt
  | inr (job, e) ↦
      let job' : Job = record job { state = st } in
      rw e record {
        distinct = Distinct-set_same job job' refl s.jobs k e w.distinct;
        clean = All-set _ s.jobs k job' (All-get _ s.jobs k job w.clean e) w.clean;
        only = All-set _ s.jobs k job' refl w.only;
        at = rw (find_pid-set_same job job' refl s.jobs k p e) w.at;
      }
]

reap-Waits :
    (s : Shell) (q : ℕ) (status : Status) (i p : ℕ)
    → p ≢ 0
    → Waits i p s.jobs
    → Yields (reap s q status) (λ s'. Waits i p s'.jobs)
unfolding reap
reap-Waits s q (signaled sig) i p n w =
    Yields-bind (λ _. Unit {0}) _ (getjobpid s.jobs q) _ (Yields_any (getjobpid s.jobs q))
      λ k _.
        Yields-bind (λ _. Unit {0}) _ (get_elem? s.jobs k) _ (Yields_any (get_elem? s.jobs k))
          λ job _. deletejob-Waits (say _ s) q i p n w
reap-Waits s q (stopped_by sig) i p n w =
    Yields-bind (λ _. Unit {0}) _ (getjobpid s.jobs q) _ (Yields_any (getjobpid s.jobs q))
      λ k _.
        Yields-bind (λ _. Unit {0}) _ (get_elem? s.jobs k) _ (Yields_any (get_elem? s.jobs k))
          λ job _. set_state-Waits (say _ s) k i p w
reap-Waits s q (exited code) i p n w = deletejob-Waits s q i p n w

pub sigchld_handler-Waits :
    (waits : List Wait) (s : Shell) (i p : ℕ)
    → p ≢ 0
    → Waits i p s.jobs
    → Yields (sigchld_handler waits s) (λ s'. Waits i p s'.jobs)
unfolding sigchld_handler
sigchld_handler-Waits [] s i p n w = w
sigchld_handler-Waits (wait_error ∷ waits) s i p n w = elim (Bool-cases (maxjid s.jobs == 0)) [
  | inl e ↦ rw e w
  | inr e ↦ rw e w
]
sigchld_handler-Waits (nothing ∷ waits) s i p n w = w
sigchld_handler-Waits (changed q status ∷ waits) s i p n w =
    elim (Bool-cases (maxjid s.jobs == 0)) [
      | inl e ↦ rw e w
      | inr e ↦ rw e (
          Yields-bind (λ s'. Waits i p s'.jobs) _ (reap s q status) _
            (reap-Waits s q status i p n w) (λ s' w'. sigchld_handler-Waits waits s' i p n w'))
    ]

-- Ctrl-c and ctrl-z send a signal and leave the job list alone.
pub sigint_handler-jobs : (ok : Bool) (s : Shell) → (sigint_handler ok s).jobs ≡ s.jobs
unfolding sigint_handler
sigint_handler-jobs ok s = ground arith

pub sigtstp_handler-jobs : (ok : Bool) (s : Shell) → (sigtstp_handler ok s).jobs ≡ s.jobs
unfolding sigtstp_handler
sigtstp_handler-jobs ok s = ground arith

pub deliver-Waits :
    (e : Event) (s : Shell) (i p : ℕ)
    → p ≢ 0
    → Waits i p s.jobs
    → Yields (deliver e s) (λ s'. Waits i p s'.jobs)
unfolding deliver
deliver-Waits (chld waits) s i p n w = elim (Bool-cases s.masked) [
  | inl e ↦ simp e w
  | inr e ↦ simp e (sigchld_handler-Waits waits s i p n w)
]
deliver-Waits (int ok) s i p n w = rw (sigint_handler-jobs ok s) w
deliver-Waits (tstp ok) s i p n w = rw (sigtstp_handler-jobs ok s) w
deliver-Waits quit s i p n w = w

-- The job list when the shell is at its prompt.
pub record AtPrompt (jobs : List Job) : Type 0 where
  pub distinct : Distinct jobs
  pub clean : Clean jobs
  pub none_fg : NoFg jobs

-- The state in which a routine returns to the prompt.
abbrev pub Settled : Outcome → Type 0
Settled (running s events) = AtPrompt s.jobs
Settled (gone s) = Unit
Settled (waiting s) = Unit

settle :
    (s : Shell) (i p : ℕ) (job : Job)
    → p ≢ 0
    → Waits i p s.jobs
    → get_elem? s.jobs i ≡ some job
    → (job.pid == p && is_fg job.state) ≡ false
    → AtPrompt s.jobs
settle s i p job n w e h = record {
  distinct = w.distinct;
  clean = w.clean;
  none_fg = elim w.at [
    | inl f ↦
        let (job', at, found, same) = find_pid_found s.jobs p i f in
        NoFg-of s.jobs p n w.distinct w.only (ground arith)
    | inr f ↦ NoFg-of s.jobs p n w.distinct w.only (ground (arith, lookup_of_none s.jobs p f))
  ];
}

wait_loop-Settled :
    (i p : ℕ) (events : List Event) (s : Shell)
    → p ≢ 0
    → Waits i p s.jobs
    → Yields (wait_loop i p events s) Settled
unfolding wait_loop
wait_loop-Settled i p [] s n w = elim (Option-cases (get_elem? s.jobs i)) [
  | inl e ↦ rw e tt
  | inr (job, e) ↦ rw e (elim (Bool-cases (job.pid == p && is_fg job.state)) [
    | inl h ↦ rw h tt
    | inr h ↦ rw h (settle s i p job n w e h)
  ])
]
wait_loop-Settled i p (quit ∷ events) s n w = elim (Option-cases (get_elem? s.jobs i)) [
  | inl e ↦ rw e tt
  | inr (job, e) ↦ rw e (elim (Bool-cases (job.pid == p && is_fg job.state)) [
    | inl h ↦ rw h tt
    | inr h ↦ rw h (settle s i p job n w e h)
  ])
]
wait_loop-Settled i p (e ∷ events) s n w = elim (Option-cases (get_elem? s.jobs i)) [
  | inl f ↦ rw f tt
  | inr (job, f) ↦ rw f (elim (Bool-cases (job.pid == p && is_fg job.state)) [
    | inl h ↦ rw h (
        Yields-bind (λ s'. Waits i p s'.jobs) _ (deliver e s) _ (deliver-Waits e s i p n w)
          (λ s' w'. wait_loop-Settled i p events s' n w'))
    | inr h ↦ rw h (settle s i p job n w f h)
  ])
]

-- Where at most the job `pid` is in the foreground, no job is when `waitfg` returns, whatever
-- children change and whatever signals come meanwhile.
pub waitfg-Settled :
    (p : ℕ) (events : List Event) (s : Shell)
    → p ≢ 0
    → Distinct s.jobs
    → Clean s.jobs
    → OnlyFg p s.jobs
    → Yields (waitfg p events s) Settled
unfolding waitfg
waitfg-Settled p events s n d c o = elim (Option-cases (find_pid s.jobs p)) [
  | inl e ↦
      rw (getjobpid-eq s.jobs p n ∙ e, waitfg)
        record {
          distinct = d;
          clean = c;
          none_fg = NoFg-of s.jobs p n d o (ground (arith, lookup_of_none s.jobs p e));
        }
  | inr (i, e) ↦
      rw (getjobpid-eq s.jobs p n ∙ e, waitfg)
        (wait_loop-Settled i p events s n record { distinct = d; clean = c; only = o; at = inl e })
]
