-- ===== src/Shell/Eval/Prompt.antt =====
-- The job list behind a command that is not built in.
use splab.Prelude.{
  ℕ, ◌≡◌, ◌≢◌, inl, inr, Bool, true, false, ◌==◌, if◌then◌else◌, List, [], ◌∷◌, none, get_elem?,
  set, arith, refl, sym, subst, ◌∙◌, All-set, All-imp, Option-cases, Bool-cases,
}
use splab.Prelude.Fault.{Yields, Yields-bind, Yields_any}
use splab.Shell.Jobs.{
  Job, Shell, State, fg, bg, say, is_fg, find_pid, getjobpid, addjob, listjobs, listed,
}
use splab.Shell.Jobs.Lookup.{lookup, Distinct, Distinct-set_empty, new_job}
use splab.Shell.Signals.Foreground.{NoFg, OnlyFg, Clean, AtPrompt, Settled, waitfg-Settled}
use splab.Shell.Eval.{Calls, Fork, fork_failed, forked, launch, after_fork, print_job}

pub listjobs-jobs : (jobs : List Job) (s : Shell) → (listjobs jobs s).jobs ≡ s.jobs
unfolding listjobs
listjobs-jobs [] s = refl
listjobs-jobs (job ∷ jobs) s =
    listjobs-jobs jobs (if job.pid == 0 then s else say (listed job) s) ∙ ground arith

weaken : (jobs : List Job) (pid : ℕ) → NoFg jobs → OnlyFg pid jobs
weaken jobs pid h = All-imp (λ j e. ground arith) jobs h

-- The process id of a new child is not that of a child that the shell still has.
abbrev pub IsNewChild : Fork → List Job → Type 0
IsNewChild fork_failed jobs = Unit
IsNewChild (forked pid) jobs = (pid ≢ 0) × (lookup pid jobs ≡ none)

-- The job list behind `addjob` of a new child, whose state is `state`.
pub record Launched (pid : ℕ) (state : State) (jobs : List Job) : Type 0 where
  pub distinct : Distinct jobs
  pub clean : Clean jobs
  pub only : OnlyFg pid jobs
  pub back : is_fg state ≡ false → NoFg jobs

pub addjob-Launched :
    (s : Shell) (pid : ℕ) (state : State) (cmdline : List ℕ)
    → AtPrompt s.jobs
    → pid ≢ 0
    → lookup pid s.jobs ≡ none
    → Launched pid state (addjob s pid state cmdline).0.jobs
unfolding addjob
addjob-Launched s pid state cmdline v n f = elim (Option-cases (find_pid s.jobs 0)) [
  | inl e ↦ ground (arith, weaken s.jobs pid v.none_fg)
  | inr (i, e) ↦
      let job = new_job s pid state cmdline in
      let distinct = Distinct-set_empty s.jobs i job e n f v.distinct in
      let clean : Clean (set s.jobs i job) = All-set _ s.jobs i job (ground arith) v.clean in
      let only : OnlyFg pid (set s.jobs i job) =
        All-set _ s.jobs i job (ground arith) (weaken s.jobs pid v.none_fg) in
      let back : is_fg state ≡ false → NoFg (set s.jobs i job) =
        λ b. All-set _ s.jobs i job b v.none_fg in
      let jobs_after : (addjob s pid state cmdline).0.jobs ≡ set s.jobs i job = ground arith in
      subst (Launched pid state) (sym jobs_after)
        record { distinct = distinct; clean = clean; only = only; back = back }
]

print_job-AtPrompt :
    (pid : ℕ) (s : Shell) → AtPrompt s.jobs → Yields (print_job pid s) (λ t. AtPrompt t.jobs)
print_job-AtPrompt pid s v =
    Yields-bind (λ _. Unit {0}) _ (getjobpid s.jobs pid) _ (Yields_any (getjobpid s.jobs pid))
      λ i _.
        Yields-bind (λ _. Unit {0}) _ (get_elem? s.jobs i) _ (Yields_any (get_elem? s.jobs i))
          λ job _. v

after_fork-Settled :
    (fork : Fork) (cmdline : List ℕ) (background : Bool) (calls : Calls) (s : Shell)
    → AtPrompt s.jobs
    → IsNewChild fork s.jobs
    → calls.unblock_ok ≡ true
    → Yields (after_fork fork cmdline background calls s) Settled
unfolding after_fork
after_fork-Settled fork_failed cmdline background calls s v f u = v
after_fork-Settled (forked pid) cmdline false calls s v f u =
    let l = addjob-Launched s pid fg cmdline v f.0 f.1 in
    simp u (
      waitfg-Settled pid calls.events (record (addjob s pid fg cmdline).0 { masked = false }) f.0
        l.distinct l.clean l.only)
after_fork-Settled (forked pid) cmdline true calls s v f u =
    let l = addjob-Launched s pid bg cmdline v f.0 f.1 in
    Yields-bind (λ t. AtPrompt t.jobs) _ (print_job pid (addjob s pid bg cmdline).0) _
      (print_job-AtPrompt pid (addjob s pid bg cmdline).0
        record { distinct = l.distinct; clean = l.clean; none_fg = l.back refl })
      (λ t w. simp u w)

pub launch-Settled :
    (cmdline : List ℕ) (background : Bool) (calls : Calls) (s : Shell)
    → AtPrompt s.jobs
    → IsNewChild calls.fork s.jobs
    → calls.unblock_ok ≡ true
    → Yields (launch cmdline background calls s) Settled
unfolding launch
launch-Settled cmdline background calls s v f u = elim (Bool-cases calls.block_ok) [
  | inl e ↦
      simp e
        (after_fork-Settled calls.fork cmdline background calls (record s { masked = true }) v f u)
  | inr e ↦ simp e v
]
