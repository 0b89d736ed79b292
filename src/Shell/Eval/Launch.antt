-- ===== src/Shell/Eval/Launch.antt =====
-- A command that is not built in: a child is started, and the shell comes back to its prompt.
use splab.Prelude.{
  ℕ, ◌≡◌, ◌≢◌, inl, inr, Bool, true, false, not, ◌&&◌, ◌==◌, if◌then◌else◌, List, none, some, set,
  arith, refl, sym, subst, All, All-set, Option-cases, Bool-cases, is_some,
}
use splab.Prelude.Int.{ℤ}
use splab.Prelude.Fault.{Ensures, Ensures-bind, Ensures-imp, Ensures-×}
use splab.Shell.Jobs.{Shell, State, fg, bg, find_pid, addjob}
use splab.Shell.Jobs.Lookup.{lookup, new_job, addjob_refines}
use splab.Shell.Parse.{parseline}
use splab.Shell.Signals.Foreground.{AtPrompt, Settled}
use splab.Shell.Signals.Reap.{Tracks, slot}
use splab.Shell.Signals.Progress.{Upcoming, waitfg-Ensures}
use splab.Shell.Eval.Prompt.{addjob-Launched, launch-Settled, IsNewChild}
use splab.Shell.Eval.{Calls, forked, external, launch, after_fork, print_job, builtin_cmd, eval}

-- The children with a new one.
abbrev pub with_child : ℕ → (ℕ → Bool) → ℕ → Bool
with_child pid children q = if pid == q then true else children q

-- A shell at its prompt whose jobs are its children, with an empty slot.
pub record Ready (children : ℕ → Bool) (s : Shell) : Type 0 where
  pub at_prompt : AtPrompt s.jobs
  pub tracks : Tracks children s.jobs
  pub numbers : s.nextjid ≢ 0
  pub room : is_some (find_pid s.jobs 0) ≡ true

addjob-numbered :
    (s : Shell) (pid : ℕ) (state : State) (cmdline : List ℕ)
    → s.nextjid ≢ 0
    → All (λ job. (not (job.pid == 0) && job.jid == 0) ≡ false) s.jobs
    → All (λ job. (not (job.pid == 0) && job.jid == 0) ≡ false) (addjob s pid state cmdline).0.jobs
unfolding addjob
addjob-numbered s pid state cmdline n h = elim (Option-cases (find_pid s.jobs 0)) [
  | inl e ↦ let same : (addjob s pid state cmdline).0.jobs ≡ s.jobs = ground arith in rw same h
  | inr (i, e) ↦
      let job = new_job s pid state cmdline in
      let kept : All (λ job. (not (job.pid == 0) && job.jid == 0) ≡ false) (set s.jobs i job) =
        All-set _ s.jobs i job (ground arith) h in
      elim (Bool-cases (pid == 0)) [
        | inl z ↦
            let same : (addjob s pid state cmdline).0.jobs ≡ s.jobs = ground arith in
            subst (All _) (sym same) h
        | inr z ↦
            let same : (addjob s pid state cmdline).0.jobs ≡ set s.jobs i job = ground arith in
            subst (All _) (sym same) kept
      ]
]

module _ (s : Shell) (pid : ℕ) (state : State) (cmdline : List ℕ) (children : ℕ → Bool)
    (n : pid ≢ 0) (fresh : children pid ≡ false) (r : Ready children s) where
  absent : lookup pid s.jobs ≡ none
  absent = elim (Option-cases (lookup pid s.jobs)) [
    | inl e ↦ e
    | inr (job, e) ↦ let known = r.tracks.known pid n in cc
  ]

  addjob-Tracks : Tracks (with_child pid children) (addjob s pid state cmdline).0.jobs
  addjob-Tracks = elim (Option-cases (find_pid s.jobs 0)) [
    | inl e ↦ let room = r.room in cc
    | inr (i, e) ↦ record {
      distinct = (addjob_refines s pid state cmdline pid i n n e absent r.at_prompt.distinct).1;
      numbered = addjob-numbered s pid state cmdline r.numbers r.tracks.numbered;
      known = λ q m. ground (
        arith,
        r.tracks.known q m,
        (addjob_refines s pid state cmdline q i n m e absent r.at_prompt.distinct).2,
      );
    }
  ]

  with_child-pid : with_child pid children pid ≡ true
  with_child-pid = ground arith

print_job_prints :
    (pid : ℕ) (children : ℕ → Bool) (s : Shell)
    → pid ≢ 0
    → children pid ≡ true
    → Tracks children s.jobs
    → Ensures (print_job pid s) (λ _. Unit {0})
print_job_prints pid children s n c t =
    let (i, job, e, f) = slot s.jobs pid children n c t in rw (e, f) tt

module _ (cmdline : List ℕ) (calls : Calls) (children : ℕ → Bool) (pid : ℕ) (n : pid ≢ 0)
    (fresh : children pid ≡ false) (u : calls.unblock_ok ≡ true)
    (ups : Upcoming calls.events (with_child pid children)) where
  after_fork_returns :
      (background : Bool) (s : Shell)
      → Ready children s
      → Ensures (after_fork (forked pid) cmdline background calls s) (λ _. Unit {0})
  unfolding after_fork
  after_fork_returns false s r =
      let l =
        addjob-Launched s pid fg cmdline r.at_prompt n
          (absent s pid fg cmdline children n fresh r) in
      simp u (
        Ensures-imp Settled _ _
          (waitfg-Ensures pid calls.events (with_child pid children)
            (record (addjob s pid fg cmdline).0 { masked = false }) n
            (addjob-Tracks s pid fg cmdline children n fresh r) l.clean l.only refl ups)
          λ o h. tt)
  after_fork_returns true s r =
      Ensures-bind (λ _. Unit {0}) _ (print_job pid (addjob s pid bg cmdline).0) _
        (print_job_prints pid (with_child pid children) (addjob s pid bg cmdline).0 n
          (with_child-pid s pid bg cmdline children n fresh r)
          (addjob-Tracks s pid bg cmdline children n fresh r))
        (λ t w. simp u tt)

  launch_returns :
      (background : Bool) (s : Shell)
      → Ready children s
      → calls.fork ≡ forked pid
      → Ensures (launch cmdline background calls s) (λ _. Unit {0})
  unfolding launch
  launch_returns background s r f = elim (Bool-cases calls.block_ok) [
    | inl e ↦
        simp (e, f)
          (after_fork_returns background (record s { masked = true })
            record {
              at_prompt = r.at_prompt;
              tracks = r.tracks;
              numbers = r.numbers;
              room = r.room;
            })
    | inr e ↦ simp e tt
  ]

  launch-Ensures :
      (background : Bool) (s : Shell)
      → Ready children s
      → calls.fork ≡ forked pid
      → Ensures (launch cmdline background calls s) Settled
  launch-Ensures background s r f =
      let new : IsNewChild calls.fork s.jobs =
        rw f (n, absent s pid fg cmdline children n fresh r) in
      Ensures-imp _ _ (launch cmdline background calls s)
        (Ensures-× (λ _. Unit {0}) Settled (launch cmdline background calls s)
          (launch_returns background s r f)
          (launch-Settled cmdline background calls s r.at_prompt new u))
        λ o h. h.1

  -- A command that is no built-in one, for which `fork` makes the child `pid`, in a shell at its
  -- prompt that has an empty slot and whose jobs are its children: `eval` does not fault, and when
  -- it returns no job is in the foreground, whatever the children and the keyboard do at the pauses
  -- of `waitfg`. SIGCHLD can be unblocked, and `waitpid` reports children only.
  pub eval-Ensures :
      (strtol : List ℕ → ℤ × List ℕ) (argv : List (List ℕ)) (background : Bool) (s : Shell)
      → Ready children s
      → calls.fork ≡ forked pid
      → parseline cmdline ≡ some (argv, background)
      → builtin_cmd strtol argv calls.resuming calls.events s ≡ some external
      → Ensures (eval strtol cmdline calls s) Settled
  unfolding eval
  eval-Ensures strtol argv background s r f parsed b = elim (Bool-cases calls.malloc_ok) [
    | inl e ↦ simp (e, parsed, b) (launch-Ensures background s r f)
    | inr e ↦ simp e r.at_prompt
  ]
