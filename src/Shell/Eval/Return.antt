-- ===== src/Shell/Eval/Return.antt =====
-- Every command that has a word: `eval` comes back to the prompt.
use splab.Prelude.{
  ℕ, ◌≡◌, ◌≢◌, inl, inr, Bool, true, false, ◌||◌, if◌then◌else◌, List, ◌∷◌, some, arith, sym, subst,
  Bool-cases,
}
use splab.Prelude.Int.{ℤ}
use splab.Prelude.Fault.{Ensures, Ensures-bind}
use splab.Shell.Parse.{parseline}
use splab.Shell.Jobs.{Shell}
use splab.Shell.Signals.{Event}
use splab.Shell.Signals.Foreground.{AtPrompt, Settled}
use splab.Shell.Signals.Progress.{Upcoming}
use splab.Shell.Eval.Prompt.{listjobs-jobs}
use splab.Shell.Eval.Resume.{Undisturbed, Waiting, do_bgfg-Ensures}
use splab.Shell.Eval.Launch.{with_child, Ready, eval-Ensures}
use splab.Shell.Eval.{
  Resuming, Calls, forked, do_bgfg, builtin_cmd, Builtin, done, external, eval, streq, fg_word,
  bg_word, jobs_word, quit_word,
}

-- The first word names a built-in command.
abbrev pub is_builtin : List ℕ → Bool
is_builtin name =
    streq name quit_word || streq name jobs_word || streq name bg_word || streq name fg_word

-- A built-in command is done, and leaves the shell at its prompt.
abbrev Done : Builtin → Type 0
Done (done o) = Settled o
Done external = ⊥

module _ (strtol : List ℕ → ℤ × List ℕ) (name : List ℕ) (args : List (List ℕ)) (r : Resuming)
    (events : List Event) (s : Shell) where
  builtin_cmd-Done :
      (children : ℕ → Bool)
      → is_builtin name ≡ true
      → Waiting children s
      → Undisturbed r
      → Upcoming events children
      → Ensures (builtin_cmd strtol (name ∷ args) r events s) Done
  unfolding builtin_cmd
  builtin_cmd-Done children b w u ups = elim (Bool-cases (streq name quit_word)) [
    | inl e ↦ rw e tt
    | inr e ↦ elim (Bool-cases (streq name jobs_word)) [
      | inl f ↦ rw (e, f) (subst AtPrompt (sym (listjobs-jobs s.jobs s)) w.at_prompt)
      | inr f ↦ elim (Bool-cases (streq name bg_word || streq name fg_word)) [
        | inl g ↦
            rw (e, f, g)
              (Ensures-bind Settled _ (do_bgfg strtol name args r events s) _
                (do_bgfg-Ensures strtol children s name args r events w u ups) (λ o h. h))
        | inr g ↦ ground arith
      ]
    ]
  ]

  builtin_cmd-external :
      is_builtin name ≡ false → builtin_cmd strtol (name ∷ args) r events s ≡ some external
  unfolding builtin_cmd
  builtin_cmd-external b = ground arith

eval_builtin :
    (strtol : List ℕ → ℤ × List ℕ) (cmdline name : List ℕ) (args : List (List ℕ))
    (background : Bool) (calls : Calls) (children : ℕ → Bool) (s : Shell)
    → parseline cmdline ≡ some (name ∷ args, background)
    → Waiting children s
    → is_builtin name ≡ true
    → Undisturbed calls.resuming
    → Upcoming calls.events children
    → Ensures (eval strtol cmdline calls s) Settled
unfolding eval
eval_builtin strtol cmdline name args background calls children s parsed w b u ups =
    elim (Bool-cases calls.malloc_ok) [
      | inl e ↦
          simp (e, parsed)
            (Ensures-bind Done Settled
              (builtin_cmd strtol (name ∷ args) calls.resuming calls.events s) _
              (builtin_cmd-Done strtol name args calls.resuming calls.events s children b w u ups)
              (elim [ done o ↦ λ h. h | external ↦ λ h. absurd h ]))
      | inr e ↦ simp e w.at_prompt
    ]

-- A command line with at least one word, and no more than the shell can take, in a shell at its
-- prompt that has an empty slot, whose jobs are its children and which does not block SIGCHLD:
-- `eval` does not fault, and when it returns, no job is in the foreground, the process ids are
-- distinct and the empty slots have no job id. It may also wait for more signals, or end with the
-- shell. Here `fork` makes a new child, SIGCHLD can be unblocked, `waitpid` reports only children,
-- and signals come at the pauses of `waitfg` alone: none comes while `bg` or `fg` holds the pointer
-- to the job.
pub eval-AtPrompt :
    (strtol : List ℕ → ℤ × List ℕ) (cmdline name : List ℕ) (args : List (List ℕ))
    (background : Bool) (calls : Calls) (children : ℕ → Bool) (pid : ℕ) (s : Shell)
    → parseline cmdline ≡ some (name ∷ args, background)
    → Ready children s
    → s.masked ≡ false
    → calls.fork ≡ forked pid
    → pid ≢ 0
    → children pid ≡ false
    → calls.unblock_ok ≡ true
    → Undisturbed calls.resuming
    → Upcoming calls.events (if is_builtin name then children else with_child pid children)
    → Ensures (eval strtol cmdline calls s) Settled
eval-AtPrompt strtol cmdline name args background calls children pid s parsed ready m forks n fresh
      ok u ups =
    elim (Bool-cases (is_builtin name)) [
      | inl b ↦
          let w : Waiting children s = record {
            at_prompt = ready.at_prompt;
            tracks = ready.tracks;
            unmasked = m;
          } in
          let ups' : Upcoming calls.events children =
            subst (λ c. Upcoming calls.events (if c then children else with_child pid children)) b
              ups in
          eval_builtin strtol cmdline name args background calls children s parsed w b u ups'
      | inr b ↦
          let ups' : Upcoming calls.events (with_child pid children) =
            subst (λ c. Upcoming calls.events (if c then children else with_child pid children)) b
              ups in
          eval-Ensures cmdline calls children pid n fresh ok ups' strtol (name ∷ args) background s
            ready forks parsed
            (builtin_cmd-external strtol name args calls.resuming calls.events s b)
    ]
