-- ===== src/Shell/Eval/Faults.antt =====
-- Two ways in which a command line makes the shell read through a null pointer.
use splab.Prelude.{
  ℕ, suc, ◌+◌, ◌≡◌, ◌≢◌, true, List, [], ◌∷◌, ◌++◌, none, some, arith, refl, All, length,
}
use splab.Prelude.Int.{ℤ}
use splab.Shell.Jobs.{Shell, find_pid, getjobpid, addjob}
use splab.Shell.Jobs.Lookup.{lookup}
use splab.Shell.Signals.Foreground.{find_pid_absent}
use splab.Shell.Parse.{space, skip_spaces, args_from, split_background, parseline}
use splab.Shell.Parse.Words.{replace_last-append}
use splab.Shell.Eval.{Calls, after_fork, forked, builtin_cmd, eval}

skip_spaces-blank : (s : List ℕ) → All (λ c. c ≡ space) s → skip_spaces (s ++ (space ∷ [])) ≡ []
skip_spaces-blank [] h = refl
skip_spaces-blank (c ∷ s) h = rw h.0 (skip_spaces-blank s h.1)

args_from-blank : (fuel : ℕ) (s : List ℕ) → skip_spaces s ≡ [] → args_from (suc fuel) s ≡ []
unfolding args_from
args_from-blank fuel s h = rw (h, args_from)

parseline-blank :
    (text : List ℕ) (newline : ℕ)
    → All (λ c. c ≡ space) text
    → parseline (text ++ (newline ∷ [])) ≡ some ([], true)
unfolding parseline split_background
parseline-blank text newline h =
    let buf = text ++ (space ∷ []) in
    let fuel : length buf + 1 ≡ suc (length buf) = omega arith in
    rw (replace_last-append text newline)
      (rw (fuel, args_from-blank (length buf) buf (skip_spaces-blank text h)))

-- A line of spaces alone, the empty line included, makes `eval` compare `argv[0]`, which is null.
pub eval_blank :
    (strtol : List ℕ → ℤ × List ℕ) (text : List ℕ) (newline : ℕ) (calls : Calls) (s : Shell)
    → All (λ c. c ≡ space) text
    → calls.malloc_ok ≡ true
    → eval strtol (text ++ (newline ∷ [])) calls s ≡ none
unfolding eval builtin_cmd
eval_blank strtol text newline calls s h e = simp (e, parseline-blank text newline h)

-- With no empty slot, a background command makes the shell print a job that is not in the list.
pub after_fork_full :
    (pid : ℕ) (cmdline : List ℕ) (calls : Calls) (s : Shell)
    → find_pid s.jobs 0 ≡ none
    → pid ≢ 0
    → lookup pid s.jobs ≡ none
    → after_fork (forked pid) cmdline true calls s ≡ none
unfolding after_fork addjob getjobpid
after_fork_full pid cmdline calls s full n f = ground (arith, find_pid_absent s.jobs pid f)
