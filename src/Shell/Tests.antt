-- ===== src/Shell/Tests.antt =====
-- The shell on small inputs, and the theorems at them.
use splab.Prelude.{
  ℕ, zero, suc, Bool, ◌≡◌, false, true, none, some, refl, List, [], ◌∷◌, ◌++◌, arith, if◌then◌else◌,
  ◌==◌, is_some,
}
use splab.Prelude.Int.{ℤ, pos}
use splab.Prelude.Fault.{Ensures}
use splab.Shell.Jobs.{Job, Shell, fg, bg, empty, addjob, deletejob, find_pid}
use splab.Shell.Jobs.Lookup.{Distinct, lookup, new_job, addjob_refines, deletejob_refines}
use splab.Shell.Jobs.Jids.{IsNumbered, addjob-IsNumbered}
use splab.Shell.Signals.{chld, int, changed, signaled, stopped_by, sigchld_handler, waitfg}
use splab.Shell.Signals.Foreground.{AtPrompt, Settled}
use splab.Shell.Signals.Reap.{Tracks, survivors, sigchld_handler-Tracks}
use splab.Shell.Signals.Progress.{waitfg-Ensures}
use splab.Shell.Eval.Launch.{with_child, Ready, eval-Ensures}
use splab.Shell.Parse.{parseline, args_from, split_background}
use splab.Shell.Parse.Words.{unwords, parseline_words}
use splab.Shell.Eval.{Calls, forked, builtin_cmd, eval, after_fork}
use splab.Shell.Eval.Return.{eval-AtPrompt}
use splab.Shell.Eval.Faults.{eval_blank, after_fork_full}

abbrev sleep_job : Job
sleep_job = record { pid = 71; jid = 1; state = bg; cmdline = b'z' ∷ [] }

abbrev vim_job : Job
vim_job = record { pid = 75; jid = 2; state = fg; cmdline = b'v' ∷ [] }

abbrev one_job : Shell
one_job = record {
  jobs = sleep_job ∷ empty ∷ empty ∷ [];
  nextjid = 2;
  verbose = false;
  masked = false;
  out = [];
}

abbrev with_fg : Shell
with_fg = record one_job { jobs = sleep_job ∷ vim_job ∷ empty ∷ [] }

abbrev full : Shell
full = record one_job { jobs = sleep_job ∷ [] }

one_job-AtPrompt : AtPrompt one_job.jobs
one_job-AtPrompt = record {
  distinct = ground arith;
  clean = (refl, (refl, (refl, tt)));
  none_fg = (refl, (refl, (refl, tt)));
}

addjob_refines_example :
    ((addjob one_job 75 fg (b'v' ∷ [])).1 ≡ true)
    × Distinct (addjob one_job 75 fg (b'v' ∷ [])).0.jobs
    × (lookup 75 (addjob one_job 75 fg (b'v' ∷ [])).0.jobs
        ≡ (if 75 == 75 then some (new_job one_job 75 fg (b'v' ∷ [])) else lookup 75 one_job.jobs))
unfolding find_pid
addjob_refines_example =
    addjob_refines one_job 75 fg (b'v' ∷ []) 75 1 (omega arith) (omega arith) refl refl
      one_job-AtPrompt.distinct

deletejob_refines_example :
    ((deletejob one_job 71).1 ≡ is_some (lookup 71 one_job.jobs))
    × Distinct (deletejob one_job 71).0.jobs
    × (lookup 75 (deletejob one_job 71).0.jobs
        ≡ (if 71 == 75 then none else lookup 75 one_job.jobs))
deletejob_refines_example =
    deletejob_refines one_job 71 75 (omega arith) (omega arith) one_job-AtPrompt.distinct

one_job-IsNumbered : IsNumbered one_job
one_job-IsNumbered = ground arith

addjob-IsNumbered_example : IsNumbered (addjob one_job 75 fg []).0
addjob-IsNumbered_example = addjob-IsNumbered one_job 75 fg [] one_job-IsNumbered (omega arith)

-- After `n` commands in the background, with the process ids from `first` on.
abbrev launched : ℕ → ℕ → Shell → Shell
launched zero first s = s
launched (suc n) first s = launched n (suc first) (addjob s first bg []).0

abbrev slots : ℕ → List Job
slots zero = []
slots (suc n) = empty ∷ slots n

abbrev started : Shell
started = record one_job { jobs = slots 16; nextjid = 1 }

-- The shell after fifteen jobs and the end of the second one.
abbrev crowded : Shell
crowded = (deletejob (launched 15 101 started) 102).0

-- "ls" and "z &"
parseline_words_example :
    parseline (unwords ((b'l' ∷ b's' ∷ []) ∷ (b'&' ∷ []) ∷ []) ++ (10 ∷ []))
    ≡ some ((b'l' ∷ b's' ∷ []) ∷ [], true)
parseline_words_example =
    parseline_words ((b'l' ∷ b's' ∷ []) ∷ []) (b'&' ∷ []) 10 (omega arith) (omega arith)

abbrev calls : Calls
calls = record {
  malloc_ok = true;
  block_ok = true;
  fork = forked 75;
  unblock_ok = true;
  resuming = record { kill_ok = true; found_then = []; read_then = [] };
  events = int true ∷ chld (changed 75 (stopped_by 20) ∷ []) ∷ [];
}

-- A stand-in for the library's function: no number, and the whole text is left.
abbrev no_number : List ℕ → ℤ × List ℕ
no_number word = (pos 0, word)

eval_blank_example : eval no_number ((32 ∷ 32 ∷ []) ++ (10 ∷ [])) calls one_job ≡ none
eval_blank_example = eval_blank no_number (32 ∷ 32 ∷ []) 10 calls one_job (refl, (refl, tt)) refl

after_fork_full_example : after_fork (forked 75) (b'v' ∷ 10 ∷ []) true calls full ≡ none
unfolding find_pid
after_fork_full_example = after_fork_full 75 (b'v' ∷ 10 ∷ []) calls full refl (omega arith) refl

-- The child of `one_job`.
abbrev sleeping : ℕ → Bool
sleeping q = q == 71

one_job-Tracks : Tracks sleeping one_job.jobs
one_job-Tracks = record {
  distinct = one_job-AtPrompt.distinct;
  numbered = (refl, (refl, (refl, tt)));
  known = λ q n. ground arith;
}

with_fg-Tracks : Tracks (with_child 75 sleeping) with_fg.jobs
with_fg-Tracks = record {
  distinct = ground arith;
  numbered = (refl, (refl, (refl, tt)));
  known = λ q n. ground arith;
}

one_job-Ready : Ready sleeping one_job
unfolding find_pid
one_job-Ready = record {
  at_prompt = one_job-AtPrompt;
  tracks = one_job-Tracks;
  numbers = omega arith;
  room = refl;
}

sigchld_handler-Tracks_example :
    Ensures
      (sigchld_handler (changed 71 (signaled 9) ∷ []) with_fg)
      (λ s'. Tracks (survivors (changed 71 (signaled 9) ∷ []) (with_child 75 sleeping)) s'.jobs)
sigchld_handler-Tracks_example =
    sigchld_handler-Tracks (changed 71 (signaled 9) ∷ []) (with_child 75 sleeping) with_fg
      (omega arith, refl, tt) with_fg-Tracks

waitfg-Ensures_example :
    Ensures (waitfg 75 (chld (changed 75 (stopped_by 20) ∷ []) ∷ []) with_fg) Settled
waitfg-Ensures_example =
    waitfg-Ensures 75 (chld (changed 75 (stopped_by 20) ∷ []) ∷ []) (with_child 75 sleeping) with_fg
      (omega arith) with_fg-Tracks (refl, (refl, (refl, tt))) (refl, (refl, (refl, tt))) refl
      ((omega arith, refl, tt), tt)

eval-Ensures_example : Ensures (eval no_number (b'v' ∷ 10 ∷ []) calls one_job) Settled
unfolding parseline args_from split_background builtin_cmd
eval-Ensures_example =
    eval-Ensures (b'v' ∷ 10 ∷ []) calls sleeping 75 (omega arith) refl refl
      ((omega arith, refl, tt), tt) no_number ((b'v' ∷ []) ∷ []) false one_job one_job-Ready refl
      refl refl

-- "fg 71", where the number is read as 71, and the job is stopped by the keyboard meanwhile.
abbrev number : List ℕ → ℤ × List ℕ
number word = (pos 71, [])

abbrev fg_line : List ℕ
fg_line = b'f' ∷ b'g' ∷ 32 ∷ b'7' ∷ b'1' ∷ 10 ∷ []

abbrev fg_calls : Calls
fg_calls = record calls { events = int true ∷ chld (changed 71 (stopped_by 20) ∷ []) ∷ [] }

eval-AtPrompt_example : Ensures (eval number fg_line fg_calls one_job) Settled
unfolding parseline args_from split_background
eval-AtPrompt_example =
    eval-AtPrompt number fg_line (b'f' ∷ b'g' ∷ []) ((b'7' ∷ b'1' ∷ []) ∷ []) false fg_calls
      sleeping 75 one_job refl one_job-Ready refl refl (omega arith) refl refl
      (record { found_then = refl; read_then = refl }) ((omega arith, refl, tt), tt)
