-- ===== src/Shell/Eval/Resume.antt =====
-- `bg` and `fg` come back to the prompt with no job in the foreground.
use splab.Prelude.{
  ℕ, zero, suc, ◌≡◌, ◌≢◌, inl, inr, Bool, true, false, ◌==◌, List, [], ◌∷◌, some, get_elem?, set,
  arith, refl, All-set, All-get, All-imp, Option-cases, Bool-cases,
}
use splab.Prelude.Int.{ℤ, pos_part}
use splab.Prelude.Fault.{◌>>=◌, Ensures, Ensures-bind}
use splab.Shell.Jobs.{
  Job, Shell, State, Message, fg, bg, say, is_st, sigcont, sent, getjobpid, getjobjid, find_jid,
}
use splab.Shell.Jobs.Lookup.{Distinct, find_pid_found, getjobpid_found}
use splab.Shell.Signals.{Event, set_state, waitfg}
use splab.Shell.Signals.Foreground.{OnlyFg, Clean, AtPrompt, Settled, Distinct-set_same}
use splab.Shell.Signals.Reap.{Tracks, set_state-Tracks}
use splab.Shell.Signals.Progress.{Upcoming, waitfg-Ensures}
use splab.Shell.Eval.{
  Resuming, interrupted, write_state, Target, found, refused, resume, by_pid, by_jid, target,
  do_bgfg, streq, fg_word,
}

-- No signal comes between the search for the job and the write of its state.
pub record Undisturbed (r : Resuming) : Type 0 where
  pub found_then : r.found_then ≡ []
  pub read_then : r.read_then ≡ []

-- A shell at its prompt whose jobs are its children, with SIGCHLD unblocked.
pub record Waiting (children : ℕ → Bool) (s : Shell) : Type 0 where
  pub at_prompt : AtPrompt s.jobs
  pub tracks : Tracks children s.jobs
  pub unmasked : s.masked ≡ false

Waiting-say :
    (children : ℕ → Bool) (m : Message) (s : Shell)
    → Waiting children s
    → Waiting children (say m s)
Waiting-say children m s w = record {
  at_prompt = w.at_prompt;
  tracks = w.tracks;
  unmasked = w.unmasked;
}

-- A job at slot `i` brought to the foreground, or sent to the background.
module _ (children : ℕ → Bool) (s : Shell) (i pid : ℕ) (job : Job) (w : Waiting children s)
    (at : get_elem? s.jobs i ≡ some job) (same : job.pid ≡ pid) where
  fg-OnlyFg : OnlyFg pid (set s.jobs i (record job { state = fg }))
  fg-OnlyFg =
      All-set _ s.jobs i (record job { state = fg }) (ground arith)
        (All-imp (λ j h. ground arith) s.jobs w.at_prompt.none_fg)

  state-Clean : (state : State) → Clean (set s.jobs i (record job { state = state }))
  state-Clean state =
      All-set _ s.jobs i (record job { state = state })
        (All-get _ s.jobs i job w.at_prompt.clean at) w.at_prompt.clean

  state-Distinct : (state : State) → Distinct (set s.jobs i (record job { state = state }))
  state-Distinct state =
      Distinct-set_same job (record job { state = state }) refl s.jobs i at w.at_prompt.distinct

  front-Ensures :
      (events : List Event)
      → pid ≢ 0
      → Upcoming events children
      → Ensures (set_state i fg s >>= λ t. waitfg pid events t) Settled
  front-Ensures events n ups = rw at (
      waitfg-Ensures pid events children
        (record s { jobs = set s.jobs i (record job { state = fg }) }) n
        (set_state-Tracks s i job children fg at w.tracks) (state-Clean fg) fg-OnlyFg w.unmasked
        ups)

  back-AtPrompt : AtPrompt (set s.jobs i (record job { state = bg }))
  back-AtPrompt = record {
    distinct = state-Distinct bg;
    clean = state-Clean bg;
    none_fg = All-set _ s.jobs i (record job { state = bg }) refl w.at_prompt.none_fg;
  }

write_state-Ensures :
    (children : ℕ → Bool) (to_fg : Bool) (i pid : ℕ) (events : List Event) (s : Shell) (job : Job)
    → Waiting children s
    → Upcoming events children
    → get_elem? s.jobs i ≡ some job
    → job.pid ≡ pid
    → pid ≢ 0
    → Ensures (write_state to_fg i pid events s) Settled
unfolding write_state
write_state-Ensures children true i pid events s job w ups at same n =
    front-Ensures children s i pid job w at same events n ups
write_state-Ensures children false i pid events s job w ups at same n =
    rw at (back-AtPrompt children s i pid job w at same)

resume-Ensures :
    (children : ℕ → Bool) (to_fg : Bool) (i pid : ℕ) (r : Resuming) (events : List Event)
    (s : Shell) (job : Job)
    → Undisturbed r
    → Waiting children s
    → Upcoming events children
    → get_elem? s.jobs i ≡ some job
    → job.pid ≡ pid
    → pid ≢ 0
    → Ensures (resume to_fg i pid r events s) Settled
unfolding resume interrupted
resume-Ensures children to_fg i pid r events s job u w ups at same n =
    simp (u.found_then, u.read_then, at)
      (elim (Bool-cases (is_st job.state)) [
        | inl e ↦ elim (Bool-cases r.kill_ok) [
          | inl k ↦
              simp (e, k)
                (write_state-Ensures children to_fg i pid events (say (sent pid sigcont) s) job
                  (Waiting-say children (sent pid sigcont) s w) ups at same n)
          | inr k ↦ simp (e, k) w.at_prompt
        ]
        | inr e ↦ simp e (write_state-Ensures children to_fg i pid events s job w ups at same n)
      ])

-- The job that `bg` or `fg` resumes is in the list, and its process id is the one used.
abbrev TargetOk : Shell → Target → Type 0
TargetOk s (found i pid) =
    (job : Job) × (get_elem? s.jobs i ≡ some job) × (job.pid ≡ pid) × (pid ≢ 0)
TargetOk s (refused s') = AtPrompt s'.jobs

find_jid_found :
    (jobs : List Job) (jid i : ℕ)
    → find_jid jobs jid ≡ some i
    → (job : Job) × (get_elem? jobs i ≡ some job) × (job.jid ≡ jid)
unfolding find_jid
find_jid_found [] jid i e = cc
find_jid_found (x ∷ jobs) jid zero e = (x, ground arith, ground arith)
find_jid_found (x ∷ jobs) jid (suc i) e =
    let (job, at, same) = find_jid_found jobs jid i (ground arith) in (job, ground arith, same)

getjobjid_found :
    (jobs : List Job) (jid i : ℕ)
    → getjobjid jobs jid ≡ some i
    → (jid ≢ 0) × (find_jid jobs jid ≡ some i)
unfolding getjobjid
getjobjid_found jobs jid i e = (ground arith, ground arith)

module _ (strtol : List ℕ → ℤ × List ℕ) (s : Shell) (v : AtPrompt s.jobs) where
  by_pid-TargetOk : (name word : List ℕ) → Ensures (by_pid strtol name word s) (TargetOk s)
  by_pid-TargetOk name word = elim (Bool-cases (streq (strtol word).1 [])) [
    | inl e ↦ elim (Option-cases (getjobpid s.jobs (pos_part (strtol word).0))) [
      | inl f ↦ rw (e, f) v
      | inr (i, f) ↦
          let (n, slot) = getjobpid_found s.jobs (pos_part (strtol word).0) i f in
          let (job, at, mapped, same) = find_pid_found s.jobs (pos_part (strtol word).0) i slot in
          rw (e, f) (job, at, same, n)
    ]
    | inr e ↦ rw e v
  ]

  by_jid-TargetOk : (name word : List ℕ) → Ensures (by_jid strtol name word s) (TargetOk s)
  by_jid-TargetOk name word = elim (Bool-cases (streq (strtol word).1 [])) [
    | inl e ↦ elim (Option-cases (getjobjid s.jobs (pos_part (strtol word).0))) [
      | inl f ↦ rw (e, f) v
      | inr (i, f) ↦
          let (n, slot) = getjobjid_found s.jobs (pos_part (strtol word).0) i f in
          let (job, at, same) = find_jid_found s.jobs (pos_part (strtol word).0) i slot in
          let clean = All-get _ s.jobs i job v.clean at in
          rw (e, f, at) (job, at, refl, ground arith)
    ]
    | inr e ↦ rw e v
  ]

  target-TargetOk :
      (name : List ℕ) (args : List (List ℕ)) → Ensures (target strtol name args s) (TargetOk s)
  unfolding target
  target-TargetOk name [] = v
  target-TargetOk name ([] ∷ args) = by_pid-TargetOk name []
  target-TargetOk name ((c ∷ word) ∷ args) = elim (Bool-cases (c == b'%')) [
    | inl e ↦ rw e (by_jid-TargetOk name word)
    | inr e ↦ rw e (by_pid-TargetOk name (c ∷ word))
  ]

-- `bg` and `fg` come back to the prompt with no job in the foreground.
pub do_bgfg-Ensures :
    (strtol : List ℕ → ℤ × List ℕ) (children : ℕ → Bool) (s : Shell) (name : List ℕ)
    (args : List (List ℕ)) (r : Resuming) (events : List Event)
    → Waiting children s
    → Undisturbed r
    → Upcoming events children
    → Ensures (do_bgfg strtol name args r events s) Settled
unfolding do_bgfg
do_bgfg-Ensures strtol children s name args r events w u ups =
    Ensures-bind (TargetOk s) _ (target strtol name args s) _
      (target-TargetOk strtol s w.at_prompt name args)
      (elim [
        | found i pid ↦ λ (job, at, same, n).
            resume-Ensures children (streq name fg_word) i pid r events s job u w ups at same n
        | refused s' ↦ λ v. v
      ])
