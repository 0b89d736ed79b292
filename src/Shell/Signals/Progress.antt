-- ===== src/Shell/Signals/Progress.antt =====
-- `waitfg` and the handlers that run in it do not fault.
use splab.Prelude.{
  length-set, ℕ, zero, suc, ◌≡◌, ◌≢◌, inl, inr, Bool, false, ◌&&◌, ◌==◌, List, [], ◌∷◌, some,
  get_elem?, length, arith, refl, sym, ◌∙◌, Option-cases, Bool-cases,
}
use splab.Prelude.Fault.{
  Ensures, Ensures-bind, Ensures-imp, Ensures-×, Yields, Yields-bind, Yields-imp, Yields_any,
}
use splab.Shell.Jobs.{Job, Shell, st, empty, say, is_fg, find_pid, getjobpid, deletejob, maxjid}
use splab.Shell.Jobs.Lookup.{find_pid_found, getjobpid-eq}
use splab.Shell.Signals.{
  Status, signaled, stopped_by, exited, Wait, wait_error, nothing, changed, set_state, reap,
  sigchld_handler, sigint_handler, sigtstp_handler, Event, chld, int, tstp, quit, deliver,
  wait_loop, waitfg,
}
use splab.Shell.Signals.Foreground.{
  OnlyFg, Clean, Settled, waitfg-Settled, sigint_handler-jobs, sigtstp_handler-jobs,
}
use splab.Shell.Signals.Reap.{Tracks, Reported, survivors, sigchld_handler-Tracks}

-- The events report children of the shell only.
abbrev pub Upcoming : List Event → (ℕ → Bool) → Type 0
Upcoming [] children = Unit
Upcoming (chld waits ∷ events) children =
    Reported waits children × Upcoming events (survivors waits children)
Upcoming (_ ∷ events) children = Upcoming events children

-- The handlers keep the number of slots and the signal mask.
abbrev Keeps : Shell → Shell → Type 0
Keeps s s' = (length s'.jobs ≡ length s.jobs) × (s'.masked ≡ s.masked)

in_bounds :
    {A : Type 0} (list list' : List A) (i : ℕ) (a : A)
    → get_elem? list i ≡ some a
    → length list' ≡ length list
    → (b : A) × (get_elem? list' i ≡ some b)
in_bounds [] list' i a e h = cc
in_bounds (x ∷ list) [] i a e h = ground arith
in_bounds (x ∷ list) (y ∷ list') zero a e h = (y, refl)
in_bounds (x ∷ list) (y ∷ list') (suc i) a e h = in_bounds list list' i a e (omega arith)

deletejob-Keeps : (s : Shell) (pid : ℕ) → Keeps s (deletejob s pid).0
unfolding deletejob
deletejob-Keeps s pid = elim (Option-cases (find_pid s.jobs pid)) [
  | inl e ↦ ground arith
  | inr (k, e) ↦ ground (arith, length-set s.jobs k empty)
]

set_state-Keeps : (k : ℕ) (s : Shell) → Yields (set_state k st s) (Keeps s)
set_state-Keeps k s =
    Yields-bind (λ _. Unit {0}) _ (get_elem? s.jobs k) _ (Yields_any (get_elem? s.jobs k))
      λ job _. (length-set s.jobs k _, refl)

reap-Keeps : (s : Shell) (pid : ℕ) (status : Status) → Yields (reap s pid status) (Keeps s)
unfolding reap
reap-Keeps s pid (signaled sig) =
    Yields-bind (λ _. Unit {0}) _ (getjobpid s.jobs pid) _ (Yields_any (getjobpid s.jobs pid))
      λ k _.
        Yields-bind (λ _. Unit {0}) _ (get_elem? s.jobs k) _ (Yields_any (get_elem? s.jobs k))
          λ job _. deletejob-Keeps (say _ s) pid
reap-Keeps s pid (stopped_by sig) =
    Yields-bind (λ _. Unit {0}) _ (getjobpid s.jobs pid) _ (Yields_any (getjobpid s.jobs pid))
      λ k _.
        Yields-bind (λ _. Unit {0}) _ (get_elem? s.jobs k) _ (Yields_any (get_elem? s.jobs k))
          λ job _. set_state-Keeps k (say _ s)
reap-Keeps s pid (exited code) = deletejob-Keeps s pid

sigchld_handler-Keeps : (waits : List Wait) (s : Shell) → Yields (sigchld_handler waits s) (Keeps s)
unfolding sigchld_handler
sigchld_handler-Keeps [] s = (refl, refl)
sigchld_handler-Keeps (wait_error ∷ waits) s = elim (Bool-cases (maxjid s.jobs == 0)) [
  | inl e ↦ rw e (refl, refl)
  | inr e ↦ rw e (refl, refl)
]
sigchld_handler-Keeps (nothing ∷ waits) s = (refl, refl)
sigchld_handler-Keeps (changed pid status ∷ waits) s = elim (Bool-cases (maxjid s.jobs == 0)) [
  | inl e ↦ rw e (refl, refl)
  | inr e ↦ rw e (
      Yields-bind (Keeps s) _ (reap s pid status) _ (reap-Keeps s pid status) λ s' h.
        Yields-imp (Keeps s') (Keeps s) _ (sigchld_handler-Keeps waits s')
          λ t k. (k.0 ∙ h.0, k.1 ∙ h.1))
]

-- While the shell waits.
record Live (slots : ℕ) (children : ℕ → Bool) (s : Shell) : Type 0 where
  tracks : Tracks children s.jobs
  slots_kept : length s.jobs ≡ slots
  unmasked : s.masked ≡ false

-- The children that are left behind an event.
abbrev after : Event → (ℕ → Bool) → ℕ → Bool
after (chld waits) children = survivors waits children
after _ children = children

sigint_handler-masked : (ok : Bool) (s : Shell) → (sigint_handler ok s).masked ≡ s.masked
unfolding sigint_handler
sigint_handler-masked ok s = ground arith

sigtstp_handler-masked : (ok : Bool) (s : Shell) → (sigtstp_handler ok s).masked ≡ s.masked
unfolding sigtstp_handler
sigtstp_handler-masked ok s = ground arith

deliver-Live :
    (e : Event) (events : List Event) (slots : ℕ) (children : ℕ → Bool) (s : Shell)
    → Upcoming (e ∷ events) children
    → Live slots children s
    → Ensures (deliver e s) (Live slots (after e children))
unfolding deliver
deliver-Live (chld waits) events slots children s u l = simp l.unmasked (
    Ensures-imp _ _ (sigchld_handler waits s)
      (Ensures-× _ _ (sigchld_handler waits s)
        (sigchld_handler-Tracks waits children s u.0 l.tracks) (sigchld_handler-Keeps waits s))
      λ s' h. record {
        tracks = h.0;
        slots_kept = h.1.0 ∙ l.slots_kept;
        unmasked = h.1.1 ∙ l.unmasked;
      })
deliver-Live (int ok) events slots children s u l = record {
  tracks = rw (sigint_handler-jobs ok s) l.tracks;
  slots_kept = rw (sigint_handler-jobs ok s) l.slots_kept;
  unmasked = sigint_handler-masked ok s ∙ l.unmasked;
}
deliver-Live (tstp ok) events slots children s u l = record {
  tracks = rw (sigtstp_handler-jobs ok s) l.tracks;
  slots_kept = rw (sigtstp_handler-jobs ok s) l.slots_kept;
  unmasked = sigtstp_handler-masked ok s ∙ l.unmasked;
}
deliver-Live quit events slots children s u l = l

upcoming :
    (e : Event) (events : List Event) (children : ℕ → Bool)
    → Upcoming (e ∷ events) children
    → Upcoming events (after e children)
upcoming (chld waits) events children u = u.1
upcoming (int ok) events children u = u
upcoming (tstp ok) events children u = u
upcoming quit events children u = u

wait_loop_returns :
    (i pid : ℕ) (events : List Event) (slots : ℕ) (children : ℕ → Bool) (s : Shell)
    (list : List Job) (job : Job)
    → Upcoming events children
    → Live slots children s
    → length list ≡ slots
    → get_elem? list i ≡ some job
    → Ensures (wait_loop i pid events s) (λ _. Unit {0})
unfolding wait_loop
wait_loop_returns i pid [] slots children s list at u l n e =
    let (job, f) = in_bounds list s.jobs i at e (l.slots_kept ∙ sym n) in rw f tt
wait_loop_returns i pid (quit ∷ events) slots children s list at u l n e =
    let (job, f) = in_bounds list s.jobs i at e (l.slots_kept ∙ sym n) in rw f tt
wait_loop_returns i pid (e' ∷ events) slots children s list at u l n e =
    let (job, f) = in_bounds list s.jobs i at e (l.slots_kept ∙ sym n) in
    elim (Bool-cases (job.pid == pid && is_fg job.state)) [
      | inl h ↦
          rw (f, h)
            (Ensures-bind _ _ (deliver e' s) _ (deliver-Live e' events slots children s u l)
              λ s' l'.
                wait_loop_returns i pid events slots (after e' children) s' list at
                  (upcoming e' events children u) l' n e)
      | inr h ↦ rw (f, h) tt
    ]

-- Where the jobs are the children of the shell, SIGCHLD is not blocked, at most the job `pid` is in
-- the foreground and `waitpid` reports children only, `waitfg` does not fault, and no job is in the
-- foreground when it returns.
pub waitfg-Ensures :
    (pid : ℕ) (events : List Event) (children : ℕ → Bool) (s : Shell)
    → pid ≢ 0
    → Tracks children s.jobs
    → Clean s.jobs
    → OnlyFg pid s.jobs
    → s.masked ≡ false
    → Upcoming events children
    → Ensures (waitfg pid events s) Settled
unfolding waitfg
waitfg-Ensures pid events children s n t c o m u =
    Ensures-imp _ _ (waitfg pid events s)
      (Ensures-× (λ _. Unit {0}) Settled (waitfg pid events s)
        (elim (Option-cases (find_pid s.jobs pid)) [
          | inl e ↦ rw (getjobpid-eq s.jobs pid n ∙ e, waitfg) tt
          | inr (i, e) ↦
              let (job, at, found, same) = find_pid_found s.jobs pid i e in
              rw (getjobpid-eq s.jobs pid n ∙ e, waitfg)
                (wait_loop_returns i pid events (length s.jobs) children s s.jobs job u
                  record { tracks = t; slots_kept = refl; unmasked = m } refl at)
        ])
        (waitfg-Settled pid events s n t.distinct c o))
      λ o h. h.1
