-- ===== src/Shell/Jobs/Jids.antt =====
-- Job ids: the largest one, and when they are unique.
use splab.Prelude.{
  ℕ, zero, suc, ◌+◌, ◌≡◌, ◌≢◌, ◌<◌, ◌≤◌, ltb, if◌then◌else◌, List, [], ◌∷◌, Option, none, some, set,
  arith, refl, sym, ◌⊎◌, inl, inr, All, All-imp, All-set, Bool-cases,
}
use native.Mathlib.Decide.{ℕ_discrete}
use splab.Shell.Jobs.{
  Job, Shell, State, empty, find_pid, maxjid, maxjid_from, maxjobs, addjob, addjob_at, deletejob,
  deletejob_at, bump_jid,
}
use splab.Shell.Jobs.Lookup.{new_job}

-- No two jobs have the same job id; an empty slot has the id 0.
abbrev pub JidsDistinct : List Job → Type 0
JidsDistinct [] = Unit
JidsDistinct (job ∷ jobs) = ((job.jid ≡ 0) ⊎ All (λ k. k.jid ≢ job.jid) jobs) × JidsDistinct jobs

-- Job ids are unique, and `nextjid` is above all of them.
pub record IsNumbered (s : Shell) : Type 0 where
  pub distinct : JidsDistinct s.jobs
  pub below : All (λ job. job.jid < s.nextjid) s.jobs

maxjid_from-le : (m : ℕ) (jobs : List Job) → m ≤ maxjid_from m jobs
unfolding maxjid_from
maxjid_from-le m [] = omega arith
maxjid_from-le m (job ∷ jobs) =
    ground (arith, maxjid_from-le (if ltb m job.jid then job.jid else m) jobs)

maxjid_from-All : (m : ℕ) (jobs : List Job) → All (λ job. job.jid ≤ maxjid_from m jobs) jobs
unfolding maxjid_from
maxjid_from-All m [] = tt
maxjid_from-All m (job ∷ jobs) =
    let m' = if ltb m job.jid then job.jid else m in
    (ground (arith, maxjid_from-le m' jobs), maxjid_from-All m' jobs)

-- `maxjid` is an upper bound of the job ids.
pub maxjid-All : (jobs : List Job) → All (λ job. job.jid ≤ maxjid jobs) jobs
unfolding maxjid
maxjid-All jobs = maxjid_from-All 0 jobs

JidsDistinct-set_fresh :
    (jobs : List Job) (i : ℕ) (job : Job)
    → All (λ k. k.jid ≢ job.jid) jobs
    → JidsDistinct jobs
    → JidsDistinct (set jobs i job)
JidsDistinct-set_fresh [] i job f d = tt
JidsDistinct-set_fresh (x ∷ jobs) zero job f d = (inr f.1, d.1)
JidsDistinct-set_fresh (x ∷ jobs) (suc i) job f d = (
  elim d.0 [ inl z ↦ inl z | inr a ↦ inr (All-set _ jobs i job (λ e. f.0 (sym e)) a) ],
  JidsDistinct-set_fresh jobs i job f.1 d.1,
)

JidsDistinct-clear : (jobs : List Job) (i : ℕ) → JidsDistinct jobs → JidsDistinct (set jobs i empty)
JidsDistinct-clear [] i d = tt
JidsDistinct-clear (x ∷ jobs) zero d = (inl refl, d.1)
JidsDistinct-clear (x ∷ jobs) (suc i) d = (
  elim (ℕ_discrete x.jid 0) [
    | yes z ↦ inl z
    | no n ↦ elim d.0 [ inl z ↦ inl z | inr a ↦ inr (All-set _ jobs i empty (λ e. n (sym e)) a) ]
  ],
  JidsDistinct-clear jobs i d.1,
)

addjob_at-IsNumbered :
    (slot : Option ℕ) (s : Shell) (pid : ℕ) (state : State) (cmdline : List ℕ)
    → IsNumbered s
    → s.nextjid < maxjobs
    → IsNumbered (addjob_at slot s pid state cmdline).0
addjob_at-IsNumbered none s pid state cmdline v h = record {
  distinct = v.distinct;
  below = v.below;
}
addjob_at-IsNumbered (some i) s pid state cmdline v h =
    let job = new_job s pid state cmdline in
    let next : bump_jid s.nextjid ≡ s.nextjid + 1 = ground arith in
    let distinct : JidsDistinct (set s.jobs i job) =
      JidsDistinct-set_fresh s.jobs i job (All-imp (λ k b. omega (arith, b)) s.jobs v.below)
        v.distinct in
    let below : All (λ k. k.jid < bump_jid s.nextjid) (set s.jobs i job) = rw next (
      All-set (λ k. k.jid < s.nextjid + 1) s.jobs i job (omega arith)
        (All-imp (λ k b. omega (arith, b)) s.jobs v.below)) in
    elim (Bool-cases s.verbose) [
      | inl e ↦ rw e record { distinct = distinct; below = below }
      | inr e ↦ rw e record { distinct = distinct; below = below }
    ]

-- Where the job ids are unique and below `nextjid`, and `nextjid` is below 16, `addjob` keeps the ids
-- unique and below `nextjid`.
pub addjob-IsNumbered :
    (s : Shell) (pid : ℕ) (state : State) (cmdline : List ℕ)
    → IsNumbered s
    → s.nextjid < maxjobs
    → IsNumbered (addjob s pid state cmdline).0
unfolding addjob
addjob-IsNumbered s pid state cmdline v h =
    ground (arith, addjob_at-IsNumbered (find_pid s.jobs 0) s pid state cmdline v h)

deletejob_at-IsNumbered :
    (slot : Option ℕ) (s : Shell) → IsNumbered s → IsNumbered (deletejob_at slot s).0
deletejob_at-IsNumbered none s v = v
deletejob_at-IsNumbered (some i) s v = record {
  distinct = JidsDistinct-clear s.jobs i v.distinct;
  below =
      All-imp (λ job h. omega (arith, h)) (set s.jobs i empty) (maxjid-All (set s.jobs i empty));
}

-- `deletejob` keeps the ids unique and below `nextjid`, which it brings back to one above the
-- largest id in use.
pub deletejob-IsNumbered : (s : Shell) (pid : ℕ) → IsNumbered s → IsNumbered (deletejob s pid).0
unfolding deletejob
deletejob-IsNumbered s pid v = ground (arith, deletejob_at-IsNumbered (find_pid s.jobs pid) s v)
