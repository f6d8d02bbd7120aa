-- ===== src/JobQueue/Lease/Granted.antt =====
-- What `lease` promises of the leases it returns: each is written in the row of a job of its own,
-- starts in the window, and there are no more than were asked for.
use mathlib.Core.Path.{subst}
use pc_builder.Shared.{
  ℕ, ◌+◌, ◌≤◌, ◌≡◌, refl, sym, ap, ◌∙◌, ◌≢◌, true, some, List, [], ◌∷◌, ◌++◌, arith, nat_eq,
  option_eq, some_inj, length, length-append, All, All-append, All-map, Str, str_eq, get_row,
  get_row-update_row_self, get_row-update_row_ne,
}
use pc_builder.Db.{ScrapeJob, JobStatus, Store, Db, seconds}
use pc_builder.JobQueue.Config.{
  Locks, LeasedJob, lease_seconds, lease_window_seconds, max_lease_batch,
}
use pc_builder.JobQueue.Lease.{
  Round, is_due, visit, skip, hand_out, slot_of, lease, heartbeat, start_round, batch, lease_fuel,
  give_lease, leased_job,
}
use pc_builder.JobQueue.Lease.Turns.{Turn, visit_cases, rounds_induction}
use pc_builder.JobQueue.Lease.Table.{Follows, Follows-Below, visit-Follows, start-Follows}
use pc_builder.JobQueue.Invariant.{job_id, WellFormed}

-- The lease stands in a job's row, and its fetch starts in the window.
pub record Given (agent_id now : ℕ) (jobs : List ScrapeJob) (l : LeasedJob) : Type 0 where
  pub job : ScrapeJob
  pub row : get_row job_id l.job_id jobs ≡ some job
  pub status : job.status ≡ JobStatus.leased
  pub lease_id : job.lease_id ≡ some l.lease_id
  pub agent : job.agent_id ≡ some agent_id
  pub slot : job.not_before ≡ some l.not_before
  pub expiry : job.lease_expires_at ≡ some (l.not_before + seconds lease_seconds)
  pub url : job.url ≡ l.url
  pub not_early : now ≤ l.not_before
  pub in_window : l.not_before ≤ now + seconds lease_window_seconds

abbrev pub Apart : ℕ → List LeasedJob → Type 0
Apart k = All (λ l. l.job_id ≢ k)

-- No job is leased twice.
abbrev pub DistinctJobs : List LeasedJob → Type 0
DistinctJobs [] = Unit
DistinctJobs (l ∷ ls) = Apart l.job_id ls × DistinctJobs ls

pub record Granted (agent_id now max_jobs : ℕ) (r : Round) : Type 0 where
  pub given : All (Given agent_id now r.jobs) r.leased_jobs
  pub distinct : DistinctJobs r.leased_jobs
  pub bounded : length r.leased_jobs ≤ max_jobs

DistinctJobs-append :
    (ls : List LeasedJob) (m : LeasedJob)
    → DistinctJobs ls
    → Apart m.job_id ls
    → DistinctJobs (ls ++ m ∷ [])
DistinctJobs-append [] m d a = (tt, tt)
DistinctJobs-append (l ∷ ls) m d a = (
  All-append (λ x. x.job_id ≢ l.job_id) ls (m ∷ []) d.0 (λ e. a.0 (sym e), tt),
  DistinctJobs-append ls m d.1 a.1,
)

is_due-not_leased :
    (now sid : ℕ) (job : ScrapeJob) → is_due now sid job ≡ true → job.status ≢ JobStatus.leased
unfolding is_due
is_due-not_leased now sid job h e = ground arith

slot_of-ge : (now : ℕ) (store : Store) → now ≤ slot_of now store
unfolding slot_of
slot_of-ge now store = omega arith

module _ (uuid4 : ℕ → Str) (locks : Locks) (agent_id now max_jobs : ℕ) (r : Round) (store : Store)
    (job : ScrapeJob) (t : Turn locks now max_jobs r store job) where
  Given-apart : (l : LeasedJob) → Given agent_id now r.jobs l → l.job_id ≢ job.id
  Given-apart l g e = is_due-not_leased now store.id job t.picked.due (
      subst (λ (j : ScrapeJob). j.status ≡ JobStatus.leased)
        (some_inj (sym g.row ∙ ap (λ k. get_row job_id k r.jobs) e ∙ t.picked.row)) g.status)

  Given-still :
      (l : LeasedJob)
      → Given agent_id now r.jobs l
      → Given agent_id now (hand_out uuid4 agent_id now store r job).jobs l
  unfolding hand_out give_lease
  Given-still l g = record {
    job = g.job;
    row =
        get_row-update_row_ne job_id job.id l.job_id
          (give_lease (uuid4 r.uuids_drawn) agent_id (slot_of now store)) r.jobs (λ x. refl)
          (Given-apart l g)
        ∙ g.row;
    status = g.status;
    lease_id = g.lease_id;
    agent = g.agent;
    slot = g.slot;
    expiry = g.expiry;
    url = g.url;
    not_early = g.not_early;
    in_window = g.in_window;
  }

  Given-new :
      Given agent_id now
        (hand_out uuid4 agent_id now store r job).jobs
        (leased_job (uuid4 r.uuids_drawn) (slot_of now store) job)
  unfolding hand_out give_lease leased_job
  Given-new = record {
    job = give_lease (uuid4 r.uuids_drawn) agent_id (slot_of now store) job;
    row =
        get_row-update_row_self job_id job.id
          (give_lease (uuid4 r.uuids_drawn) agent_id (slot_of now store)) r.jobs (λ x. refl)
          t.picked.row;
    status = refl;
    lease_id = refl;
    agent = refl;
    slot = refl;
    expiry = refl;
    url = refl;
    not_early = omega (arith, slot_of-ge now store);
    in_window = t.in_window;
  }

  hand_out-Granted :
      Granted agent_id now max_jobs r
      → Granted agent_id now max_jobs (hand_out uuid4 agent_id now store r job)
  unfolding hand_out leased_job
  hand_out-Granted g = record {
    given =
        All-append (Given agent_id now _) r.leased_jobs _
          (All-map (Given agent_id now r.jobs) (Given agent_id now _) r.leased_jobs Given-still
            g.given)
          (Given-new, tt);
    distinct = DistinctJobs-append r.leased_jobs _ g.distinct (
        All-map (Given agent_id now r.jobs) (λ l. l.job_id ≢ job.id) r.leased_jobs Given-apart
          g.given);
    bounded = omega (
      arith,
      t.room,
      length-append r.leased_jobs (leased_job (uuid4 r.uuids_drawn) (slot_of now store) job ∷ []),
    );
  }

-- A turn keeps the facts about the rows and those about the leases together.
abbrev State : ℕ → ℕ → ℕ → Db → Round → Type 0
State agent_id now max_jobs db r = Follows agent_id db r × Granted agent_id now max_jobs r

module _ (uuid4 : ℕ → Str) (locks : Locks) (agent_id now max_jobs : ℕ) {db : Db}
    (w : WellFormed db) where
  visit-Granted :
      (k : ℕ) (r : Round)
      → State agent_id now max_jobs db r
      → State agent_id now max_jobs db (visit uuid4 locks agent_id now max_jobs k r)
  visit-Granted k r s = (
    visit-Follows uuid4 locks agent_id now max_jobs w k r s.0,
    visit_cases uuid4 locks agent_id now max_jobs (Granted agent_id now max_jobs) db.next_job_id k r
        (Follows-Below s.0 w) s.1
        (λ j.
          unfold skip in
          record { given = s.1.given; distinct = s.1.distinct; bounded = s.1.bounded })
        (λ store job t. hand_out-Granted uuid4 locks agent_id now max_jobs r store job t s.1),
  )

-- What a lease call returns and writes.
pub record IsLeaseOf (agent_id now max_jobs : ℕ) (res : List LeasedJob × Db) : Type 0 where
  pub given : All (Given agent_id now res.1.jobs) res.0
  pub distinct : DistinctJobs res.0
  pub bounded : length res.0 ≤ max_jobs
  pub batched : length res.0 ≤ max_lease_batch

-- On a well-formed table, a lease call returns leases of distinct jobs, each written in its job's row
-- with its agent, slot and expiry, each starting in the window, at most `max_jobs` and at most 50.
pub lease-IsLeaseOf :
    (uuid4 : ℕ → Str) (locks : Locks) (agent_id now max_jobs : ℕ) (db : Db)
    → WellFormed db
    → IsLeaseOf agent_id now max_jobs (lease uuid4 locks agent_id now max_jobs db)
unfolding lease
lease-IsLeaseOf uuid4 locks agent_id now max_jobs db w =
    let s =
      (rounds_induction uuid4 locks agent_id now (batch max_jobs)
        (State agent_id now (batch max_jobs) db)
        (visit-Granted uuid4 locks agent_id now (batch max_jobs) w) (lease_fuel max_jobs)
        (start_round locks now (batch max_jobs) (heartbeat agent_id now db))
        (
          start-Follows locks agent_id now (batch max_jobs) db,
          unfold start_round in record { given = tt; distinct = tt; bounded = omega arith },
        )) in
    record {
      given = s.1.given;
      distinct = s.1.distinct;
      bounded = omega (arith, s.1.bounded);
      batched = omega (arith, s.1.bounded);
    }
