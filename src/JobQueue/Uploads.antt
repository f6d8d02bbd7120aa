-- ===== src/JobQueue/Uploads.antt =====
-- How `complete` accepts or refuses an upload, and what it leaves alone when it raises.
use pc_builder.Shared.{
  ℕ, ◌≡◌, refl, ap, ◌∙◌, ◌≢◌, ◌↔◌, inl, inr, true, false, Option, none, some, [], arith, ◌==◌,
  nat_eq, option_eq, Bool-cases, Option-cases, Str, str_beq_iff, str_eq, is_empty, get_row,
  get_row-key,
}
use pc_builder.Db.{ScrapeJob, JobStatus, Db, Outcome}
use pc_builder.JobQueue.Config.{Result, ok, err, stale_lease, QueueError}
use pc_builder.JobQueue.Complete.{
  ProcessStatus, Processed, stored, is_current, run_process, save_outcome, complete, finish_upload,
  take_upload, settle,
}
use pc_builder.JobQueue.Invariant.{WellFormed, job_id}

-- What `complete` relies on of a result processor that returns: the job table stays well-formed (it
-- may queue the next page), and the row of the job is left alone. The job is a row of the table.
pub record IsProcessor {ℓ} {Upload : Type ℓ}
    (process : ScrapeJob → Upload → Db → Result (Processed × Db)) : Type ℓ where
  pub keeps :
      (job : ScrapeJob) (upload : Upload) (db after : Db) (p : Processed)
      → process job upload db ≡ ok (p, after)
      → WellFormed db
      → WellFormed after
  pub row :
      (job : ScrapeJob) (upload : Upload) (db after : Db) (p : Processed)
      → process job upload db ≡ ok (p, after)
      → WellFormed db
      → get_row job_id job.id db.jobs ≡ some job
      → get_row job_id job.id after.jobs ≡ some job

-- A job that is not the uploader's to finish: its lease is not the one named, or it is not leased to
-- the agent, and it has no outcome that was stored for a lease of that name.
pub record IsForeign (lease : Str) (agent : ℕ) (job : ScrapeJob) : Type 0 where
  pub no_outcome :
      (o : Outcome) → job.result_lease_id ≡ some lease → job.outcome ≡ some o → lease ≡ []
  pub not_leased :
      job.status ≡ JobStatus.leased → job.lease_id ≡ some lease → job.agent_id ≢ some agent

module _ (lease : Str) (agent : ℕ) (job : ScrapeJob) where
  same_lease_iff : (l : Option Str) → (l == some lease ≡ true) ↔ (l ≡ some lease)
  same_lease_iff none = (λ p. cc, λ p. cc)
  same_lease_iff (some l) = ground (arith, str_beq_iff l lease)

  stored-again :
      (o : Outcome)
      → stored lease job ≡ some o
      → (lease ≢ []) × (job.result_lease_id ≡ some lease) × (job.outcome ≡ some o)
  stored-again o h = (λ e. cc, (same_lease_iff job.result_lease_id).0 (ground arith), ground arith)

  IsForeign-stored : IsForeign lease agent job → stored lease job ≡ none
  IsForeign-stored h = elim (Option-cases (stored lease job)) [
    | inl e ↦ e
    | inr (o, e) ↦ let (a, b, c) = stored-again o e in absurd (a (h.no_outcome o b c))
  ]

  current_iff : (is_current lease agent job ≡ true) ↔ (
      (job.status ≡ JobStatus.leased) × (job.lease_id ≡ some lease) × (job.agent_id ≡ some agent))
  unfolding is_current
  current_iff = ground (arith, same_lease_iff job.lease_id)

  IsForeign-current : IsForeign lease agent job → is_current lease agent job ≡ false
  IsForeign-current h = elim (Bool-cases (is_current lease agent job)) [
    | inl e ↦ (let (a, b, c) = current_iff.0 e in absurd (h.not_leased a b c))
    | inr e ↦ e
  ]

module _ {ℓ} {Upload : Type ℓ} (process : ScrapeJob → Upload → Db → Result (Processed × Db)) where
  -- If `complete` raises, for whatever reason, the database is as it was before.
  pub complete_atomic :
      (id : ℕ) (lease : Str) (agent : ℕ) (upload : Upload) (now : ℕ) (db : Db) (e : QueueError)
      → (complete process id lease agent upload now db).0 ≡ err e
      → (complete process id lease agent upload now db).1 ≡ db
  unfolding complete
  complete_atomic id lease agent upload now db e h = ground arith

  take_stale :
      (lease : Str) (agent : ℕ) (upload : Upload) (now : ℕ) (db : Db) (job : ScrapeJob)
      → IsForeign lease agent job
      → take_upload process job lease agent upload now db (stored lease job)
        ≡ (err (stale_lease job.id lease), db)
  unfolding take_upload
  take_stale lease agent upload now db job h =
      rw (IsForeign-stored lease agent job h, IsForeign-current lease agent job h) refl

  pub complete-stored :
      (id : ℕ) (lease : Str) (agent : ℕ) (upload : Upload) (now : ℕ) (db : Db) (job : ScrapeJob)
      (o : Outcome)
      → get_row job_id id db.jobs ≡ some job
      → stored lease job ≡ some o
      → complete process id lease agent upload now db ≡ (ok o, db)
  unfolding complete
  complete-stored id lease agent upload now db job o e s = rw (e, s) refl

  -- How an upload is accepted: its outcome was stored, or it was processed under its lease.
  pub data Accepted (lease : Str) (agent : ℕ) (upload : Upload) (now : ℕ) (db : Db)
      (job : ScrapeJob) (o : Outcome) (after : Db) : Type 0 where
    repeated :
        stored lease job ≡ some o → after ≡ db → Accepted lease agent upload now db job o after
    processed :
        is_current lease agent job ≡ true
        → (r : ProcessStatus × Processed × Db) → run_process process job upload db ≡ ok r
        → save_outcome process job lease now r ≡ (o, after)
        → Accepted lease agent upload now db job o after

  module _ (lease : Str) (agent : ℕ) (upload : Upload) (now : ℕ) (db : Db) (job : ScrapeJob)
      {o : Outcome} {after : Db} where
    finish_cases :
        is_current lease agent job ≡ true
        → (r : Result (ProcessStatus × Processed × Db)) → run_process process job upload db ≡ r
        → finish_upload process job lease now db r ≡ (ok o, after)
        → Accepted lease agent upload now db job o after
    unfolding finish_upload
    finish_cases c (err x) e h = absurd (ground arith)
    finish_cases c (ok r) e h = processed c r e (ground arith)

    take_cases :
        (found : Option Outcome)
        → stored lease job ≡ found
        → take_upload process job lease agent upload now db found ≡ (ok o, after)
        → Accepted lease agent upload now db job o after
    unfolding take_upload
    take_cases (some x) s h = repeated (s ∙ ground arith) (ground arith)
    take_cases none s h = elim (Bool-cases (is_current lease agent job)) [
      | inl c ↦ finish_cases c (run_process process job upload db) refl (rw c at h)
      | inr c ↦ absurd (ground arith)
    ]

  pub Accepted-upload :
      (id : ℕ) (lease : Str) (agent : ℕ) (upload : Upload) (now : ℕ) (db : Db) {o : Outcome}
      {after : Db}
      → complete process id lease agent upload now db ≡ (ok o, after)
      → (job : ScrapeJob) × (get_row job_id id db.jobs ≡ some job)
        × Accepted lease agent upload now db job o after
  unfolding complete
  Accepted-upload id lease agent upload now db {o} {after} h =
      elim (Option-cases (get_row job_id id db.jobs)) [
        | inl e ↦ absurd (ground arith)
        | inr (job, e) ↦
            (job, e, take_cases lease agent upload now db job (stored lease job) refl (rw e at h))
      ]

  -- An upload is refused with `StaleLease`, and changes nothing, if the job is not there or not for it:
  -- no outcome is stored in it for the (non-empty) lease, and it is not leased under that lease to
  -- that agent.
  pub complete_stale :
      (id : ℕ) (lease : Str) (agent : ℕ) (upload : Upload) (now : ℕ) (db : Db)
      → ((job : ScrapeJob) → get_row job_id id db.jobs ≡ some job → IsForeign lease agent job)
      → complete process id lease agent upload now db ≡ (err (stale_lease id lease), db)
  unfolding complete
  complete_stale id lease agent upload now db h = elim (Option-cases (get_row job_id id db.jobs)) [
    | inl e ↦ rw e refl
    | inr (job, e) ↦ rw e (
        take_stale lease agent upload now db job (h job e)
        ∙ ap (λ k. (err (stale_lease k lease), db)) (get_row-key job_id id db.jobs e))
  ]

pub stored-settle :
    (lease : Str) (o : Outcome) (now : ℕ) (j : ScrapeJob)
    → is_empty lease ≡ false
    → stored lease (settle lease o now j) ≡ some o
unfolding settle
stored-settle lease o now j h = ground (arith, str_beq_iff lease lease)

pub run_process-ok {ℓ} :
    {Upload : Type ℓ} (process : ScrapeJob → Upload → Db → Result (Processed × Db))
    (job : ScrapeJob) (upload : Upload) (db : Db) {r : ProcessStatus × Processed × Db}
    → run_process process job upload db ≡ ok r
    → process job upload db ≡ ok (r.1, r.2)
unfolding run_process
run_process-ok process job upload db h = ground arith
