-- ===== src/JobQueue/Settling.antt =====
-- What an accepted upload writes, and that it is processed at most once.
use mathlib.Core.Path.{subst}
use pc_builder.Shared.{◌+◌, ◌-◌, ◌*◌, ◌^◌, ◌<◌, ◌≢◌, some_inj}
use pc_builder.Shared.{get_row-update_row_self, Pointwise-update_row}
use pc_builder.Shared.{sym, update_row}
use pc_builder.Shared.{
  ◌∙◌, is_empty, true, false, get_row-key, refl, ap, some, none, ℕ, ◌≡◌, refl, ap, ◌∙◌, true, false,
  none, some, arith, nat_eq, option_eq, Str, str_eq, is_empty, get_row, get_row-key,
}
use pc_builder.Db.Job.{is_active}
use pc_builder.JobQueue.Config.{max_attempts, backoff}
use pc_builder.Db.{JobStatus, OutcomeStatus, seconds}
use pc_builder.Db.{ScrapeJob, Db, Outcome}
use pc_builder.Db.Job.{is_leased}
use pc_builder.JobQueue.Config.{Result, ok, err}
use pc_builder.JobQueue.Complete.{
  stored, make_outcome, final_status, ProcessStatus, Processed, stored, is_current, run_process,
  save_outcome, complete, settle,
}
use pc_builder.JobQueue.Rows.{EndMove, settle-Advance}
use pc_builder.JobQueue.Invariant.{WellFormed, WellFormed-Advance, Advance, Advance-refl, job_id}
use pc_builder.JobQueue.Uploads.{
  repeated, processed, IsProcessor, complete_atomic, complete-stored, Accepted, Accepted-upload,
  stored-settle, run_process-ok,
}

settled : Str → Outcome → ℕ → ℕ → Db → Db
settled lease o now id d = record d { jobs = update_row job_id id (settle lease o now) d.jobs }

module _ {ℓ} {Upload : Type ℓ} (process : ScrapeJob → Upload → Db → Result (Processed × Db))
    (good : IsProcessor process) (lease : Str) (agent : ℕ) (upload : Upload) (now : ℕ) (db : Db)
    (job : ScrapeJob) {o : Outcome} {after : Db} where
  -- What a processed upload writes.
  saved :
      (r : ProcessStatus × Processed × Db)
      → WellFormed db
      → get_row job_id job.id db.jobs ≡ some job
      → run_process process job upload db ≡ ok r
      → save_outcome process job lease now r ≡ (o, after)
      → (get_row job_id job.id r.2.jobs ≡ some job)
        × (o ≡ make_outcome r.1 (final_status job.attempts r.0))
        × (after ≡ settled lease o now job.id r.2)
  unfolding save_outcome settled
  saved r v row ran h =
      let found = good.row job upload db r.2 r.1 (run_process-ok process job upload db ran) v row in
      let h' = rw found at h in
      let outcome = ap (λ (x : Outcome × Db). x.0) h' in
      (
        found,
        sym outcome,
        sym (ap (λ (x : Outcome × Db). x.1) h')
            ∙ ap (λ (x : Outcome). settled lease x now job.id r.2) outcome,
      )

settle-id : (lease : Str) (o : Outcome) (now : ℕ) (j : ScrapeJob) → (settle lease o now j).id ≡ j.id
unfolding settle
settle-id lease o now j = ground arith

is_current-leased :
    (lease : Str) (agent : ℕ) (job : ScrapeJob)
    → is_current lease agent job ≡ true
    → is_leased job.status ≡ true
unfolding is_current
is_current-leased lease agent job h = ground arith

module _ {ℓ} {Upload : Type ℓ} (process : ScrapeJob → Upload → Db → Result (Processed × Db))
    (good : IsProcessor process) (lease : Str) (agent : ℕ) (upload : Upload) (now : ℕ) (db : Db)
    (job : ScrapeJob) {o : Outcome} {after : Db}
    (row : get_row job_id job.id db.jobs ≡ some job) where
  Accepted-row :
      WellFormed db
      → is_empty lease ≡ false
      → Accepted process lease agent upload now db job o after
      → (j : ScrapeJob) × (get_row job_id job.id after.jobs ≡ some j) × (stored lease j ≡ some o)
  unfolding settled
  Accepted-row v set (repeated s e) =
      (job, ap (λ (d : Db). get_row job_id job.id d.jobs) e ∙ row, s)
  Accepted-row v set (processed c r ran h) =
      let w = saved process good lease agent upload now db job r v row ran h in
      (
        settle lease o now job,
        ap (λ (d : Db). get_row job_id job.id d.jobs) w.2
            ∙ get_row-update_row_self job_id job.id (settle lease o now) r.2.jobs
                (settle-id lease o now) w.0,
        stored-settle lease o now job set,
      )

  Accepted-WellFormed :
      WellFormed db → Accepted process lease agent upload now db job o after → WellFormed after
  unfolding settled
  Accepted-WellFormed v (repeated s e) = subst WellFormed (sym e) v
  Accepted-WellFormed v (processed c r ran h) =
      let w = saved process good lease agent upload now db job r v row ran h in
      let kept = good.keeps job upload db r.2 r.1 (run_process-ok process job upload db ran) v in
      subst WellFormed (sym w.2) (
        WellFormed-Advance EndMove r.2 (settled lease o now job.id r.2) refl
          (Pointwise-update_row (Advance EndMove) job_id r.2.next_job_id job.id (settle lease o now)
            r.2.jobs (Advance-refl EndMove EndMove.stay) kept.ids w.0
            (subst (λ (x : Outcome). Advance EndMove job (settle lease x now job)) (sym w.1)
              (settle-Advance lease r.1 r.0 now job (is_current-leased lease agent job c))))
          kept)

module _ {ℓ} {Upload : Type ℓ} (process : ScrapeJob → Upload → Db → Result (Processed × Db))
    (good : IsProcessor process) where
  -- An upload is processed at most once: after it has been accepted under a lease (whose id is not
  -- empty), the same job and lease again get the stored outcome, and change nothing, from any agent,
  -- with any upload, at any time and whatever the processor would do.
  pub complete_repeated :
      (id : ℕ) (lease : Str) (agent : ℕ) (upload : Upload) (now : ℕ) (db : Db) {o : Outcome}
      {after : Db}
      → complete process id lease agent upload now db ≡ (ok o, after)
      → is_empty lease ≡ false
      → WellFormed db
      → (other : ScrapeJob → Upload → Db → Result (Processed × Db)) (agent' : ℕ) (upload' : Upload)
        (later : ℕ)
      → complete other id lease agent' upload' later after ≡ (ok o, after)
  complete_repeated id lease agent upload now db {o} {after} h set w other agent' upload' later =
      let (job, row, acc) = Accepted-upload process id lease agent upload now db h in
      let same = get_row-key job_id id db.jobs row in
      let (j, found, kept) =
        Accepted-row process good lease agent upload now db job
          (ap (λ k. get_row job_id k db.jobs) same ∙ row) w set acc in
      complete-stored other id lease agent' upload' later after j o
        (ap (λ k. get_row job_id k after.jobs) (sym same) ∙ found) kept

  -- Completing an upload keeps the job table well-formed, whether it succeeds or raises.
  pub complete-WellFormed :
      (id : ℕ) (lease : Str) (agent : ℕ) (upload : Upload) (now : ℕ) (db : Db)
      → WellFormed db
      → WellFormed (complete process id lease agent upload now db).1
  complete-WellFormed id lease agent upload now db w =
      go (complete process id lease agent upload now db).0 refl
    where
      go :
          (r : Result Outcome)
          → (complete process id lease agent upload now db).0 ≡ r
          → WellFormed (complete process id lease agent upload now db).1
      go (err e) h =
          subst WellFormed (sym (complete_atomic process id lease agent upload now db e h)) w
      go (ok o) h =
          let (job, row, acc) =
            Accepted-upload process id lease agent upload now db {o = o}
              {after = (complete process id lease agent upload now db).1}
              (ap (λ (x : Result Outcome). (x, (complete process id lease agent upload now db).1))
                h) in
          Accepted-WellFormed process good lease agent upload now db job
            (ap (λ k. get_row job_id k db.jobs) (get_row-key job_id id db.jobs row) ∙ row) w acc

-- What the row of a job says after an upload for it has been processed with the outcome `o`.
pub record Settled (lease : Str) (o : Outcome) (now : ℕ) (before after : ScrapeJob) : Type 0 where
  pub answered : (after.result_lease_id ≡ some lease) × (after.outcome ≡ some o)
  pub lease_over : (after.lease_id ≡ none) × (after.lease_expires_at ≡ none)
  pub reason : after.reason ≡ o.reason
  pub attempts : after.attempts ≡ before.attempts
  pub again :
      o.status ≡ OutcomeStatus.requeued
      → (before.attempts < max_attempts)
        × (after.status ≡ JobStatus.queued)
        × (after.available_at ≡ now + seconds (60 * 2 ^ (before.attempts - 1)))
        × (after.agent_id ≡ none)
        × (after.not_before ≡ none)
  pub over :
      o.status ≢ OutcomeStatus.requeued
      → (is_active after.status ≡ false)
        × (after.finished_at ≡ some now)
        × (after.agent_id ≡ before.agent_id)
        × (after.not_before ≡ before.not_before)

settle-Settled :
    (lease : Str) (p : Processed) (st : ProcessStatus) (now : ℕ) (j : ScrapeJob)
    → Settled lease
        (make_outcome p (final_status j.attempts st))
        now
        j
        (settle lease (make_outcome p (final_status j.attempts st)) now j)
unfolding settle final_status make_outcome backoff
settle-Settled lease p ProcessStatus.done now j = ground arith
settle-Settled lease p ProcessStatus.blocked now j = ground arith
settle-Settled lease p ProcessStatus.rejected now j = ground arith
settle-Settled lease p ProcessStatus.failed now j = ground arith
settle-Settled lease p ProcessStatus.retry now j = ground arith

module _ {ℓ} {Upload : Type ℓ} (process : ScrapeJob → Upload → Db → Result (Processed × Db))
    (good : IsProcessor process) where
  -- After an upload that had no stored outcome has been accepted, the job's row stores the outcome
  -- and has no lease. If the outcome is requeued, the job had fewer than three attempts and waits
  -- for 60 s times 2 to the number of earlier attempts; if not, the job is finished now and still
  -- names its agent and slot.
  pub complete-Settled :
      (id : ℕ) (lease : Str) (agent : ℕ) (upload : Upload) (now : ℕ) (db : Db) {o : Outcome}
      {after : Db} (job : ScrapeJob)
      → complete process id lease agent upload now db ≡ (ok o, after)
      → get_row job_id id db.jobs ≡ some job
      → stored lease job ≡ none
      → WellFormed db
      → (j : ScrapeJob) × (get_row job_id id after.jobs ≡ some j) × Settled lease o now job j
  unfolding settled
  complete-Settled id lease agent upload now db {o} {after} job h row fresh v =
      let (job', row', acc) = Accepted-upload process id lease agent upload now db h in
      let same : job' ≡ job = some_inj (sym row' ∙ row) in
      settled_row
        (subst (λ (x : ScrapeJob). Accepted process lease agent upload now db x o after) same acc)
    where
      at_id : job.id ≡ id
      at_id = get_row-key job_id id db.jobs row

      settled_row :
          Accepted process lease agent upload now db job o after
          → (j : ScrapeJob) × (get_row job_id id after.jobs ≡ some j) × Settled lease o now job j
      settled_row (repeated s e) = absurd (ground arith)
      settled_row (processed c r ran e) =
          let w =
            saved process good lease agent upload now db job r v
              (ap (λ k. get_row job_id k db.jobs) at_id ∙ row) ran e in
          (
            settle lease o now job,
            ap (λ k. get_row job_id k after.jobs) (sym at_id)
                ∙ ap (λ (d : Db). get_row job_id job.id d.jobs) w.2
                ∙ get_row-update_row_self job_id job.id (settle lease o now) r.2.jobs
                    (settle-id lease o now) w.0,
            subst (λ (x : Outcome). Settled lease x now job (settle lease x now job)) (sym w.1)
                (settle-Settled lease r.1 r.0 now job),
          )
