-- ===== src/JobQueue/Complete.antt =====
-- `complete` of src/pipeline/job_queue.py. The result processor is an argument, as in the source: it
-- changes the database inside the transaction, or raises.
use pc_builder.Shared.{
  ℕ, Bool, not, ◌&&◌, Option, none, some, List, leb, if◌then◌else◌, ◌==◌, nat_eq, option_eq, get_or,
  Str, codes, str_eq, is_empty, get_row, update_row,
}
use pc_builder.Db.{ScrapeJob, Outcome, OutcomeStatus, JobStatus, Db, Decimal}
use pc_builder.Db.Job.{is_leased}
use pc_builder.JobQueue.Config.{
  Result, ok, err, ◌>>=◌, stale_lease, processor_status, max_attempts, requeue, clear_lease,
}

-- the dictionary that the processor returns
pub record Processed : Type 0 where
  pub status : Option Str
  pub reason : Option Str
  pub counts : List (Str × ℕ)
  pub pids : List Str
  pub next_job_id : Option ℕ
  pub price : Option Decimal

-- PROCESS_STATUSES
pub data ProcessStatus : Type 0 where
  done blocked rejected failed retry : ProcessStatus

unfoldable pub read_status : Str → Option ProcessStatus
read_status s =
    if s == codes "done"
    then some ProcessStatus.done
    else if s == codes "blocked"
    then some ProcessStatus.blocked
    else if s == codes "rejected"
    then some ProcessStatus.rejected
    else if s == codes "failed"
    then some ProcessStatus.failed
    else if s == codes "retry"
    then some ProcessStatus.retry
    else none

-- "retry" re-queues until the attempts run out.
unfoldable pub final_status : ℕ → ProcessStatus → OutcomeStatus
final_status attempts ProcessStatus.done = OutcomeStatus.done
final_status attempts ProcessStatus.blocked = OutcomeStatus.blocked
final_status attempts ProcessStatus.rejected = OutcomeStatus.rejected
final_status attempts ProcessStatus.failed = OutcomeStatus.failed
final_status attempts ProcessStatus.retry =
    if leb max_attempts attempts then OutcomeStatus.failed else OutcomeStatus.requeued

-- {**result, "status": status}
unfoldable pub make_outcome : Processed → OutcomeStatus → Outcome
make_outcome p status = record {
  status = status;
  reason = p.reason;
  counts = p.counts;
  pids = p.pids;
  next_job_id = p.next_job_id;
  price = p.price;
}

finish : ScrapeJob → ℕ → JobStatus → Option Str → ScrapeJob
unfolding clear_lease
finish job now status reason =
    clear_lease (record job { status = status; reason = reason; finished_at = some now })

end_job : OutcomeStatus → ScrapeJob → ℕ → Option Str → ScrapeJob
unfolding finish requeue
end_job OutcomeStatus.requeued job now reason = requeue job now reason
end_job OutcomeStatus.done job now reason = finish job now JobStatus.done reason
end_job OutcomeStatus.failed job now reason = finish job now JobStatus.failed reason
end_job OutcomeStatus.blocked job now reason = finish job now JobStatus.blocked reason
end_job OutcomeStatus.rejected job now reason = finish job now JobStatus.rejected reason

-- the writes to the job row after a processed upload
unfoldable pub settle : Str → Outcome → ℕ → ScrapeJob → ScrapeJob
unfolding end_job
settle lease_id outcome now job =
    end_job outcome.status (record job { result_lease_id = some lease_id; outcome = some outcome })
      now outcome.reason

-- The outcome that is stored for this very lease.
abbrev pub stored : Str → ScrapeJob → Option Outcome
stored lease_id job =
    if not (is_empty lease_id) && job.result_lease_id == some lease_id then job.outcome else none

unfoldable pub is_current : Str → ℕ → ScrapeJob → Bool
is_current lease_id agent_id job =
    is_leased job.status && job.lease_id == some lease_id && job.agent_id == some agent_id

unfoldable pub check_status : Option Str → Result ProcessStatus
unfolding read_status
check_status none = err (processor_status none)
check_status (some s) = elim (read_status s) [
  | none ↦ err (processor_status (some s))
  | some st ↦ ok st
]

module _ {ℓ} {Upload : Type ℓ} (process : ScrapeJob → Upload → Db → Result (Processed × Db)) where
  -- the `try` block: what the processor did, if it did not raise
  unfoldable pub run_process : ScrapeJob → Upload → Db → Result (ProcessStatus × Processed × Db)
  unfolding check_status
  run_process job upload db = do
    (processed, after) ← process job upload db
    status ← check_status processed.status
    ok (status, processed, after)

  -- The job object is the row as the processor left it.
  unfoldable pub save_outcome : ScrapeJob → Str → ℕ → ProcessStatus × Processed × Db → Outcome × Db
  unfolding final_status make_outcome settle
  save_outcome job lease_id now (status, processed, after) =
      let row = get_or (get_row (λ j. j.id) job.id after.jobs) job in
      let outcome = make_outcome processed (final_status row.attempts status) in
      (
        outcome,
        record after {
          jobs = update_row (λ j. j.id) job.id (settle lease_id outcome now) after.jobs;
        },
      )

  -- after a rollback the database is as it was
  unfoldable pub finish_upload :
      ScrapeJob → Str → ℕ → Db → Result (ProcessStatus × Processed × Db) → Result Outcome × Db
  unfolding save_outcome
  finish_upload job lease_id now db (err e) = (err e, db)
  finish_upload job lease_id now db (ok r) =
      let (outcome, after) = save_outcome job lease_id now r in (ok outcome, after)

  unfoldable pub take_upload :
      ScrapeJob → Str → ℕ → Upload → ℕ → Db → Option Outcome → Result Outcome × Db
  unfolding is_current run_process finish_upload
  take_upload job lease_id agent_id upload now db (some outcome) = (ok outcome, db)
  take_upload job lease_id agent_id upload now db none =
      if is_current lease_id agent_id job
      then finish_upload job lease_id now db (run_process job upload db)
      else (err (stale_lease job.id lease_id), db)

  unfoldable pub complete_row :
      Option ScrapeJob → ℕ → Str → ℕ → Upload → ℕ → Db → Result Outcome × Db
  unfolding take_upload
  complete_row none job_id lease_id agent_id upload now db = (err (stale_lease job_id lease_id), db)
  complete_row (some job) job_id lease_id agent_id upload now db =
      take_upload job lease_id agent_id upload now db (stored lease_id job)

  unfoldable pub complete : ℕ → Str → ℕ → Upload → ℕ → Db → Result Outcome × Db
  unfolding complete_row
  complete job_id lease_id agent_id upload now db =
      complete_row (get_row (λ j. j.id) job_id db.jobs) job_id lease_id agent_id upload now db
