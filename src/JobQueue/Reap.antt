-- ===== src/JobQueue/Reap.antt =====
-- `reap` and `status_counts` of src/pipeline/job_queue.py.
use pc_builder.Shared.{
  show_nat, ℕ, ◌+◌, Bool, true, false, not, ◌&&◌, Option, none, some, List, [], ◌∷◌, ◌++◌, map, ltb,
  leb, if◌then◌else◌, nat_eq, option_eq, length, filter, Str, codes, str_eq,
}
use pc_builder.Db.{ScrapeJob, JobStatus, Db}
use pc_builder.Db.Job.{is_leased}
use pc_builder.JobQueue.Config.{Locks, max_attempts, requeue, clear_lease}

abbrev passed : Option ℕ → ℕ → Bool
passed none now = false
passed (some t) now = ltb t now

-- the WHERE of the query and SKIP LOCKED
unfoldable pub is_expired : Locks → ℕ → ScrapeJob → Bool
is_expired locks now job =
    is_leased job.status && passed job.lease_expires_at now && not (locks.job job.id)

abbrev pub out_of_attempts : ScrapeJob → Bool
out_of_attempts job = leb max_attempts job.attempts

-- "lease expired on all {attempts} attempts"
abbrev expired_on_all : Str → Str
expired_on_all attempts = codes "lease expired on all " ++ attempts ++ codes " attempts"

unfoldable pub end_lease : ℕ → ScrapeJob → ScrapeJob
unfolding clear_lease requeue show_nat
end_lease now job =
    if out_of_attempts job
    then clear_lease (record job {
      status = JobStatus.failed;
      reason = some (expired_on_all (show_nat job.attempts));
      finished_at = some now;
    })
    else requeue job now (some (codes "lease expired"))

pub record ReapCounts : Type 0 where
  pub requeued : ℕ
  pub failed : ℕ

unfoldable pub reap_row : Locks → ℕ → ScrapeJob → ScrapeJob
unfolding is_expired end_lease
reap_row locks now job = if is_expired locks now job then end_lease now job else job

abbrev count_reaped : ScrapeJob → ReapCounts → ReapCounts
count_reaped job c =
    if out_of_attempts job
    then record c { failed = c.failed + 1 }
    else record c { requeued = c.requeued + 1 }

unfoldable pub reap_counts : Locks → ℕ → List ScrapeJob → ReapCounts
unfolding is_expired
reap_counts locks now [] = record { requeued = 0; failed = 0 }
reap_counts locks now (job ∷ jobs) =
    let rest = reap_counts locks now jobs in
    if is_expired locks now job then count_reaped job rest else rest

unfoldable pub reap : Locks → ℕ → Db → ReapCounts × Db
unfolding reap_row reap_counts
reap locks now db =
    (reap_counts locks now db.jobs, record db { jobs = map (reap_row locks now) db.jobs })

abbrev same_status : JobStatus → JobStatus → Bool
same_status JobStatus.queued JobStatus.queued = true
same_status JobStatus.leased JobStatus.leased = true
same_status JobStatus.done JobStatus.done = true
same_status JobStatus.failed JobStatus.failed = true
same_status JobStatus.blocked JobStatus.blocked = true
same_status JobStatus.rejected JobStatus.rejected = true
same_status _ _ = false

-- JOB_STATUSES, in its order
abbrev job_statuses : List JobStatus
job_statuses =
    JobStatus.queued ∷ JobStatus.leased ∷ JobStatus.done ∷ JobStatus.failed ∷ JobStatus.blocked
    ∷ JobStatus.rejected ∷ []

unfoldable pub status_counts : Db → List (JobStatus × ℕ)
status_counts db =
    map (λ s. (s, length (filter (λ job. same_status s job.status) db.jobs))) job_statuses
