-- ===== src/JobQueue/Expiry.antt =====
-- What `reap` does to expired leases, and `status_counts` over the whole table.
use pc_builder.Shared.{
  ℕ, ◌+◌, ◌≡◌, refl, Bool, true, false, not, ◌&&◌, none, some, List, [], ◌∷◌, map, arith, ltb,
  if◌then◌else◌, nat_eq, option_eq, length, filter, str_eq, Pointwise-map,
}
use pc_builder.Db.{ScrapeJob, JobStatus, Db}
use pc_builder.JobQueue.Config.{Locks}
use pc_builder.Db.Job.{is_leased, is_queued}
use pc_builder.JobQueue.Reap.{
  ReapCounts, end_lease, out_of_attempts, is_expired, reap_row, reap, reap_counts,
}
use pc_builder.JobQueue.Invariant.{WellFormed, WellFormed-Advance, Advance}
use pc_builder.JobQueue.Rows.{EndMove, reap_row-Advance}

-- how many rows move from leased to a status of the test, in a table before and after
abbrev moved_to : (JobStatus → Bool) → List ScrapeJob → List ScrapeJob → ℕ
moved_to p [] ys = 0
moved_to p (x ∷ xs) [] = 0
moved_to p (x ∷ xs) (y ∷ ys) =
    let rest = moved_to p xs ys in if is_leased x.status && p y.status then rest + 1 else rest

abbrev is_failed : JobStatus → Bool
is_failed JobStatus.failed = true
is_failed JobStatus.queued = false
is_failed JobStatus.leased = false
is_failed JobStatus.done = false
is_failed JobStatus.blocked = false
is_failed JobStatus.rejected = false

-- leased, expired before now, and not locked by another transaction
abbrev is_overdue : Locks → ℕ → ScrapeJob → Bool
is_overdue locks now job =
    is_leased job.status
    && not (locks.job job.id)
    && elim job.lease_expires_at [ none ↦ false | some t ↦ ltb t now ]

-- What the counts of a reaping say of the table before and after it.
pub record CountsEnds (locks : Locks) (now : ℕ) (before after : List ScrapeJob) (c : ReapCounts)
    : Type 0 where
  pub requeued : c.requeued ≡ moved_to is_queued before after
  pub failed : c.failed ≡ moved_to is_failed before after
  pub all_overdue : c.requeued + c.failed ≡ length (filter (is_overdue locks now) before)

module _ (locks : Locks) (now : ℕ) where
  -- Reaping keeps the job table well-formed.
  pub reap-WellFormed : (db : Db) → WellFormed db → WellFormed (reap locks now db).1
  unfolding reap
  reap-WellFormed db w =
      WellFormed-Advance EndMove db _ refl
        (Pointwise-map (Advance EndMove) (reap_row locks now) (reap_row-Advance locks now) db.jobs)
        w

  reap_row-expired : (j : ScrapeJob) → is_expired locks now (reap_row locks now j) ≡ false
  unfolding reap_row
  reap_row-expired j = ground arith

  none_expired :
      (jobs : List ScrapeJob)
      → reap_counts locks now (map (reap_row locks now) jobs) ≡ record { requeued = 0; failed = 0 }
  unfolding reap_counts
  none_expired [] = refl
  none_expired (j ∷ jobs) = rw (reap_row-expired j) (none_expired jobs)

  reap_row_again :
      (j : ScrapeJob) → reap_row locks now (reap_row locks now j) ≡ reap_row locks now j
  reap_row_again j = reap_row_fixed (reap_row locks now j) (reap_row-expired j)
    where
      reap_row_fixed : (x : ScrapeJob) → is_expired locks now x ≡ false → reap_row locks now x ≡ x
      reap_row_fixed x e = unfold reap_row in rw e refl

  -- Reaping again at the same time, with the same rows locked, finds nothing to reap.
  pub reap_again :
      (db : Db)
      → (reap_counts locks now (reap locks now db).1.jobs ≡ record { requeued = 0; failed = 0 })
  unfolding reap
  reap_again db = none_expired db.jobs

  ends-requeued :
      (j : ScrapeJob)
      → (is_leased j.status && is_queued (reap_row locks now j).status)
        ≡ (is_expired locks now j && not (out_of_attempts j))
  unfolding reap_row
  ends-requeued j = unfold end_lease in ground arith

  ends-failed :
      (j : ScrapeJob)
      → (is_leased j.status && is_failed (reap_row locks now j).status)
        ≡ (is_expired locks now j && out_of_attempts j)
  unfolding reap_row
  ends-failed j = unfold end_lease in ground arith

  is_expired-overdue : (j : ScrapeJob) → is_expired locks now j ≡ is_overdue locks now j
  unfolding is_expired
  is_expired-overdue j = ground arith

  counted :
      (jobs : List ScrapeJob)
      → CountsEnds locks now jobs (map (reap_row locks now) jobs) (reap_counts locks now jobs)
  unfolding reap_counts
  counted [] = record { requeued = refl; failed = refl; all_overdue = omega arith }
  counted (j ∷ jobs) =
      let rest = counted jobs in
      record {
        requeued = ground (arith, rest.requeued, ends-requeued j);
        failed = ground (arith, rest.failed, ends-failed j);
        all_overdue = ground (arith, rest.all_overdue, is_expired-overdue j);
      }

  -- The two counts that `reap` returns are the number of rows that it takes from leased back to
  -- queued and the number that it takes from leased to failed, row by row before and after; together
  -- they are the rows that were leased, with an expiry before now, and not locked.
  pub reap_counts_sum :
      (db : Db) → CountsEnds locks now db.jobs (reap locks now db).1.jobs (reap locks now db).0
  unfolding reap
  reap_counts_sum db = counted db.jobs
