-- ===== src/JobQueue/Lifecycle.antt =====
-- The queue as a state machine: any interleaving of calls of src/pipeline/job_queue.py, each one
-- transaction, from an empty job table. Stores may change between calls in any way.
use pc_builder.Shared.{ℕ, ◌≡◌, Option, List, nat_eq, option_eq, Str, str_eq}
use pc_builder.Db.{ScrapeJob, Store, ScrapeAgent, Db}
use pc_builder.JobQueue.Config.{Locks, Result, ok}
use pc_builder.JobQueue.Insert.{NewJob, insert_job}
use pc_builder.JobQueue.Lease.{lease}
use pc_builder.JobQueue.Lease.Table.{lease-WellFormed}
use pc_builder.JobQueue.Complete.{Processed, complete}
use pc_builder.JobQueue.Reap.{reap}
use pc_builder.JobQueue.Invariant.{WellFormed}
use pc_builder.JobQueue.Admission.{insert_job-WellFormed}
use pc_builder.JobQueue.Uploads.{IsProcessor}
use pc_builder.JobQueue.Settling.{complete-WellFormed}
use pc_builder.JobQueue.Expiry.{reap-WellFormed}

module _ {ℓ} (uuid4 : ℕ → Str) {Upload : Type ℓ}
    (process : ScrapeJob → Upload → Db → Result (Processed × Db)) where
  pub data Call (db : Db) (after : Db) : Type ℓ where
    inserts :
        (new : NewJob) (now : ℕ) (id : Option ℕ)
        → insert_job new now db ≡ ok (id, after)
        → Call db after
    leases :
        (locks : Locks) (agent now max_jobs : ℕ)
        → after ≡ (lease uuid4 locks agent now max_jobs db).1
        → Call db after
    completes :
        (id : ℕ) (lease_id : Str) (agent : ℕ) (upload : Upload) (now : ℕ)
        → after ≡ (complete process id lease_id agent upload now db).1
        → Call db after
    reaps : (locks : Locks) (now : ℕ) → after ≡ (reap locks now db).1 → Call db after
    -- a store is added or changed, or an agent registers
    edits :
        (stores : List Store) (agents : List ScrapeAgent)
        → after ≡ record db { stores = stores; agents = agents }
        → Call db after

  pub data Reach (db : Db) : Db → Type ℓ where
    start : Reach db db
    then_call : {mid after : Db} → Reach db mid → Call mid after → Reach db after

  Call-WellFormed :
      IsProcessor process → (db after : Db) → Call db after → WellFormed db → WellFormed after
  Call-WellFormed good db after (inserts new now id e) w = insert_job-WellFormed new now db e w
  Call-WellFormed good db after (leases locks agent now max_jobs e) w =
      rw e (lease-WellFormed uuid4 locks agent now max_jobs db w)
  Call-WellFormed good db after (completes id l agent upload now e) w =
      rw e (complete-WellFormed process good id l agent upload now db w)
  Call-WellFormed good db after (reaps locks now e) w = rw e (reap-WellFormed locks now db w)
  Call-WellFormed good db after (edits stores agents e) w =
      rw e (record { jobs_ok = w.jobs_ok; ids = w.ids; pages = w.pages })

  -- After any sequence of calls on a well-formed job table (an empty one is), the table is
  -- well-formed: no job has had more than three leases, a job has a lease id and its expiry exactly
  -- while it is leased, an agent and a slot exactly unless it is queued, and a finishing time exactly
  -- when it is finished, and no page of a store has two live jobs. The processor is one that keeps
  -- the table well-formed and leaves the row of its job alone.
  pub Reach-WellFormed :
      IsProcessor process → {db after : Db} → Reach db after → WellFormed db → WellFormed after
  Reach-WellFormed good start w = w
  Reach-WellFormed good (then_call r c) w = Call-WellFormed good _ _ c (Reach-WellFormed good r w)
