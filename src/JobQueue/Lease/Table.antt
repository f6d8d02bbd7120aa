-- ===== src/JobQueue/Lease/Table.antt =====
-- What `lease` does to the job table: rows stay or are handed out, and the table stays well-formed.
use mathlib.Core.Path.{subst}
use pc_builder.Shared.{
  ℕ, ◌+◌, ◌*◌, ◌≡◌, refl, sym, ◌∙◌, true, some, arith, nat_eq, option_eq, Str, str_eq, Below,
  Pointwise, Pointwise-refl, Pointwise-mono, Pointwise-trans, Pointwise-Below, Pointwise-update_row,
}
use pc_builder.Db.{ScrapeJob, JobStatus, Store, Db}
use pc_builder.Db.Job.{is_queued}
use pc_builder.JobQueue.Config.{Locks}
use pc_builder.JobQueue.Lease.{
  Round, give_lease, is_due, visit, skip, hand_out, rounds, slot_of, lease, heartbeat, start_round,
  batch, lease_fuel,
}
use pc_builder.JobQueue.Lease.Turns.{Turn, visit_cases, rounds_induction}
use pc_builder.JobQueue.Invariant.{job_id, Advance, Advance-refl, WellFormed, WellFormed-Advance}
use pc_builder.JobQueue.Rows.{LeaseMove, give_lease-Advance}

-- What a lease call of an agent may do to a row: nothing at all, or hand out a queued job. That sets
-- the columns of the lease and counts the attempt, and nothing else changes.
pub data Handed (agent_id : ℕ) (x y : ScrapeJob) : Type 0 where
  stayed : y ≡ x → Handed agent_id x y
  handed :
      (lease : Str) (slot : ℕ)
      → x.status ≡ JobStatus.queued
      → y ≡ record x {
        status = JobStatus.leased;
        lease_id = some lease;
        agent_id = some agent_id;
        attempts = x.attempts + 1;
        not_before = some slot;
        lease_expires_at = some (slot + 120 * 1000000);
      }
      → Handed agent_id x y

Handed-trans :
    (agent_id : ℕ) (x y z : ScrapeJob)
    → Handed agent_id x y
    → Handed agent_id y z
    → Handed agent_id x z
Handed-trans agent_id x y z (stayed p) (stayed q) = stayed (q ∙ p)
Handed-trans agent_id x y z (stayed p) (handed l s h q) =
    subst (λ a. Handed agent_id a z) p (handed l s h q)
Handed-trans agent_id x y z (handed l s h p) (stayed q) = handed l s h (q ∙ p)
Handed-trans agent_id x y z (handed l s h p) (handed l' s' h' q) = absurd (cc)

give_lease-Handed :
    (lease : Str) (agent_id slot : ℕ) (j : ScrapeJob)
    → is_queued j.status ≡ true
    → Handed agent_id j (give_lease lease agent_id slot j)
unfolding give_lease
give_lease-Handed lease agent_id slot j q = handed lease slot (ground arith) refl

pub Handed-Advance : (agent_id : ℕ) (x y : ScrapeJob) → Handed agent_id x y → Advance LeaseMove x y
Handed-Advance agent_id x y (stayed p) =
    subst (Advance LeaseMove x) (sym p) (Advance-refl LeaseMove LeaseMove.stay x)
Handed-Advance agent_id x y (handed l s h p) =
    subst (Advance LeaseMove x) (sym p)
      (unfold give_lease in give_lease-Advance l agent_id s x (ground arith))

-- The rows of `r` are those of `db`, stayed or handed out to the agent.
pub record Follows (agent_id : ℕ) (db : Db) (r : Round) : Type 0 where
  pub rows : Pointwise (Handed agent_id) db.jobs r.jobs
  pub sequence : r.next_job_id ≡ db.next_job_id

pub Follows-Below :
    {agent_id : ℕ} {db : Db} {r : Round}
    → Follows agent_id db r
    → WellFormed db
    → Below job_id db.next_job_id r.jobs
Follows-Below {agent_id} {db} f w =
    Pointwise-Below (Handed agent_id) job_id (λ x y a. (Handed-Advance agent_id x y a).same_id)
      db.next_job_id f.rows w.ids

is_due-queued :
    (now store_id : ℕ) (job : ScrapeJob)
    → is_due now store_id job ≡ true
    → is_queued job.status ≡ true
unfolding is_due
is_due-queued now store_id job h = ground arith

module _ (uuid4 : ℕ → Str) (locks : Locks) (agent_id now max_jobs : ℕ) {db : Db}
    (w : WellFormed db) where
  hand_out-Follows :
      (r : Round) (store : Store) (job : ScrapeJob)
      → Turn locks now max_jobs r store job
      → Follows agent_id db r
      → Follows agent_id db (hand_out uuid4 agent_id now store r job)
  unfolding hand_out
  hand_out-Follows r store job t f = record {
    rows = Pointwise-trans (Handed agent_id) (Handed-trans agent_id) f.rows (
        Pointwise-update_row (Handed agent_id) job_id db.next_job_id job.id _ r.jobs
          (λ x. stayed refl) (Follows-Below f w) t.picked.row
          (give_lease-Handed _ agent_id (slot_of now store) job
            (is_due-queued now store.id job t.picked.due)));
    sequence = f.sequence;
  }

  pub visit-Follows :
      (k : ℕ) (r : Round)
      → Follows agent_id db r
      → Follows agent_id db (visit uuid4 locks agent_id now max_jobs k r)
  visit-Follows k r f =
      visit_cases uuid4 locks agent_id now max_jobs (Follows agent_id db) db.next_job_id k r
        (Follows-Below f w) f (λ j. unfold skip in record { rows = f.rows; sequence = f.sequence })
        (λ store job t. hand_out-Follows r store job t f)

pub start-Follows :
    (locks : Locks) (agent_id now max_jobs : ℕ) (db : Db)
    → Follows agent_id db (start_round locks now max_jobs (heartbeat agent_id now db))
unfolding start_round heartbeat
start-Follows locks agent_id now max_jobs db = record {
  rows = Pointwise-refl (Handed agent_id) (λ x. stayed refl) db.jobs;
  sequence = refl;
}

module _ (uuid4 : ℕ → Str) (locks : Locks) (agent_id now max_jobs : ℕ) (db : Db)
    (w : WellFormed db) where
  lease-Follows : Follows agent_id db (
      rounds uuid4 locks agent_id now
        (lease_fuel max_jobs)
        (batch max_jobs)
        (start_round locks now (batch max_jobs) (heartbeat agent_id now db)))
  lease-Follows =
      rounds_induction uuid4 locks agent_id now (batch max_jobs) (Follows agent_id db)
        (visit-Follows uuid4 locks agent_id now (batch max_jobs) w) (lease_fuel max_jobs) _
        (start-Follows locks agent_id now (batch max_jobs) db)

  -- On a well-formed table, a lease call keeps the rows and their order. Each row is the same as
  -- before in all its columns, or its job was queued and is now leased to the agent: an attempt more,
  -- a lease id, the agent, a slot, and an expiry 120 seconds after the slot; its other columns stay.
  pub lease-Handed :
      Pointwise (Handed agent_id) db.jobs (lease uuid4 locks agent_id now max_jobs db).1.jobs
  unfolding lease
  lease-Handed = lease-Follows.rows

  -- A lease call keeps the job table well-formed.
  pub lease-WellFormed : WellFormed (lease uuid4 locks agent_id now max_jobs db).1
  unfolding lease
  lease-WellFormed =
      WellFormed-Advance LeaseMove db _ lease-Follows.sequence
        (Pointwise-mono (Handed agent_id) (Advance LeaseMove) (Handed-Advance agent_id)
          lease-Follows.rows)
        w
