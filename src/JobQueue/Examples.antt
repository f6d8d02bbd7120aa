-- ===== src/JobQueue/Examples.antt =====
-- The queue at concrete inputs: a store with one queued page, a lease of it, an upload, a reaping.
use mathlib.Core.Path.{subst}
use mathlib.Core.Option
use pc_builder.Shared.{
  ℕ, ◌≡◌, refl, ◌∙◌, ◌↔◌, true, false, Option, none, some, [], ◌∷◌, map, arith, nat_eq, option_eq,
  some_inj, Str, codes, str_eq, show_nat, get_row, update_row, least, Pointwise,
}
use pc_builder.Db.Tables.{empty_catalog}
use pc_builder.Db.{ScrapeJob, JobStatus, Store, Db, Outcome, OutcomeStatus}
use pc_builder.Url.{urlsplit, hostname}
use pc_builder.JobQueue.Config.{
  Locks, LeasedJob, Result, ok, err, stale_lease, host_belongs_to_store,
}
use pc_builder.JobQueue.Insert.{NewJob, insert_job, new_row}
use pc_builder.JobQueue.Lease.{
  pass, visit, lease, give_lease, goes_on, batch, rounds, lease_fuel, start_round, heartbeat,
}
use pc_builder.JobQueue.Lease.Table.{Handed, lease-Handed}
use pc_builder.JobQueue.Lease.Granted.{IsLeaseOf, lease-IsLeaseOf}
use pc_builder.JobQueue.Lease.Fuel.{lease_loop_ends}
use pc_builder.JobQueue.Complete.{Processed, complete, settle}
use pc_builder.JobQueue.Reap.{reap}
use pc_builder.JobQueue.Invariant.{clash, WellFormed, job_id}
use pc_builder.JobQueue.Rows.{new_row-JobOk}
use pc_builder.JobQueue.Requests.{Admissible}
use pc_builder.JobQueue.Admission.{insert_job-Admissible, insert_job_twice, insert_job_new}
use pc_builder.JobQueue.Uploads.{IsProcessor, IsForeign, complete_stale}
use pc_builder.JobQueue.Settling.{complete_repeated, Settled, complete-Settled}
use pc_builder.JobQueue.Lease.Pacing.{IsPaced, lease-IsPaced}
use pc_builder.JobQueue.Expiry.{CountsEnds, reap_counts_sum}
use pc_builder.JobQueue.Lifecycle.{start, then_call, leases, inserts, Reach-WellFormed}

abbrev shop : Store
shop = record {
  id = 1;
  name = codes "shop";
  domain = some (codes "Shop.in");
  base_url = none;
  search_endpoint = codes "https://www.shop.in/search?q={query}";
  search_config = none;
  product_config = none;
  active = true;
  min_fetch_interval_s = 10;
  next_fetch_at = none;
}

abbrev empty_db : Db
empty_db = record {
  stores = shop ∷ [];
  agents = [];
  jobs = [];
  catalog = empty_catalog;
  next_job_id = 1;
  uuids_drawn = 0;
}

abbrev page_one : NewJob
page_one = record {
  store_id = 1;
  job_type = codes "category_page";
  url = codes "https://www.shop.in/cpus";
  headers = (codes "HX-Request", codes "true") ∷ [];
  page = some 1;
  target_id = none;
  product_id = none;
  parent_job_id = none;
}

abbrev one_job : Db
one_job = record empty_db { jobs = new_row 1 page_one 0 ∷ []; next_job_id = 2 }

page_one_inserted : insert_job page_one 0 empty_db ≡ ok (some 1, one_job)
unfolding insert_job get_row urlsplit hostname host_belongs_to_store
page_one_inserted = refl

empty_db-WellFormed : WellFormed empty_db
empty_db-WellFormed = record { jobs_ok = tt; ids = tt; pages = tt }

one_job-WellFormed : WellFormed one_job
one_job-WellFormed = record {
  jobs_ok = (new_row-JobOk 1 0 page_one, tt);
  ids = unfold new_row in (omega arith, tt);
  pages = (tt, tt);
}

abbrev uuid : ℕ → Str
uuid n = show_nat n

abbrev unlocked : Locks
unlocked = record { store = λ _. false; job = λ _. false }

-- The lease starts at once, on the store's host.
leased_once :
    map {B = ℕ × Str × Option Str × ℕ}
      (λ (l : LeasedJob). (l.job_id, l.lease_id, l.store_host, l.not_before))
      (lease uuid unlocked 7 100 5 one_job).0
    ≡ (1, codes "0", some (codes "www.shop.in"), 100) ∷ []
unfolding lease pass visit get_row update_row least urlsplit hostname new_row show_nat Option.bind
leased_once = refl

leased_row : ScrapeJob
leased_row = give_lease (codes "a-lease") 7 100 (new_row 1 page_one 0)

abbrev leased_db : Db
leased_db = record one_job { jobs = leased_row ∷ [] }

leased_db-WellFormed : WellFormed leased_db
unfolding leased_row give_lease new_row
leased_db-WellFormed = record {
  jobs_ok = (ground arith, tt);
  ids = (omega arith, tt);
  pages = (tt, tt);
}

abbrev always_done : ScrapeJob → Str → Db → Result (Processed × Db)
always_done job upload db = ok (
  record {
    status = some (codes "done");
    reason = none;
    counts = [];
    pids = [];
    next_job_id = none;
    price = none;
  },
  db,
)

always_done-IsProcessor : IsProcessor always_done
always_done-IsProcessor = record {
  keeps = λ job upload db after p e w. subst WellFormed (ground arith) w;
  row = λ job upload db after p e w r.
      (let same : db ≡ after = ground arith in
        subst (λ (d : Db). get_row job_id job.id d.jobs ≡ some job) same r);
}

abbrev done_outcome : Outcome
done_outcome = record {
  status = OutcomeStatus.done;
  reason = none;
  counts = [];
  pids = [];
  next_job_id = none;
  price = none;
}

done_row : ScrapeJob
done_row = settle (codes "a-lease") done_outcome 200 leased_row

abbrev done_db : Db
done_db = record leased_db { jobs = done_row ∷ [] }

completed_once :
    complete always_done 1 (codes "a-lease") 7 (codes "page") 200 leased_db
    ≡ (ok done_outcome, done_db)
unfolding complete get_row update_row leased_row give_lease new_row done_row settle
completed_once = refl

lease-IsLeaseOf_example : IsLeaseOf 7 100 5 (lease uuid unlocked 7 100 5 one_job)
lease-IsLeaseOf_example = lease-IsLeaseOf uuid unlocked 7 100 5 one_job one_job-WellFormed

lease_loop_ends_example :
    goes_on (batch 5) (
      rounds uuid unlocked 7 100
        (lease_fuel 5)
        (batch 5)
        (start_round unlocked 100 (batch 5) (heartbeat 7 100 one_job)))
    ≡ false
lease_loop_ends_example = lease_loop_ends uuid unlocked 7 100 5 one_job

lease-Handed_example :
    Pointwise (Handed 7) one_job.jobs (lease uuid unlocked 7 100 5 one_job).1.jobs
lease-Handed_example = lease-Handed uuid unlocked 7 100 5 one_job one_job-WellFormed

insert_job-Admissible_example :
    ((r : Option ℕ × Db) × (insert_job page_one 0 empty_db ≡ ok r)) ↔ Admissible page_one empty_db
insert_job-Admissible_example = insert_job-Admissible page_one 0 empty_db

insert_job_twice_example :
    (after : Db) × (insert_job page_one 5 one_job ≡ ok (none, after)) × (after.jobs ≡ one_job.jobs)
insert_job_twice_example = insert_job_twice page_one 0 5 empty_db page_one_inserted

insert_job_new_example :
    (get_row job_id 1 empty_db.jobs ≡ none)
    × (one_job.jobs
        ≡ record {
          id = 1;
          store_id = 1;
          job_type = codes "category_page";
          url = codes "https://www.shop.in/cpus";
          headers = (codes "HX-Request", codes "true") ∷ [];
          page = some 1;
          target_id = none;
          product_id = none;
          parent_job_id = none;
          status = JobStatus.queued;
          attempts = 0;
          available_at = 0;
          lease_id = none;
          agent_id = none;
          not_before = none;
          lease_expires_at = none;
          result_lease_id = none;
          outcome = none;
          reason = none;
          finished_at = none;
        }
          ∷ empty_db.jobs)
insert_job_new_example =
    insert_job_new page_one 0 1 empty_db one_job page_one_inserted empty_db-WellFormed

complete_repeated_example :
    complete always_done 1 (codes "a-lease") 8 (codes "other page") 300 done_db
    ≡ (ok done_outcome, done_db)
complete_repeated_example =
    complete_repeated always_done always_done-IsProcessor 1 (codes "a-lease") 7 (codes "page") 200
      leased_db completed_once refl leased_db-WellFormed always_done 8 (codes "other page") 300

leased_row-IsForeign : IsForeign (codes "a-lease") 8 leased_row
unfolding leased_row give_lease new_row
leased_row-IsForeign = record {
  no_outcome = λ o a b. absurd (cc);
  not_leased = λ a b c. absurd (ground arith);
}

-- the lease of agent 7, in the name of agent 8
complete_stale_example :
    complete always_done 1 (codes "a-lease") 8 (codes "page") 200 leased_db
    ≡ (err (stale_lease 1 (codes "a-lease")), leased_db)
complete_stale_example =
    complete_stale always_done 1 (codes "a-lease") 8 (codes "page") 200 leased_db (λ job e.
      subst (IsForeign (codes "a-lease") 8) (some_inj (leased_row_found ∙ e)) leased_row-IsForeign)
  where
    leased_row_found : some leased_row ≡ get_row job_id 1 leased_db.jobs
    leased_row_found = unfold get_row leased_row give_lease new_row in refl

reap_counts_sum_example :
    CountsEnds unlocked 999999999 leased_db.jobs
      (reap unlocked 999999999 leased_db).1.jobs
      (reap unlocked 999999999 leased_db).0
reap_counts_sum_example = reap_counts_sum unlocked 999999999 leased_db

Reach-WellFormed_example : WellFormed (lease uuid unlocked 7 100 5 one_job).1
Reach-WellFormed_example =
    Reach-WellFormed uuid always_done always_done-IsProcessor
      (then_call (then_call start (inserts page_one 0 (some 1) page_one_inserted))
        (leases unlocked 7 100 5 refl))
      empty_db-WellFormed

complete-Settled_example :
    (j : ScrapeJob) × (get_row job_id 1 done_db.jobs ≡ some j)
    × Settled (codes "a-lease") done_outcome 200 leased_row j
unfolding get_row leased_row give_lease new_row
complete-Settled_example =
    complete-Settled always_done always_done-IsProcessor 1 (codes "a-lease") 7 (codes "page") 200
      leased_db leased_row completed_once refl refl leased_db-WellFormed

abbrev two_jobs : Db
two_jobs = record one_job {
  jobs = new_row 2 (record page_one { url = codes "https://shop.in/gpus" }) 0 ∷ one_job.jobs;
  next_job_id = 3;
}

two_jobs-WellFormed : WellFormed two_jobs
two_jobs-WellFormed = record {
  jobs_ok = (new_row-JobOk 2 0 _, (new_row-JobOk 1 0 page_one, tt));
  ids = unfold new_row in (omega arith, (omega arith, tt));
  pages = unfold new_row clash in ((refl, tt), (tt, tt));
}

-- The second fetch of the store starts 10 s after the first.
leased_twice :
    map (λ (l : LeasedJob). l.not_before) (lease uuid unlocked 7 100 5 two_jobs).0
    ≡ 100 ∷ 10000100 ∷ []
unfolding lease pass visit get_row update_row least urlsplit hostname new_row show_nat Option.bind
leased_twice = refl

lease-IsPaced_example : IsPaced two_jobs (lease uuid unlocked 7 100 5 two_jobs)
lease-IsPaced_example = lease-IsPaced uuid unlocked 7 100 5 two_jobs two_jobs-WellFormed
