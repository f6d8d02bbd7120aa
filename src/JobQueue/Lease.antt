-- ===== src/JobQueue/Lease.antt =====
-- `lease` of src/pipeline/job_queue.py. `uuid4` is given as a sequence of texts. A negative
-- `max_jobs` acts as 0 there, so it is a natural number here.
pub mod Turns
pub mod Table
pub mod Granted
pub mod Slots
pub mod Pacing
pub mod Fuel
use mathlib.Core.Option
use pc_builder.Shared.{
  ℕ, zero, suc, ◌+◌, min, max, Bool, true, false, not, ◌&&◌, Option, none, some, List, [], ◌∷◌,
  ◌++◌, map, ltb, leb, if◌then◌else◌, ◌==◌, nat_eq, option_eq, get_or, length, take, any, filter,
  sort, Str, str_eq, is_empty, get_row, update_row, least,
}
use pc_builder.Url.{urlsplit, hostname}
use pc_builder.Db.{ScrapeJob, Store, Db, seconds}
use pc_builder.Db.Job.{leased, is_queued}
use pc_builder.JobQueue.Config.{
  Locks, LeasedJob, lease_seconds, lease_window_seconds, max_lease_batch,
}

-- the tables, the stores left in the round robin, and the leases made so far
pub record Round : Type 0 where
  pub db : Db
  pub open db use *
  pub waiting : List ℕ
  pub leased_jobs : List LeasedJob

unfoldable pub is_due : ℕ → ℕ → ScrapeJob → Bool
is_due now store_id job =
    job.store_id == store_id && is_queued job.status && leb job.available_at now

-- ORDER BY available_at, id
abbrev pub job_order : ScrapeJob → ScrapeJob → Bool
job_order a b =
    if a.available_at == b.available_at then leb a.id b.id else leb a.available_at b.available_at

-- ORDER BY next_fetch_at ASC NULLS FIRST, id
abbrev before_null : Option ℕ → Option ℕ → Bool → Bool
before_null none none tie = tie
before_null none (some _) tie = true
before_null (some _) none tie = false
before_null (some a) (some b) tie = if a == b then tie else leb a b

abbrev store_order : Store → Store → Bool
store_order a b = before_null a.next_fetch_at b.next_fetch_at (leb a.id b.id)

abbrev reaches : Option ℕ → ℕ → Bool
reaches none horizon = true
reaches (some t) horizon = leb t horizon

-- the WHERE of the store query, and SKIP LOCKED
unfoldable pub can_fetch : Locks → ℕ → ℕ → List ScrapeJob → Store → Bool
unfolding is_due
can_fetch locks now horizon jobs store =
    store.active
    && reaches store.next_fetch_at horizon
    && any (is_due now store.id) jobs
    && not (locks.store store.id)

unfoldable pub pick_stores : Locks → ℕ → ℕ → ℕ → Db → List ℕ
unfolding can_fetch
pick_stores locks now horizon max_jobs db =
    map (λ s. s.id)
      (take max_jobs (sort store_order (filter (can_fetch locks now horizon db.jobs) db.stores)))

unfoldable pub pick_job : Locks → ℕ → ℕ → List ScrapeJob → Option ScrapeJob
unfolding is_due
pick_job locks now store_id =
    least job_order (λ job. is_due now store_id job && not (locks.job job.id))

-- `stores.remove(store)`
unfoldable pub remove : ℕ → List ℕ → List ℕ
remove k [] = []
remove k (x ∷ xs) = if x == k then xs else x ∷ remove k xs

unfoldable pub give_lease : Str → ℕ → ℕ → ScrapeJob → ScrapeJob
give_lease lease_id agent_id slot job = record job {
  status = leased;
  lease_id = some lease_id;
  agent_id = some agent_id;
  attempts = job.attempts + 1;
  not_before = some slot;
  lease_expires_at = some (slot + seconds lease_seconds);
}

unfoldable pub move_slot : ℕ → Store → Store
move_slot slot store = record store {
  next_fetch_at = some (slot + seconds store.min_fetch_interval_s);
}

-- A queued URL has passed `urlsplit` in `insert_job`, so it does not raise here.
unfoldable pub leased_job : Str → ℕ → ScrapeJob → LeasedJob
leased_job lease_id slot job = record {
  job_id = job.id;
  lease_id = lease_id;
  url = job.url;
  headers = job.headers;
  store_host = Option.bind (urlsplit job.url) hostname;
  not_before = slot;
}

abbrev pub horizon : ℕ → ℕ
horizon now = now + seconds lease_window_seconds

-- max(now, store.next_fetch_at or now)
unfoldable pub slot_of : ℕ → Store → ℕ
slot_of now store = max now (get_or store.next_fetch_at now)

pub skip : ℕ → Round → Round
unfolding remove
skip store_id r = record r { waiting = remove store_id r.waiting }

-- The job for the store's next slot, if that slot lies in the window.
next_job : Locks → ℕ → Store → List ScrapeJob → Option ScrapeJob
unfolding slot_of pick_job
next_job locks now store jobs =
    if leb (slot_of now store) (horizon now) then pick_job locks now store.id jobs else none

abbrev pub goes_on : ℕ → Round → Bool
goes_on max_jobs r = not (is_empty r.waiting) && ltb (length r.leased_jobs) max_jobs

-- the heartbeat
unfoldable pub heartbeat : ℕ → ℕ → Db → Db
heartbeat agent_id now db = record db {
  agents = update_row (λ a. a.id) agent_id (λ a. record a { last_seen_at = some now }) db.agents;
}

unfoldable pub start_round : Locks → ℕ → ℕ → Db → Round
unfolding pick_stores
start_round locks now max_jobs db = record {
  db = db;
  waiting = pick_stores locks now (horizon now) max_jobs db;
  leased_jobs = [];
}

abbrev pub batch : ℕ → ℕ
batch max_jobs = min max_jobs max_lease_batch

-- With this fuel the loop ends by its test. With `max_jobs` 0 there is no store and no loop.
abbrev pub lease_fuel : ℕ → ℕ
lease_fuel max_jobs = batch max_jobs + batch max_jobs + 1

module _ (uuid4 : ℕ → Str) (agent_id now : ℕ) where
  pub hand_out : Store → Round → ScrapeJob → Round
  unfolding give_lease move_slot leased_job slot_of
  hand_out store r job =
      let slot = slot_of now store in
      let lease_id = uuid4 r.uuids_drawn in
      record r {
        db = record r.db {
          stores = update_row (λ s. s.id) store.id (move_slot slot) r.stores;
          jobs = update_row (λ j. j.id) job.id (give_lease lease_id agent_id slot) r.jobs;
          uuids_drawn = r.uuids_drawn + 1;
        };
        leased_jobs = r.leased_jobs ++ leased_job lease_id slot job ∷ [];
      }

module _ (uuid4 : ℕ → Str) (locks : Locks) (agent_id now : ℕ) where
  give : Store → Round → Option ScrapeJob → Round
  unfolding hand_out skip
  give store r none = skip store.id r
  give store r (some job) = hand_out uuid4 agent_id now store r job

  -- the row of a store that was picked is there
  visit_store : ℕ → Round → Option Store → Round
  unfolding give next_job
  visit_store store_id r none = skip store_id r
  visit_store store_id r (some store) = give store r (next_job locks now store r.jobs)

  -- one turn of the `for`, its `break` included
  unfoldable pub visit : ℕ → ℕ → Round → Round
  unfolding visit_store
  visit max_jobs store_id r =
      if leb max_jobs (length r.leased_jobs)
      then r
      else visit_store store_id r (get_row (λ s. s.id) store_id r.stores)

  -- `for store in list(stores)`
  unfoldable pub pass : ℕ → List ℕ → Round → Round
  pass max_jobs [] r = r
  pass max_jobs (store_id ∷ rest) r = pass max_jobs rest (visit max_jobs store_id r)

  -- `while stores and len(leased) < max_jobs`
  unfoldable pub rounds : ℕ → ℕ → Round → Round
  rounds zero max_jobs r = r
  rounds (suc fuel) max_jobs r = elim (goes_on max_jobs r) [
    | true ↦ rounds fuel max_jobs (pass max_jobs r.waiting r)
    | false ↦ r
  ]

  unfoldable pub lease : ℕ → Db → List LeasedJob × Db
  unfolding rounds heartbeat start_round
  lease max_jobs db =
      let r =
        rounds (lease_fuel max_jobs) (batch max_jobs)
          (start_round locks now (batch max_jobs) (heartbeat agent_id now db)) in
      (r.leased_jobs, r.db)
