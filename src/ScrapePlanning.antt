-- ===== src/ScrapePlanning.antt =====
-- src/pipeline/scrape_planning.py: scrape targets and stale products become jobs. None is an
-- exception, which leaves nothing committed. Products are given with the columns that the
-- planning reads; a priority is not negative.
pub mod Queued
pub mod Schedule
mod PlanningTests
use mathlib.Core.Option
use pc_builder.Shared.{
  ℕ, ◌+◌, ◌*◌, Bool, false, not, ◌&&◌, Option, none, some, List, [], ◌∷◌, ltb, leb, if◌then◌else◌,
  ◌==◌, nat_eq, option_eq, take, any, filter, sort, Str, codes, str_eq, get_row,
}
use pc_builder.Db.Tables.{ScrapeTarget, search_target}
use pc_builder.Db.{Store, Db, seconds}
use pc_builder.JobQueue.Config.{Result, ok, err}
use pc_builder.JobQueue.Insert.{NewJob, insert_job}
use pc_builder.Planner.{PlannedRequest, plan_category_page, plan_search_page, plan_product_page}

-- ScheduleType.HOURLY of src/common/enums/schedule_type.py
abbrev hourly : ℕ
hourly = 2

-- `_next_due`
unfoldable pub next_due : ScrapeTarget → ℕ → ℕ
next_due target now =
    if target.schedule_type == hourly then now + seconds 3600 else now + seconds 86400

unfoldable pub plan_target : Store → ScrapeTarget → Option PlannedRequest
unfolding plan_search_page plan_category_page
plan_target store target =
    if target.target_type == search_target
    then plan_search_page store target.target_value 1
    else plan_category_page store target.target_value 1

unfoldable pub target_job : Store → ScrapeTarget → PlannedRequest → NewJob
target_job store target request = record {
  store_id = store.id;
  job_type = codes "category_page";
  url = request.url;
  headers = request.headers;
  page = some 1;
  target_id = some target.id;
  product_id = none;
  parent_job_id = none;
}

-- `queued += job_id is not None`
abbrev pub count_new : Option ℕ → ℕ
count_new none = 0
count_new (some id) = 1

-- how many jobs were new, and the tables
abbrev pub Queued : Type 0
Queued = Option (ℕ × Db)

abbrev pub more : ℕ → Queued → Queued
more n none = none
more n (some (m, db)) = some (n + m, db)

-- the rest of the loop behind an `insert_job`
abbrev pub go_on : Result (Option ℕ × Db) → (Db → Queued) → Queued
go_on (err e) rest = none
go_on (ok (job_id, after)) rest = more (count_new job_id) (rest after)

abbrev pub queue_one : Option NewJob → ℕ → Db → (Db → Queued) → Queued
queue_one none now db rest = none
queue_one (some new) now db rest = go_on (insert_job new now db) rest

unfoldable pub job_for : Db → ScrapeTarget → Option NewJob
unfolding plan_target target_job
job_for db target = elim (get_row (λ s. s.id) target.store_id db.stores) [
  | none ↦ none
  | some store ↦ Option.map (target_job store target) (plan_target store target)
]

unfoldable pub enqueue_targets : List ScrapeTarget → ℕ → Db → Queued
unfolding job_for insert_job
enqueue_targets [] now db = some (0, db)
enqueue_targets (target ∷ targets) now db =
    queue_one (job_for db target) now db (enqueue_targets targets now)

abbrev is_active_store : Option Store → Bool
is_active_store none = false
is_active_store (some s) = s.active

-- the WHERE of the query
unfoldable pub is_due_target : Db → ℕ → ScrapeTarget → Bool
unfolding get_row
is_due_target db now target =
    target.enabled
    && leb target.next_scrape_at now
    && is_active_store (get_row (λ s. s.id) target.store_id db.stores)

-- ORDER BY priority DESC, next_scrape_at
abbrev by_priority : ScrapeTarget → ScrapeTarget → Bool
by_priority a b =
    if a.priority == b.priority
    then leb a.next_scrape_at b.next_scrape_at
    else ltb b.priority a.priority

unfoldable pub due_targets : Db → ℕ → ℕ → List ScrapeTarget → List ScrapeTarget
unfolding is_due_target
due_targets db now limit targets =
    take limit (sort by_priority (filter (is_due_target db now) targets))

abbrev pub is_among : List ScrapeTarget → ScrapeTarget → Bool
is_among due target = any (λ d. d.id == target.id) due

-- the targets after `target.next_scrape_at = _next_due(target, now)` for each due one
unfoldable pub move_on : List ScrapeTarget → ℕ → List ScrapeTarget → List ScrapeTarget
unfolding next_due
move_on due now [] = []
move_on due now (t ∷ ts) =
    (if is_among due t then record t { next_scrape_at = next_due t now } else t)
    ∷ move_on due now ts

unfoldable pub enqueue_due_targets :
    ℕ → ℕ → List ScrapeTarget → Db → Option (ℕ × List ScrapeTarget × Db)
unfolding due_targets move_on enqueue_targets
enqueue_due_targets now limit targets db =
    let due = due_targets db now limit targets in
    Option.map (λ (n, after). (n, move_on due now targets, after)) (enqueue_targets due now db)

pub record ListedProduct : Type 0 where
  pub id : ℕ
  pub sid : ℕ
  pub product_url : Str

pub record SavedPrice : Type 0 where
  pub product_id : ℕ
  pub scraped_at : ℕ

-- a price of the product saved in the last `hours`
unfoldable pub is_recent : ℕ → ℕ → ListedProduct → SavedPrice → Bool
is_recent now hours product price =
    price.product_id == product.id && leb now (price.scraped_at + seconds (hours * 3600))

abbrev by_id : ListedProduct → ListedProduct → Bool
by_id a b = leb a.id b.id

unfoldable pub find_unseen_products :
    List SavedPrice → List ListedProduct → ℕ → ℕ → ℕ → List ListedProduct
unfolding is_recent
find_unseen_products prices products store_id hours now =
    sort by_id
      (filter (λ p. p.sid == store_id && not (any (is_recent now hours p) prices)) products)

unfoldable pub product_job : Store → ListedProduct → PlannedRequest → NewJob
product_job store product request = record {
  store_id = store.id;
  job_type = codes "product_page";
  url = request.url;
  headers = request.headers;
  page = none;
  target_id = none;
  product_id = some product.id;
  parent_job_id = none;
}

unfoldable pub product_job_for : Db → ListedProduct → Option NewJob
unfolding plan_product_page product_job
product_job_for db product = elim (get_row (λ s. s.id) product.sid db.stores) [
  | none ↦ none
  | some store ↦
      Option.map (product_job store product) (plan_product_page store product.product_url)
]

unfoldable pub enqueue_products : List ListedProduct → ℕ → Db → Queued
unfolding product_job_for insert_job
enqueue_products [] now db = some (0, db)
enqueue_products (product ∷ products) now db =
    queue_one (product_job_for db product) now db (enqueue_products products now)
