-- ===== src/ScrapeResults/Listing.antt =====
-- `_process_listing` of src/pipeline/scrape_results.py. The page parser, the classifier of titles and
-- the detector of a listing's condition are arguments.
use pc_builder.Shared.{
  ℕ, zero, suc, ◌+◌, Bool, true, false, not, ◌&&◌, Option, none, some, List, [], ◌∷◌, ◌++◌, map,
  ltb, if◌then◌else◌, ◌==◌, nat_eq, option_eq, get_or, is_some, length, filter, sort, Str, codes,
  str_eq, mem_str, str_leb, show_nat, get_row, update_row,
}
use pc_builder.Db.{ScrapeJob, Store, Db}
use pc_builder.Db.Tables.{Catalog, ScrapeTarget, search_target}
use pc_builder.JobQueue.Config.{Result, ok, ◌>>=◌}
use pc_builder.JobQueue.Insert.{NewJob, insert_job}
use pc_builder.JobQueue.Complete.{Processed}
use pc_builder.Planner.{PlannedRequest, listing_expects, plan_category_page, plan_search_page}
use pc_builder.ScrapeResults.{Upload, GateOutcome, passed, stopped, raised, check_upload}
use pc_builder.ScrapeResults.Prices.{
  default_max_pages, Parse, parsed, crashed, in_range, outcome, of_gate, raise, need,
}
use pc_builder.SearchService.{SearchResult, put_all, save}

abbrev pub found_pids : ScrapeJob → List Str
found_pids job = elim job.outcome [ none ↦ [] | some o ↦ o.pids ]

-- `_seen_pids`: the walk along the parents, with fuel for that many of them
unfoldable pub seen_pids : ℕ → List ScrapeJob → Option ℕ → List Str
unfolding get_row
seen_pids fuel jobs none = []
seen_pids zero jobs (some parent_id) = []
seen_pids (suc fuel) jobs (some parent_id) = elim (get_row (λ j. j.id) parent_id jobs) [
  | none ↦ []
  | some parent ↦ found_pids parent ++ seen_pids fuel jobs parent.parent_job_id
]

-- `_max_pages`; none where `int(None)` raises
unfoldable pub max_pages : ScrapeTarget → Option ℕ
max_pages target =
    if target.target_type == search_target
    then some default_max_pages
    else elim target.schedule_config [
      | none ↦ some default_max_pages
      | some config ↦ get_or config.max_pages (some default_max_pages)
    ]

-- `_plan_next_page`
unfoldable pub plan_next_page : Store → ScrapeTarget → ℕ → Option PlannedRequest
unfolding plan_search_page plan_category_page
plan_next_page store target page =
    if target.target_type == search_target
    then plan_search_page store target.target_value page
    else plan_category_page store target.target_value page

abbrev pub page_of : ScrapeJob → ℕ
page_of job = if get_or job.page 0 == 0 then 1 else get_or job.page 0

-- `session.get(Model, id) if id else None`
unfoldable pub find_target : Option ℕ → List ScrapeTarget → Option ScrapeTarget
unfolding get_row
find_target none targets = none
find_target (some id) targets = if id == 0 then none else get_row (λ t. t.id) id targets

abbrev pub hard_category_of : Option ScrapeTarget → Option Str
hard_category_of none = none
hard_category_of (some t) = elim t.schedule_config [ none ↦ none | some c ↦ c.category ]

abbrev pub same_pid : SearchResult → SearchResult → Bool
same_pid a b = a.pid == b.pid

-- the products of the page that earlier pages did not bring, a later duplicate in an earlier's place
unfoldable pub fresh_results : List Str → List SearchResult → List SearchResult
unfolding put_all
fresh_results seen results = put_all same_pid (filter (λ r. not (mem_str r.pid seen)) results) []

unfoldable pub next_page_job : Store → ScrapeTarget → ScrapeJob → ℕ → PlannedRequest → NewJob
next_page_job store target job page request = record {
  store_id = store.id;
  job_type = codes "category_page";
  url = request.url;
  headers = request.headers;
  page = some page;
  target_id = some target.id;
  product_id = none;
  parent_job_id = some job.id;
}

-- saved, dropped_prices, and the catalog
pub record Tally : Type 0 where
  pub saved : ℕ
  pub dropped : ℕ
  pub catalog : Catalog

abbrev pub not_empty {ℓ} : {A : Type ℓ} → List A → Bool
not_empty [] = false
not_empty (_ ∷ _) = true

unfoldable pub insert_page : Store → ScrapeTarget → ScrapeJob → ℕ → ℕ → Db → Result (Option ℕ × Db)
unfolding plan_next_page next_page_job insert_job
insert_page store target job page now db = do
  request ← need (codes "plan") (plan_next_page store target page)
  insert_job (next_page_job store target job page request) now db

-- the job of the next page, while the page brought new products
unfoldable pub queue_next :
    Store → Option ScrapeTarget → ScrapeJob → ℕ → Bool → ℕ → Db → Result (Option ℕ × Db)
unfolding max_pages insert_page
queue_next store none job page any_fresh now db = ok (none, db)
queue_next store (some target) job page false now db = ok (none, db)
queue_next store (some target) job page true now db = do
  limit ← need (codes "max_pages") (max_pages target)
  if ltb page limit then insert_page store target job (page + 1) now db else ok (none, db)

-- target.last_scraped_at = job.not_before or utcnow()
unfoldable pub mark_scraped : Option ScrapeTarget → ℕ → Db → Db
unfolding update_row
mark_scraped none at db = db
mark_scraped (some target) at db = record db {
  catalog = record db.catalog {
    targets =
        update_row {A = ScrapeTarget} (λ t. t.id) target.id
          (λ t. record t { last_scraped_at = some at }) db.catalog.targets;
  };
}

unfoldable pub listing_outcome : ℕ → List SearchResult → Tally → Option ℕ → Processed
listing_outcome found fresh t next_job_id = record {
  status = some (codes "done");
  reason = none;
  counts =
      (codes "parsed", found)
      ∷ (codes "new", length fresh)
      ∷ (codes "saved", t.saved)
      ∷ (codes "dropped_prices", t.dropped)
      ∷ [];
  pids = sort str_leb (map (λ r. r.pid) fresh);
  next_job_id = next_job_id;
  price = none;
}

-- A 404 or 410 behind the first page ends the listing.
unfoldable pub end_listing : ScrapeJob → GateOutcome → Processed
unfolding show_nat
end_listing job gate =
    if is_some gate.http_status && ltb 1 (page_of job)
    then record (outcome (codes "done") (
        some (
          gate.reason
          ++ codes " on page "
          ++ show_nat (page_of job)
          ++ codes ": end of listing"))) { counts = (codes "saved", 0) ∷ [] }
    else of_gate gate

module _ (get_p_category : Option Str → Str → Option Str)
    (detect_condition : Str → Option Str → Option Str) where
  -- one round of the loop over the fresh products
  unfoldable pub save_one : ScrapeJob → Option Str → SearchResult → Tally → Tally
  unfolding save in_range
  save_one job hard_category r t =
      if not (in_range r.price)
      then record t { dropped = t.dropped + 1 }
      else let (done, catalog) =
          save get_p_category detect_condition r job.target_id hard_category job.agent_id
            (some job.id) t.catalog in
        record t { saved = (if done then t.saved + 1 else t.saved); catalog = catalog }

  unfoldable pub save_fresh : ScrapeJob → Option Str → List SearchResult → Tally → Tally
  unfolding save_one
  save_fresh job hard_category [] t = t
  save_fresh job hard_category (r ∷ rs) t =
      save_fresh job hard_category rs (save_one job hard_category r t)

  unfoldable pub save_listing :
      ScrapeJob → Store → List SearchResult → ℕ → Db → Result (Processed × Db)
  unfolding seen_pids fresh_results find_target save_fresh queue_next mark_scraped listing_outcome
  save_listing job store results now db =
      let seen = seen_pids db.next_job_id db.jobs job.parent_job_id in
      let fresh = fresh_results seen results in
      let target = find_target job.target_id db.catalog.targets in
      let t : Tally =
        save_fresh job (hard_category_of target) fresh
          (record { saved = 0; dropped = 0; catalog = db.catalog }) in
      do
        (next_job_id, after) ←
            queue_next store target job (page_of job) (not_empty fresh) now
              (record db { catalog = t.catalog })
        ok (
          listing_outcome (length results) fresh t next_job_id,
          mark_scraped target (get_or job.not_before now) after,
        )

  unfoldable pub read_listing :
      ScrapeJob → Store → Parse (List SearchResult) → ℕ → Db → Result (Processed × Db)
  unfolding save_listing
  read_listing job store (crashed what) now db =
      ok (outcome (codes "rejected") (some (codes "parse error: " ++ what)), db)
  read_listing job store (parsed results) now db =
      if not (not_empty results) && page_of job == 1
      then ok (outcome (codes "failed") (some (codes "page 1 parsed to 0 products")), db)
      else save_listing job store results now db

module _ (parse_search : Store → Option Str → Parse (List SearchResult))
    (get_p_category : Option Str → Str → Option Str)
    (detect_condition : Str → Option Str → Option Str) where
  unfoldable pub process_listing : ScrapeJob → Store → Upload → ℕ → Db → Result (Processed × Db)
  unfolding end_listing read_listing check_upload
  process_listing job store up now db = elim (check_upload store up (listing_expects store)) [
    | raised ↦ raise (codes "urlsplit")
    | stopped gate ↦ ok (end_listing job gate, db)
    | passed ↦
        read_listing get_p_category detect_condition job store (parse_search store up.body) now db
  ]
