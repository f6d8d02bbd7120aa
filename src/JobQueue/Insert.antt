-- ===== src/JobQueue/Insert.antt =====
-- `insert_job` and `enqueue` of src/pipeline/job_queue.py, with the foreign keys of scrape_jobs.
-- `enqueue` only adds the commit, so it is the same function of the database.
use pc_builder.Shared.{
  ℕ, ◌+◌, Bool, true, false, not, ◌&&◌, ◌||◌, Option, none, some, List, [], ◌∷◌, map, if◌then◌else◌,
  ◌==◌, nat_eq, option_eq, get_or, any, filter, sort, Str, codes, str_eq, mem_str, is_empty, lower,
  str_leb, get_row,
}
use pc_builder.Url.{UrlParts, urlsplit, hostname}
use pc_builder.Db.{ScrapeJob, Store, Db}
use pc_builder.Db.Job.{queued, job_types, is_active}
use pc_builder.JobQueue.Config.{
  Result, ok, err, ◌>>=◌, QueueError, unknown_job_type, headers_not_allowed, store_has_no_domain,
  invalid_url, not_https_on_store, missing_reference, allowed_headers, host_belongs_to_store,
}

-- the keyword arguments of `insert_job`
pub record NewJob : Type 0 where
  pub store_id : ℕ
  pub job_type : Str
  pub url : Str
  pub headers : List (Str × Str)
  pub page : Option ℕ
  pub target_id : Option ℕ
  pub product_id : Option ℕ
  pub parent_job_id : Option ℕ

abbrev pub check : Bool → QueueError → Result (Unit {0})
check true e = ok tt
check false e = err e

-- sorted(set(headers) - ALLOWED_HEADERS); the keys of a dictionary are distinct
unfoldable pub extra_headers : List (Str × Str) → List Str
extra_headers headers =
    sort str_leb (filter (λ h. not (mem_str h allowed_headers)) (map (λ h. h.0) headers))

abbrev pub no_extra : List Str → Bool
no_extra [] = true
no_extra (_ ∷ _) = false

-- `store is None or not store.domain`
abbrev domain_of : Option Store → Str
domain_of none = []
domain_of (some s) = get_or s.domain []

abbrev require_domain : ℕ → Str → Result Str
require_domain store_id domain =
    if is_empty domain then err (store_has_no_domain store_id) else ok domain

abbrev parse_url : Str → Result UrlParts
parse_url url = elim (urlsplit url) [ none ↦ err (invalid_url url) | some u ↦ ok u ]

-- What `insert_job` checks before it touches the table.
unfoldable pub validate : NewJob → Db → Result (Unit {0})
unfolding extra_headers
validate new db = do
  _ ← check (mem_str new.job_type job_types) (unknown_job_type new.job_type)
  let extra = extra_headers new.headers
  _ ← check (no_extra extra) (headers_not_allowed extra)
  domain ← require_domain new.store_id (domain_of (get_row (λ s. s.id) new.store_id db.stores))
  parts ← parse_url new.url
  check
      (parts.scheme == codes "https"
        && host_belongs_to_store (lower (get_or (hostname parts) [])) (lower domain))
      (not_https_on_store new.url domain)

-- the conflict that the partial unique index finds
unfoldable pub same_page : ℕ → Str → ScrapeJob → Bool
same_page store_id url job = is_active job.status && job.store_id == store_id && job.url == url

unfoldable pub new_row : ℕ → NewJob → ℕ → ScrapeJob
new_row id new now = record {
  id = id;
  store_id = new.store_id;
  job_type = new.job_type;
  url = new.url;
  headers = new.headers;
  page = new.page;
  target_id = new.target_id;
  product_id = new.product_id;
  parent_job_id = new.parent_job_id;
  status = queued;
  attempts = 0;
  available_at = now;
  lease_id = none;
  agent_id = none;
  not_before = none;
  lease_expires_at = none;
  result_lease_id = none;
  outcome = none;
  reason = none;
  finished_at = none;
}

-- INSERT … ON CONFLICT DO NOTHING RETURNING id. The sequence moves on in a conflict too.
unfoldable pub insert_row : NewJob → ℕ → Db → Option ℕ × Db
unfolding same_page new_row
insert_row new now db =
    let id = db.next_job_id in
    if any (same_page new.store_id new.url) db.jobs
    then (none, record db { next_job_id = id + 1 })
    else (some id, record db { jobs = new_row id new now ∷ db.jobs; next_job_id = id + 1 })

-- A foreign key that is NULL, or the id of a row.
abbrev pub has_row {ℓ} : {A : Type ℓ} → (A → ℕ) → Option ℕ → List A → Bool
has_row key none rows = true
has_row key (some id) rows = any (λ r. key r == id) rows

-- target_id, product_id and parent_job_id
unfoldable pub has_references : NewJob → Db → Bool
has_references new db =
    has_row (λ t. t.id) new.target_id db.catalog.targets
    && has_row (λ p. p.id) new.product_id db.catalog.products
    && has_row (λ j. j.id) new.parent_job_id db.jobs

-- The database looks at the foreign keys of a row that it inserts, not of one in conflict.
unfoldable pub insert_job : NewJob → ℕ → Db → Result (Option ℕ × Db)
unfolding validate same_page has_references insert_row
insert_job new now db = do
  _ ← validate new db
  _ ←
      check (any (same_page new.store_id new.url) db.jobs || has_references new db)
        missing_reference
  ok (insert_row new now db)
