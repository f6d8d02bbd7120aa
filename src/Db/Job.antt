-- ===== src/Db/Job.antt =====
-- src/db/models/scrape_job.py: one page for an agent to fetch, and the outcome stored with it.
use pc_builder.Db.Tables.{Decimal}
use pc_builder.Shared.{
  ℕ, Bool, true, false, ◌||◌, Option, List, [], ◌∷◌, nat_eq, option_eq, Str, codes, str_eq,
}

-- JOB_STATUSES, which the table's check constraint enforces
pub data JobStatus : Type 0 where
  queued leased done failed blocked rejected : JobStatus

pub data OutcomeStatus : Type 0 where
  done failed blocked rejected requeued : OutcomeStatus

-- The dictionary that a result processor returns, its "status" replaced. The counts are
-- parsed, new, saved and dropped_prices; `pids` and `next_job_id` come from listing pages, `price`
-- from product pages.
pub record Outcome : Type 0 where
  pub status : OutcomeStatus
  pub reason : Option Str
  pub counts : List (Str × ℕ)
  pub pids : List Str
  pub next_job_id : Option ℕ
  pub price : Option Decimal

pub record ScrapeJob : Type 0 where
  pub id : ℕ
  pub store_id : ℕ
  pub job_type : Str
  pub url : Str
  pub headers : List (Str × Str)
  pub page : Option ℕ
  pub target_id : Option ℕ
  pub product_id : Option ℕ
  pub parent_job_id : Option ℕ
  pub status : JobStatus
  pub attempts : ℕ
  pub available_at : ℕ
  pub lease_id : Option Str
  pub agent_id : Option ℕ
  pub not_before : Option ℕ
  pub lease_expires_at : Option ℕ
  pub result_lease_id : Option Str
  pub outcome : Option Outcome
  pub reason : Option Str
  pub finished_at : Option ℕ

-- JOB_TYPES
abbrev pub job_types : List Str
job_types = codes "category_page" ∷ codes "product_page" ∷ []

abbrev pub is_queued : JobStatus → Bool
is_queued JobStatus.queued = true
is_queued _ = false

abbrev pub is_leased : JobStatus → Bool
is_leased JobStatus.leased = true
is_leased _ = false

-- status IN ('queued', 'leased'): the rows of the partial unique index uq_scrape_jobs_active_url
abbrev pub is_active : JobStatus → Bool
is_active s = is_queued s || is_leased s
