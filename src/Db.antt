-- ===== src/Db.antt =====
-- src/db/models: the rows of the tables that the scrape queue works on, and the database as one
-- value. Times are naive UTC, in microseconds. A column that no code of the queue reads or writes
-- (`created_at`, `updated_at`, the display fields of a store) is left out.
pub mod Job
pub mod Tables
pub use Job.{JobStatus, ScrapeJob, Outcome, OutcomeStatus}
pub use Tables.{Catalog, Decimal}
use pc_builder.Shared.{ℕ, ◌*◌, Bool, Option, List, Str}

abbrev pub seconds : ℕ → ℕ
seconds n = n * 1000000

-- The keys of `search_config` and `product_config` that the request planner reads.
pub record SiteConfig : Type 0 where
  pub platform : Option Str
  pub page_endpoint : Option Str

pub record Store : Type 0 where
  pub id : ℕ
  pub name : Str
  pub domain : Option Str
  pub base_url : Option Str
  pub search_endpoint : Str
  pub search_config : Option SiteConfig
  pub product_config : Option SiteConfig
  pub active : Bool
  pub min_fetch_interval_s : ℕ
  pub next_fetch_at : Option ℕ

pub record ScrapeAgent : Type 0 where
  pub id : ℕ
  pub name : Str
  pub token_hash : Str
  pub last_seen_at : Option ℕ
  pub revoked_at : Option ℕ

-- The tables, the value that the job sequence gives next, and the number of `uuid4()` calls made.
pub record Db : Type 0 where
  pub stores : List Store
  pub agents : List ScrapeAgent
  pub jobs : List ScrapeJob
  pub catalog : Catalog
  pub next_job_id : ℕ
  pub uuids_drawn : ℕ
