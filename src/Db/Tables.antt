-- ===== src/Db/Tables.antt =====
-- src/db/models: the rows of the catalog (product, price_history, product_target, scrape_target) and
-- the tables as one value. `schedule_config` has the keys that the pipeline reads.
use pc_builder.Shared.{
  ℕ, ◌+◌, ◌*◌, ◌/◌, ◌^◌, ◌&&◌, ltb, Bool, Option, List, [], nat_eq, option_eq, Str, str_eq,
}

-- A finite decimal.Decimal: coefficient times 10 to the minus places.
pub record Decimal : Type 0 where
  pub negative : Bool
  pub coefficient : ℕ
  pub places : ℕ

-- What a column of type Numeric(12, 2) keeps of a value: two places, a half rounded away from zero.
-- That the ten digits before the point are enough for a value is not tested here; a price that is
-- saved is far below.
unfoldable pub to_cents : Decimal → Decimal
to_cents d =
    let cents = (200 * d.coefficient + 10 ^ d.places) / (2 * 10 ^ d.places) in
    record { negative = d.negative && ltb 0 cents; coefficient = cents; places = 2 }

pub record Product : Type 0 where
  pub id : ℕ
  pub sid : ℕ
  pub pid : Str
  pub name : Str
  pub product_url : Str
  pub image_url : Option Str
  pub category : Option Str
  pub p_category : Option Str
  pub condition : Option Str
  pub currency : Str
  pub current_price : Option Decimal
  pub current_mrp : Option Decimal
  pub in_stock : Option Bool
  pub spec_status : Str

pub record PriceHistory : Type 0 where
  pub product_id : ℕ
  pub price : Decimal
  pub mrp : Option Decimal
  pub in_stock : Bool
  pub agent_id : Option ℕ
  pub job_id : Option ℕ

pub record ProductTarget : Type 0 where
  pub product_id : ℕ
  pub target_id : ℕ

-- A key that is not there is none; a JSON null under `max_pages` is some none.
pub record ScheduleConfig : Type 0 where
  pub max_pages : Option (Option ℕ)
  pub category : Option Str

-- A `schedule_config` of none is a JSON value that is not an object.
pub record ScrapeTarget : Type 0 where
  pub id : ℕ
  pub store_id : ℕ
  pub target_type : ℕ
  pub target_value : Str
  pub schedule_type : ℕ
  pub schedule_config : Option ScheduleConfig
  pub priority : ℕ
  pub enabled : Bool
  pub next_scrape_at : ℕ
  pub last_scraped_at : Option ℕ

-- TargetType.SEARCH of src/common/enums/target_type.py
abbrev pub search_target : ℕ
search_target = 0

-- The tables, and the value that the product sequence gives next.
pub record Catalog : Type 0 where
  pub targets : List ScrapeTarget
  pub products : List Product
  pub links : List ProductTarget
  pub prices : List PriceHistory
  pub next_product_id : ℕ

abbrev pub empty_catalog : Catalog
empty_catalog = record { targets = []; products = []; links = []; prices = []; next_product_id = 1 }
