-- ===== src/ScrapePlanning/PlanningTests.antt =====
-- Planning two targets of one store.
use pc_builder.Shared.{
  ◌≡◌, refl, true, false, ◌&&◌, none, some, List, [], ◌∷◌, nat_eq, option_eq, any, codes, str_eq,
  get_row,
}
use pc_builder.Db.Tables.{ScrapeTarget, Product}
use pc_builder.Db.Tables.{empty_catalog}
use pc_builder.Db.{Store, Db}
use pc_builder.JobQueue.Invariant.{WellFormed}
use pc_builder.Url.{urlsplit, hostname}
use pc_builder.JobQueue.Config.{host_belongs_to_store}
use pc_builder.JobQueue.Insert.{NewJob, new_row}
use pc_builder.JobQueue.Invariant.{WellFormed}
use pc_builder.ScrapePlanning.Queued.{
  IsGrown, enqueue_due_targets-IsGrown, enqueue_products-IsGrown,
}
use pc_builder.ScrapePlanning.Schedule.{enqueue_due_targets-not_due}
use pc_builder.ScrapePlanning.{
  ListedProduct, is_among, is_due_target, due_targets, enqueue_due_targets, enqueue_products,
}

abbrev shop : Store
shop = record {
  id = 1;
  name = codes "shop";
  domain = some (codes "shop.in");
  base_url = some (codes "https://shop.in");
  search_endpoint = codes "https://shop.in/search?q={query}";
  search_config = none;
  product_config = none;
  active = true;
  min_fetch_interval_s = 10;
  next_fetch_at = none;
}

abbrev cpus : ScrapeTarget
cpus = record {
  id = 7;
  store_id = 1;
  target_type = 1;
  target_value = codes "cpus";
  schedule_type = 2;
  schedule_config = none;
  priority = 0;
  enabled = true;
  next_scrape_at = 5;
  last_scraped_at = none;
}

abbrev later : ScrapeTarget
later = record cpus { id = 8; target_value = codes "gpus"; next_scrape_at = 90 }

abbrev chip_row : Product
chip_row = record {
  id = 3;
  sid = 1;
  pid = codes "chip";
  name = codes "Chip";
  product_url = codes "/chip";
  image_url = none;
  category = none;
  p_category = none;
  condition = none;
  currency = codes "INR";
  current_price = none;
  current_mrp = none;
  in_stock = none;
  spec_status = codes "pending";
}

abbrev empty_db : Db
empty_db = record {
  stores = shop ∷ [];
  agents = [];
  jobs = [];
  catalog = record empty_catalog { targets = cpus ∷ later ∷ []; products = chip_row ∷ [] };
  next_job_id = 1;
  uuids_drawn = 0;
}

empty_db-WellFormed : WellFormed empty_db
empty_db-WellFormed = record { jobs_ok = tt; ids = tt; pages = tt }

abbrev page_one : NewJob
page_one = record {
  store_id = 1;
  job_type = codes "category_page";
  url = codes "https://shop.in/cpus";
  headers = [];
  page = some 1;
  target_id = some 7;
  product_id = none;
  parent_job_id = none;
}

abbrev planned_db : Db
planned_db = record empty_db { jobs = new_row 1 page_one 10 ∷ []; next_job_id = 2 }

abbrev moved : List ScrapeTarget
moved = record cpus { next_scrape_at = 3600000010 } ∷ later ∷ []

queued : enqueue_due_targets 10 500 (cpus ∷ later ∷ []) empty_db ≡ some (1, moved, planned_db)
unfolding enqueue_due_targets urlsplit host_belongs_to_store hostname
queued = refl

enqueue_due_targets-IsGrown_example : IsGrown 500 empty_db 1 planned_db
enqueue_due_targets-IsGrown_example =
    enqueue_due_targets-IsGrown 10 500 (cpus ∷ later ∷ []) moved empty_db 1 planned_db queued
      empty_db-WellFormed

enqueue_due_targets-not_due_example :
    any
      (λ t.
        is_among (due_targets empty_db 10 500 (cpus ∷ later ∷ [])) t && is_due_target empty_db 10 t)
      moved
    ≡ false
enqueue_due_targets-not_due_example =
    enqueue_due_targets-not_due 10 500 (cpus ∷ later ∷ []) moved empty_db 1 planned_db queued

abbrev chip : ListedProduct
chip = record { id = 3; sid = 1; product_url = codes "/chip" }

abbrev chip_page : NewJob
chip_page = record page_one {
  job_type = codes "product_page";
  url = codes "https://shop.in/chip";
  page = none;
  target_id = none;
  product_id = some 3;
}

abbrev product_db : Db
product_db = record empty_db { jobs = new_row 1 chip_page 10 ∷ []; next_job_id = 3 }

queued_once : enqueue_products (chip ∷ chip ∷ []) 10 empty_db ≡ some (1, product_db)
unfolding enqueue_products urlsplit host_belongs_to_store hostname get_row
queued_once = refl

enqueue_products-IsGrown_example : IsGrown 2 empty_db 1 product_db
enqueue_products-IsGrown_example =
    enqueue_products-IsGrown (chip ∷ chip ∷ []) 10 empty_db 1 product_db queued_once
      empty_db-WellFormed
