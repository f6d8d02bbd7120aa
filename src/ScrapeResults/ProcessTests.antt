-- ===== src/ScrapeResults/ProcessTests.antt =====
-- A listing page with three products, and a product page that is gone.
use pc_builder.Shared.{
  ℕ, ◌≡◌, refl, ◌↔◌, true, false, Option, none, some, List, [], ◌∷◌, ◌++◌, map, arith, nat_eq,
  option_eq, some_inj, All, Str, codes, str_eq, mem_str, get_row,
}
use pc_builder.Db.{ScrapeJob, Store, Db, Decimal, JobStatus, OutcomeStatus}
use pc_builder.Db.Tables.{to_cents, ScrapeTarget, empty_catalog}
use pc_builder.JobQueue.Config.{Result, ok, host_belongs_to_store}
use pc_builder.JobQueue.Insert.{NewJob, new_row}
use pc_builder.JobQueue.Invariant.{WellFormed, clash}
use pc_builder.JobQueue.Rows.{new_row-JobOk}
use pc_builder.JobQueue.Complete.{Processed, complete}
use pc_builder.JobQueue.Lease.{give_lease}
use pc_builder.JobQueue.Uploads.{IsProcessor}
use pc_builder.Url.{urlsplit, hostname}
use pc_builder.ScrapeResults.{Upload, byte_length}
use pc_builder.ScrapeResults.Prices.{Parse, parsed, ProductPage, in_range, show_decimal}
use pc_builder.ScrapeResults.Listing.{seen_pids, found_pids, save_listing}
use pc_builder.ScrapeResults.Processing.{process_upload}
use pc_builder.ScrapeResults.Steps.{QueueStep}
use pc_builder.ScrapeResults.Processor.{process_upload-QueueStep, process_upload-IsProcessor}
use pc_builder.ScrapeResults.Saved.{SavedOk}
use pc_builder.ScrapeResults.Usable.{complete-SavedOk}
use pc_builder.ScrapeResults.Seen.{IsYounger, Ancestor, seen_pids-Ancestor}
use pc_builder.ScrapeResults.Counts.{IsCounted, save_listing-IsCounted}
use pc_builder.SearchService.{SearchResult}
use pc_builder.Matching.Category.{get_p_category}
use pc_builder.Matching.Condition.{detect_condition}

abbrev shop : Store
shop = record {
  id = 1;
  name = codes "shop";
  domain = some (codes "shop.in");
  base_url = some (codes "https://shop.in");
  search_endpoint = codes "https://shop.in/search?q={query}";
  search_config = none;
  product_config = none;
  active = true;
  min_fetch_interval_s = 10;
  next_fetch_at = none;
}

abbrev cpus : ScrapeTarget
cpus = record {
  id = 7;
  store_id = 1;
  target_type = 1;
  target_value = codes "cpus";
  schedule_type = 2;
  schedule_config = some (record { max_pages = some (some 3); category = some (codes "CPU") });
  priority = 0;
  enabled = true;
  next_scrape_at = 5;
  last_scraped_at = none;
}

abbrev page_one : NewJob
page_one = record {
  store_id = 1;
  job_type = codes "category_page";
  url = codes "https://shop.in/cpus";
  headers = [];
  page = some 1;
  target_id = some 7;
  product_id = none;
  parent_job_id = none;
}

abbrev first_job : ScrapeJob
first_job = new_row 1 page_one 0

abbrev shop_db : Db
shop_db = record {
  stores = shop ∷ [];
  agents = [];
  jobs = first_job ∷ [];
  catalog = record empty_catalog { targets = cpus ∷ [] };
  next_job_id = 2;
  uuids_drawn = 0;
}

shop_db-WellFormed : WellFormed shop_db
shop_db-WellFormed = record {
  jobs_ok = (new_row-JobOk 1 0 page_one, tt);
  ids = unfold new_row in (omega arith, tt);
  pages = (tt, tt);
}

shop_db-SavedOk : SavedOk shop_db.catalog
shop_db-SavedOk = record { ids = tt; listings = tt; prices = tt }

-- A price of 0.004 is above 0, and its column keeps 0.00.
fraction_lost :
    to_cents (record { negative = false; coefficient = 4; places = 3 })
    ≡ record { negative = false; coefficient = 0; places = 2 }
unfolding to_cents
fraction_lost = refl

abbrev rupees : ℕ → Decimal
rupees n = record { negative = false; coefficient = n; places = 0 }

abbrev chip : Str → ℕ → SearchResult
chip pid price = record {
  store = codes "shop";
  sid = 1;
  pid = pid;
  name = codes "AMD Ryzen 5";
  url = codes "https://shop.in/product/" ++ pid;
  price = rupees price;
  mrp = none;
  currency = codes "INR";
  image = none;
  in_stock = some true;
}

-- Two products, the first twice, and one whose price is too high.
abbrev found : List SearchResult
found = chip (codes "a") 9000 ∷ chip (codes "b") 9000000 ∷ chip (codes "a") 8500 ∷ []

abbrev parse_all : Store → Option Str → Parse (List SearchResult)
parse_all store body = parsed found

abbrev parse_none : Store → Option Str → Parse (Option ProductPage)
parse_none store body = parsed none

abbrev category : Option Str → Str → Option Str
category hard name = some (get_p_category hard (some name))

abbrev sealed : Str → Option Str → Option Str
sealed title category = detect_condition (some title) category

abbrev page : Upload
page = record {
  final_url = some (codes "https://shop.in/cpus");
  http_status = some 200;
  content_type = some (codes "text/html");
  body = some (codes "<html>");
  error = none;
}

abbrev gone : Upload
gone = record page { http_status = some 404 }

abbrev first_listed : Processed
first_listed = record {
  status = some (codes "done");
  reason = none;
  counts =
      (codes "parsed", 3)
      ∷ (codes "new", 2)
      ∷ (codes "saved", 1)
      ∷ (codes "dropped_prices", 1)
      ∷ [];
  pids = codes "a" ∷ codes "b" ∷ [];
  next_job_id = some 2;
  price = none;
}

abbrev run : Result (Processed × Db)
run = process_upload parse_all parse_none category sealed 50 first_job page shop_db

abbrev outcome_of : Result (Processed × Db) → Option Processed
outcome_of (ok r) = some r.0
outcome_of _ = none

abbrev after_of : Result (Processed × Db) → Db
after_of (ok r) = r.1
after_of _ = shop_db

listed_outcome : outcome_of run ≡ some first_listed
unfolding process_upload new_row get_row urlsplit hostname host_belongs_to_store in_range
    byte_length
listed_outcome = refl

-- The later of the two listings of one product is saved.
listed_prices :
    map (λ r. r.price) (after_of run).catalog.prices
    ≡ record { negative = false; coefficient = 850000; places = 2 } ∷ []
unfolding process_upload new_row get_row urlsplit hostname host_belongs_to_store in_range
    byte_length to_cents
listed_prices = refl

printed_price :
    show_decimal (record { negative = false; coefficient = 5; places = 2 }) ≡ codes "0.05"
unfolding show_decimal
printed_price = refl

run_ok : run ≡ ok (first_listed, after_of run)
unfolding process_upload new_row get_row urlsplit hostname host_belongs_to_store in_range
    byte_length
run_ok = refl

process_upload-QueueStep_example : QueueStep 50 first_job shop_db (some 2) (after_of run)
process_upload-QueueStep_example =
    process_upload-QueueStep parse_all parse_none category sealed 50 first_job page shop_db
      (after_of run) first_listed run_ok

process_upload-IsProcessor_example :
    IsProcessor (process_upload parse_all parse_none category sealed 50)
process_upload-IsProcessor_example =
    process_upload-IsProcessor parse_all parse_none category sealed 50

abbrev uploading_job : ScrapeJob
uploading_job = give_lease (codes "a-lease") 7 40 first_job

complete-SavedOk_example :
    SavedOk
      (complete
        (process_upload parse_all parse_none category sealed 50)
        1
        (codes "a-lease")
        7
        page
        50
        (record shop_db { jobs = uploading_job ∷ [] })).1.catalog
complete-SavedOk_example =
    complete-SavedOk parse_all parse_none category sealed 1 (codes "a-lease") 7 page 50
      (record shop_db { jobs = uploading_job ∷ [] }) shop_db-SavedOk

-- The first page of a listing brought "a", and the second is being read.
abbrev read_job : ScrapeJob
read_job = record first_job {
  status = JobStatus.done;
  agent_id = some 7;
  not_before = some 30;
  finished_at = some 40;
  outcome = some (record {
    status = OutcomeStatus.done;
    reason = none;
    counts = [];
    pids = codes "a" ∷ [];
    next_job_id = some 2;
    price = none;
  });
}

abbrev second_job : ScrapeJob
second_job =
    new_row 2
      (record page_one {
        url = codes "https://shop.in/cpus?page=2";
        page = some 2;
        parent_job_id = some 1;
      })
      40

abbrev two_pages : Db
two_pages = record shop_db { jobs = second_job ∷ read_job ∷ []; next_job_id = 3 }

two_pages-WellFormed : WellFormed two_pages
unfolding new_row clash
two_pages-WellFormed = record {
  jobs_ok = (new_row-JobOk 2 40 _, (ground arith, tt));
  ids = (omega arith, (omega arith, tt));
  pages = ((refl, tt), (tt, tt));
}

two_pages-IsYounger : All IsYounger two_pages.jobs
unfolding new_row
two_pages-IsYounger = (λ p e. let one : 1 ≡ p = some_inj e in omega arith, ((λ p e. cc), tt))

seen_pids-Ancestor_example :
    (mem_str (codes "a") (seen_pids 3 two_pages.jobs second_job.parent_job_id) ≡ true) ↔ (
      (j : ScrapeJob) × Ancestor two_pages.jobs second_job.parent_job_id j
      × (mem_str (codes "a") (found_pids j) ≡ true))
unfolding new_row get_row
seen_pids-Ancestor_example =
    seen_pids-Ancestor two_pages second_job (codes "a") two_pages-IsYounger refl
      two_pages-WellFormed

abbrev second_run : Result (Processed × Db)
second_run = save_listing category sealed second_job shop found 50 two_pages

abbrev second_listed : Processed
second_listed = record first_listed {
  counts =
      (codes "parsed", 3)
      ∷ (codes "new", 1)
      ∷ (codes "saved", 0)
      ∷ (codes "dropped_prices", 1)
      ∷ [];
  pids = codes "b" ∷ [];
  next_job_id = some 3;
}

second_run_ok : second_run ≡ ok (second_listed, after_of second_run)
unfolding save_listing new_row get_row urlsplit hostname host_belongs_to_store in_range
second_run_ok = refl

save_listing-IsCounted_example :
    IsCounted found (seen_pids 3 two_pages.jobs second_job.parent_job_id) second_listed
unfolding new_row
save_listing-IsCounted_example =
    save_listing-IsCounted category sealed second_job shop found 50 two_pages (after_of second_run)
      second_listed second_run_ok
