-- ===== src/ScrapeResults/Processing.antt =====
-- `process_upload` of src/pipeline/scrape_results.py, the result processor of the queue.
use pc_builder.Shared.{
  ℕ, Option, List, if◌then◌else◌, ◌==◌, nat_eq, option_eq, Str, codes, str_eq, get_row,
}
use pc_builder.Db.{ScrapeJob, Store, Db}
use pc_builder.JobQueue.Config.{Result, ◌>>=◌}
use pc_builder.JobQueue.Complete.{Processed}
use pc_builder.ScrapeResults.{Upload}
use pc_builder.ScrapeResults.Prices.{Parse, ProductPage, need}
use pc_builder.ScrapeResults.Listing.{process_listing}
use pc_builder.ScrapeResults.Single.{find_product, process_product}
use pc_builder.SearchService.{SearchResult}

module _ (parse_search : Store → Option Str → Parse (List SearchResult))
    (parse_product : Store → Option Str → Parse (Option ProductPage))
    (get_p_category : Option Str → Str → Option Str)
    (detect_condition : Str → Option Str → Option Str) where
  unfoldable pub process_upload : ℕ → ScrapeJob → Upload → Db → Result (Processed × Db)
  unfolding get_row find_product process_product process_listing
  process_upload now job up db =
      let store? = get_row (λ s. s.id) job.store_id db.stores in
      if job.job_type == codes "product_page"
      then process_product parse_product job store? up
          (find_product job.product_id db.catalog.products) db
      else do
        store ← need (codes "store") store?
        process_listing parse_search get_p_category detect_condition job store up now db
