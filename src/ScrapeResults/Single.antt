-- ===== src/ScrapeResults/Single.antt =====
-- `_process_product` of src/pipeline/scrape_results.py. The page parser is an argument.
use mathlib.Core.Option
use pc_builder.Shared.{
  ℕ, false, ◌&&◌, Option, none, some, List, [], ◌∷◌, ◌++◌, if◌then◌else◌, ◌==◌, nat_eq, option_eq,
  get_or, is_some, Str, codes, str_eq, is_empty, strip, get_row, update_row,
}
use pc_builder.Db.{ScrapeJob, Store, Db, Decimal}
use pc_builder.Db.Tables.{Product, to_cents}
use pc_builder.JobQueue.Config.{Result, ok, ◌>>=◌}
use pc_builder.JobQueue.Complete.{Processed}
use pc_builder.Planner.{plan_product_page}
use pc_builder.ScrapeResults.{
  Upload, GateAnswer, GateOutcome, passed, stopped, raised, check_upload,
}
use pc_builder.ScrapeResults.Prices.{
  Parse, parsed, crashed, ProductPage, in_range, show_decimal, outcome, of_gate, raise, need,
}
use pc_builder.SearchService.{is_true, is_given}

unfoldable pub find_product : Option ℕ → List Product → Option Product
unfolding get_row
find_product none products = none
find_product (some id) products = if id == 0 then none else get_row (λ p. p.id) id products

-- An image is taken only where there was none.
unfoldable pub image_after : ProductPage → Product → Option Str
image_after page p =
    if is_empty (strip (get_or p.image_url [])) && is_given page.image
    then page.image
    else p.image_url

unfoldable pub read_page : ProductPage → Decimal → Product → Product
unfolding image_after
read_page page price p = record p {
  current_price = some (to_cents price);
  current_mrp = Option.map to_cents page.mrp;
  in_stock = some (is_true page.in_stock);
  image_url = image_after page p;
}

abbrev pub set_product : ℕ → (Product → Product) → Db → Db
set_product id f db = record db {
  catalog = record db.catalog { products = update_row (λ p. p.id) id f db.catalog.products };
}

unfoldable pub save_product : ScrapeJob → Product → ProductPage → Decimal → Db → Processed × Db
unfolding read_page update_row show_decimal
save_product job product page price db =
    let after = set_product product.id (read_page page price) db in
    (
      record (outcome (codes "done") none) { counts = (codes "saved", 1) ∷ []; price = some price },
      record after {
        catalog = record after.catalog {
          prices =
              record {
                product_id = product.id;
                price = to_cents price;
                mrp = Option.map to_cents page.mrp;
                in_stock = is_true page.in_stock;
                agent_id = job.agent_id;
                job_id = some job.id;
              }
              ∷ after.catalog.prices;
        };
      },
    )

unfoldable pub save_priced :
    ScrapeJob → Product → ProductPage → Option Decimal → Db → Processed × Db
unfolding save_product in_range show_decimal
save_priced job product page none db =
    (outcome (codes "rejected") (some (codes "product page had no price")), db)
save_priced job product page (some price) db =
    if in_range price
    then save_product job product page price db
    else (outcome (codes "rejected") (some (codes "unusable price " ++ show_decimal price)), db)

unfoldable pub read_product : ScrapeJob → Product → Parse (Option ProductPage) → Db → Processed × Db
unfolding save_priced
read_product job product (crashed what) db =
    (outcome (codes "rejected") (some (codes "parse error: " ++ what)), db)
read_product job product (parsed none) db =
    (outcome (codes "rejected") (some (codes "product page had no price")), db)
read_product job product (parsed (some page)) db = save_priced job product page page.price db

-- Only a page that is gone marks its product as out of stock.
unfoldable pub stop_product : Product → GateOutcome → Db → Processed × Db
unfolding update_row
stop_product product gate db =
    if is_some gate.http_status
    then (
      record (outcome (codes "done") (some (gate.reason ++ codes ": marked out of stock"))) {
        counts = (codes "saved", 0) ∷ [];
      },
      set_product product.id (λ p. record p { in_stock = some false }) db,
    )
    else (of_gate gate, db)

module _ (parse_product : Store → Option Str → Parse (Option ProductPage)) where
  unfoldable pub answer_product :
      ScrapeJob → Store → Upload → Product → Db → GateAnswer → Result (Processed × Db)
  unfolding stop_product read_product
  answer_product job store up product db raised = raise (codes "urlsplit")
  answer_product job store up product db (stopped gate) = ok (stop_product product gate db)
  answer_product job store up product db passed =
      ok (read_product job product (parse_product store up.body) db)

  unfoldable pub process_product :
      ScrapeJob → Option Store → Upload → Option Product → Db → Result (Processed × Db)
  unfolding answer_product plan_product_page check_upload
  process_product job store? up none db =
      ok (outcome (codes "failed") (some (codes "the product for this job no longer exists")), db)
  process_product job store? up (some product) db = do
    store ← need (codes "store") store?
    request ← need (codes "plan") (plan_product_page store product.product_url)
    answer_product job store up product db (check_upload store up request.expects)
