-- ===== src/ScrapeResults/Usable.antt =====
-- The catalog after `process_upload`, and after `complete` with it.
use mathlib.Core.Path.{subst}
use pc_builder.Shared.{
  ℕ, ◌≡◌, refl, sym, ap, inl, inr, true, Option, none, some, List, arith, ◌==◌, nat_eq, option_eq,
  Bool-cases, Str, codes, str_eq, get_row,
}
use pc_builder.Db.{ScrapeJob, Store, Db}
use pc_builder.Db.Tables.{Product}
use pc_builder.JobQueue.Config.{Result, ok, err, >>=-eq-ok}
use pc_builder.JobQueue.Complete.{Processed, ProcessStatus, complete, save_outcome}
use pc_builder.Db.{Outcome}
use pc_builder.JobQueue.Uploads.{
  Accepted, repeated, processed, Accepted-upload, run_process-ok, complete_atomic,
}
use pc_builder.Planner.{plan_product_page, listing_expects}
use pc_builder.ScrapeResults.{Upload, GateAnswer, passed, stopped, raised, check_upload}
use pc_builder.ScrapeResults.Prices.{Parse, parsed, crashed, ProductPage, need}
use pc_builder.ScrapeResults.Listing.{process_listing}
use pc_builder.ScrapeResults.Single.{find_product, process_product, answer_product, read_product}
use pc_builder.ScrapeResults.Processing.{process_upload}
use pc_builder.ScrapeResults.Saved.{
  SavedOk, Kept, Kept-ok, find_product-known, stop_product-SavedOk, save_priced-SavedOk,
  read_listing-SavedOk,
}
use pc_builder.SearchService.{SearchResult}
use pc_builder.SearchService.Prices.{has_product}

read_product-SavedOk :
    (job : ScrapeJob) (product : Product) (page : Parse (Option ProductPage)) (db : Db)
    → has_product product.id db.catalog.products ≡ true
    → SavedOk db.catalog
    → SavedOk (read_product job product page db).1.catalog
unfolding read_product
read_product-SavedOk job product (crashed what) db known w = w
read_product-SavedOk job product (parsed none) db known w = w
read_product-SavedOk job product (parsed (some page)) db known w =
    save_priced-SavedOk job product page page.price db known w

module _ (parse_search : Store → Option Str → Parse (List SearchResult))
    (parse_product : Store → Option Str → Parse (Option ProductPage))
    (get_p_category : Option Str → Str → Option Str)
    (detect_condition : Str → Option Str → Option Str) where
  process_listing-SavedOk :
      (job : ScrapeJob) (store : Store) (up : Upload) (now : ℕ) (db : Db) (answer : GateAnswer)
      → check_upload store up (listing_expects store) ≡ answer
      → SavedOk db.catalog
      → Kept db (process_listing parse_search get_p_category detect_condition job store up now db)
  unfolding process_listing
  process_listing-SavedOk job store up now db raised e w p after h =
      absurd (ground (arith, rw (e, process_listing) at h))
  process_listing-SavedOk job store up now db (stopped gate) e w p after h =
      Kept-ok db _ w p after (rw (e, process_listing) at h)
  process_listing-SavedOk job store up now db passed e w p after h =
      read_listing-SavedOk get_p_category detect_condition job store (parse_search store up.body)
        now db w p after (rw (e, process_listing) at h)

  answer_product-SavedOk :
      (job : ScrapeJob) (store : Store) (up : Upload) (product : Product) (db : Db)
      (answer : GateAnswer)
      → has_product product.id db.catalog.products ≡ true
      → SavedOk db.catalog
      → Kept db (answer_product parse_product job store up product db answer)
  unfolding answer_product
  answer_product-SavedOk job store up product db raised known w p after h =
      absurd (ground (arith, h))
  answer_product-SavedOk job store up product db (stopped gate) known w p after h =
      Kept-ok db _ (stop_product-SavedOk product gate db w) p after h
  answer_product-SavedOk job store up product db passed known w p after h =
      Kept-ok db _ (read_product-SavedOk job product (parse_product store up.body) db known w) p
        after h

  process_product-SavedOk :
      (job : ScrapeJob) (store? : Option Store) (up : Upload) (product? : Option Product) (db : Db)
      → find_product job.product_id db.catalog.products ≡ product?
      → SavedOk db.catalog
      → Kept db (process_product parse_product job store? up product? db)
  unfolding process_product
  process_product-SavedOk job store? up none db found w p after h = Kept-ok db _ w p after h
  process_product-SavedOk job store? up (some product) db found w p after h =
      let (store, _, h₁) = >>=-eq-ok (need (codes "store") store?) _ h in
      let (request, _, h₂) =
        >>=-eq-ok (need (codes "plan") (plan_product_page store product.product_url)) _ h₁ in
      let known = find_product-known job.product_id db.catalog.products {p = product} found in
      answer_product-SavedOk job store up product db (check_upload store up request.expects) known w
        p after h₂

  -- Whatever the page parser and the classifiers give, an upload that is processed leaves a catalog
  -- in which product ids are distinct, no page of a store has two products, and every saved price is
  -- that of a product with a row, and rounded to two places from a price above 0 and at most 20 lakh,
  -- if that held before.
  pub process_upload-SavedOk :
      (now : ℕ) (job : ScrapeJob) (up : Upload) (db : Db)
      → SavedOk db.catalog
      → (p : Processed) (after : Db)
      → process_upload parse_search parse_product get_p_category detect_condition now job up db
        ≡ ok (p, after)
      → SavedOk after.catalog
  unfolding process_upload
  process_upload-SavedOk now job up db w p after h =
      elim (Bool-cases (job.job_type == codes "product_page")) [
        | inl e ↦
            process_product-SavedOk job (get_row (λ s. s.id) job.store_id db.stores) up
              (find_product job.product_id db.catalog.products) db refl w p after (rw e at h)
        | inr e ↦
            let (store, _, h₁) =
              >>=-eq-ok (need (codes "store") (get_row (λ s. s.id) job.store_id db.stores)) _
                (rw e at h) in
            process_listing-SavedOk job store up now db
              (check_upload store up (listing_expects store)) refl w p after h₁
      ]

  Accepted-SavedOk :
      (lease : Str) (agent : ℕ) (up : Upload) (now : ℕ) (db : Db) (job : ScrapeJob) (o : Outcome)
      (after : Db)
      → SavedOk db.catalog
      → Accepted
          (process_upload parse_search parse_product get_p_category detect_condition now)
          lease
          agent
          up
          now
          db
          job
          o
          after
      → SavedOk after.catalog
  unfolding save_outcome
  Accepted-SavedOk lease agent up now db job o after w (repeated s e) =
      subst (λ (d : Db). SavedOk d.catalog) (sym e) w
  Accepted-SavedOk lease agent up now db job o after w (processed c r ran h) =
      let process = process_upload parse_search parse_product get_p_category detect_condition now in
      let kept =
        process_upload-SavedOk now job up db w r.1 r.2 (run_process-ok process job up db ran) in
      subst (λ (x : Outcome × Db). SavedOk x.1.catalog) h (saved_catalog process r lease job kept)
    where
      saved_catalog :
          (process : ScrapeJob → Upload → Db → Result (Processed × Db))
          (r : ProcessStatus × Processed × Db) (lease : Str) (job : ScrapeJob)
          → SavedOk r.2.catalog
          → SavedOk (save_outcome process job lease now r).1.catalog
      saved_catalog process r lease job k = k

  -- Completing an upload with `process_upload`, whatever the page parser and the classifiers give and
  -- whether it succeeds or raises, keeps a catalog in which product ids are distinct, no page of a
  -- store has two products, and every saved price is that of a product with a row, and rounded to two
  -- places from a price above 0 and at most 20 lakh.
  pub complete-SavedOk :
      (id : ℕ) (lease : Str) (agent : ℕ) (up : Upload) (now : ℕ) (db : Db)
      → SavedOk db.catalog
      → SavedOk
          (complete
            (process_upload parse_search parse_product get_p_category detect_condition now)
            id
            lease
            agent
            up
            now
            db).1.catalog
  complete-SavedOk id lease agent up now db w = go (run.0) refl
    where
      process : ScrapeJob → Upload → Db → Result (Processed × Db)
      process = process_upload parse_search parse_product get_p_category detect_condition now

      run : Result Outcome × Db
      run = complete process id lease agent up now db

      go : (r : Result Outcome) → run.0 ≡ r → SavedOk run.1.catalog
      go (err e) h =
          subst (λ (d : Db). SavedOk d.catalog)
            (sym (complete_atomic process id lease agent up now db e h)) w
      go (ok o) h =
          let (job, row, acc) =
            Accepted-upload process id lease agent up now db {o = o} {after = run.1}
              (ap (λ (x : Result Outcome). (x, run.1)) h) in
          Accepted-SavedOk lease agent up now db job o run.1 w acc
