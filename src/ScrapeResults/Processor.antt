-- ===== src/ScrapeResults/Processor.antt =====
-- `process_upload` as the result processor of `complete`.
use mathlib.Core.Path.{subst}
use pc_builder.Shared.{
  ℕ, ◌≡◌, refl, inl, inr, not, ◌&&◌, Option, none, some, List, arith, ltb, ◌==◌, nat_eq, option_eq,
  Bool-cases, is_some, any, Str, codes, str_eq, get_row, get_row_under,
}
use pc_builder.Db.{ScrapeJob, Store, Db, Decimal}
use pc_builder.Db.Tables.{Product}
use pc_builder.JobQueue.Config.{Result, ok, >>=-eq-ok}
use pc_builder.JobQueue.Insert.{NewJob, insert_row, new_row, same_page}
use pc_builder.JobQueue.Invariant.{WellFormed, job_id}
use pc_builder.JobQueue.Admission.{insert_job-WellFormed, insert_job_row}
use pc_builder.JobQueue.Uploads.{IsProcessor}
use pc_builder.JobQueue.Complete.{Processed}
use pc_builder.Planner.{plan_product_page, listing_expects}
use pc_builder.ScrapeResults.{
  Upload, GateAnswer, GateOutcome, passed, stopped, raised, check_upload,
}
use pc_builder.ScrapeResults.Prices.{Parse, parsed, crashed, ProductPage, need, in_range}
use pc_builder.ScrapeResults.Listing.{
  page_of, read_listing, process_listing, not_empty, end_listing,
}
use pc_builder.ScrapeResults.Single.{
  find_product, process_product, stop_product, read_product, save_priced, save_product,
  answer_product,
}
use pc_builder.ScrapeResults.Processing.{process_upload}
use pc_builder.ScrapeResults.Steps.{
  SameQueue, SameQueue-refl, QueueStep, untouched, inserted, ok_inj, untouched_if,
  save_listing-step, need-ok,
}
use pc_builder.SearchService.{SearchResult}

abbrev next_of : Processed → Option ℕ
next_of p = p.next_job_id

module _ (now : ℕ) (job : ScrapeJob) (db : Db) where
  -- What a processor returns without a look at the job table.
  record IsQuiet (r : Processed × Db) : Type 0 where
    pub same : SameQueue db r.1
    pub no_page : r.0.next_job_id ≡ none

  stop_product-IsQuiet :
      (product : Product) (gate : GateOutcome) → IsQuiet (stop_product product gate db)
  unfolding stop_product
  stop_product-IsQuiet product gate = elim (Bool-cases (is_some gate.http_status)) [
    | inl e ↦
        rw e
          (record { same = record { jobs = refl; sequence = refl; stores = refl }; no_page = refl })
    | inr e ↦ rw e (record { same = SameQueue-refl db; no_page = refl })
  ]

  save_priced-IsQuiet :
      (product : Product) (page : ProductPage) (price : Option Decimal)
      → IsQuiet (save_priced job product page price db)
  unfolding save_priced save_product
  save_priced-IsQuiet product page none = record { same = SameQueue-refl db; no_page = refl }
  save_priced-IsQuiet product page (some price) = elim (Bool-cases (in_range price)) [
    | inl e ↦
        rw e
          (record { same = record { jobs = refl; sequence = refl; stores = refl }; no_page = refl })
    | inr e ↦ rw e (record { same = SameQueue-refl db; no_page = refl })
  ]

  read_product-IsQuiet :
      (product : Product) (page : Parse (Option ProductPage))
      → IsQuiet (read_product job product page db)
  unfolding read_product
  read_product-IsQuiet product (crashed what) = record { same = SameQueue-refl db; no_page = refl }
  read_product-IsQuiet product (parsed none) = record { same = SameQueue-refl db; no_page = refl }
  read_product-IsQuiet product (parsed (some page)) = save_priced-IsQuiet product page page.price

  quiet :
      (r : Processed × Db) (p : Processed) (after : Db)
      → IsQuiet r
      → ◌≡◌ {A = Result (Processed × Db)} (ok r) (ok (p, after))
      → QueueStep now job db p.next_job_id after
  quiet r p after q h = untouched_if now job db p r next_of after (ok_inj h) q.same q.no_page

  end_listing-next : (gate : GateOutcome) → (end_listing job gate).next_job_id ≡ none
  unfolding end_listing
  end_listing-next gate = elim (Bool-cases (is_some gate.http_status && ltb 1 (page_of job))) [
    | inl e ↦ rw e refl
    | inr e ↦ rw e refl
  ]

module _ (parse_search : Store → Option Str → Parse (List SearchResult))
    (parse_product : Store → Option Str → Parse (Option ProductPage))
    (get_p_category : Option Str → Str → Option Str)
    (detect_condition : Str → Option Str → Option Str) where
  read_listing-step :
      (job : ScrapeJob) (store : Store) (page : Parse (List SearchResult)) (now : ℕ) (db after : Db)
      (p : Processed)
      → get_row (λ s. s.id) job.store_id db.stores ≡ some store
      → read_listing get_p_category detect_condition job store page now db ≡ ok (p, after)
      → QueueStep now job db p.next_job_id after
  unfolding read_listing
  read_listing-step job store (crashed what) now db after p store_row h =
      quiet now job db _ p after (record { same = SameQueue-refl db; no_page = refl }) h
  read_listing-step job store (parsed results) now db after p store_row h =
      elim (Bool-cases (not (not_empty results) && page_of job == 1)) [
        | inl e ↦
            quiet now job db _ p after (record { same = SameQueue-refl db; no_page = refl })
              (rw e at h)
        | inr e ↦
            save_listing-step get_p_category detect_condition job store results now db after p
              store_row (rw e at h)
      ]

  process_listing-step :
      (job : ScrapeJob) (store : Store) (up : Upload) (now : ℕ) (db after : Db) (p : Processed)
      (answer : GateAnswer)
      → get_row (λ s. s.id) job.store_id db.stores ≡ some store
      → check_upload store up (listing_expects store) ≡ answer
      → process_listing parse_search get_p_category detect_condition job store up now db
        ≡ ok (p, after)
      → QueueStep now job db p.next_job_id after
  unfolding process_listing
  process_listing-step job store up now db after p raised store_row e h =
      absurd (ground (arith, rw (e, process_listing) at h))
  process_listing-step job store up now db after p (stopped gate) store_row e h =
      quiet now job db (end_listing job gate, db) p after
        (record { same = SameQueue-refl db; no_page = end_listing-next now job db gate })
        (rw (e, process_listing) at h)
  process_listing-step job store up now db after p passed store_row e h =
      read_listing-step job store (parse_search store up.body) now db after p store_row
        (rw (e, process_listing) at h)

  answer_product-step :
      (job : ScrapeJob) (store : Store) (up : Upload) (product : Product) (now : ℕ) (db after : Db)
      (p : Processed) (answer : GateAnswer)
      → answer_product parse_product job store up product db answer ≡ ok (p, after)
      → QueueStep now job db p.next_job_id after
  unfolding answer_product
  answer_product-step job store up product now db after p raised h = absurd (ground (arith, h))
  answer_product-step job store up product now db after p (stopped gate) h =
      quiet now job db (stop_product product gate db) p after
        (stop_product-IsQuiet now job db product gate) h
  answer_product-step job store up product now db after p passed h =
      quiet now job db _ p after
        (read_product-IsQuiet now job db product (parse_product store up.body)) h

  process_product-step :
      (job : ScrapeJob) (store? : Option Store) (up : Upload) (product? : Option Product) (now : ℕ)
      (db after : Db) (p : Processed)
      → process_product parse_product job store? up product? db ≡ ok (p, after)
      → QueueStep now job db p.next_job_id after
  unfolding process_product
  process_product-step job store? up none now db after p h =
      quiet now job db _ p after (record { same = SameQueue-refl db; no_page = refl }) h
  process_product-step job store? up (some product) now db after p h =
      let (store, _, h₁) = >>=-eq-ok (need (codes "store") store?) _ h in
      let (request, _, h₂) =
        >>=-eq-ok (need (codes "plan") (plan_product_page store product.product_url)) _ h₁ in
      answer_product-step job store up product now db after p
        (check_upload store up request.expects) h₂

  -- An upload that is processed leaves the jobs as they were and names no next job, or inserts one
  -- job and names what the insertion returned: the next page of the listing, as a child of the
  -- upload's job, for its store and its target, with the URL and the headers that the planner gives
  -- for one page on, and not past the pages that the target allows.
  pub process_upload-QueueStep :
      (now : ℕ) (job : ScrapeJob) (up : Upload) (db after : Db) (p : Processed)
      → process_upload parse_search parse_product get_p_category detect_condition now job up db
        ≡ ok (p, after)
      → QueueStep now job db p.next_job_id after
  unfolding process_upload
  process_upload-QueueStep now job up db after p h =
      elim (Bool-cases (job.job_type == codes "product_page")) [
        | inl e ↦
            process_product-step job (get_row (λ s. s.id) job.store_id db.stores) up
              (find_product job.product_id db.catalog.products) now db after p (rw e at h)
        | inr e ↦
            let (store, there, h₁) =
              >>=-eq-ok (need (codes "store") (get_row (λ s. s.id) job.store_id db.stores)) _
                (rw e at h) in
            process_listing-step job store up now db after p
              (check_upload store up (listing_expects store)) (need-ok (codes "store") _ there) refl
              h₁
      ]

same-WellFormed : (db after : Db) → SameQueue db after → WellFormed db → WellFormed after
same-WellFormed db after s w = record {
  jobs_ok = rw s.jobs w.jobs_ok;
  ids = rw (s.jobs, s.sequence) w.ids;
  pages = rw s.jobs w.pages;
}

QueueStep-WellFormed :
    (now : ℕ) (job : ScrapeJob) (db after : Db) (next : Option ℕ)
    → QueueStep now job db next after
    → WellFormed db
    → WellFormed after
QueueStep-WellFormed now job db after next (untouched s n) w = same-WellFormed db after s w
QueueStep-WellFormed now job db after next (inserted new page before b then_db i a) w =
    same-WellFormed then_db after a
      (insert_job-WellFormed new now before i (same-WellFormed db before b w))

-- An insertion leaves the rows with ids below the sequence.
insert_row-row :
    (new : NewJob) (now : ℕ) (db : Db) (k : ℕ) {j : ScrapeJob}
    → WellFormed db
    → get_row job_id k db.jobs ≡ some j
    → get_row job_id k (insert_row new now db).1.jobs ≡ some j
unfolding insert_row get_row new_row
insert_row-row new now db k {j} w e =
    let low = get_row_under job_id db.next_job_id k db.jobs w.ids e in
    elim (Bool-cases (any (same_page new.store_id new.url) db.jobs)) [
      | inl t ↦ rw t e
      | inr t ↦ rw t (ground (arith, low, e))
    ]

QueueStep-row :
    (now : ℕ) (job : ScrapeJob) (db after : Db) (next : Option ℕ) (k : ℕ) {j : ScrapeJob}
    → QueueStep now job db next after
    → WellFormed db
    → get_row job_id k db.jobs ≡ some j
    → get_row job_id k after.jobs ≡ some j
QueueStep-row now job db after next k (untouched s n) w e = rw s.jobs e
QueueStep-row now job db after next k {j} (inserted new page before b then_db i a) w e = rw a.jobs (
    subst (λ (x : Option ℕ × Db). get_row job_id k x.1.jobs ≡ some j)
      (insert_job_row new now before i)
      (insert_row-row new now before k (same-WellFormed db before b w) (rw b.jobs e)))

module _ (parse_search : Store → Option Str → Parse (List SearchResult))
    (parse_product : Store → Option Str → Parse (Option ProductPage))
    (get_p_category : Option Str → Str → Option Str)
    (detect_condition : Str → Option Str → Option Str) (now : ℕ) where
  -- `process_upload` is a processor that `complete` may run, whatever the page parser and the
  -- classifiers give: it keeps the job table well-formed and leaves the row of its job alone.
  pub process_upload-IsProcessor :
      IsProcessor (process_upload parse_search parse_product get_p_category detect_condition now)
  process_upload-IsProcessor = record {
    keeps = λ job up db after p h w.
        QueueStep-WellFormed now job db after p.next_job_id
          (process_upload-QueueStep parse_search parse_product get_p_category detect_condition now
            job up db after p h)
          w;
    row = λ job up db after p h w e.
        QueueStep-row now job db after p.next_job_id job.id
          (process_upload-QueueStep parse_search parse_product get_p_category detect_condition now
            job up db after p h)
          w e;
  }
