-- ===== src/ScrapeResults/Saved.antt =====
-- What `process_upload` saves: usable prices of known products, and each product once.
use mathlib.Core.Path.{subst}
use pc_builder.Shared.{
  ℕ, ◌+◌, ◌*◌, ◌^◌, ◌≤◌, ◌<◌, ◌≡◌, refl, sym, inl, inr, Bool, true, false, not, ◌&&◌, Option, none,
  some, List, [], ◌∷◌, arith, ltb, ◌==◌, nat_eq, option_eq, Bool-cases, get_or, is_some, some_inj,
  Str, codes, str_eq, get_row,
}
use pc_builder.Db.{ScrapeJob, Store, Db, Decimal}
use pc_builder.Db.Tables.{Catalog, ScrapeTarget, Product}
use pc_builder.JobQueue.Config.{Result, ok, >>=-eq-ok}
use pc_builder.JobQueue.Insert.{NewJob, insert_row}
use pc_builder.JobQueue.Admission.{insert_job_row}
use pc_builder.JobQueue.Complete.{Processed}
use pc_builder.ScrapeResults.{GateOutcome}
use pc_builder.ScrapeResults.Prices.{Parse, parsed, crashed, ProductPage, need, in_range}
use pc_builder.ScrapeResults.Listing.{
  max_pages, page_of, next_page_job, plan_next_page, insert_page, queue_next, mark_scraped,
  save_listing, read_listing, find_target, fresh_results, seen_pids, not_empty, hard_category_of,
  save_one, save_fresh, Tally,
}
use pc_builder.ScrapeResults.Single.{
  find_product, stop_product, save_priced, save_product, read_page, set_product,
}
use pc_builder.ScrapeResults.Steps.{ok_inj}
use pc_builder.SearchService.{SearchResult}
use pc_builder.SearchService.Prices.{
  CatalogOk, save-CatalogOk, CatalogOk-update_row, add_price-CatalogOk, product_id, has_product,
  has_product-updated,
}

-- above 0, and at most 20 lakh
pub record IsUsablePrice (d : Decimal) : Type 0 where
  pub not_negative : d.negative ≡ false
  pub not_zero : 0 < d.coefficient
  pub not_above : d.coefficient ≤ 2000000 * 10 ^ d.places

in_range-IsUsablePrice : (d : Decimal) → in_range d ≡ true → IsUsablePrice d
unfolding in_range
in_range-IsUsablePrice d h = record {
  not_negative = ground arith;
  not_zero = ground arith;
  not_above = ground arith;
}

abbrev pub SavedOk : Catalog → Type 0
SavedOk = CatalogOk IsUsablePrice

get_row-has_product :
    (id : ℕ) (ps : List Product) {p : Product}
    → get_row product_id id ps ≡ some p
    → has_product p.id ps ≡ true
unfolding get_row
get_row-has_product id [] h = cc
get_row-has_product id (q ∷ ps) {p} h = elim (Bool-cases (q.id == id)) [
  | inl e ↦ let same : q ≡ p = some_inj (rw e at h) in ground (arith, same)
  | inr e ↦ ground (arith, get_row-has_product id ps {p = p} (rw e at h))
]

pub find_product-known :
    (id : Option ℕ) (ps : List Product) {p : Product}
    → find_product id ps ≡ some p
    → has_product p.id ps ≡ true
unfolding find_product
find_product-known none ps h = cc
find_product-known (some id) ps {p} h = elim (Bool-cases (id == 0)) [
  | inl e ↦ absurd (ground (arith, rw e at h))
  | inr e ↦ get_row-has_product id ps {p = p} (rw e at h)
]

module _ (get_p_category : Option Str → Str → Option Str)
    (detect_condition : Str → Option Str → Option Str) where
  save_one-SavedOk :
      (job : ScrapeJob) (hard_category : Option Str) (r : SearchResult) (t : Tally)
      → SavedOk t.catalog
      → SavedOk (save_one get_p_category detect_condition job hard_category r t).catalog
  unfolding save_one
  save_one-SavedOk job hard_category r t w = elim (Bool-cases (in_range r.price)) [
    | inl e ↦ rw e (
        save-CatalogOk get_p_category detect_condition IsUsablePrice r job.target_id hard_category
          job.agent_id (some job.id) t.catalog (in_range-IsUsablePrice r.price e) w)
    | inr e ↦ rw e w
  ]

  save_fresh-SavedOk :
      (job : ScrapeJob) (hard_category : Option Str) (rs : List SearchResult) (t : Tally)
      → SavedOk t.catalog
      → SavedOk (save_fresh get_p_category detect_condition job hard_category rs t).catalog
  unfolding save_fresh
  save_fresh-SavedOk job hard_category [] t w = w
  save_fresh-SavedOk job hard_category (r ∷ rs) t w =
      save_fresh-SavedOk job hard_category rs _ (save_one-SavedOk job hard_category r t w)

insert_row_catalog :
    (new : NewJob) (now : ℕ) (db : Db) → (insert_row new now db).1.catalog ≡ db.catalog
unfolding insert_row
insert_row_catalog new now db = ground arith

insert_page_catalog :
    (store : Store) (target : ScrapeTarget) (job : ScrapeJob) (page now : ℕ) (db after : Db)
    (next : Option ℕ)
    → insert_page store target job page now db ≡ ok (next, after)
    → after.catalog ≡ db.catalog
unfolding insert_page
insert_page_catalog store target job page now db after next h =
    let (request, _, done) =
      >>=-eq-ok (need (codes "plan") (plan_next_page store target page)) _ h in
    let new = next_page_job store target job page request in
    subst (λ (x : Option ℕ × Db). x.1.catalog ≡ db.catalog) (insert_job_row new now db done)
      (insert_row_catalog new now db)

queue_next_catalog :
    (store : Store) (t : Option ScrapeTarget) (job : ScrapeJob) (page : ℕ) (any_fresh : Bool)
    (now : ℕ) (db after : Db) (next : Option ℕ)
    → queue_next store t job page any_fresh now db ≡ ok (next, after)
    → after.catalog ≡ db.catalog
unfolding queue_next
queue_next_catalog store none job page any_fresh now db after next h = ground (arith, h)
queue_next_catalog store (some target) job page false now db after next h = ground (arith, h)
queue_next_catalog store (some target) job page true now db after next h =
    let (limit, _, done) = >>=-eq-ok (need (codes "max_pages") (max_pages target)) _ h in
    elim (Bool-cases (ltb page limit)) [
      | inl e ↦ insert_page_catalog store target job (page + 1) now db after next (rw e at done)
      | inr e ↦ let rest = rw e at done in ground (arith, rest)
    ]

mark_scraped-SavedOk :
    (t : Option ScrapeTarget) (at : ℕ) (db : Db)
    → SavedOk db.catalog
    → SavedOk (mark_scraped t at db).catalog
unfolding mark_scraped
mark_scraped-SavedOk none at db w = w
mark_scraped-SavedOk (some t) at db w = record {
  ids = w.ids;
  listings = w.listings;
  prices = w.prices;
}

set_product-SavedOk :
    (f : Product → Product) (k : ℕ) (db : Db)
    → ((p : Product) → (f p).id ≡ p.id)
    → ((p : Product) → (f p).sid ≡ p.sid)
    → ((p : Product) → (f p).pid ≡ p.pid)
    → SavedOk db.catalog
    → SavedOk (set_product k f db).catalog
set_product-SavedOk f k db i s p w = CatalogOk-update_row IsUsablePrice f k db.catalog i s p w

pub stop_product-SavedOk :
    (product : Product) (gate : GateOutcome) (db : Db)
    → SavedOk db.catalog
    → SavedOk (stop_product product gate db).1.catalog
unfolding stop_product
stop_product-SavedOk product gate db w = elim (Bool-cases (is_some gate.http_status)) [
  | inl e ↦ rw e (set_product-SavedOk _ product.id db (λ p. refl) (λ p. refl) (λ p. refl) w)
  | inr e ↦ rw e w
]

pub save_priced-SavedOk :
    (job : ScrapeJob) (product : Product) (page : ProductPage) (price : Option Decimal) (db : Db)
    → has_product product.id db.catalog.products ≡ true
    → SavedOk db.catalog
    → SavedOk (save_priced job product page price db).1.catalog
unfolding save_priced save_product read_page
save_priced-SavedOk job product page none db known w = w
save_priced-SavedOk job product page (some price) db known w = elim (Bool-cases (in_range price)) [
  | inl e ↦ rw e (
      add_price-CatalogOk IsUsablePrice price _ _ (in_range-IsUsablePrice price e) refl
        (has_product-updated (read_page page price) product.id product.id db.catalog.products
          (λ p. refl) known)
        (set_product-SavedOk (read_page page price) product.id db (λ p. refl) (λ p. refl)
          (λ p. refl) w))
  | inr e ↦ rw e w
]

abbrev pub Kept : Db → Result (Processed × Db) → Type 0
Kept db r = (p : Processed) (after : Db) → r ≡ ok (p, after) → SavedOk after.catalog

pub Kept-ok : (db : Db) (r : Processed × Db) → SavedOk r.1.catalog → Kept db (ok r)
Kept-ok db r w p after h = subst (λ (x : Processed × Db). SavedOk x.1.catalog) (ok_inj h) w

module _ (get_p_category : Option Str → Str → Option Str)
    (detect_condition : Str → Option Str → Option Str) where
  save_listing-SavedOk :
      (job : ScrapeJob) (store : Store) (results : List SearchResult) (now : ℕ) (db : Db)
      → SavedOk db.catalog
      → Kept db (save_listing get_p_category detect_condition job store results now db)
  unfolding save_listing
  save_listing-SavedOk job store results now db w p after h =
      let target = find_target job.target_id db.catalog.targets in
      let fresh = fresh_results (seen_pids db.next_job_id db.jobs job.parent_job_id) results in
      let t : Tally =
        save_fresh get_p_category detect_condition job (hard_category_of target) fresh
          (record { saved = 0; dropped = 0; catalog = db.catalog }) in
      let before : Db = record db { catalog = t.catalog } in
      let ((next, mid), queued, done) =
        >>=-eq-ok (queue_next store target job (page_of job) (not_empty fresh) now before) _ h in
      let saved =
        subst SavedOk
          (sym (
            queue_next_catalog store target job (page_of job) (not_empty fresh) now before mid next
              queued))
          (save_fresh-SavedOk get_p_category detect_condition job (hard_category_of target) fresh
            (record { saved = 0; dropped = 0; catalog = db.catalog }) w) in
      subst (λ (x : Processed × Db). SavedOk x.1.catalog) (ok_inj done)
        (mark_scraped-SavedOk target (get_or job.not_before now) mid saved)

  pub read_listing-SavedOk :
      (job : ScrapeJob) (store : Store) (page : Parse (List SearchResult)) (now : ℕ) (db : Db)
      → SavedOk db.catalog
      → Kept db (read_listing get_p_category detect_condition job store page now db)
  unfolding read_listing
  read_listing-SavedOk job store (crashed what) now db w = Kept-ok db _ w
  read_listing-SavedOk job store (parsed results) now db w =
      elim (Bool-cases (not (not_empty results) && page_of job == 1)) [
        | inl e ↦ rw e (Kept-ok db _ w)
        | inr e ↦ rw e (save_listing-SavedOk job store results now db w)
      ]
