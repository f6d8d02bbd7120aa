-- ===== src/ScrapeResults/Steps.antt =====
-- What `process_upload` does to the job table: nothing, or the insertion of the next page.
use mathlib.Core.Path.{subst}
use pc_builder.Shared.{
  ℕ, ◌+◌, ◌≤◌, ◌≡◌, refl, ap, ◌∙◌, inl, inr, Bool, true, false, Option, none, some, List, arith,
  ltb, nat_eq, option_eq, Bool-cases, get_or, Str, codes, str_eq, get_row, get_row-key,
}
use pc_builder.ScrapeResults.NextPage.{
  AllowsPages, IsPlanned, plan_next_page-IsPlanned, max_pages-AllowsPages,
}
use pc_builder.Db.{ScrapeJob, Store, Db}
use pc_builder.Db.Tables.{ScrapeTarget}
use pc_builder.Planner.{PlannedRequest}
use pc_builder.JobQueue.Config.{ok, >>=-eq-ok}
use pc_builder.JobQueue.Insert.{NewJob, insert_job}
use pc_builder.JobQueue.Complete.{Processed}
use pc_builder.ScrapeResults.Prices.{need}
use pc_builder.ScrapeResults.Listing.{
  max_pages, page_of, next_page_job, plan_next_page, insert_page, queue_next, mark_scraped,
  save_listing, find_target, listing_outcome, fresh_results, seen_pids, not_empty, hard_category_of,
  save_fresh, Tally,
}
use pc_builder.SearchService.{SearchResult}

-- The two databases have the same jobs, the same sequence and the same stores.
pub record SameQueue (db after : Db) : Type 0 where
  pub jobs : after.jobs ≡ db.jobs
  pub sequence : after.next_job_id ≡ db.next_job_id
  pub stores : after.stores ≡ db.stores

-- The next page of the listing of `job`: a child of the job, for the same store and target, with the
-- URL and the headers that are planned for one page on, and not past the pages that the target allows.
pub record IsNextPage (job : ScrapeJob) (db : Db) (new : NewJob) : Type 0 where
  pub target : ScrapeTarget
  pub found : find_target job.target_id db.catalog.targets ≡ some target
  pub store : Store
  pub store_row : get_row (λ s. s.id) job.store_id db.stores ≡ some store
  pub request : PlannedRequest
  pub planned : IsPlanned store target (page_of job + 1) request
  pub limit : ℕ
  pub allowed : AllowsPages target limit
  pub within : page_of job + 1 ≤ limit
  pub row : new ≡ record {
    store_id = job.store_id;
    job_type = codes "category_page";
    url = request.url;
    headers = request.headers;
    page = some (page_of job + 1);
    target_id = some target.id;
    product_id = none;
    parent_job_id = some job.id;
  }

pub data QueueStep (now : ℕ) (job : ScrapeJob) (db : Db) (next : Option ℕ) (after : Db)
    : Type 0 where
  untouched : SameQueue db after → next ≡ none → QueueStep now job db next after
  inserted :
      (new : NewJob)
      → IsNextPage job db new
      → (before : Db) → SameQueue db before
      → (then_db : Db) → insert_job new now before ≡ ok (next, then_db)
      → SameQueue then_db after
      → QueueStep now job db next after

pub SameQueue-refl : (db : Db) → SameQueue db db
SameQueue-refl db = record { jobs = refl; sequence = refl; stores = refl }

SameQueue-trans : (a b c : Db) → SameQueue a b → SameQueue b c → SameQueue a c
SameQueue-trans a b c p q = record {
  jobs = q.jobs ∙ p.jobs;
  sequence = q.sequence ∙ p.sequence;
  stores = q.stores ∙ p.stores;
}

mark_scraped-SameQueue :
    (t : Option ScrapeTarget) (at : ℕ) (db : Db) → SameQueue db (mark_scraped t at db)
unfolding mark_scraped
mark_scraped-SameQueue none at db = SameQueue-refl db
mark_scraped-SameQueue (some t) at db = record { jobs = refl; sequence = refl; stores = refl }

pub ok_inj {ℓ} : {A : Type ℓ} {x y : A} → ok x ≡ ok y → x ≡ y
ok_inj h = ground arith

pub need-ok {ℓ} : {A : Type ℓ} (what : Str) (o : Option A) {a : A} → need what o ≡ ok a → o ≡ some a
need-ok what none h = cc
need-ok what (some a) h = ground arith

pub untouched_if {ℓ} :
    {A : Type ℓ} (now : ℕ) (job : ScrapeJob) (db : Db) (p : A) (q : A × Db) (next : A → Option ℕ)
    (after : Db)
    → q ≡ (p, after)
    → SameQueue db q.1
    → next q.0 ≡ none
    → QueueStep now job db (next p) after
untouched_if {A = A} now job db p q next after e s n =
    subst (λ (x : A × Db). QueueStep now job db (next x.0) x.1) e (untouched s n)

insert_page-step :
    (store : Store) (target : ScrapeTarget) (job : ScrapeJob) (limit now : ℕ) (db before after : Db)
    (next : Option ℕ)
    → get_row (λ s. s.id) job.store_id db.stores ≡ some store
    → find_target job.target_id db.catalog.targets ≡ some target
    → max_pages target ≡ some limit
    → ltb (page_of job) limit ≡ true
    → SameQueue db before
    → insert_page store target job (page_of job + 1) now before ≡ ok (next, after)
    → QueueStep now job db next after
unfolding insert_page next_page_job
insert_page-step store target job limit now db before after next store_row found allowed within s
      h =
    let (request, plan, done) =
      >>=-eq-ok (need (codes "plan") (plan_next_page store target (page_of job + 1))) _ h in
    inserted (next_page_job store target job (page_of job + 1) request)
      (record {
        target = target;
        found = found;
        store = store;
        store_row = store_row;
        request = request;
        planned =
            plan_next_page-IsPlanned store target (page_of job + 1) request
              (need-ok (codes "plan") _ plan);
        limit = limit;
        allowed = max_pages-AllowsPages target limit allowed;
        within = ground arith;
        row =
            ap
              (λ (id : ℕ). record (next_page_job store target job (page_of job + 1) request) {
                store_id = id;
              })
              (get_row-key (λ s. s.id) job.store_id db.stores store_row);
      })
      before s after done (SameQueue-refl after)

queue_next-step :
    (store : Store) (t : Option ScrapeTarget) (job : ScrapeJob) (any_fresh : Bool) (now : ℕ)
    (db before after : Db) (next : Option ℕ)
    → get_row (λ s. s.id) job.store_id db.stores ≡ some store
    → find_target job.target_id db.catalog.targets ≡ t
    → SameQueue db before
    → queue_next store t job (page_of job) any_fresh now before ≡ ok (next, after)
    → QueueStep now job db next after
unfolding queue_next
queue_next-step store none job any_fresh now db before after next store_row found s h =
    untouched_if now job db next (none, before) (λ n. n) after (ground arith) s refl
queue_next-step store (some target) job false now db before after next store_row found s h =
    untouched_if now job db next (none, before) (λ n. n) after (ground arith) s refl
queue_next-step store (some target) job true now db before after next store_row found s h =
    let (limit, allowed, done) = >>=-eq-ok (need (codes "max_pages") (max_pages target)) _ h in
    elim (Bool-cases (ltb (page_of job) limit)) [
      | inl e ↦
          insert_page-step store target job limit now db before after next store_row found
            (need-ok (codes "max_pages") _ allowed) e s (rw e at done)
      | inr e ↦
          let rest = rw e at done in
          untouched_if now job db next (none, before) (λ n. n) after (ground arith) s refl
    ]

then_same :
    (now : ℕ) (job : ScrapeJob) (db mid after : Db) (next : Option ℕ)
    → SameQueue mid after
    → QueueStep now job db next mid
    → QueueStep now job db next after
then_same now job db mid after next s (untouched r n) =
    untouched (SameQueue-trans db mid after r s) n
then_same now job db mid after next s (inserted new page before b then_db i a) =
    inserted new page before b then_db i (SameQueue-trans then_db mid after a s)

module _ (get_p_category : Option Str → Str → Option Str)
    (detect_condition : Str → Option Str → Option Str) where
  pub save_listing-step :
      (job : ScrapeJob) (store : Store) (results : List SearchResult) (now : ℕ) (db after : Db)
      (p : Processed)
      → get_row (λ s. s.id) job.store_id db.stores ≡ some store
      → save_listing get_p_category detect_condition job store results now db ≡ ok (p, after)
      → QueueStep now job db p.next_job_id after
  unfolding save_listing listing_outcome
  save_listing-step job store results now db after p store_row h =
      let target = find_target job.target_id db.catalog.targets in
      let fresh = fresh_results (seen_pids db.next_job_id db.jobs job.parent_job_id) results in
      let t : Tally =
        save_fresh get_p_category detect_condition job (hard_category_of target) fresh
          (record { saved = 0; dropped = 0; catalog = db.catalog }) in
      let ((next, mid), queued, done) =
        >>=-eq-ok
          (queue_next store target job (page_of job) (not_empty fresh) now
            (record db { catalog = t.catalog }))
          _ h in
      let slot = get_or job.not_before now in
      subst (λ (x : Processed × Db). QueueStep now job db x.0.next_job_id x.1) (ok_inj done)
        (then_same now job db mid (mark_scraped target slot mid) next
          (mark_scraped-SameQueue target slot mid)
          (queue_next-step store target job (not_empty fresh) now db _ mid next store_row refl
            (record { jobs = refl; sequence = refl; stores = refl }) queued))
