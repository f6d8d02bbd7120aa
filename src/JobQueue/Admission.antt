-- ===== src/JobQueue/Admission.antt =====
-- What `insert_job` lets into the queue, and that a page is in it at most once.
use mathlib.Core.Path.{subst}
use pc_builder.Shared.{
  ℕ, ◌+◌, ◌≡◌, refl, sym, ap, ◌∙◌, ◌↔◌, inl, inr, true, false, Option, none, some, List, [], ◌∷◌,
  arith, nat_eq, option_eq, Bool-cases, any, All, str_beq_iff, str_eq, get_row, Below-mono,
  get_row_above,
}
use pc_builder.JobQueue.Requests.{
  Admissible, validate-Valid, Valid-validate, may_refer, may_refer_iff,
}
use pc_builder.Db.{ScrapeJob, JobStatus, Db}
use pc_builder.JobQueue.Config.{ok}
use pc_builder.JobQueue.Insert.{NewJob, validate, same_page, new_row, insert_row, insert_job}
use pc_builder.JobQueue.Invariant.{WellFormed, clash, job_id}
use pc_builder.JobQueue.Rows.{new_row-JobOk}

insert_job_valid :
    (new : NewJob) (now : ℕ) (db : Db)
    → validate new db ≡ ok tt
    → may_refer new db ≡ true
    → insert_job new now db ≡ ok (insert_row new now db)
unfolding insert_job may_refer
insert_job_valid new now db v m = rw (v, m) refl

insert_job-checked :
    (new : NewJob) (now : ℕ) (db : Db) {r : Option ℕ × Db}
    → insert_job new now db ≡ ok r
    → (validate new db ≡ ok tt) × (may_refer new db ≡ true)
unfolding insert_job may_refer
insert_job-checked new now db {r} h = (ground arith, ground arith)

-- `insert_job` raises nothing exactly when the request is admissible: a known job type, allowed
-- headers only, an https URL whose host is the domain of a store that has one or lies below it, and
-- either a live job of the page or rows for the target, the product and the parent job it names.
pub insert_job-Admissible :
    (new : NewJob) (now : ℕ) (db : Db)
    → ((r : Option ℕ × Db) × (insert_job new now db ≡ ok r)) ↔ Admissible new db
insert_job-Admissible new now db = (
  λ p.
      (let (v, m) = insert_job-checked new now db p.1 in
        record { valid = validate-Valid new db v; references = (may_refer_iff new db).0 m }),
  λ a. (
    insert_row new now db,
    insert_job_valid new now db (Valid-validate new db a.valid)
        ((may_refer_iff new db).1 (a.references)),
  ),
)

pub insert_job_row :
    (new : NewJob) (now : ℕ) (db : Db) {r : Option ℕ × Db}
    → insert_job new now db ≡ ok r
    → insert_row new now db ≡ r
unfolding insert_job
insert_job_row new now db h = ground arith

clash-new_row :
    (id now : ℕ) (new : NewJob) (job : ScrapeJob)
    → same_page new.store_id new.url job ≡ false
    → clash (new_row id new now) job ≡ false
unfolding same_page clash new_row
clash-new_row id now new job h =
    ground (arith, str_beq_iff job.url new.url, str_beq_iff new.url job.url)

clashes-new_row :
    (id now : ℕ) (new : NewJob) (jobs : List ScrapeJob)
    → any (same_page new.store_id new.url) jobs ≡ false
    → All (λ k. clash (new_row id new now) k ≡ false) jobs
clashes-new_row id now new [] h = tt
clashes-new_row id now new (j ∷ jobs) h =
    (clash-new_row id now new j (ground arith), clashes-new_row id now new jobs (ground arith))

new_row-id : (id now : ℕ) (new : NewJob) → (new_row id new now).id ≡ id
unfolding new_row
new_row-id id now new = refl

insert_row-WellFormed :
    (new : NewJob) (now : ℕ) (db : Db) → WellFormed db → WellFormed (insert_row new now db).1
unfolding insert_row
insert_row-WellFormed new now db w =
    elim (Bool-cases (any (same_page new.store_id new.url) db.jobs)) [
      | inl e ↦ rw e (record {
        jobs_ok = w.jobs_ok;
        ids = Below-mono job_id db.next_job_id (db.next_job_id + 1) db.jobs (omega arith) w.ids;
        pages = w.pages;
      })
      | inr e ↦ rw e (record {
        jobs_ok = (new_row-JobOk db.next_job_id now new, w.jobs_ok);
        ids = (omega arith, w.ids);
        pages = (clashes-new_row db.next_job_id now new db.jobs e, w.pages);
      })
    ]

-- A job that is inserted keeps the table well-formed, and so does a page that is already queued.
pub insert_job-WellFormed :
    (new : NewJob) (now : ℕ) (db : Db) {r : Option ℕ × Db}
    → insert_job new now db ≡ ok r
    → WellFormed db
    → WellFormed r.1
insert_job-WellFormed new now db {r} h w =
    subst (λ (x : Option ℕ × Db). WellFormed x.1) (insert_job_row new now db h)
      (insert_row-WellFormed new now db w)

-- the page is live once the insertion has run, whether it inserted or not
insert_row-live :
    (new : NewJob) (now : ℕ) (db : Db)
    → any (same_page new.store_id new.url) (insert_row new now db).1.jobs ≡ true
unfolding insert_row
insert_row-live new now db = elim (Bool-cases (any (same_page new.store_id new.url) db.jobs)) [
  | inl e ↦ rw e e
  | inr e ↦ rw e (ground (arith, str_beq_iff new.url new.url))
]

insert_row_again :
    (new : NewJob) (now : ℕ) (db : Db)
    → any (same_page new.store_id new.url) db.jobs ≡ true
    → ((insert_row new now db).0 ≡ none) × ((insert_row new now db).1.jobs ≡ db.jobs)
unfolding insert_row
insert_row_again new now db e = rw e (refl, refl)

insert_row_stores :
    (new : NewJob) (now : ℕ) (db : Db) → (insert_row new now db).1.stores ≡ db.stores
unfolding insert_row
insert_row_stores new now db = ground arith

validate_stores :
    (new : NewJob) (db after : Db) → after.stores ≡ db.stores → validate new after ≡ validate new db
unfolding validate
validate_stores new db after e = rw e

-- Inserting a page again while its job is live inserts nothing: the second call succeeds, returns
-- None, and leaves the jobs as the first one left them.
pub insert_job_twice :
    (new : NewJob) (now later : ℕ) (db : Db) {r : Option ℕ × Db}
    → insert_job new now db ≡ ok r
    → (after : Db) × (insert_job new later r.1 ≡ ok (none, after)) × (after.jobs ≡ r.1.jobs)
insert_job_twice new now later db {r} h =
    let valid = (insert_job-checked new now db h).0 in
    let row = insert_job_row new now db h in
    let kept : r.1.stores ≡ db.stores =
      ap (λ (x : Option ℕ × Db). x.1.stores) (sym row) ∙ insert_row_stores new now db in
    let live =
      subst (λ (x : Option ℕ × Db). any (same_page new.store_id new.url) x.1.jobs ≡ true) row
        (insert_row-live new now db) in
    let again = insert_row_again new later r.1 live in
    (
      (insert_row new later r.1).1,
      insert_job_valid new later r.1 (validate_stores new db r.1 kept ∙ valid)
            (unfold may_refer in rw live refl)
          ∙ ap (λ (o : Option ℕ). ok (o, (insert_row new later r.1).1)) again.0,
      again.1,
    )

insert_row_new :
    (new : NewJob) (now id : ℕ) (db after : Db)
    → insert_row new now db ≡ (some id, after)
    → (id ≡ db.next_job_id) × (after.jobs ≡ new_row id new now ∷ db.jobs)
unfolding insert_row
insert_row_new new now id db after h =
    elim (Bool-cases (any (same_page new.store_id new.url) db.jobs)) [
      | inl e ↦ absurd (ground arith)
      | inr e ↦ (ground arith, ground arith)
    ]

-- A new job gets an id that no row had. Its row has the store, type, URL, headers, page, target,
-- product and parent of the request, and is queued since now, with no attempt, no lease, no outcome
-- and no finishing time; the other rows stay as they are.
pub insert_job_new :
    (new : NewJob) (now id : ℕ) (db after : Db)
    → insert_job new now db ≡ ok (some id, after)
    → WellFormed db
    → (get_row job_id id db.jobs ≡ none)
      × (after.jobs
          ≡ record {
            id = id;
            store_id = new.store_id;
            job_type = new.job_type;
            url = new.url;
            headers = new.headers;
            page = new.page;
            target_id = new.target_id;
            product_id = new.product_id;
            parent_job_id = new.parent_job_id;
            status = JobStatus.queued;
            attempts = 0;
            available_at = now;
            lease_id = none;
            agent_id = none;
            not_before = none;
            lease_expires_at = none;
            result_lease_id = none;
            outcome = none;
            reason = none;
            finished_at = none;
          }
            ∷ db.jobs)
unfolding new_row
insert_job_new new now id db after h w =
    let row = insert_row_new new now id db after (insert_job_row new now db h) in
    (get_row_above job_id db.next_job_id id db.jobs w.ids (omega (arith, row.0)), row.1)
