-- ===== src/ScrapePlanning/Queued.antt =====
-- What planning promises of the job table: it stays well-formed, and the number that is returned is
-- the number of jobs that were added.
use mathlib.Core.Path.{subst}
use pc_builder.Shared.{
  ℕ, suc, ◌+◌, ◌≤◌, ◌≡◌, refl, inl, inr, Option, none, some, List, [], ◌∷◌, arith, nat_eq,
  option_eq, Bool-cases, Option-cases, some_inj, length, length-take-le, any, str_eq,
}
use pc_builder.Db.Tables.{ScrapeTarget}
use pc_builder.Db.{Db}
use pc_builder.JobQueue.Config.{Result, ok, err}
use pc_builder.JobQueue.Insert.{NewJob, insert_job, insert_row, same_page}
use pc_builder.JobQueue.Invariant.{WellFormed}
use pc_builder.JobQueue.Admission.{insert_job-WellFormed, insert_job_row}
use pc_builder.ScrapePlanning.{
  ListedProduct, Queued, queue_one, go_on, more, count_new, job_for, product_job_for,
  enqueue_targets, enqueue_products, enqueue_due_targets, due_targets,
}

-- The table after `n` new jobs, at most `most`.
pub record IsGrown (most : ℕ) (db : Db) (n : ℕ) (after : Db) : Type 0 where
  pub bounded : n ≤ most
  pub well_formed : WellFormed after
  pub added : length after.jobs ≡ n + length db.jobs

insert_row-count :
    (new : NewJob) (now : ℕ) (db : Db)
    → length (insert_row new now db).1.jobs ≡ count_new (insert_row new now db).0 + length db.jobs
unfolding insert_row
insert_row-count new now db = elim (Bool-cases (any (same_page new.store_id new.url) db.jobs)) [
  | inl e ↦ rw e (omega arith)
  | inr e ↦ rw e (omega arith)
]

count_new-le : (id : Option ℕ) → count_new id ≤ 1
count_new-le none = omega arith
count_new-le (some id) = omega arith

insert_job-IsGrown :
    (new : NewJob) (now : ℕ) (db : Db) (id : Option ℕ) (after : Db)
    → insert_job new now db ≡ ok (id, after)
    → WellFormed db
    → IsGrown 1 db (count_new id) after
insert_job-IsGrown new now db id after h w = record {
  bounded = count_new-le id;
  well_formed = insert_job-WellFormed new now db h w;
  added =
      subst (λ (r : Option ℕ × Db). length r.1.jobs ≡ count_new r.0 + length db.jobs)
        (insert_job_row new now db h) (insert_row-count new now db);
}

none_queued :
    (db : Db) (n : ℕ) (after : Db)
    → ◌≡◌ {A = Queued} (some (0, db)) (some (n, after))
    → WellFormed db
    → IsGrown 0 db n after
none_queued db n after h w =
    subst (λ (r : ℕ × Db). IsGrown 0 db r.0 r.1) (some_inj h)
      (record { bounded = omega arith; well_formed = w; added = omega arith })

module _ (rest : Db → Queued) (most : ℕ)
    (rest_grows : (d : Db) (m : ℕ) (after : Db)
      → rest d ≡ some (m, after)
      → WellFormed d
      → IsGrown most d m after) where
  more-IsGrown :
      (db middle : Db) (k : ℕ) (r : Queued) (n : ℕ) (after : Db)
      → IsGrown 1 db k middle
      → rest middle ≡ r
      → more k r ≡ some (n, after)
      → IsGrown (suc most) db n after
  more-IsGrown db middle k none n after g e h = absurd (ground (arith, h))
  more-IsGrown db middle k (some (m, a)) n after g e h =
      let last = rest_grows middle m a e g.well_formed in
      subst (λ (r : ℕ × Db). IsGrown (suc most) db r.0 r.1) (some_inj h)
        (record {
          bounded = omega (arith, last.bounded, g.bounded);
          well_formed = last.well_formed;
          added = omega (arith, last.added, g.added);
        })

  queue_one-IsGrown :
      (o : Option NewJob) (now : ℕ) (db : Db) (n : ℕ) (after : Db)
      → queue_one o now db rest ≡ some (n, after)
      → WellFormed db
      → IsGrown (suc most) db n after
  queue_one-IsGrown none now db n after h w = absurd (ground (arith, h))
  queue_one-IsGrown (some new) now db n after h w = go_on_cases (insert_job new now db) refl h
    where
      go_on_cases :
          (r : Result (Option ℕ × Db))
          → insert_job new now db ≡ r
          → go_on r rest ≡ some (n, after)
          → IsGrown (suc most) db n after
      go_on_cases (err e) i h = absurd (ground (arith, h))
      go_on_cases (ok (id, middle)) i h =
          more-IsGrown db middle (count_new id) (rest middle) n after
            (insert_job-IsGrown new now db id middle i w) refl h

-- Planning targets keeps the table well-formed, and returns how many jobs it added, which is at most
-- one for each target.
pub enqueue_targets-IsGrown :
    (targets : List ScrapeTarget) (now : ℕ) (db : Db) (n : ℕ) (after : Db)
    → enqueue_targets targets now db ≡ some (n, after)
    → WellFormed db
    → IsGrown (length targets) db n after
unfolding enqueue_targets
enqueue_targets-IsGrown [] now db n after h w = none_queued db n after h w
enqueue_targets-IsGrown (t ∷ ts) now db n after h w =
    queue_one-IsGrown (enqueue_targets ts now) (length ts)
      (λ d m a e v. enqueue_targets-IsGrown ts now d m a e v) (job_for db t) now db n after h w

-- Planning products keeps the table well-formed, and returns how many jobs it added, which is at
-- most one for each product.
pub enqueue_products-IsGrown :
    (products : List ListedProduct) (now : ℕ) (db : Db) (n : ℕ) (after : Db)
    → enqueue_products products now db ≡ some (n, after)
    → WellFormed db
    → IsGrown (length products) db n after
unfolding enqueue_products
enqueue_products-IsGrown [] now db n after h w = none_queued db n after h w
enqueue_products-IsGrown (p ∷ ps) now db n after h w =
    queue_one-IsGrown (enqueue_products ps now) (length ps)
      (λ d m a e v. enqueue_products-IsGrown ps now d m a e v) (product_job_for db p) now db n after
      h w

due_targets-limit :
    (db : Db) (now limit : ℕ) (targets : List ScrapeTarget)
    → length (due_targets db now limit targets) ≤ limit
unfolding due_targets
due_targets-limit db now limit targets = length-take-le limit _

-- Planning the due targets keeps the table well-formed, and returns how many jobs it added, at most
-- the limit.
pub enqueue_due_targets-IsGrown :
    (now limit : ℕ) (targets moved : List ScrapeTarget) (db : Db) (n : ℕ) (after : Db)
    → enqueue_due_targets now limit targets db ≡ some (n, moved, after)
    → WellFormed db
    → IsGrown limit db n after
unfolding enqueue_due_targets
enqueue_due_targets-IsGrown now limit targets moved db n after h w =
    elim (Option-cases (enqueue_targets (due_targets db now limit targets) now db)) [
      | inl e ↦ absurd (ground (arith, rw e at h))
      | inr ((m, a), e) ↦
          let due = due_targets db now limit targets in
          let g = enqueue_targets-IsGrown due now db m a e w in
          subst (λ (r : ℕ × List ScrapeTarget × Db). IsGrown limit db r.0 r.2)
            (some_inj (rw e at h))
            (record {
              bounded = omega (arith, g.bounded, due_targets-limit db now limit targets);
              well_formed = g.well_formed;
              added = g.added;
            })
    ]
