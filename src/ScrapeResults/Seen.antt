-- ===== src/ScrapeResults/Seen.antt =====
-- `_seen_pids` of src/pipeline/scrape_results.py: the walk along the parents of a job ends, and finds
-- what all of them brought.
use mathlib.Core.Path.{subst}
use pc_builder.Shared.{
  ℕ, zero, suc, ◌<◌, ◌≡◌, refl, sym, ap, ◌∙◌, ◌↔◌, inl, inr, Bool, true, false, ◌||◌, Option, none,
  some, List, [], ◌∷◌, ◌++◌, arith, nat_eq, option_eq, Bool-cases, Option-cases, some_inj, any, All,
  Str, str_eq, mem_str, get_row, get_row-key, All-get_row, get_row_under,
}
use pc_builder.Db.{ScrapeJob, Db}
use pc_builder.JobQueue.Insert.{NewJob, insert_row, new_row, same_page}
use pc_builder.JobQueue.Invariant.{WellFormed, job_id}
use pc_builder.JobQueue.Admission.{insert_job_row}
use pc_builder.ScrapeResults.Listing.{seen_pids, found_pids}
use pc_builder.ScrapeResults.Steps.{QueueStep, untouched, inserted}

-- The parent of a job is an older job, so the walk goes down.
abbrev pub IsYounger : ScrapeJob → Type 0
IsYounger j = (p : ℕ) → j.parent_job_id ≡ some p → p < j.id

-- The jobs that a walk from `start` meets.
pub data Ancestor (jobs : List ScrapeJob) : Option ℕ → ScrapeJob → Type 0 where
  parent : (id : ℕ) (j : ScrapeJob) → get_row job_id id jobs ≡ some j → Ancestor jobs (some id) j
  further :
      (id : ℕ) (j k : ScrapeJob)
      → get_row job_id id jobs ≡ some j
      → Ancestor jobs j.parent_job_id k
      → Ancestor jobs (some id) k

-- `start` is behind the fuel
Within : ℕ → Option ℕ → Type 0
Within fuel start = (p : ℕ) → start ≡ some p → p < fuel

or_true : (b : Bool) → b || true ≡ true
or_true true = refl
or_true false = refl

mem_str-append : (s : Str) (xs ys : List Str) → mem_str s (xs ++ ys) ≡ mem_str s xs || mem_str s ys
mem_str-append s [] ys = refl
mem_str-append s (x ∷ xs) ys = ground (arith, mem_str-append s xs ys)

module _ (fuel : ℕ) (jobs : List ScrapeJob) (id : ℕ) where
  seen_pids_gone : get_row job_id id jobs ≡ none → seen_pids (suc fuel) jobs (some id) ≡ []
  unfolding seen_pids
  seen_pids_gone e = rw (e, seen_pids) refl

  seen_pids_found :
      (j : ScrapeJob)
      → get_row job_id id jobs ≡ some j
      → seen_pids (suc fuel) jobs (some id) ≡ found_pids j ++ seen_pids fuel jobs j.parent_job_id
  unfolding seen_pids
  seen_pids_found j e = rw (e, seen_pids) refl

module _ (jobs : List ScrapeJob) (pid : Str) where
  found :
      (fuel id : ℕ) (j : ScrapeJob)
      → get_row job_id id jobs ≡ some j
      → (mem_str pid (seen_pids fuel jobs j.parent_job_id) ≡ true
          → (k : ScrapeJob) × Ancestor jobs j.parent_job_id k × (mem_str pid (found_pids k) ≡ true))
      → mem_str pid (found_pids j) || mem_str pid (seen_pids fuel jobs j.parent_job_id) ≡ true
      → (k : ScrapeJob) × Ancestor jobs (some id) k × (mem_str pid (found_pids k) ≡ true)
  found fuel id j e behind h = elim (Bool-cases (mem_str pid (found_pids j))) [
    | inl t ↦ (j, parent id j e, t)
    | inr t ↦ let (k, up, m) = behind (rw t at h) in (k, further id j k e up, m)
  ]

  seen_pids_sound :
      (fuel : ℕ) (start : Option ℕ)
      → mem_str pid (seen_pids fuel jobs start) ≡ true
      → (j : ScrapeJob) × Ancestor jobs start j × (mem_str pid (found_pids j) ≡ true)
  unfolding seen_pids
  seen_pids_sound fuel none h = cc
  seen_pids_sound zero (some id) h = cc
  seen_pids_sound (suc fuel) (some id) h = elim (Option-cases (get_row job_id id jobs)) [
    | inl e ↦ absurd (ground (arith, rw (seen_pids_gone fuel jobs id e) at h))
    | inr (j, e) ↦
        found fuel id j e (λ m. seen_pids_sound fuel j.parent_job_id m)
          (rw
            (
              seen_pids_found fuel jobs id j e,
              mem_str-append pid (found_pids j) (seen_pids fuel jobs j.parent_job_id),
            )
            at h)
  ]

  seen_pids_complete :
      (fuel : ℕ) (start : Option ℕ) (k : ScrapeJob)
      → All IsYounger jobs
      → Within fuel start
      → Ancestor jobs start k
      → mem_str pid (found_pids k) ≡ true
      → mem_str pid (seen_pids fuel jobs start) ≡ true
  unfolding seen_pids Within
  seen_pids_complete zero _ _ young w (parent id j e) m = absurd (omega (arith, w id refl))
  seen_pids_complete zero _ _ young w (further id j k e up) m = absurd (omega (arith, w id refl))
  seen_pids_complete (suc fuel) _ _ young w (parent id j e) m =
      rw
        (
          seen_pids_found fuel jobs id j e,
          mem_str-append pid (found_pids j) (seen_pids fuel jobs j.parent_job_id),
          m,
        )
        refl
  seen_pids_complete (suc fuel) _ _ young w (further id j k e up) m =
      let below = All-get_row job_id IsYounger id jobs young e in
      let at_id = get_row-key job_id id jobs e in
      let rest =
        seen_pids_complete fuel j.parent_job_id k young
          (λ p q. omega (arith, below p q, at_id, w id refl)) up m in
      rw
        (
          seen_pids_found fuel jobs id j e,
          mem_str-append pid (found_pids j) (seen_pids fuel jobs j.parent_job_id),
          rest,
        )
        (or_true (mem_str pid (found_pids j)))

-- Where every job's parent is an older job, the walk ends within the fuel that it is given and has
-- found exactly the product ids that the job's ancestors brought.
pub seen_pids-Ancestor :
    (db : Db) (job : ScrapeJob) (pid : Str)
    → All IsYounger db.jobs
    → get_row job_id job.id db.jobs ≡ some job
    → WellFormed db
    → (mem_str pid (seen_pids db.next_job_id db.jobs job.parent_job_id) ≡ true) ↔ (
        (j : ScrapeJob) × Ancestor db.jobs job.parent_job_id j
        × (mem_str pid (found_pids j) ≡ true))
unfolding Within
seen_pids-Ancestor db job pid young row w = (
  λ m. seen_pids_sound db.jobs pid db.next_job_id job.parent_job_id m,
  λ (j, up, m).
      seen_pids_complete db.jobs pid db.next_job_id job.parent_job_id j young
        (λ p e. omega (
          arith,
          All-get_row job_id IsYounger job.id db.jobs young row p e,
          get_row_under job_id db.next_job_id job.id db.jobs {x = job} w.ids row,
        ))
        up m,
)

insert_row-IsYounger :
    (new : NewJob) (now : ℕ) (db : Db)
    → ((p : ℕ) → new.parent_job_id ≡ some p → p < db.next_job_id)
    → All IsYounger db.jobs
    → All IsYounger (insert_row new now db).1.jobs
unfolding insert_row new_row
insert_row-IsYounger new now db older young =
    elim (Bool-cases (any (same_page new.store_id new.url) db.jobs)) [
      | inl t ↦ rw t young
      | inr t ↦ rw t (older, young)
    ]

-- A step of `process_upload` on the job table keeps every job younger than its parent.
pub QueueStep-IsYounger :
    (now : ℕ) (job : ScrapeJob) (db after : Db) (next : Option ℕ)
    → QueueStep now job db next after
    → get_row job_id job.id db.jobs ≡ some job
    → WellFormed db
    → All IsYounger db.jobs
    → All IsYounger after.jobs
QueueStep-IsYounger now job db after next (untouched s n) row w young = rw s.jobs young
QueueStep-IsYounger now job db after next (inserted new page before b then_db i a) row w young =
    let below = get_row_under job_id db.next_job_id job.id db.jobs {x = job} w.ids row in
    rw a.jobs (
      subst (λ (x : Option ℕ × Db). All IsYounger x.1.jobs) (insert_job_row new now before i)
        (insert_row-IsYounger new now before
          (λ p e. rw b.sequence (
            subst (λ k. k < db.next_job_id)
              (some_inj (sym (ap (λ (n : NewJob). n.parent_job_id) page.row) ∙ e)) below))
          (rw b.jobs young)))
