-- ===== src/JobQueue/Invariant.antt =====
-- What the functions of src/pipeline/job_queue.py keep of the job table, and how one job
-- may differ before and after an operation.
use pc_builder.Shared.{
  ℕ, ◌≤◌, ◌<◌, ◌≡◌, refl, ◌∙◌, Bool, true, false, not, ◌&&◌, List, [], ◌∷◌, arith, ◌==◌, nat_eq,
  option_eq, is_some, All, str_beq_iff, str_eq, Below, Pointwise, Pointwise-All, Pointwise-Below,
}
use pc_builder.Shared.{nil, cons}
use pc_builder.Db.{ScrapeJob, JobStatus, Db}
use pc_builder.Db.Job.{is_active, is_queued, is_leased}
use pc_builder.JobQueue.Config.{max_attempts}

abbrev pub job_id : ScrapeJob → ℕ
job_id j = j.id

-- One job: fewer than three attempts while it waits, one to three while it is leased, a lease id and
-- its expiry exactly while it is leased, an agent and a slot exactly unless it waits (a finished job
-- keeps those of its last lease), and a finishing time exactly when it is finished.
pub record JobOk (j : ScrapeJob) : Type 0 where
  pub attempts_queued : is_queued j.status ≡ true → j.attempts < max_attempts
  pub attempts_leased : is_leased j.status ≡ true → 0 < j.attempts
  pub attempts_capped : j.attempts ≤ max_attempts
  pub lease_id_set : is_some j.lease_id ≡ is_leased j.status
  pub expiry_set : is_some j.lease_expires_at ≡ is_leased j.status
  pub agent_set : is_some j.agent_id ≡ not (is_queued j.status)
  pub slot_set : is_some j.not_before ≡ not (is_queued j.status)
  pub finished_set : is_some j.finished_at ≡ not (is_active j.status)

-- Two live jobs for one page of one store, which the partial unique index forbids.
unfoldable pub clash : ScrapeJob → ScrapeJob → Bool
clash a b = is_active a.status && is_active b.status && a.store_id == b.store_id && a.url == b.url

abbrev pub OnePerPage : List ScrapeJob → Type 0
OnePerPage [] = Unit
OnePerPage (j ∷ js) = All (λ k. clash j k ≡ false) js × OnePerPage js

pub record WellFormed (db : Db) : Type 0 where
  pub jobs_ok : All JobOk db.jobs
  pub ids : Below job_id db.next_job_id db.jobs
  pub pages : OnePerPage db.jobs

-- One job before and after an operation that allows the moves `M`.
pub record Advance (M : JobStatus → JobStatus → Type 0) (x y : ScrapeJob) : Type 0 where
  pub same_id : y.id ≡ x.id
  pub same_store : y.store_id ≡ x.store_id
  pub same_url : y.url ≡ x.url
  pub move : M x.status y.status
  pub alive : is_active y.status ≡ true → is_active x.status ≡ true
  pub keeps_ok : JobOk x → JobOk y

pub Advance-refl :
    (M : JobStatus → JobStatus → Type 0)
    → ((s : JobStatus) → M s s)
    → (x : ScrapeJob) → Advance M x x
Advance-refl M r x = record {
  same_id = refl;
  same_store = refl;
  same_url = refl;
  move = r x.status;
  alive = λ h. h;
  keeps_ok = λ h. h;
}

pub Advance-trans :
    (M : JobStatus → JobStatus → Type 0)
    → ((a b c : JobStatus) → M a b → M b c → M a c)
    → (x y z : ScrapeJob) → Advance M x y
    → Advance M y z
    → Advance M x z
Advance-trans M t x y z p q = record {
  same_id = q.same_id ∙ p.same_id;
  same_store = q.same_store ∙ p.same_store;
  same_url = q.same_url ∙ p.same_url;
  move = t x.status y.status z.status p.move q.move;
  alive = λ h. p.alive (q.alive h);
  keeps_ok = λ h. q.keeps_ok (p.keeps_ok h);
}

module _ (M : JobStatus → JobStatus → Type 0) where
  clash-Advance :
      (x y u v : ScrapeJob) → Advance M x y → Advance M u v → clash x u ≡ false → clash y v ≡ false
  unfolding clash
  clash-Advance x y u v p q h = grind (arith, str_beq_iff x.url u.url, str_beq_iff y.url v.url)

  clashes-Advance :
      (x y : ScrapeJob) {us vs : List ScrapeJob}
      → Advance M x y
      → Pointwise (Advance M) us vs
      → All (λ u. clash x u ≡ false) us
      → All (λ v. clash y v ≡ false) vs
  clashes-Advance x y p nil h = tt
  clashes-Advance x y p (cons r q) h = (clash-Advance x y _ _ p r h.0, clashes-Advance x y p q h.1)

  pub OnePerPage-Advance :
      {xs ys : List ScrapeJob} → Pointwise (Advance M) xs ys → OnePerPage xs → OnePerPage ys
  OnePerPage-Advance nil h = tt
  OnePerPage-Advance (cons r p) h = (clashes-Advance _ _ r p h.0, OnePerPage-Advance p h.1)

  -- A table whose rows advance stays well-formed.
  pub WellFormed-Advance :
      (db after : Db)
      → after.next_job_id ≡ db.next_job_id
      → Pointwise (Advance M) db.jobs after.jobs
      → WellFormed db
      → WellFormed after
  WellFormed-Advance db after same p w = record {
    jobs_ok = Pointwise-All (Advance M) JobOk (λ x y r. r.keeps_ok) p w.jobs_ok;
    ids = rw same (Pointwise-Below (Advance M) job_id (λ x y r. r.same_id) db.next_job_id p w.ids);
    pages = OnePerPage-Advance p w.pages;
  }
