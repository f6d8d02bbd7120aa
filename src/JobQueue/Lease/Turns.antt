-- ===== src/JobQueue/Lease/Turns.antt =====
-- Induction over the round robin of `lease`: what one turn may do, and what a turn keeps the loop
-- keeps.
use mathlib.Core.Path.{subst}
use pc_builder.Shared.{
  get_row-key, ℕ, zero, suc, ◌≤◌, ◌<◌, ◌≡◌, refl, sym, inl, inr, true, false, not, ◌&&◌, Option,
  none, some, List, [], ◌∷◌, arith, leb, nat_eq, option_eq, Bool-cases, Option-cases, length, Str,
  str_eq, get_row, get_row-key, Bool-cases, Option-cases, some, none, true, inl, inr, zero, suc,
  Option, refl, sym, [], ◌∷◌, Str, leb, get_row-key, get_row-key, Bool-cases, Option-cases, some,
  none, true, inl, inr, zero, suc, Option, refl, sym, [], ◌∷◌, Str, leb, least-All, Below,
  Below-get_row, get_row-key, Bool-cases, Option-cases, some, none, true, inl, inr, zero, suc,
  Option, refl, sym, [], ◌∷◌, Str, leb,
}
use pc_builder.Db.{ScrapeJob, Store}
use pc_builder.JobQueue.Config.{Locks}
use pc_builder.JobQueue.Lease.{
  Round, is_due, pick_job, next_job, job_order, visit, give, skip, hand_out, pass, rounds, slot_of,
  horizon, goes_on,
}
use pc_builder.JobQueue.Invariant.{job_id}

abbrev pub store_key : Store → ℕ
store_key s = s.id

-- The job that is picked is due, not locked, and the row that its id finds.
pub record Picked (locks : Locks) (now store_id : ℕ) (jobs : List ScrapeJob) (job : ScrapeJob)
    : Type 0 where
  pub due : is_due now store_id job ≡ true
  pub unlocked : locks.job job.id ≡ false
  pub row : get_row job_id job.id jobs ≡ some job

pick_job-Picked :
    (locks : Locks) (now store_id n : ℕ) (jobs : List ScrapeJob) {job : ScrapeJob}
    → Below job_id n jobs
    → pick_job locks now store_id jobs ≡ some job
    → Picked locks now store_id jobs job
unfolding pick_job
pick_job-Picked locks now store_id n jobs {job} b e =
    let found =
      least-All job_order (λ j. is_due now store_id j && not (locks.job j.id))
        (λ j. get_row job_id j.id jobs ≡ some j) jobs (Below-get_row job_id n jobs b) e in
    record { due = ground (arith, found.0); unlocked = ground (arith, found.0); row = found.1 }

-- What holds when a turn hands out `job` of `store`.
pub record Turn (locks : Locks) (now max_jobs : ℕ) (r : Round) (store : Store) (job : ScrapeJob)
    : Type 0 where
  pub room : length r.leased_jobs < max_jobs
  pub store_row : get_row store_key store.id r.stores ≡ some store
  pub in_window : slot_of now store ≤ horizon now
  pub picked : Picked locks now store.id r.jobs job

next_job-some :
    (locks : Locks) (now : ℕ) (store : Store) (jobs : List ScrapeJob) {job : ScrapeJob}
    → next_job locks now store jobs ≡ some job
    → (slot_of now store ≤ horizon now) × (pick_job locks now store.id jobs ≡ some job)
unfolding next_job
next_job-some locks now store jobs e = ground arith

module _ (uuid4 : ℕ → Str) (locks : Locks) (agent_id now max_jobs : ℕ) where
  handed_cases {ℓ} :
      (P : Round → Type ℓ) (n : ℕ) (r : Round)
      → Below job_id n r.jobs
      → ((k : ℕ) → P (skip k r))
      → ((store : Store) (job : ScrapeJob)
          → Turn locks now max_jobs r store job
          → P (hand_out uuid4 agent_id now store r job))
      → (store : Store) → get_row store_key store.id r.stores ≡ some store
      → length r.leased_jobs < max_jobs
      → (o : Option ScrapeJob) → next_job locks now store r.jobs ≡ o
      → P (give uuid4 locks agent_id now store r o)
  unfolding give
  handed_cases P n r b dropped handed store e room none h = dropped store.id
  handed_cases P n r b dropped handed store e room (some job) h =
      let found = next_job-some locks now store r.jobs h in
      handed store job (record {
        room = room;
        store_row = e;
        in_window = found.0;
        picked = pick_job-Picked locks now store.id n r.jobs b found.1;
      })

  -- A turn leaves the round alone, drops a store, or hands out a job.
  pub visit_cases {ℓ} :
      (P : Round → Type ℓ) (n store_id : ℕ) (r : Round)
      → Below job_id n r.jobs
      → P r
      → ((k : ℕ) → P (skip k r))
      → ((store : Store) (job : ScrapeJob)
          → Turn locks now max_jobs r store job
          → P (hand_out uuid4 agent_id now store r job))
      → P (visit uuid4 locks agent_id now max_jobs store_id r)
  unfolding visit
  visit_cases P n store_id r b same dropped handed =
      elim (Bool-cases (leb max_jobs (length r.leased_jobs))) [
        | inl full ↦ rw full same
        | inr free ↦ rw free (elim (Option-cases (get_row store_key store_id r.stores)) [
          | inl e ↦ rw e (dropped store_id)
          | inr (store, e) ↦ rw e (
              handed_cases P n r b dropped handed store
                (subst (λ k. get_row store_key k r.stores ≡ some store)
                  (sym (get_row-key store_key store_id r.stores e)) e)
                (ground arith) (next_job locks now store r.jobs) refl)
        ])
      ]

  -- What every turn keeps, the whole loop keeps.
  module _ {ℓ} (P : Round → Type ℓ)
      (keep : (k : ℕ) (r : Round) → P r → P (visit uuid4 locks agent_id now max_jobs k r)) where
    pub pass_induction :
        (ids : List ℕ) (r : Round) → P r → P (pass uuid4 locks agent_id now max_jobs ids r)
    unfolding pass
    pass_induction [] r h = h
    pass_induction (k ∷ ids) r h = pass_induction ids _ (keep k r h)

    pub rounds_induction :
        (fuel : ℕ) (r : Round) → P r → P (rounds uuid4 locks agent_id now fuel max_jobs r)
    unfolding rounds
    rounds_induction zero r h = h
    rounds_induction (suc fuel) r h = elim (Bool-cases (goes_on max_jobs r)) [
      | inl e ↦ rw (e, rounds) (rounds_induction fuel _ (pass_induction r.waiting r h))
      | inr e ↦ rw (e, rounds) h
    ]
