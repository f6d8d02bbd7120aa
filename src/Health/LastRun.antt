-- ===== src/Health/LastRun.antt =====
-- The run of a task that started last, which `pipeline_problems` of src/pipeline/health.py looks at.
use pc_builder.Shared.{
  ℕ, ◌≤◌, ◌<◌, ◌≡◌, refl, ◌≢◌, inl, inr, Option, none, some, List, [], ◌∷◌, arith, ltb, ◌==◌,
  nat_eq, option_eq, Bool-cases, All, All-map, Str, str_beq_iff, str_eq,
}
use pc_builder.Health.{TaskRun, latest_run, later_run}

module _ (task : Str) where
  -- The run of the task that started last; of two that started together, the one listed first.
  pub data LastRun : List TaskRun → TaskRun → Type 0 where
    here :
        {r : TaskRun} {runs : List TaskRun}
        → r.task ≡ task
        → All (λ (s : TaskRun). s.task ≡ task → s.started_at ≤ r.started_at) runs
        → LastRun (r ∷ runs) r
    later :
        {r s : TaskRun} {runs : List TaskRun}
        → (s.task ≡ task → s.started_at < r.started_at)
        → LastRun runs r
        → LastRun (s ∷ runs) r

  -- What `latest_run` answers.
  abbrev pub IsLast : List TaskRun → Option TaskRun → Type 0
  IsLast runs none = All (λ (r : TaskRun). r.task ≢ task) runs
  IsLast runs (some r) = LastRun runs r

  none-before :
      (r : TaskRun) (runs : List TaskRun)
      → All (λ (s : TaskRun). s.task ≢ task) runs
      → All (λ (s : TaskRun). s.task ≡ task → s.started_at ≤ r.started_at) runs
  none-before r runs h = All-map _ _ runs (λ s ne e. absurd (ne e)) h

  last-before :
      (r x : TaskRun) {runs : List TaskRun}
      → LastRun runs x
      → x.started_at ≤ r.started_at
      → All (λ (s : TaskRun). s.task ≡ task → s.started_at ≤ r.started_at) runs
  last-before r x (here {runs = runs} e h) le =
      (λ _. le, All-map _ _ runs (λ s b t. omega (arith, b t, le)) h)
  last-before r x (later b l) le = (λ t. omega (arith, b t, le), last-before r x l le)

  later_run-IsLast :
      (r : TaskRun) (runs : List TaskRun) (rest : Option TaskRun)
      → r.task ≡ task
      → IsLast runs rest
      → IsLast (r ∷ runs) (later_run r rest)
  later_run-IsLast r runs none e h = here e (none-before r runs h)
  later_run-IsLast r runs (some x) e h = elim (Bool-cases (ltb r.started_at x.started_at)) [
    | inl t ↦ rw t (later (λ _. ground (arith, t)) h)
    | inr t ↦ rw t (here e (last-before r x h (ground (arith, t))))
  ]

  skip-IsLast :
      (r : TaskRun) (runs : List TaskRun) (rest : Option TaskRun)
      → r.task ≢ task
      → IsLast runs rest
      → IsLast (r ∷ runs) rest
  skip-IsLast r runs none ne h = (ne, h)
  skip-IsLast r runs (some x) ne h = later (λ e. absurd (ne e)) h

  pub latest_run-IsLast : (runs : List TaskRun) → IsLast runs (latest_run task runs)
  unfolding latest_run
  latest_run-IsLast [] = tt
  latest_run-IsLast (r ∷ runs) = elim (Bool-cases (r.task == task)) [
    | inl e ↦ rw e (
        later_run-IsLast r runs (latest_run task runs) ((str_beq_iff r.task task).0 e)
          (latest_run-IsLast runs))
    | inr e ↦ rw e (
        skip-IsLast r runs (latest_run task runs)
          (λ t. ground (arith, str_beq_iff r.task task, e, t)) (latest_run-IsLast runs))
  ]

  -- two last runs are the same one
  LastRun-task : {runs : List TaskRun} {x : TaskRun} → LastRun runs x → x.task ≡ task
  LastRun-task (here e h) = e
  LastRun-task (later b l) = LastRun-task l

  LastRun-bound :
      {runs : List TaskRun} {x : TaskRun} (n : ℕ)
      → LastRun runs x
      → All (λ (s : TaskRun). s.task ≡ task → s.started_at ≤ n) runs
      → x.started_at ≤ n
  LastRun-bound n (here e h) b = b.0 e
  LastRun-bound n (later a l) b = LastRun-bound n l b.1

  pub LastRun-same : {runs : List TaskRun} {x y : TaskRun} → LastRun runs x → LastRun runs y → x ≡ y
  LastRun-same (here e h) (here f g) = refl
  LastRun-same (here {r} e h) (later b l) =
      let low = LastRun-bound r.started_at l h in absurd (omega (arith, low, b e))
  LastRun-same (later b l) (here {r} e h) =
      let low = LastRun-bound r.started_at l h in absurd (omega (arith, low, b e))
  LastRun-same (later b l) (later c m) = LastRun-same l m

  pub LastRun-some :
      {runs : List TaskRun} {x : TaskRun}
      → LastRun runs x
      → All (λ (r : TaskRun). r.task ≢ task) runs
      → ⊥
  LastRun-some (here e h) n = n.0 e
  LastRun-some (later b l) n = LastRun-some l n.1
