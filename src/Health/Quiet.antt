-- ===== src/Health/Quiet.antt =====
-- When the health page reports no problem.
use mathlib.Core.Path.{subst}
use pc_builder.Shared.{
  ℕ, ◌+◌, ◌*◌, ◌≤◌, ◌≡◌, refl, sym, ap, ◌∙◌, ◌≢◌, ◌↔◌, inl, inr, Bool, true, false, not, ◌&&◌,
  Option, none, some, List, [], ◌∷◌, ◌++◌, map, arith, leb, nat_eq, option_eq, Bool-cases,
  Option-cases, is_none, any, all, All, Str, codes, str_eq,
}
use pc_builder.Health.LastRun.{LastRun, IsLast, latest_run-IsLast, LastRun-same, LastRun-some}
use pc_builder.Db.{ScrapeAgent}
use pc_builder.Db.{Db}
use pc_builder.Health.{
  agent_silence, price_silence, scheduled_tasks, TaskRun, RunStatus, Problem, latest, latest_run,
  is_stale, is_unrevoked, last_seen, is_broken, run_problems, agent_problems, price_problems,
  task_problems, pipeline_problems, report_status, pipeline_report,
}

-- a day, in microseconds
abbrev pub day : ℕ
day = 86400000000

-- at most `age` ago
abbrev pub is_within : ℕ → ℕ → ℕ → Bool
is_within age now t = leb now (t + age)

abbrev was_recent : ℕ → ℕ → Option ℕ → Bool
was_recent age now none = false
was_recent age now (some t) = is_within age now t

stale-latest :
    (age now : ℕ) (ts : List (Option ℕ))
    → is_stale age now (latest ts) ≡ not (any (was_recent age now) ts)
unfolding latest
stale-latest age now [] = refl
stale-latest age now (none ∷ ts) = stale-latest age now ts
stale-latest age now (some t ∷ ts) = elim (Option-cases (latest ts)) [
  | inl e ↦ let rest = rw e at (stale-latest age now ts) in rw e (ground (arith, rest))
  | inr (u, e) ↦ let rest = rw e at (stale-latest age now ts) in rw e (ground (arith, rest))
]

-- an agent that is not revoked and checked in at most a day ago
abbrev pub is_reporting : ℕ → ScrapeAgent → Bool
is_reporting now a = is_none a.revoked_at && was_recent day now a.last_seen_at

any-last_seen :
    (now : ℕ) (agents : List ScrapeAgent)
    → any (was_recent day now) (last_seen agents) ≡ any (is_reporting now) agents
any-last_seen now [] = refl
any-last_seen now (a ∷ rest) = elim (Bool-cases (is_unrevoked a)) [
  | inl e ↦ rw (e, any-last_seen now rest) refl
  | inr e ↦ rw (e, any-last_seen now rest) refl
]

any-some :
    (age now : ℕ) (ts : List ℕ)
    → any (was_recent age now) (map some ts) ≡ any (is_within age now) ts
any-some age now [] = refl
any-some age now (t ∷ ts) = rw (any-some age now ts) refl

-- The task has not run, or its last run did not fail and started at most two intervals ago.
abbrev pub is_on_time : ℕ → ℕ → Option TaskRun → Bool
is_on_time every now none = true
is_on_time every now (some run) = not (is_broken run.status) && leb now (run.started_at + 2 * every)

abbrev pub runs_on_time : List TaskRun → ℕ → Str × ℕ → Bool
runs_on_time runs now task = is_on_time task.1 now (latest_run task.0 runs)

abbrev is_quiet : List Problem → Bool
is_quiet [] = true
is_quiet (_ ∷ _) = false

is_quiet-append : (ps qs : List Problem) → is_quiet (ps ++ qs) ≡ is_quiet ps && is_quiet qs
is_quiet-append [] qs = refl
is_quiet-append (p ∷ ps) qs = refl

quiet_run :
    (task : Str) (every now : ℕ) (o : Option TaskRun)
    → is_quiet (run_problems task every now o) ≡ is_on_time every now o
quiet_run task every now none = refl
quiet_run task every now (some run) = ground arith

quiet_tasks :
    (tasks : List (Str × ℕ)) (runs : List TaskRun) (now : ℕ)
    → is_quiet (task_problems tasks runs now) ≡ all (runs_on_time runs now) tasks
unfolding task_problems
quiet_tasks [] runs now = refl
quiet_tasks ((task, every) ∷ tasks) runs now =
    is_quiet-append (run_problems task every now (latest_run task runs))
      (task_problems tasks runs now)
    ∙ rw (quiet_run task every now (latest_run task runs), quiet_tasks tasks runs now) refl

quiet_agents :
    (now : ℕ) (agents : List ScrapeAgent)
    → is_quiet (agent_problems now (latest (last_seen agents))) ≡ any (is_reporting now) agents
quiet_agents now agents =
    let stale =
      stale-latest agent_silence now (last_seen agents) ∙ ap not (any-last_seen now agents) in
    ground (arith, stale)

quiet_prices :
    (now : ℕ) (prices : List ℕ)
    → is_quiet (price_problems now (latest (map some prices))) ≡ any (is_within day now) prices
quiet_prices now prices =
    let stale =
      stale-latest price_silence now (map some prices)
      ∙ ap not (any-some price_silence now prices) in
    ground (arith, stale)

quiet_pipeline :
    (agents : List ScrapeAgent) (prices : List ℕ) (runs : List TaskRun) (now : ℕ)
    → is_quiet (pipeline_problems agents prices runs now)
      ≡ any (is_reporting now) agents
        && any (is_within day now) prices
        && all (runs_on_time runs now) scheduled_tasks
unfolding pipeline_problems
quiet_pipeline agents prices runs now =
    let ps = agent_problems now (latest (last_seen agents)) in
    let qs = price_problems now (latest (map some prices)) in
    let rs = task_problems scheduled_tasks runs now in
    is_quiet-append (ps ++ qs) rs
    ∙ rw
        (
          is_quiet-append ps qs,
          quiet_agents now agents,
          quiet_prices now prices,
          quiet_tasks scheduled_tasks runs now,
        )
        (ground arith)

report_status_iff : (ps : List Problem) → (report_status ps ≡ codes "ok") ↔ (is_quiet ps ≡ true)
report_status_iff [] = (λ _. refl, λ _. refl)
report_status_iff (p ∷ ps) = (λ e. absurd (str_neq e), λ e. cc)
  where
    str_neq : codes "fail" ≡ codes "ok" → ⊥
    str_neq e = cc

module _ (task : Str) where
  -- The task has not run, or its last run is not broken and started at most two intervals ago.
  pub data IsTimely (every now : ℕ) (runs : List TaskRun) : Type 0 where
    not_run : All (λ (r : TaskRun). r.task ≢ task) runs → IsTimely every now runs
    ran :
        (r : TaskRun)
        → LastRun task runs r
        → r.status ≢ RunStatus.broken
        → now ≤ r.started_at + 2 * every
        → IsTimely every now runs

  on_time_iff :
      (every now : ℕ) (runs : List TaskRun) (o : Option TaskRun)
      → IsLast task runs o
      → (is_on_time every now o ≡ true) ↔ IsTimely every now runs
  on_time_iff every now runs none h = (λ _. not_run h, λ _. refl)
  on_time_iff every now runs (some r) h = (to, from)
    where
      to : is_on_time every now (some r) ≡ true → IsTimely every now runs
      to e = ran r h (λ b. ground (arith, e, b)) (ground (arith, e))

      from : IsTimely every now runs → is_on_time every now (some r) ≡ true
      from (not_run n) = absurd (LastRun-some task h n)
      from (ran x l b t) =
          subst (λ (y : TaskRun). is_on_time every now (some y) ≡ true) (LastRun-same task l h)
            (not_broken x b t)
        where
          not_broken :
              (x : TaskRun)
              → x.status ≢ RunStatus.broken
              → now ≤ x.started_at + 2 * every
              → is_on_time every now (some x) ≡ true
          not_broken x b t = ground arith

all_on_time_iff :
    (runs : List TaskRun) (now : ℕ) (tasks : List (Str × ℕ))
    → (all (runs_on_time runs now) tasks ≡ true)
      ↔ All (λ (t : Str × ℕ). IsTimely t.0 t.1 now runs) tasks
all_on_time_iff runs now [] = (λ _. tt, λ _. refl)
all_on_time_iff runs now (t ∷ tasks) =
    let first = on_time_iff t.0 t.1 now runs (latest_run t.0 runs) (latest_run-IsLast t.0 runs) in
    let rest = all_on_time_iff runs now tasks in
    (
      λ h. (first.0 (ground (arith, h)), rest.0 (ground (arith, h))),
      λ h. (let a = first.1 h.0 in let b = rest.1 h.1 in ground (arith, a, b)),
    )

-- The report says ok exactly when an agent that is not revoked checked in within a day, a price was
-- saved within a day, and each scheduled task has not run at all, or the run of it that started last
-- is not broken and started at most two of the task's intervals ago.
pub pipeline_report_ok :
    (db : Db) (prices : List ℕ) (runs : List TaskRun) (now : ℕ)
    → ((pipeline_report db prices runs now).status ≡ codes "ok") ↔ (
        (any (is_reporting now) db.agents ≡ true)
        × (any (is_within day now) prices ≡ true)
        × All (λ (t : Str × ℕ). IsTimely t.0 t.1 now runs) scheduled_tasks)
unfolding pipeline_report
pipeline_report_ok db prices runs now =
    let quiet = quiet_pipeline db.agents prices runs now in
    let (to, from) = report_status_iff (pipeline_problems db.agents prices runs now) in
    let tasks = all_on_time_iff runs now scheduled_tasks in
    (
      λ e.
          (let all_quiet = sym quiet ∙ to e in
            (
              ground (arith, all_quiet),
              ground (arith, all_quiet),
              tasks.0 (ground (arith, all_quiet)),
            )),
      λ (a, b, c). from (quiet ∙ rw (a, b, tasks.1 c) refl),
    )
