-- ===== src/Health.antt =====
-- src/pipeline/health.py and src/pipeline/schedule.py: what the health page reports. The texts of
-- the problems are constructors; a time is in microseconds.
pub mod Freshness
pub mod LastRun
pub mod Quiet
mod HealthTests
use pc_builder.Shared.{
  ℕ, zero, suc, ◌+◌, ◌-◌, ◌*◌, ◌/◌, ◌%◌, ◌^◌, ◌≤◌, ◌<◌, min, max, String, ◌≡◌, refl, sym, ap, ◌∙◌,
  ◌≢◌, ◌↔◌, ◌⊎◌, inl, inr, Bool, true, false, not, ◌&&◌, ◌||◌, Option, none, some, List, [], ◌∷◌,
  ◌++◌, map, arith, ltb, leb, nat_beq, if◌then◌else◌, nat_beq_iff, leb→le, le→leb, Comparable, ◌==◌,
  nat_eq, option_beq, option_eq, Bool-cases, Option-cases, get_or, is_none, is_some, some_inj,
  length, length-append, take, length-take-le, drop, any, all, filter, find, insert_sorted, sort,
  All, All-append, All-map, any-append, any-none, all-append, insert_at, all-insert_at,
  any-insert_at, any-ext, any-or, any-below, Str, codes, str_beq, str_beq_iff, str_eq, mem_str,
  mem_code, is_empty, upper_char, lower_char, upper, lower, is_space, is_digit, lstrip, rstrip,
  strip, drop_prefix, starts_with, ends_with, has_substring, partition, str_leb, replace_go,
  replace_go_skip, replace, split_on, join, read_from, read_nat, lookup, show_digit, show_fuel,
  show_nat, get_row, update_row, get_row-key, get_row-update_row_self, get_row-update_row_ne,
  length-update_row, All-update_row, All-get_row, least, least-All, least-none, Below, Below-mono,
  get_row_above, get_row_under, Below-get_row, Pointwise, Pointwise-refl, Pointwise-map,
  Pointwise-trans, Pointwise-All, Pointwise-Below, Pointwise-update_row, Pointwise-get_row,
  read_nat-show_nat, show_nat-digits, is_empty-show_nat, lstrip-digits, strip-digits,
}
use pc_builder.Db.{ScrapeAgent, Db, JobStatus, seconds}
use pc_builder.JobQueue.Reap.{status_counts}

abbrev pub hours : ℕ → ℕ
hours n = seconds (3600 * n)

abbrev pub agent_silence : ℕ
agent_silence = hours 24

abbrev pub price_silence : ℕ
price_silence = hours 24

-- TASK_INTERVALS, and the backup that a timer runs
abbrev pub scheduled_tasks : List (Str × ℕ)
scheduled_tasks =
    (codes "reap", seconds 60)
    ∷ (codes "enqueue_due_targets", seconds 300)
    ∷ (codes "canonical_extraction", seconds 900)
    ∷ (codes "physical_specs", seconds 900)
    ∷ (codes "catalog_policy", seconds 900)
    ∷ (codes "price_freshness", hours 1)
    ∷ (codes "identity_audit", hours 24)
    ∷ (codes "category_audit", hours 24)
    ∷ (codes "db_backup", hours 24)
    ∷ []

pub data RunStatus : Type 0 where
  running finished broken : RunStatus

-- the columns of pipeline_runs that are read; `finished` and `broken` are 'ok' and 'failed'
pub record TaskRun : Type 0 where
  pub task : Str
  pub started_at : ℕ
  pub status : RunStatus
  pub error : Option Str

pub data Problem : Type 0 where
  no_agent no_price : Option ℕ → Problem
  task_failed : Str → ℕ → Str → Problem
  task_overdue : Str → ℕ → Problem

-- SQL's max over a column, which passes over NULL
unfoldable pub latest : List (Option ℕ) → Option ℕ
latest [] = none
latest (none ∷ ts) = latest ts
latest (some t ∷ ts) = elim (latest ts) [ none ↦ some t | some u ↦ some (max t u) ]

-- last is None or now - last > age
abbrev pub is_stale : ℕ → ℕ → Option ℕ → Bool
is_stale age now none = true
is_stale age now (some t) = ltb (t + age) now

abbrev pub is_unrevoked : ScrapeAgent → Bool
is_unrevoked a = is_none a.revoked_at

abbrev pub last_seen : List ScrapeAgent → List (Option ℕ)
last_seen agents = map (λ a. a.last_seen_at) (filter is_unrevoked agents)

abbrev pub later_run : TaskRun → Option TaskRun → Option TaskRun
later_run r none = some r
later_run r (some s) = if ltb r.started_at s.started_at then some s else some r

-- the run of the task that started last
unfoldable pub latest_run : Str → List TaskRun → Option TaskRun
latest_run task [] = none
latest_run task (r ∷ rs) =
    let rest = latest_run task rs in if r.task == task then later_run r rest else rest

abbrev pub is_broken : RunStatus → Bool
is_broken broken = true
is_broken _ = false

abbrev pub run_problems : Str → ℕ → ℕ → Option TaskRun → List Problem
run_problems task every now none = []
run_problems task every now (some run) =
    (if is_broken run.status
      then task_failed task run.started_at (take 200 (get_or run.error [])) ∷ []
      else [])
    ++ (if ltb (run.started_at + 2 * every) now then task_overdue task run.started_at ∷ [] else [])

abbrev pub agent_problems : ℕ → Option ℕ → List Problem
agent_problems now last = if is_stale agent_silence now last then no_agent last ∷ [] else []

abbrev pub price_problems : ℕ → Option ℕ → List Problem
price_problems now last = if is_stale price_silence now last then no_price last ∷ [] else []

unfoldable pub task_problems : List (Str × ℕ) → List TaskRun → ℕ → List Problem
unfolding latest_run
task_problems [] runs now = []
task_problems ((task, every) ∷ tasks) runs now =
    run_problems task every now (latest_run task runs) ++ task_problems tasks runs now

-- `pipeline_problems`, over the agents, the times of the saved prices and the runs
unfoldable pub pipeline_problems : List ScrapeAgent → List ℕ → List TaskRun → ℕ → List Problem
unfolding latest task_problems
pipeline_problems agents prices runs now =
    agent_problems now (latest (last_seen agents))
    ++ price_problems now (latest (map some prices))
    ++ task_problems scheduled_tasks runs now

pub record HealthReport : Type 0 where
  pub status : Str
  pub problems : List Problem
  pub jobs : List (JobStatus × ℕ)

abbrev pub report_status : List Problem → Str
report_status [] = codes "ok"
report_status (_ ∷ _) = codes "fail"

unfoldable pub pipeline_report : Db → List ℕ → List TaskRun → ℕ → HealthReport
unfolding pipeline_problems status_counts
pipeline_report db prices runs now =
    let problems = pipeline_problems db.agents prices runs now in
    record { status = report_status problems; problems = problems; jobs = status_counts db }
