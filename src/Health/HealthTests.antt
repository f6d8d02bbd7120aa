-- ===== src/Health/HealthTests.antt =====
-- A pipeline that runs, and one whose worker stands still.
use pc_builder.Shared.{
  ℕ, ◌≡◌, refl, ◌↔◌, true, none, some, [], ◌∷◌, nat_eq, option_eq, any, All, Str, codes, str_eq,
}
use pc_builder.Db.{ScrapeAgent, Db}
use pc_builder.Db.Tables.{empty_catalog}
use pc_builder.Health.{
  hours, TaskRun, RunStatus, Problem, latest_run, scheduled_tasks, pipeline_problems,
  pipeline_report,
}
use pc_builder.Health.Freshness.{stale_stores, count_extraction_progress}
use pc_builder.Health.Quiet.{day, is_within, is_reporting, IsTimely, pipeline_report_ok}

abbrev kiosk : ScrapeAgent
kiosk = record {
  id = 1;
  name = codes "kiosk";
  token_hash = codes "h";
  last_seen_at = some (hours 90);
  revoked_at = none;
}

abbrev tables : Db
tables = record {
  stores = [];
  agents = kiosk ∷ [];
  jobs = [];
  catalog = empty_catalog;
  next_job_id = 1;
  uuids_drawn = 0;
}

abbrev reaped : TaskRun
reaped = record {
  task = codes "reap";
  started_at = hours 99;
  status = RunStatus.finished;
  error = none;
}

all_well : pipeline_problems tables.agents (hours 80 ∷ []) (reaped ∷ []) (hours 99) ≡ []
unfolding pipeline_problems latest_run
all_well = refl

late_reap :
    pipeline_problems tables.agents (hours 80 ∷ []) (reaped ∷ []) (hours 100)
    ≡ Problem.task_overdue (codes "reap") (hours 99) ∷ []
unfolding pipeline_problems latest_run
late_reap = refl

pipeline_report_ok_example :
    ((pipeline_report tables (hours 80 ∷ []) (reaped ∷ []) (hours 99)).status ≡ codes "ok") ↔ (
      (any (is_reporting (hours 99)) tables.agents ≡ true)
      × (any (is_within day (hours 99)) (hours 80 ∷ []) ≡ true)
      × All (λ (t : Str × ℕ). IsTimely t.0 t.1 (hours 99) (reaped ∷ [])) scheduled_tasks)
pipeline_report_ok_example = pipeline_report_ok tables (hours 80 ∷ []) (reaped ∷ []) (hours 99)

one_stale :
    stale_stores
      ((codes "b", none) ∷ (codes "c", some (hours 98)) ∷ (codes "a", some (hours 70)) ∷ [])
      (hours 99)
      (hours 24)
    ≡ codes "a" ∷ codes "b" ∷ []
unfolding stale_stores
one_stale = refl

one_moved :
    count_extraction_progress
      ((1, (none, codes "pending")) ∷ (2, (none, codes "pending")) ∷ [])
      ((1, (none, codes "failed")) ∷ (2, (some (codes "cpu:amd"), codes "pending")) ∷ [])
    ≡ 1
unfolding count_extraction_progress
one_moved = refl
