-- ===== src/Worker.antt =====
-- `run_step` and `run_due` of src/pipeline/worker.py. What a step does, and the clock when it ends,
-- are arguments; a process killed inside a step is not modelled.
pub mod Passes
mod PassTests
use pc_builder.Shared.{
  ℕ, ◌+◌, max, Bool, true, false, Option, none, some, List, [], ◌∷◌, ◌++◌, leb, if◌then◌else◌, ◌==◌,
  nat_eq, option_eq, Str, str_eq,
}

pub record WorkUnit : Type 0 where
  pub name : Str
  pub every : ℕ
  pub steps : List Str

-- a row of pipeline_runs; `ok` is whether its status is "ok" and not "failed"
pub record PipelineRun : Type 0 where
  pub task : Str
  pub started_at : ℕ
  pub ok : Bool
  pub finished_at : ℕ

-- the dictionary `last_started`
abbrev pub LastStarted : Type 0
LastStarted = Str → Option ℕ

unfoldable pub set_start : Str → ℕ → LastStarted → LastStarted
set_start name now last key = if key == name then some now else last key

-- not (last is not None and now - last < unit.every)
unfoldable pub is_due : LastStarted → ℕ → WorkUnit → Bool
is_due last now unit = elim (last unit.name) [
  | none ↦ true
  | some started ↦ leb (started + unit.every) now
]

-- what a pass has done so far
pub record Pass : Type 0 where
  pub all_ok : Bool
  pub runs : List PipelineRun
  pub last_started : LastStarted

-- whether a step returns, and the clock when it has ended
module _ (succeeds : Str → Bool) (clock : Str → ℕ) where
  unfoldable pub run_step : Str → ℕ → PipelineRun
  run_step step now = record {
    task = step;
    started_at = now;
    ok = succeeds step;
    finished_at = max now (clock step);
  }

  -- a failed step is noted, and the next one runs
  unfoldable pub run_steps : List Str → ℕ → Pass → Pass
  unfolding run_step
  run_steps [] now pass = pass
  run_steps (step ∷ steps) now pass = run_steps steps now (record pass {
    all_ok = if succeeds step then pass.all_ok else false;
    runs = pass.runs ++ run_step step now ∷ [];
  })

  unfoldable pub run_units : List WorkUnit → ℕ → Pass → Pass
  unfolding run_steps is_due set_start
  run_units [] now pass = pass
  run_units (unit ∷ units) now pass = run_units units now (
      if is_due pass.last_started now unit
      then run_steps unit.steps now
          (record pass { last_started = set_start unit.name now pass.last_started })
      else pass)

  unfoldable pub run_due : List WorkUnit → LastStarted → ℕ → Pass
  unfolding run_units
  run_due units last now =
      run_units units now (record { all_ok = true; runs = []; last_started = last })
