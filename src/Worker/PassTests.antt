-- ===== src/Worker/PassTests.antt =====
-- A pass of two units, one of which failed and one of which is not due.
use pc_builder.Shared.{
  ℕ, ◌≡◌, refl, Bool, not, none, some, List, [], ◌∷◌, if◌then◌else◌, nat_eq, option_eq, all, Str,
  codes, str_beq, str_eq,
}
use pc_builder.Worker.{WorkUnit, LastStarted, run_due, is_due}
use pc_builder.Worker.Passes.{distinct, due_steps, runs_of, run_due-steps}

abbrev units : List WorkUnit
units =
    record { name = codes "reap"; every = 60; steps = codes "reap" ∷ [] }
    ∷ record {
      name = codes "catalog";
      every = 900;
      steps = codes "canonical_extraction" ∷ codes "physical_specs" ∷ [];
    }
    ∷ record { name = codes "price_freshness"; every = 3600; steps = codes "price_freshness" ∷ [] }
    ∷ []

abbrev last : LastStarted
last name = if str_beq name (codes "price_freshness") then some 1000 else none

abbrev succeeds : Str → Bool
succeeds step = not (str_beq step (codes "canonical_extraction"))

abbrev clock : Str → ℕ
clock step = 2005

run_due-steps_example :
    ((run_due succeeds clock units last 2000).runs
      ≡ runs_of succeeds clock 2000 (due_steps last 2000 units))
    × ((run_due succeeds clock units last 2000).all_ok ≡ all succeeds (due_steps last 2000 units))
unfolding distinct
run_due-steps_example = run_due-steps succeeds clock 2000 units last refl

fails_and_goes_on :
    due_steps last 2000 units
    ≡ codes "reap" ∷ codes "canonical_extraction" ∷ codes "physical_specs" ∷ []
unfolding due_steps is_due
fails_and_goes_on = refl
