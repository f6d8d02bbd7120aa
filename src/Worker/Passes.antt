-- ===== src/Worker/Passes.antt =====
-- A pass of the worker runs every step of every due unit, in order, whatever fails.
use pc_builder.Shared.{
  ℕ, ◌≡◌, refl, sym, ap, ◌∙◌, inl, inr, Bool, true, false, not, ◌&&◌, List, [], ◌∷◌, ◌++◌, map,
  arith, if◌then◌else◌, ◌==◌, nat_eq, option_eq, Bool-cases, any, all, all-append, Str, str_eq,
}
use mathlib.Core.Path.{subst}
use pc_builder.Worker.{
  WorkUnit, PipelineRun, LastStarted, Pass, set_start, is_due, run_step, run_steps, run_units,
  run_due,
}

-- the names of the units differ
unfoldable pub distinct : List WorkUnit → Bool
distinct [] = true
distinct (u ∷ us) = not (any (λ v. v.name == u.name) us) && distinct us

-- the steps of the units that are due at the start of a pass
unfoldable pub due_steps : LastStarted → ℕ → List WorkUnit → List Str
due_steps last now [] = []
due_steps last now (u ∷ us) =
    if is_due last now u then u.steps ++ due_steps last now us else due_steps last now us

append_assoc {ℓ} : {A : Type ℓ} (xs ys zs : List A) → (xs ++ ys) ++ zs ≡ xs ++ (ys ++ zs)
append_assoc [] ys zs = refl
append_assoc (x ∷ xs) ys zs = ap (λ l. x ∷ l) (append_assoc xs ys zs)

append_nil {ℓ} : {A : Type ℓ} (xs : List A) → xs ++ [] ≡ xs
append_nil [] = refl
append_nil (x ∷ xs) = ap (λ l. x ∷ l) (append_nil xs)

module _ (succeeds : Str → Bool) (clock : Str → ℕ) (now : ℕ) where
  unfoldable pub runs_of : List Str → List PipelineRun
  runs_of = map (λ s. run_step succeeds clock s now)

  -- what the steps add to a pass
  steps_run :
      (steps : List Str) (p : Pass)
      → (run_steps succeeds clock steps now p).runs ≡ p.runs ++ runs_of steps
  unfolding run_steps runs_of
  steps_run [] p = sym (append_nil p.runs)
  steps_run (s ∷ steps) p =
      steps_run steps (record p {
        all_ok = if succeeds s then p.all_ok else false;
        runs = p.runs ++ run_step succeeds clock s now ∷ [];
      })
      ∙ append_assoc p.runs (run_step succeeds clock s now ∷ []) (runs_of steps)

  steps_ok :
      (steps : List Str) (p : Pass)
      → (run_steps succeeds clock steps now p).all_ok ≡ p.all_ok && all succeeds steps
  unfolding run_steps
  steps_ok [] p = ground arith
  steps_ok (s ∷ steps) p =
      steps_ok steps (record p {
        all_ok = if succeeds s then p.all_ok else false;
        runs = p.runs ++ run_step succeeds clock s now ∷ [];
      })
      ∙ ground arith

  steps_start :
      (steps : List Str) (p : Pass)
      → (run_steps succeeds clock steps now p).last_started ≡ p.last_started
  unfolding run_steps
  steps_start [] p = refl
  steps_start (s ∷ steps) p = steps_start steps _

  runs_of-append : (xs ys : List Str) → runs_of (xs ++ ys) ≡ runs_of xs ++ runs_of ys
  unfolding runs_of
  runs_of-append [] ys = refl
  runs_of-append (x ∷ xs) ys = ap (λ l. run_step succeeds clock x now ∷ l) (runs_of-append xs ys)

  -- What a pass has done behind the steps of a list.
  record IsAfter (p q : Pass) (steps : List Str) : Type 0 where
    ran : q.runs ≡ p.runs ++ runs_of steps
    succeeded : q.all_ok ≡ p.all_ok && all succeeds steps

  IsAfter-chain :
      (p q r : Pass) (xs ys : List Str) → IsAfter p q xs → IsAfter q r ys → IsAfter p r (xs ++ ys)
  IsAfter-chain p q r xs ys a b = record {
    ran =
        b.ran
        ∙ ap (λ l. l ++ runs_of ys) a.ran
        ∙ append_assoc p.runs (runs_of xs) (runs_of ys)
        ∙ ap (λ l. p.runs ++ l) (sym (runs_of-append xs ys));
    succeeded = rw (all-append succeeds xs ys) (ground (arith, a.succeeded, b.succeeded));
  }

  -- starting a unit does not change whether another one is due
  is_due-set_start :
      (name : Str) (last : LastStarted) (u : WorkUnit)
      → (u.name == name) ≡ false
      → is_due (set_start name now last) now u ≡ is_due last now u
  unfolding is_due set_start
  is_due-set_start name last u h = rw (h, is_due) refl

  due_unaffected :
      (name : Str) (last : LastStarted) (us : List WorkUnit)
      → any (λ v. v.name == name) us ≡ false
      → due_steps (set_start name now last) now us ≡ due_steps last now us
  unfolding due_steps
  due_unaffected name last [] h = refl
  due_unaffected name last (u ∷ us) h =
      rw
        (
          is_due-set_start name last u (ground (arith, h)),
          due_unaffected name last us (ground (arith, h)),
        )
        refl

  run_units-IsAfter :
      (us : List WorkUnit) (p : Pass)
      → distinct us ≡ true
      → IsAfter p (run_units succeeds clock us now p) (due_steps p.last_started now us)
  unfolding run_units due_steps distinct runs_of
  run_units-IsAfter [] p d = record { ran = sym (append_nil p.runs); succeeded = ground arith }
  run_units-IsAfter (u ∷ us) p d = elim (Bool-cases (is_due p.last_started now u)) [
    | inr e ↦ rw e (run_units-IsAfter us p (ground (arith, d)))
    | inl e ↦
        let started : Pass = record p { last_started = set_start u.name now p.last_started } in
        let q = run_steps succeeds clock u.steps now started in
        let here : IsAfter p q u.steps = record {
          ran = steps_run u.steps started;
          succeeded = steps_ok u.steps started;
        } in
        let same : due_steps q.last_started now us ≡ due_steps p.last_started now us =
          ap (λ l. due_steps l now us) (steps_start u.steps started)
          ∙ due_unaffected u.name p.last_started us (ground (arith, d)) in
        let rest : IsAfter q (run_units succeeds clock us now q) (due_steps p.last_started now us) =
          subst (λ l. IsAfter q (run_units succeeds clock us now q) l) same
            (run_units-IsAfter us q (ground (arith, d))) in
        rw e (
          IsAfter-chain p q (run_units succeeds clock us now q) u.steps
            (due_steps p.last_started now us) here rest)
  ]

  -- A pass over units with different names runs exactly the steps of the units that were due when it
  -- began, in order, whichever of them fail, and reports success exactly when all of them succeed.
  pub run_due-steps :
      (us : List WorkUnit) (last : LastStarted)
      → distinct us ≡ true
      → ((run_due succeeds clock us last now).runs ≡ runs_of (due_steps last now us))
        × ((run_due succeeds clock us last now).all_ok ≡ all succeeds (due_steps last now us))
  unfolding run_due
  run_due-steps us last d =
      let start : Pass = record { all_ok = true; runs = []; last_started = last } in
      let h = run_units-IsAfter us start d in (h.ran, h.succeeded)
