-- ===== src/ScrapePlanning/Schedule.antt =====
-- A planned target moves on: it is not due again at the same time.
use mathlib.Core.Path.{subst}
use pc_builder.Shared.{
  ℕ, ◌<◌, ◌≡◌, refl, inl, inr, false, ◌&&◌, some, List, [], ◌∷◌, arith, nat_eq, option_eq,
  Bool-cases, Option-cases, some_inj, any, str_eq,
}
use pc_builder.Db.Tables.{ScrapeTarget}
use pc_builder.Db.{Db}
use pc_builder.ScrapePlanning.{
  is_among, is_due_target, move_on, next_due, enqueue_targets, enqueue_due_targets, due_targets,
}

next_due-later : (t : ScrapeTarget) (now : ℕ) → now < next_due t now
unfolding next_due
next_due-later t now = ground arith

moved_not_due :
    (db : Db) (now : ℕ) (t : ScrapeTarget)
    → is_due_target db now (record t { next_scrape_at = next_due t now }) ≡ false
unfolding is_due_target
moved_not_due db now t = ground (arith, next_due-later t now)

move_on-not_due :
    (db : Db) (now : ℕ) (due targets : List ScrapeTarget)
    → any (λ t. is_among due t && is_due_target db now t) (move_on due now targets) ≡ false
unfolding move_on
move_on-not_due db now due [] = refl
move_on-not_due db now due (t ∷ ts) = elim (Bool-cases (is_among due t)) [
  | inl e ↦ rw (e, e, moved_not_due db now t, move_on-not_due db now due ts) refl
  | inr e ↦ rw (e, e, move_on-not_due db now due ts) refl
]

-- After the due targets are planned, none of them is due again at the same time.
pub enqueue_due_targets-not_due :
    (now limit : ℕ) (targets moved : List ScrapeTarget) (db : Db) (n : ℕ) (after : Db)
    → enqueue_due_targets now limit targets db ≡ some (n, moved, after)
    → any (λ t. is_among (due_targets db now limit targets) t && is_due_target db now t) moved
      ≡ false
unfolding enqueue_due_targets
enqueue_due_targets-not_due now limit targets moved db n after h =
    elim (Option-cases (enqueue_targets (due_targets db now limit targets) now db)) [
      | inl e ↦ absurd (ground (arith, rw e at h))
      | inr ((m, a), e) ↦
          let due = due_targets db now limit targets in
          subst
            (λ (r : ℕ × List ScrapeTarget × Db).
              any (λ t. is_among due t && is_due_target db now t) r.1 ≡ false)
            (some_inj (rw e at h)) (move_on-not_due db now due targets)
    ]
