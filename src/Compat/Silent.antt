-- ===== src/Compat/Silent.antt =====
-- No silent pass: a build whose verdict is "All checks passed" has every pair of parts checked.
use pc_builder.Shared.{
  ◌≡◌, refl, ◌⊎◌, inl, inr, Bool, true, false, not, ◌&&◌, some, List, [], ◌∷◌, ◌++◌, arith, ltb,
  nat_eq, option_eq, Bool-cases, all, All, str_eq,
}
use pc_builder.Compat.Known.{IsKnown, FitsAnyway, known, fits_anyway-FitsAnyway}
use pc_builder.Compat.Fields.{Value}
use pc_builder.Compat.Rules.{rules, Rule, Level}
use pc_builder.Compat.View.{View, Selections}
use pc_builder.Compat.Check.{
  failure, Warning, Report, warn, judge, check_pair, eval_rule, rule_applies, fails,
}
use pc_builder.Compat.Wattage.{power_warnings}
use pc_builder.Compat.Validate.{
  pair_report, validate, check_rules, check_groups, check_item, has_problem, verdict,
  unverified_count, all_checks_passed, is_problem, is_unverified,
}
use pc_builder.Compat.Report.{check_pair-cases}

unfoldable pub is_estimate : Level → Bool
is_estimate Level.error = false
is_estimate Level.warning = false
is_estimate Level.unverified = false
is_estimate Level.estimate = true

-- A pair was checked: the rule does not apply to it, or the CPU's socket is one that almost every
-- cooler fits, or both values are known and the rule holds of them.
unfoldable pub IsChecked : Rule → View → View → Type 0
IsChecked q a b =
    (rule_applies q a b ≡ false)
    ⊎ FitsAnyway q a b
    ⊎ ((x : Value) × (y : Value) × IsKnown q (a.attr q.field_a) x
        × IsKnown q (b.attr q.field_b) y
        × (fails q.op x y ≡ false))

unfoldable pub only_notes : List Warning → Bool
unfolding is_estimate
only_notes [] = true
only_notes (w ∷ ws) = is_estimate w.level && only_notes ws

pub only_notes-append :
    (xs ys : List Warning) → only_notes (xs ++ ys) ≡ only_notes xs && only_notes ys
unfolding only_notes
only_notes-append [] ys = ground arith
only_notes-append (x ∷ xs) ys = ground (arith, only_notes-append xs ys)

level_lem : (l : Level) → is_estimate l ≡ not (is_problem l) && not (is_unverified l)
unfolding is_estimate is_problem is_unverified
level_lem Level.error = refl
level_lem Level.warning = refl
level_lem Level.unverified = refl
level_lem Level.estimate = refl

only_notes_lem :
    (ws : List Warning)
    → has_problem ws ≡ false
    → ltb 0 (unverified_count ws) ≡ false
    → only_notes ws ≡ true
unfolding only_notes has_problem unverified_count
only_notes_lem [] p u = refl
only_notes_lem (w ∷ ws) p u = ground (arith, level_lem w.level, only_notes_lem ws)

verdict-only_notes : (ws : List Warning) → verdict ws ≡ all_checks_passed → only_notes ws ≡ true
unfolding verdict
verdict-only_notes ws h = elim (Bool-cases (has_problem ws)) [
  | inl p ↦ absurd (ground (arith, p, h))
  | inr p ↦ elim (Bool-cases (ltb 0 (unverified_count ws))) [
    | inl u ↦ absurd (ground (arith, p, u, h))
    | inr u ↦ only_notes_lem ws p u
  ]
]

judge-silent :
    (q : Rule) (x y : Value) (r : Report)
    → is_problem q.level ≡ true
    → only_notes (judge (eval_rule q (some x) (some y)) r).warnings ≡ true
    → (only_notes r.warnings ≡ true) × (fails q.op x y ≡ false)
unfolding judge eval_rule only_notes
judge-silent q x y r l h = elim (Bool-cases (fails q.op x y)) [
  | inr f ↦ (rw f at h, f)
  | inl f ↦
      let w = failure q x y in
      let quiet : only_notes (r.warnings ++ w ∷ []) ≡ true = rw f at h in
      absurd (ground (arith, quiet, only_notes-append r.warnings (w ∷ []), level_lem q.level, l))
]

warn-silent :
    (w : Warning) (r : Report)
    → only_notes (warn w r).warnings ≡ true
    → (only_notes r.warnings ≡ true) × (is_estimate w.level ≡ true)
unfolding only_notes
warn-silent w r h = ground (arith, only_notes-append r.warnings (w ∷ []))

-- What a check that leaves only notes says of the report before it and of the pair.
check_pair-silent :
    (q : Rule) (a b : View) (r : Report)
    → is_problem q.level ≡ true
    → only_notes (check_pair q a b r).warnings ≡ true
    → (only_notes r.warnings ≡ true) × IsChecked q a b
unfolding IsChecked is_estimate
check_pair-silent q a b r l =
    check_pair-cases
      (λ r'. only_notes r'.warnings ≡ true → (only_notes r.warnings ≡ true) × IsChecked q a b) q a b
      r (λ e h. (h, inl e))
      (λ w _ f h. ((warn-silent w r h).0, inr (inl (fits_anyway-FitsAnyway q a b f))))
      (λ w e _ h.
        let quiet : is_estimate Level.unverified ≡ true = rw e at (warn-silent w r h).1 in
        absurd (ground (arith, quiet)))
      (λ _ p s h.
        let (x, x_known) = known q (a.attr q.field_a) p in
        let (y, y_known) = known q (b.attr q.field_b) s in
        let j = judge-silent q x y r l (rw (x_known.there, y_known.there) at h) in
        (j.0, inr (inr (x, y, x_known, y_known, j.1))))

item-silent :
    (q : Rule) (a : View) (bs : List View) (r : Report)
    → is_problem q.level ≡ true
    → only_notes (check_item q a bs r).warnings ≡ true
    → (only_notes r.warnings ≡ true) × All (IsChecked q a) bs
unfolding check_item
item-silent q a [] r l h = (h, tt)
item-silent q a (b ∷ bs) r l h =
    let (before, rest) = item-silent q a bs (check_pair q a b r) l h in
    let (start, first) = check_pair-silent q a b r l before in (start, (first, rest))

groups-silent :
    (q : Rule) (group_a bs : List View) (r : Report)
    → is_problem q.level ≡ true
    → only_notes (check_groups q group_a bs r).warnings ≡ true
    → (only_notes r.warnings ≡ true) × All (λ a. All (IsChecked q a) bs) group_a
unfolding check_groups
groups-silent q [] bs r l h = (h, tt)
groups-silent q (a ∷ group_a) bs r l h =
    let (before, rest) = groups-silent q group_a bs (check_item q a bs r) l h in
    let (start, first) = item-silent q a bs r l before in (start, (first, rest))

-- every pair of parts that a rule relates was checked
unfoldable pub RuleChecked : Selections → Rule → Type 0
RuleChecked s q = All (λ a. All (IsChecked q a) (s q.slot_b)) (s q.slot_a)

rules-silent :
    (qs : List Rule) (s : Selections) (r : Report)
    → all (λ q. is_problem q.level) qs ≡ true
    → only_notes (check_rules qs s r).warnings ≡ true
    → (only_notes r.warnings ≡ true) × All (RuleChecked s) qs
unfolding check_rules RuleChecked
rules-silent [] s r l h = (h, tt)
rules-silent (q ∷ qs) s r l h =
    let (before, rest) =
      rules-silent qs s (check_groups q (s q.slot_a) (s q.slot_b) r) (ground (arith, l)) h in
    let (start, first) = groups-silent q (s q.slot_a) (s q.slot_b) r (ground (arith, l)) before in
    (start, (first, rest))

rules-level : all (λ q. is_problem q.level) rules ≡ true
unfolding rules is_problem
rules-level = refl

pub validate-only_notes :
    (s : Selections)
    → verdict (validate s).warnings ≡ all_checks_passed
    → (only_notes (pair_report s).warnings ≡ true) × (only_notes (power_warnings s) ≡ true)
unfolding validate
validate-only_notes s h = ground (
  arith,
  verdict-only_notes (validate s).warnings h,
  only_notes-append (pair_report s).warnings (power_warnings s),
)

-- A build whose verdict is "All checks passed" has every pair of parts that a rule relates checked:
-- the rule does not apply to the pair, or a cooler that lists no sockets stands beside a current CPU
-- socket, or both values are known (there, not blank, and a form factor on the scale) and the rule
-- holds of them.
pub all_checks_passed-RuleChecked :
    (s : Selections) → verdict (validate s).warnings ≡ all_checks_passed → All (RuleChecked s) rules
unfolding pair_report
all_checks_passed-RuleChecked s h =
    (rules-silent rules s (record { compatible = true; warnings = [] }) rules-level
      (validate-only_notes s h).0).1
