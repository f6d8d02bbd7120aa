-- ===== src/Compat/Blocking.antt =====
-- When `validate_build` calls a build incompatible: exactly when a pair of its parts breaks an
-- error-level rule that applies to it.
use pc_builder.Shared.{
  ◌≡◌, refl, inl, inr, Bool, true, false, not, ◌&&◌, Option, none, some, List, [], ◌∷◌, arith,
  nat_eq, option_eq, Bool-cases, is_none, any, any-none, str_eq,
}
use pc_builder.Compat.Fields.{Value, slot_eq}
use pc_builder.Compat.Rules.{Rule, rules, is_error}
use pc_builder.Compat.View.{View, Selections}
use pc_builder.Compat.Check.{
  fails, Warning, Report, judge, check_pair, eval_rule, rule_applies, fits_anyway, Unknown, unknown,
  is_failure,
}
use pc_builder.Compat.Validate.{
  check_item, check_groups, check_rules, pair_report, validate, blocks,
}
use pc_builder.Compat.Report.{check_pair-cases}

-- A pair that makes a build incompatible: the rule applies, both values are known, and the rule
-- fails and is an error.
unfoldable pub is_blocked : Rule → View → View → Bool
is_blocked q a b =
    rule_applies q a b
    && is_none (unknown q (a.attr q.field_a))
    && is_none (unknown q (b.attr q.field_b))
    && blocks (eval_rule q (a.attr q.field_a) (b.attr q.field_b))

unfoldable pub clashes : Selections → Rule → Bool
clashes s q = any (λ a. any (is_blocked q a) (s q.slot_b)) (s q.slot_a)

judge-compatible :
    (w : Option Warning) (r : Report) → (judge w r).compatible ≡ r.compatible && not (blocks w)
unfolding judge blocks
judge-compatible none r = ground arith
judge-compatible (some w) r = ground arith

fits_anyway-none :
    (q : Rule) (v : Option Value) (x : Option Unknown) → fits_anyway q v x none ≡ false
unfolding fits_anyway
fits_anyway-none q v x = ground arith

fits_anyway-unknown :
    (q : Rule) (v : Option Value) (x y : Option Unknown)
    → fits_anyway q v x y ≡ true
    → is_none y ≡ false
fits_anyway-unknown q v x none h = ground (arith, h, fits_anyway-none q v x)
fits_anyway-unknown q v x (some y) h = refl

check_pair-compatible :
    (q : Rule) (a b : View) (r : Report)
    → (check_pair q a b r).compatible ≡ r.compatible && not (is_blocked q a b)
unfolding is_blocked
check_pair-compatible q a b r =
    check_pair-cases (λ r'. r'.compatible ≡ r.compatible && not (is_blocked q a b)) q a b r
      (λ e. rw e (ground arith))
      (λ w _ f.
        rw
          (fits_anyway-unknown q (a.attr q.field_a) (unknown q (a.attr q.field_a))
            (unknown q (b.attr q.field_b)) f)
          (ground arith))
      (λ w _ f. ground (arith, f))
      (λ e p s.
        rw (judge-compatible (eval_rule q (a.attr q.field_a) (b.attr q.field_b)) r, e, p, s) refl)

check_item-compatible :
    (q : Rule) (a : View) (bs : List View) (r : Report)
    → (check_item q a bs r).compatible ≡ r.compatible && not (any (is_blocked q a) bs)
unfolding check_item
check_item-compatible q a [] r = ground arith
check_item-compatible q a (b ∷ bs) r =
    ground (arith, check_item-compatible q a bs (check_pair q a b r), check_pair-compatible q a b r)

check_groups-compatible :
    (q : Rule) (group_a group_b : List View) (r : Report)
    → (check_groups q group_a group_b r).compatible
      ≡ r.compatible && not (any (λ a. any (is_blocked q a) group_b) group_a)
unfolding check_groups
check_groups-compatible q [] bs r = ground arith
check_groups-compatible q (a ∷ group_a) bs r =
    rw (check_groups-compatible q group_a bs (check_item q a bs r), check_item-compatible q a bs r)
      (ground arith)

check_rules-compatible :
    (qs : List Rule) (s : Selections) (r : Report)
    → (check_rules qs s r).compatible ≡ r.compatible && not (any (clashes s) qs)
unfolding check_rules
check_rules-compatible [] s r = ground arith
check_rules-compatible (q ∷ qs) s r =
    let after = check_groups q (s q.slot_a) (s q.slot_b) r in
    let groups : after.compatible ≡ r.compatible && not (clashes s q) =
      unfold clashes in check_groups-compatible q (s q.slot_a) (s q.slot_b) r in
    rw (check_rules-compatible qs s after, groups) (ground arith)

-- A build is compatible exactly when no rule is broken by a pair of its parts.
pub validate-clashes : (s : Selections) → (validate s).compatible ≡ not (any (clashes s) rules)
unfolding validate pair_report
validate-clashes s = check_rules-compatible rules s (record { compatible = true; warnings = [] })

not_error-blocks :
    (q : Rule) (x y : Option Value) → is_error q.level ≡ false → blocks (eval_rule q x y) ≡ false
unfolding eval_rule blocks is_failure
not_error-blocks q none y e = refl
not_error-blocks q (some v) none e = refl
not_error-blocks q (some v) (some w) e = elim (Bool-cases (fails q.op v w)) [
  | inl f ↦ rw (f, e) refl
  | inr f ↦ rw f refl
]

pub not_blocks-blocked :
    (q : Rule) (a b : View)
    → blocks (eval_rule q (a.attr q.field_a) (b.attr q.field_b)) ≡ false
    → is_blocked q a b ≡ false
unfolding is_blocked
not_blocks-blocked q a b e = rw e (ground arith)

pub not_error-clashes : (q : Rule) (s : Selections) → is_error q.level ≡ false → clashes s q ≡ false
unfolding clashes
not_error-clashes q s e =
    any-none (λ a. any (is_blocked q a) (s q.slot_b)) (s q.slot_a)
      (λ a. any-none (is_blocked q a) (s q.slot_b) (λ b.
        not_blocks-blocked q a b (not_error-blocks q (a.attr q.field_a) (b.attr q.field_b) e)))
