-- ===== src/Compat/Validate.antt =====
-- `validate_build` and `filter_candidates` of src/services/compatibility_engine.py, and the verdict
-- of `BuildSummary` of src/domain/builder.py.
use pc_builder.Shared.{
  ℕ, ◌+◌, Bool, true, false, not, ◌||◌, Option, none, some, List, [], ◌∷◌, ◌++◌, ltb, if◌then◌else◌,
  ◌==◌, nat_eq, option_eq, any, filter, Str, codes, str_eq, show_nat,
}
use pc_builder.Compat.Fields.{Slot, slot_eq, slot_number}
use pc_builder.Compat.Rules.{Rule, rules, Level, is_error}
use pc_builder.Compat.View.{View, Selections, Catalog, Product, group_selections, resolve_product}
use pc_builder.Compat.Check.{Warning, Report, check_pair, eval_rule, is_failure}
use pc_builder.Compat.Wattage.{estimated_wattage, power_warnings}

unfoldable pub check_item : Rule → View → List View → Report → Report
unfolding check_pair
check_item r item_a [] report = report
check_item r item_a (b ∷ bs) report = check_item r item_a bs (check_pair r item_a b report)

-- An empty group has no pairs, so `continue` skips nothing else.
unfoldable pub check_groups : Rule → List View → List View → Report → Report
unfolding check_item
check_groups r [] group_b report = report
check_groups r (a ∷ as_) group_b report = check_groups r as_ group_b (check_item r a group_b report)

unfoldable pub check_rules : List Rule → Selections → Report → Report
unfolding check_groups
check_rules [] selections report = report
check_rules (r ∷ rs) selections report =
    check_rules rs selections (check_groups r (selections r.slot_a) (selections r.slot_b) report)

pub record Validation : Type 0 where
  pub compatible : Bool
  pub warnings : List Warning
  pub wattage : ℕ

-- the loops over RULES
unfoldable pub pair_report : Selections → Report
unfolding check_rules rules
pair_report selections = check_rules rules selections (record { compatible = true; warnings = [] })

-- `validate_build` once the parts are grouped
unfoldable pub validate : Selections → Validation
validate selections =
    let report = pair_report selections in
    record {
      compatible = report.compatible;
      warnings = report.warnings ++ power_warnings selections;
      wattage = estimated_wattage selections;
    }

unfoldable pub validate_build : Catalog → List ℕ → Validation
validate_build catalog [] = record { compatible = true; warnings = []; wattage = 0 }
validate_build catalog (k ∷ ks) = validate (group_selections catalog (k ∷ ks))

unfoldable pub blocks : Option Warning → Bool
unfolding is_failure
blocks none = false
blocks (some w) = is_failure w

-- whether an error-level rule with the candidate as its first or second part fails
unfoldable pub rejects : Slot → View → Selections → Rule → Bool
unfolding slot_number eval_rule blocks is_error
rejects target_slot resolved selections r =
    if not (is_error r.level)
    then false
    else if r.slot_a == target_slot
    then any (λ other. blocks (eval_rule r (resolved.attr r.field_a) (other.attr r.field_b)))
        (selections r.slot_b)
    else if r.slot_b == target_slot
    then any (λ other. blocks (eval_rule r (other.attr r.field_a) (resolved.attr r.field_b)))
        (selections r.slot_a)
    else false

unfoldable pub keeps : Slot → Selections → View → Bool
unfolding rejects rules
keeps target_slot selections resolved = not (any (rejects target_slot resolved selections) rules)

abbrev all_slots : List Slot
all_slots =
    Slot.cpu ∷ Slot.motherboard ∷ Slot.ram ∷ Slot.gpu ∷ Slot.cabinet ∷ Slot.cooler ∷ Slot.psu
    ∷ Slot.storage ∷ []

abbrev no_views : List View → Bool
no_views [] = true
no_views (_ ∷ _) = false

-- `any(selections.values())`
abbrev pub any_selected : Selections → Bool
any_selected selections = any (λ slot. not (no_views (selections slot))) all_slots

unfoldable pub filter_candidates : Catalog → Slot → List ℕ → List Product → List Product
unfolding group_selections keeps resolve_product
filter_candidates catalog target_slot current_product_ids candidates =
    let selections = group_selections catalog current_product_ids in
    if any_selected selections
    then filter (λ p. keeps target_slot selections (resolve_product catalog target_slot p))
        candidates
    else candidates

-- `w.level in ("error", "warning")`
unfoldable pub is_problem : Level → Bool
is_problem Level.error = true
is_problem Level.warning = true
is_problem Level.unverified = false
is_problem Level.estimate = false

unfoldable pub is_unverified : Level → Bool
is_unverified Level.error = false
is_unverified Level.warning = false
is_unverified Level.unverified = true
is_unverified Level.estimate = false

-- `unverified_count`
unfoldable pub unverified_count : List Warning → ℕ
unfolding is_unverified
unverified_count [] = 0
unverified_count (w ∷ ws) =
    let rest = unverified_count ws in if is_unverified w.level then rest + 1 else rest

-- whether a list has an error or a warning
unfoldable pub has_problem : List Warning → Bool
unfolding is_problem
has_problem [] = false
has_problem (w ∷ ws) = is_problem w.level || has_problem ws

pub data Verdict : Type 0 where
  problems_found : Verdict
  some_unverified : ℕ → Verdict
  all_checks_passed : Verdict

unfoldable pub verdict : List Warning → Verdict
unfolding unverified_count has_problem
verdict warnings =
    if has_problem warnings
    then problems_found
    else if ltb 0 (unverified_count warnings)
    then some_unverified (unverified_count warnings)
    else all_checks_passed

-- the text of a verdict
unfoldable pub verdict_text : Verdict → Str
unfolding show_nat
verdict_text problems_found = codes "Problems found"
verdict_text (some_unverified n) =
    codes "No problems found - "
    ++ show_nat n
    ++ codes " check"
    ++ (if n == 1 then [] else codes "s")
    ++ codes " unverified"
verdict_text all_checks_passed = codes "All checks passed"
