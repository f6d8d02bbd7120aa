-- ===== src/Compat/Report.antt =====
-- What the warnings of `validate_build` say of a build: it is compatible exactly when none is an
-- error.
use pc_builder.Shared.{
  ℕ, ◌≡◌, refl, inl, inr, Bool, true, false, not, ◌||◌, Option, none, some, List, [], ◌∷◌, ◌++◌,
  arith, if◌then◌else◌, nat_eq, option_eq, Bool-cases, Option-cases, is_some, any, any-append,
  str_eq,
}
use pc_builder.Compat.Fields.{Slot, Field, slot_eq}
use pc_builder.Compat.Rules.{Rule, rules, Level, is_error, default_cpu_tdp, default_gpu_tdp}
use pc_builder.Compat.View.{View, Selections}
use pc_builder.Compat.Check.{
  Warning, Report, warn, judge, check_pair, eval_rule, rule_applies, fits_anyway, Unknown, unknown,
  unverified, is_failure,
}
use pc_builder.Compat.Wattage.{
  power_warnings, any_view, estimate_notes, estimated_wattage, is_estimated, lacks, listed,
  no_wattage, notes, power_notes, psu_unknown, psu_warnings, tdp_notes, twice_tdp, typical_tdp,
  warn_if,
}
use pc_builder.Compat.Validate.{pair_report, check_item, check_groups, check_rules, validate}

unverified-level :
    (q : Rule) (a b : View) (x y : Option Unknown) → (unverified q a b x y).level ≡ Level.unverified
unfolding unverified
unverified-level q a b x y = refl

-- The outcomes of a check. What holds of each holds of `check_pair`.
module _ {ℓ} (P : Report → Type ℓ) (q : Rule) (a b : View) (r : Report) where
  pub check_pair-cases :
      (rule_applies q a b ≡ false → P r)
      → ((w : Warning)
          → w.level ≡ Level.estimate
          → fits_anyway q
              (a.attr q.field_a)
              (unknown q (a.attr q.field_a))
              (unknown q (b.attr q.field_b))
            ≡ true
          → P (warn w r))
      → ((w : Warning)
          → w.level ≡ Level.unverified
          → is_some (unknown q (a.attr q.field_a)) || is_some (unknown q (b.attr q.field_b)) ≡ true
          → P (warn w r))
      → (rule_applies q a b ≡ true
          → unknown q (a.attr q.field_a) ≡ none
          → unknown q (b.attr q.field_b) ≡ none
          → P (judge (eval_rule q (a.attr q.field_a) (b.attr q.field_b)) r))
      → P (check_pair q a b r)
  unfolding check_pair
  check_pair-cases h1 h2 h3 h4 =
      let ua = unknown q (a.attr q.field_a) in
      let ub = unknown q (b.attr q.field_b) in
      elim (Bool-cases (rule_applies q a b)) [
        | inr e ↦ rw e (h1 e)
        | inl e ↦ rw e (elim (Bool-cases (fits_anyway q (a.attr q.field_a) ua ub)) [
          | inl f ↦ rw f (h2 _ refl f)
          | inr f ↦ rw f (elim (Option-cases ua) [
            | inr (x, p) ↦ rw p (h3 _ (unverified-level q a b (some x) ub) (rw p refl))
            | inl p ↦ elim (Option-cases ub) [
              | inr (y, s) ↦
                  rw (p, s) (h3 _ (unverified-level q a b none (some y)) (rw (p, s) refl))
              | inl s ↦ rw (p, s) (h4 e p s)
            ]
          ])
        ])
      ]

abbrev pub has_failure : List Warning → Bool
has_failure = any is_failure

Honest : Report → Type 0
Honest report = report.compatible ≡ not (has_failure report.warnings)

warn-Honest : (w : Warning) (r : Report) → is_failure w ≡ false → Honest r → Honest (warn w r)
unfolding Honest
warn-Honest w r e h = rw (any-append is_failure r.warnings (w ∷ []), e, h) (ground arith)

judge-Honest : (w : Option Warning) (r : Report) → Honest r → Honest (judge w r)
unfolding Honest judge
judge-Honest none r h = h
judge-Honest (some w) r h = elim (Bool-cases (is_failure w)) [
  | inl e ↦ rw (any-append is_failure r.warnings (w ∷ []), e) (ground arith)
  | inr e ↦ rw (any-append is_failure r.warnings (w ∷ []), e, h) (ground arith)
]

harmless : (w : Warning) (l : Level) → w.level ≡ l → is_error l ≡ false → is_failure w ≡ false
unfolding is_failure
harmless w l e h = rw e h

check_pair-Honest : (q : Rule) (a b : View) (r : Report) → Honest r → Honest (check_pair q a b r)
unfolding is_error
check_pair-Honest q a b r h =
    check_pair-cases Honest q a b r (λ _. h)
      (λ w e _. warn-Honest w r (harmless w Level.estimate e refl) h)
      (λ w e _. warn-Honest w r (harmless w Level.unverified e refl) h)
      (λ _ _ _. judge-Honest (eval_rule q (a.attr q.field_a) (b.attr q.field_b)) r h)

-- A property of reports that every check keeps is kept by all of them.
module _ {ℓ} (P : Report → Type ℓ)
    (keep : (q : Rule) (a b : View) (r : Report) → P r → P (check_pair q a b r)) where
  keep_item : (q : Rule) (a : View) (bs : List View) (r : Report) → P r → P (check_item q a bs r)
  unfolding check_item
  keep_item q a [] r h = h
  keep_item q a (b ∷ bs) r h = keep_item q a bs (check_pair q a b r) (keep q a b r h)

  keep_groups :
      (q : Rule) (group_a group_b : List View) (r : Report)
      → P r
      → P (check_groups q group_a group_b r)
  unfolding check_groups
  keep_groups q [] bs r h = h
  keep_groups q (a ∷ group_a) bs r h =
      keep_groups q group_a bs (check_item q a bs r) (keep_item q a bs r h)

  pub check_rules-keep :
      (qs : List Rule) (selections : Selections) (r : Report)
      → P r
      → P (check_rules qs selections r)
  unfolding check_rules
  check_rules-keep [] selections r h = h
  check_rules-keep (q ∷ qs) selections r h =
      check_rules-keep qs selections _
        (keep_groups q (selections q.slot_a) (selections q.slot_b) r h)

none_append :
    (xs ys : List Warning)
    → has_failure xs ≡ false
    → has_failure ys ≡ false
    → has_failure (xs ++ ys) ≡ false
none_append xs ys p q = rw (any-append is_failure xs ys, p, q) refl

notes-harmless :
    (test : View → Bool) (note : View → Warning) (vs : List View)
    → ((v : View) → is_failure (note v) ≡ false)
    → has_failure (notes test note vs) ≡ false
unfolding notes
notes-harmless test note [] h = refl
notes-harmless test note (v ∷ vs) h = ground (arith, h v, notes-harmless test note vs h)

warn_if-harmless :
    (t : Bool) (w : Warning) → is_failure w ≡ false → has_failure (warn_if t w) ≡ false
warn_if-harmless true w e = rw e refl
warn_if-harmless false w e = refl

psu_warnings-harmless :
    (recs psus : List ℕ) (estimate : ℕ) → has_failure (psu_warnings recs psus estimate) ≡ false
unfolding psu_warnings is_failure is_error
psu_warnings-harmless recs [] e = refl
psu_warnings-harmless [] (p ∷ ps) e = warn_if-harmless _ _ refl
psu_warnings-harmless (g ∷ gs) (p ∷ ps) e = warn_if-harmless _ _ refl

psu_unknown-harmless : (s : Selections) → has_failure (psu_unknown s) ≡ false
unfolding psu_unknown is_failure is_error
psu_unknown-harmless s =
    elim (any_view (s Slot.cpu) || any_view (s Slot.gpu))
      as (λ t.
        has_failure (if t then notes (lacks Field.wattage) no_wattage (s Slot.psu) else [])
        ≡ false) [ true ↦ notes-harmless _ _ (s Slot.psu) (λ v. refl) | false ↦ refl ]

tdp_notes-harmless :
    (slot : Slot) (default : ℕ) (vs : List View) → has_failure (tdp_notes slot default vs) ≡ false
unfolding tdp_notes typical_tdp is_failure is_error
tdp_notes-harmless slot default vs =
    notes-harmless (lacks Field.tdp) (typical_tdp slot default) vs (λ v. refl)

power_notes-harmless : (vs : List View) → has_failure (power_notes vs) ≡ false
unfolding power_notes twice_tdp is_failure is_error
power_notes-harmless vs =
    notes-harmless (λ v. is_estimated v.max_power_source) twice_tdp vs (λ v. refl)

estimate_notes-harmless : (s : Selections) → has_failure (estimate_notes s) ≡ false
unfolding estimate_notes
estimate_notes-harmless s =
    let cpu_notes = tdp_notes Slot.cpu default_cpu_tdp (s Slot.cpu) in
    let gpu_notes = tdp_notes Slot.gpu default_gpu_tdp (s Slot.gpu) in
    none_append (cpu_notes ++ gpu_notes) (power_notes (s Slot.cpu))
      (none_append cpu_notes gpu_notes (tdp_notes-harmless Slot.cpu default_cpu_tdp (s Slot.cpu))
        (tdp_notes-harmless Slot.gpu default_gpu_tdp (s Slot.gpu)))
      (power_notes-harmless (s Slot.cpu))

pair_report-Honest : (s : Selections) → Honest (pair_report s)
unfolding pair_report Honest
pair_report-Honest s =
    check_rules-keep Honest check_pair-Honest rules s (record { compatible = true; warnings = [] })
      refl

append-Honest :
    (r : Report) (ws : List Warning)
    → Honest r
    → has_failure ws ≡ false
    → r.compatible ≡ not (has_failure (r.warnings ++ ws))
unfolding Honest
append-Honest r ws h e = rw (any-append is_failure r.warnings ws, e, h) (ground arith)

power_warnings-harmless : (s : Selections) → has_failure (power_warnings s) ≡ false
unfolding power_warnings
power_warnings-harmless s =
    let recs = listed Field.recommended_psu (s Slot.gpu) in
    let psus = listed Field.wattage (s Slot.psu) in
    none_append (psu_warnings recs psus (estimated_wattage s) ++ psu_unknown s) (estimate_notes s)
      (none_append (psu_warnings recs psus (estimated_wattage s)) (psu_unknown s)
        (psu_warnings-harmless recs psus (estimated_wattage s)) (psu_unknown-harmless s))
      (estimate_notes-harmless s)

-- A build is compatible exactly when none of its warnings is an error.
pub validate-compatible :
    (s : Selections) → (validate s).compatible ≡ not (has_failure (validate s).warnings)
unfolding validate
validate-compatible s =
    append-Honest (pair_report s) (power_warnings s) (pair_report-Honest s)
      (power_warnings-harmless s)
