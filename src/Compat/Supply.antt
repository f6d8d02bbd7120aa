-- ===== src/Compat/Supply.antt =====
-- "All checks passed" and the power supply.
use pc_builder.Shared.{
  ℕ, ◌+◌, ◌≤◌, ◌≡◌, refl, Bool, true, false, not, ◌&&◌, ◌||◌, List, [], ◌∷◌, ◌++◌, arith, ltb, ◌==◌,
  nat_eq, option_eq, any, str_eq,
}
use pc_builder.Compat.Fields.{Slot, Field}
use pc_builder.Compat.Rules.{wattage_headroom}
use pc_builder.Compat.View.{View, Selections}
use pc_builder.Compat.Check.{Warning}
use pc_builder.Compat.Wattage.{
  estimated_wattage, listed, psu_warnings, psu_unknown, estimate_notes, power_warnings, largest,
  notes, lacks, watts, any_view, no_wattage, warn_if,
}
use pc_builder.Compat.Validate.{validate, verdict, all_checks_passed}
use pc_builder.Compat.Silent.{is_estimate, only_notes, validate-only_notes, only_notes-append}

required : List ℕ → ℕ → ℕ
required [] estimate = estimate + wattage_headroom
required (g ∷ gs) estimate = largest (g ∷ gs)

-- The wattage that the power supply must have: what the graphics cards recommend, or the estimate
-- with its headroom.
unfoldable pub required_watts : Selections → ℕ
unfolding required
required_watts s = required (listed Field.recommended_psu (s Slot.gpu)) (estimated_wattage s)

notes-quiet :
    (test : View → Bool) (note : View → Warning) (vs : List View)
    → ((v : View) → is_estimate (note v).level ≡ false)
    → only_notes (notes test note vs) ≡ true
    → any test vs ≡ false
unfolding notes only_notes
notes-quiet test note [] e h = refl
notes-quiet test note (v ∷ vs) e h = ground (arith, e v, notes-quiet test note vs e)

warn_if-quiet :
    (t : Bool) (w : Warning)
    → is_estimate w.level ≡ false
    → only_notes (warn_if t w) ≡ true
    → t ≡ false
unfolding only_notes
warn_if-quiet true w e h = absurd (ground (arith, e, h))
warn_if-quiet false w e h = refl

psu_warnings-quiet :
    (recs : List ℕ) (p : ℕ) (ps : List ℕ) (e : ℕ)
    → 1 ≤ e
    → only_notes (psu_warnings recs (p ∷ ps) e) ≡ true
    → required recs e ≤ largest (p ∷ ps)
unfolding psu_warnings is_estimate required
psu_warnings-quiet [] p ps e pos h =
    let t =
      warn_if-quiet (not (e == 0) && ltb (largest (p ∷ ps)) (e + wattage_headroom)) _ refl h in
    ground (arith, t)
psu_warnings-quiet (g ∷ gs) p ps e pos h =
    let t = warn_if-quiet (ltb (largest (p ∷ ps)) (largest (g ∷ gs))) _ refl h in ground (arith, t)

listed-lacks :
    (v : View) (vs : List View)
    → any (lacks Field.wattage) (v ∷ vs) ≡ false
    → listed Field.wattage (v ∷ vs) ≡ watts Field.wattage v ∷ listed Field.wattage vs
unfolding listed lacks
listed-lacks v vs h = ground arith

estimated_wattage-pos : (s : Selections) → 1 ≤ estimated_wattage s
unfolding estimated_wattage
estimated_wattage-pos s = omega arith

psu_unknown-quiet :
    (s : Selections)
    → any_view (s Slot.cpu) || any_view (s Slot.gpu) ≡ true
    → only_notes (psu_unknown s) ≡ true
    → any (lacks Field.wattage) (s Slot.psu) ≡ false
unfolding psu_unknown is_estimate
psu_unknown-quiet s powers h =
    notes-quiet (lacks Field.wattage) no_wattage (s Slot.psu) (λ v. refl) (rw powers at h)

-- If all checks passed for a build with a processor or a graphics card and a power supply, then
-- each power supply lists its wattage and the largest is enough.
pub all_checks_passed-powered :
    (s : Selections) (v : View) (vs : List View)
    → s Slot.psu ≡ v ∷ vs
    → any_view (s Slot.cpu) || any_view (s Slot.gpu) ≡ true
    → verdict (validate s).warnings ≡ all_checks_passed
    → (any (lacks Field.wattage) (s Slot.psu) ≡ false)
      × (required_watts s ≤ largest (listed Field.wattage (s Slot.psu)))
unfolding power_warnings required_watts
all_checks_passed-powered s v vs e powers h =
    let recs = listed Field.recommended_psu (s Slot.gpu) in
    let psus = listed Field.wattage (s Slot.psu) in
    let est = estimated_wattage s in
    let quiet : only_notes (psu_warnings recs psus est ++ psu_unknown s ++ estimate_notes s)
        ≡ true =
      (validate-only_notes s h).1 in
    let front : (only_notes (psu_warnings recs psus est) ≡ true)
        × (only_notes (psu_unknown s) ≡ true) =
      ground (
        arith,
        quiet,
        only_notes-append (psu_warnings recs psus est ++ psu_unknown s) (estimate_notes s),
        only_notes-append (psu_warnings recs psus est) (psu_unknown s),
      ) in
    let all_listed = psu_unknown-quiet s powers front.1 in
    let there : psus ≡ watts Field.wattage v ∷ listed Field.wattage vs =
      rw e (listed-lacks v vs (rw e at all_listed)) in
    let enough =
      psu_warnings-quiet recs (watts Field.wattage v) (listed Field.wattage vs) est
        (estimated_wattage-pos s) (rw there at front.0) in
    (all_listed, rw there enough)
