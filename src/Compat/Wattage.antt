-- ===== src/Compat/Wattage.antt =====
-- The power draw of a build and the checks of its power supply, in `validate_build` of
-- src/services/compatibility_engine.py.
use pc_builder.Shared.{
  ℕ, zero, suc, ◌+◌, max, Bool, true, false, not, ◌&&◌, ◌||◌, Option, some, List, [], ◌∷◌, ◌++◌,
  ltb, if◌then◌else◌, ◌==◌, nat_eq, option_eq, get_or, codes, str_eq, show_nat,
}
use pc_builder.Compat.Fields.{Slot, Field, slot_label}
use pc_builder.Compat.Rules.{Level, wattage_headroom, default_cpu_tdp, default_gpu_tdp}
use pc_builder.Compat.View.{View, Selections, integer_of}
use pc_builder.Compat.CpuPower.{PowerSource, estimated}
use pc_builder.Compat.Check.{Warning, name_or}

-- the value of an INTEGER column, 0 for a missing one: `x or d` does not tell them apart
unfoldable pub watts : Field → View → ℕ
watts field view = get_or (integer_of (view.attr field)) 0

-- `x or d` for a number
abbrev pub or_default : ℕ → ℕ → ℕ
or_default zero d = d
or_default (suc n) d = suc n

unfoldable pub cpu_draw : View → ℕ
unfolding watts
cpu_draw c = or_default (watts Field.max_power c) (or_default (watts Field.tdp c) default_cpu_tdp)

unfoldable pub gpu_draw : View → ℕ
unfolding watts
gpu_draw g = or_default (watts Field.tdp g) default_gpu_tdp

abbrev pub sum_of : (View → ℕ) → List View → ℕ
sum_of f [] = 0
sum_of f (v ∷ vs) = f v + sum_of f vs

unfoldable pub estimated_wattage : Selections → ℕ
unfolding cpu_draw gpu_draw
estimated_wattage selections =
    sum_of cpu_draw (selections Slot.cpu) + sum_of gpu_draw (selections Slot.gpu) + 50

-- the non-zero values of a field
unfoldable pub listed : Field → List View → List ℕ
unfolding watts
listed field [] = []
listed field (v ∷ vs) =
    let rest = listed field vs in if ltb 0 (watts field v) then watts field v ∷ rest else rest

-- `max` of a list, and 0 for an empty one, which the source does not ask
abbrev pub largest : List ℕ → ℕ
largest [] = 0
largest (n ∷ ns) = max n (largest ns)

unfoldable pub too_small : ℕ → ℕ → Warning
unfolding show_nat
too_small required provided = record {
  level = Level.warning;
  message =
      codes "PSU Capacity Warning: GPU recommends at least "
      ++ show_nat required
      ++ codes "W, but selected PSU is "
      ++ show_nat provided
      ++ codes "W.";
}

unfoldable pub little_headroom : ℕ → ℕ → Warning
unfolding show_nat
little_headroom provided estimate = record {
  level = Level.warning;
  message =
      codes "Power Supply Capacity Warning: "
      ++ show_nat provided
      ++ codes "W PSU is close to or below recommended headroom for an estimated "
      ++ show_nat estimate
      ++ codes "W build draw.";
}

abbrev pub warn_if : Bool → Warning → List Warning
warn_if true w = w ∷ []
warn_if false w = []

unfoldable pub psu_warnings : List ℕ → List ℕ → ℕ → List Warning
unfolding show_nat too_small little_headroom
psu_warnings gpu_recs [] estimate = []
psu_warnings [] (p ∷ ps) estimate =
    warn_if (not (estimate == 0) && ltb (largest (p ∷ ps)) (estimate + wattage_headroom))
      (little_headroom (largest (p ∷ ps)) estimate)
psu_warnings (g ∷ gs) (p ∷ ps) estimate =
    warn_if (ltb (largest (p ∷ ps)) (largest (g ∷ gs)))
      (too_small (largest (g ∷ gs)) (largest (p ∷ ps)))

-- one warning for each view that passes a test
unfoldable pub notes : (View → Bool) → (View → Warning) → List View → List Warning
notes test note [] = []
notes test note (v ∷ vs) = let rest = notes test note vs in if test v then note v ∷ rest else rest

unfoldable pub no_wattage : View → Warning
no_wattage v = record {
  level = Level.unverified;
  message =
      codes "Unverified: "
      ++ name_or v.product_name (codes "the selected PSU")
      ++ codes " has no published wattage, so the PSU capacity could not be checked.";
}

unfoldable pub typical_tdp : Slot → ℕ → View → Warning
unfolding show_nat slot_label
typical_tdp slot default v = record {
  level = Level.estimate;
  message =
      codes "Wattage estimate: "
      ++ name_or v.product_name (codes "the selected " ++ slot_label slot)
      ++ codes " has no listed TDP, so a typical "
      ++ show_nat default
      ++ codes " W was used.";
}

unfoldable pub twice_tdp : View → Warning
unfolding show_nat watts
twice_tdp v = record {
  level = Level.estimate;
  message =
      codes "Wattage estimate: "
      ++ name_or v.product_name (codes "the selected CPU")
      ++ codes " has no published maximum power, so "
      ++ show_nat (watts Field.max_power v)
      ++ codes " W (twice its "
      ++ show_nat (watts Field.tdp v)
      ++ codes " W TDP) was used.";
}

unfoldable pub lacks : Field → View → Bool
unfolding watts
lacks field v = watts field v == 0

unfoldable pub is_estimated : Option PowerSource → Bool
is_estimated (some estimated) = true
is_estimated _ = false

unfoldable pub any_view : List View → Bool
any_view [] = false
any_view (_ ∷ _) = true

-- a power supply whose wattage is not known, once there is something to power
unfoldable pub psu_unknown : Selections → List Warning
unfolding lacks notes any_view no_wattage
psu_unknown selections =
    if any_view (selections Slot.cpu) || any_view (selections Slot.gpu)
    then notes (lacks Field.wattage) no_wattage (selections Slot.psu)
    else []

-- the notes on typical values
unfoldable pub tdp_notes : Slot → ℕ → List View → List Warning
unfolding lacks notes typical_tdp
tdp_notes slot default views = notes (lacks Field.tdp) (typical_tdp slot default) views

unfoldable pub power_notes : List View → List Warning
unfolding notes twice_tdp is_estimated
power_notes views = notes (λ v. is_estimated v.max_power_source) twice_tdp views

unfoldable pub estimate_notes : Selections → List Warning
unfolding tdp_notes power_notes
estimate_notes selections =
    tdp_notes Slot.cpu default_cpu_tdp (selections Slot.cpu)
    ++ tdp_notes Slot.gpu default_gpu_tdp (selections Slot.gpu)
    ++ power_notes (selections Slot.cpu)

-- the warnings of `validate_build` behind those of the pairs
unfoldable pub power_warnings : Selections → List Warning
power_warnings s =
    psu_warnings (listed Field.recommended_psu (s Slot.gpu)) (listed Field.wattage (s Slot.psu))
      (estimated_wattage s)
    ++ psu_unknown s
    ++ estimate_notes s
