-- ===== src/Compat/Examples.antt =====
-- A build of an AM5 processor, a board, a case, a graphics card and a power supply, and what the
-- results say of it.
use pc_builder.Shared.{
  ◌≤◌, String, ◌≡◌, refl, false, not, Option, none, some, [], ◌∷◌, arith, any, All, codes,
}
use pc_builder.Compat.Fields.{Slot, Field, Value, text, integer, slot_eq}
use pc_builder.Compat.Rules.{rules}
use pc_builder.Compat.View.{View, Selections}
use pc_builder.Compat.CpuPower.{turbo_of, cpu_max_power}
use pc_builder.Compat.Wattage.{
  estimate_notes, estimated_wattage, power_warnings, psu_warnings, psu_unknown, listed, lacks,
  largest,
}
use pc_builder.Compat.Validate.{validate, pair_report, keeps, verdict}
use pc_builder.Compat.Report.{has_failure, validate-compatible}
use pc_builder.Compat.Blocking.{clashes, validate-clashes}
use pc_builder.Compat.Filtering.{add_part, keeps-compatible}
use pc_builder.Compat.Silent.{RuleChecked, all_checks_passed-RuleChecked}
use pc_builder.Compat.Supply.{required_watts, all_checks_passed-powered}
use pc_builder.Compat.Power.{IsPlausible, cpu_max_power-IsPlausible}

abbrev view : (Field → Option Value) → String → View
view row name = record { attr = row; max_power_source = none; product_name = some (codes name) }

abbrev processor : Field → Option Value
processor Field.socket = some (text (codes "AM5"))
processor Field.tdp = some (integer 65)
processor Field.max_power = some (integer 88)
processor _ = none

abbrev board : Field → Option Value
board Field.socket = some (text (codes "am5 "))
board Field.form_factor = some (text (codes "Micro-ATX"))
board _ = none

abbrev tower : Field → Option Value
tower Field.form_factor = some (text (codes "ATX"))
tower Field.max_gpu_length_mm = some (integer 330)
tower _ = none

abbrev graphics : Field → Option Value
graphics Field.length_mm = some (integer 300)
graphics Field.tdp = some (integer 220)
graphics Field.recommended_psu = some (integer 650)
graphics _ = none

abbrev supply : Field → Option Value
supply Field.wattage = some (integer 750)
supply _ = none

abbrev parts : Selections
parts Slot.cpu = view processor "Ryzen 5 7600" ∷ []
parts Slot.motherboard = view board "B650M" ∷ []
parts Slot.cabinet = view tower "Tower" ∷ []
parts Slot.psu = view supply "750W" ∷ []
parts _ = []

abbrev card : View
card = view graphics "RTX 4070"

abbrev build : Selections
build Slot.gpu = card ∷ []
build slot = parts slot

validate-compatible_example :
    (validate build).compatible ≡ not (has_failure (validate build).warnings)
validate-compatible_example = validate-compatible build

validate-clashes_example : (validate build).compatible ≡ not (any (clashes build) rules)
validate-clashes_example = validate-clashes build

keeps-compatible_example :
    (validate (add_part Slot.gpu 0 card parts)).compatible ≡ (validate parts).compatible
unfolding keeps slot_eq
keeps-compatible_example = keeps-compatible Slot.gpu 0 card parts refl

all_checks_passed-RuleChecked_example : All (RuleChecked build) rules
unfolding verdict validate pair_report power_warnings psu_warnings psu_unknown estimate_notes
    estimated_wattage listed slot_eq
all_checks_passed-RuleChecked_example = all_checks_passed-RuleChecked build refl

all_checks_passed-powered_example :
    (any (lacks Field.wattage) (build Slot.psu) ≡ false)
    × (required_watts build ≤ largest (listed Field.wattage (build Slot.psu)))
unfolding verdict validate pair_report power_warnings psu_warnings psu_unknown estimate_notes
    estimated_wattage listed slot_eq
all_checks_passed-powered_example =
    all_checks_passed-powered build (view supply "750W") [] refl refl refl

cpu_max_power-IsPlausible_example :
    IsPlausible 120
      (cpu_max_power (some (codes "cpu:amd:7800x3d")) (some (codes "AM5")) (some 120)).0
unfolding turbo_of
cpu_max_power-IsPlausible_example =
    cpu_max_power-IsPlausible (some (codes "cpu:amd:7800x3d")) (some (codes "AM5")) 120 refl
      (omega arith) (omega arith)
