-- ===== src/Compat/Rules.antt =====
-- src/services/compatibility_rules.py: the rule table. `Callable` messages take the values as texts,
-- which is all that the source's f-strings do with them.
use pc_builder.Shared.{
  ℕ, String, Bool, true, false, Option, none, some, List, [], ◌∷◌, ◌++◌, if◌then◌else◌, nat_eq,
  option_eq, get_or, Str, codes, str_eq, upper, strip, starts_with,
}
use pc_builder.Compat.Fields.{Slot, Field}

pub data Op : Type 0 where
  eq le contains_in form_factor_fits : Op

pub data Level : Type 0 where
  error warning unverified estimate : Level

unfoldable pub is_error : Level → Bool
is_error Level.error = true
is_error Level.warning = false
is_error Level.unverified = false
is_error Level.estimate = false

pub record Rule : Type 0 where
  pub slot_a : Slot
  pub field_a : Field
  pub op : Op
  pub slot_b : Slot
  pub field_b : Field
  pub level : Level
  pub message : Str → Str → Str

abbrev two_values : String → String → String → Str → Str → Str
two_values s t u a b = codes s ++ a ++ codes t ++ b ++ codes u

abbrev rule : Slot → Field → Op → Slot → Field → Level → (Str → Str → Str) → Rule
rule slot_a field_a op slot_b field_b level message = record {
  slot_a = slot_a;
  field_a = field_a;
  op = op;
  slot_b = slot_b;
  field_b = field_b;
  level = level;
  message = message;
}

-- RULES
unfoldable pub rules : List Rule
rules =
    rule Slot.cpu Field.socket eq Slot.motherboard Field.socket Level.error (
      two_values "Socket Mismatch: CPU socket (" ") is incompatible with Motherboard socket (" ").")
    ∷ rule Slot.ram Field.memory_type eq Slot.motherboard Field.memory_type Level.error
        (two_values "RAM Standard Mismatch: selected RAM is " ", but Motherboard supports " ".")
    ∷ rule Slot.ram Field.modules le Slot.motherboard Field.memory_slots Level.error (
        two_values "RAM Slot Overflow: build uses " " RAM module(s), but Motherboard only has "
          " slot(s).")
    ∷ rule Slot.ram Field.capacity_gb le Slot.motherboard Field.max_memory_gb Level.error (
        two_values "RAM Capacity Overflow: " "GB selected exceeds Motherboard's max supported "
          "GB.")
    ∷ rule Slot.cpu Field.socket contains_in Slot.cooler Field.supported_sockets Level.warning
        (λ a b.
          codes "Cooler Mounting Check: verify cooler's supported sockets ("
          ++ b
          ++ codes ") include CPU socket ("
          ++ a
          ++ codes ").")
    ∷ rule Slot.gpu Field.length_mm le Slot.cabinet Field.max_gpu_length_mm Level.error (
        two_values "GPU Clearance Error: GPU length (" "mm) exceeds Cabinet max clearance (" "mm).")
    ∷ rule Slot.cooler Field.height_mm le Slot.cabinet Field.max_cooler_height_mm Level.error (
        two_values "Cooler Clearance Error: cooler height ("
          "mm) exceeds Cabinet max cooler height (" "mm).")
    ∷ rule Slot.cooler Field.aio_radiator_mm le Slot.cabinet Field.max_radiator_mm Level.warning (
        two_values "Radiator Fit Warning: this cooler's "
          "mm radiator is larger than any radiator the Cabinet lists ("
          "mm max) - check the case's mounts.")
    ∷ rule Slot.motherboard Field.form_factor form_factor_fits Slot.cabinet Field.form_factor
        Level.error
        (two_values "Case Fit Error: Motherboard form factor (" ") does not fit inside Cabinet ("
          ").")
    ∷ []

pub data CoolerKind : Type 0 where
  aio air : CoolerKind

unfoldable pub cooler_kind : Option Str → Option CoolerKind
cooler_kind text =
    let t = upper (strip (get_or text [])) in
    if starts_with t (codes "AIO")
    then some aio
    else if starts_with t (codes "AIR")
    then some air
    else none

-- WATTAGE_HEADROOM, DEFAULT_CPU_TDP and DEFAULT_GPU_TDP
abbrev pub wattage_headroom : ℕ
wattage_headroom = 150

abbrev pub default_cpu_tdp : ℕ
default_cpu_tdp = 120

abbrev pub default_gpu_tdp : ℕ
default_gpu_tdp = 250
