-- ===== src/Compat/Fields.antt =====
-- The builder's slots, the attributes of a spec view with their values, and how messages name
-- them: FIELD_LABELS and SLOT_LABELS of src/services/compatibility_rules.py.
use pc_builder.Shared.{
  ℕ, ◌/◌, ◌%◌, ◌≡◌, true, false, ◌++◌, arith, nat_beq, Comparable, ◌==◌, nat_eq, option_eq, Str,
  codes, str_eq, show_nat,
}

-- The builder's slot keys. `other` is any key without a spec resolver, such as a monitor's.
pub data Slot : Type 0 where
  cpu motherboard ram gpu cabinet cooler psu storage other : Slot

unfoldable pub slot_number : Slot → ℕ
slot_number Slot.cpu = 0
slot_number Slot.motherboard = 1
slot_number Slot.ram = 2
slot_number Slot.gpu = 3
slot_number Slot.cabinet = 4
slot_number Slot.cooler = 5
slot_number Slot.psu = 6
slot_number Slot.storage = 7
slot_number Slot.other = 8

instance unfoldable pub slot_eq : Comparable Slot
unfolding slot_number
slot_eq = record { test = λ a b. nat_beq (slot_number a) (slot_number b) }

pub slot_eq-apart : (a b c : Slot) → (a == b) ≡ false → (a == c) ≡ true → (b == c) ≡ false
unfolding slot_eq slot_number
slot_eq-apart a b c h e = ground arith

-- the attributes of a spec view and of the rows that it is merged from
pub data Field : Type 0 where
  socket tdp cores threads max_power : Field
  chipset form_factor memory_type memory_slots max_memory_gb : Field
  capacity_gb modules speed_mhz : Field
  length_mm recommended_psu : Field
  wattage : Field
  max_gpu_length_mm max_cooler_height_mm max_psu_length_mm radiator_sizes max_radiator_mm : Field
  radiator_size_mm size_mm supported_sockets tdp_rating height_mm cooler_type : Field
  aio_radiator_mm : Field
  interface : Field

unfoldable pub field_number : Field → ℕ
field_number Field.socket = 0
field_number Field.tdp = 1
field_number Field.cores = 2
field_number Field.threads = 3
field_number Field.max_power = 4
field_number Field.chipset = 5
field_number Field.form_factor = 6
field_number Field.memory_type = 7
field_number Field.memory_slots = 8
field_number Field.max_memory_gb = 9
field_number Field.capacity_gb = 10
field_number Field.modules = 11
field_number Field.speed_mhz = 12
field_number Field.length_mm = 13
field_number Field.recommended_psu = 14
field_number Field.wattage = 15
field_number Field.max_gpu_length_mm = 16
field_number Field.max_cooler_height_mm = 17
field_number Field.max_psu_length_mm = 18
field_number Field.radiator_sizes = 19
field_number Field.max_radiator_mm = 20
field_number Field.radiator_size_mm = 21
field_number Field.size_mm = 22
field_number Field.supported_sockets = 23
field_number Field.tdp_rating = 24
field_number Field.height_mm = 25
field_number Field.cooler_type = 26
field_number Field.aio_radiator_mm = 27
field_number Field.interface = 28

instance abbrev pub field_eq : Comparable Field
unfolding field_number
field_eq = record { test = λ a b. nat_beq (field_number a) (field_number b) }

-- FIELD_LABELS, and the attribute's name for a field that is not listed there
unfoldable pub field_label : Field → Str
field_label socket = codes "CPU socket"
field_label memory_type = codes "memory type"
field_label modules = codes "module count"
field_label memory_slots = codes "memory slots"
field_label capacity_gb = codes "memory capacity"
field_label max_memory_gb = codes "maximum memory"
field_label supported_sockets = codes "supported sockets"
field_label length_mm = codes "length"
field_label max_gpu_length_mm = codes "GPU clearance"
field_label height_mm = codes "height"
field_label max_cooler_height_mm = codes "CPU cooler clearance"
field_label aio_radiator_mm = codes "radiator size"
field_label max_radiator_mm = codes "radiator support"
field_label form_factor = codes "form factor"
field_label tdp = codes "tdp"
field_label cores = codes "cores"
field_label threads = codes "threads"
field_label max_power = codes "max_power"
field_label chipset = codes "chipset"
field_label speed_mhz = codes "speed_mhz"
field_label recommended_psu = codes "recommended_psu"
field_label wattage = codes "wattage"
field_label max_psu_length_mm = codes "max_psu_length_mm"
field_label radiator_sizes = codes "radiator_sizes"
field_label radiator_size_mm = codes "radiator_size_mm"
field_label size_mm = codes "size_mm"
field_label tdp_rating = codes "tdp_rating"
field_label cooler_type = codes "cooler_type"
field_label interface = codes "interface"

-- SLOT_LABELS
unfoldable pub slot_label : Slot → Str
slot_label Slot.cpu = codes "CPU"
slot_label Slot.motherboard = codes "motherboard"
slot_label Slot.ram = codes "RAM"
slot_label Slot.gpu = codes "GPU"
slot_label Slot.cabinet = codes "case"
slot_label Slot.cooler = codes "cooler"
slot_label Slot.psu = codes "PSU"
slot_label Slot.storage = codes "storage"
slot_label Slot.other = codes "other"

-- Only `ram_title_extractions.capacity_gb` is a Numeric(6, 2); `decimal` counts hundredths.
pub data Value : Type 0 where
  text : Str → Value
  integer : ℕ → Value
  decimal : ℕ → Value

abbrev two_digits : ℕ → Str
two_digits n = show_nat (n / 10) ++ show_nat (n % 10)

-- `str(value)`
unfoldable pub show_value : Value → Str
unfolding show_nat
show_value (text s) = s
show_value (integer n) = show_nat n
show_value (decimal h) = show_nat (h / 100) ++ codes "." ++ two_digits (h % 100)
