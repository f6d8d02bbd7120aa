-- ===== src/Compat/View.antt =====
-- `_merge`, `_resolve_slot` and `_group_selections` of src/services/compatibility_engine.py. A spec
-- row or view is what `getattr(x, name, None)` gives at each name; the two tables of a category are
-- looked up by their unique columns, `canonical_id` and `product_id`.
use pc_builder.Shared.{
  ℕ, max, Bool, Option, none, some, List, [], ◌∷◌, map, if◌then◌else◌, ◌==◌, nat_eq, option_eq, any,
  filter, Str, codes, str_eq, is_empty, lookup,
}
use pc_builder.Matching.Clearance.{parse_radiator_sizes}
use pc_builder.Compat.Fields.{
  field_eq, slot_eq, Slot, Field, Value, integer, field_number, show_value,
}
use pc_builder.Compat.Rules.{CoolerKind, aio, cooler_kind}
use pc_builder.Compat.CpuPower.{PowerSource, Power, cpu_max_power}

pub record Product : Type 0 where
  pub id : ℕ
  pub name : Str
  pub p_category : Option Str
  pub canonical_id : Option Str

abbrev pub Row : Type 0
Row = Field → Option Value

pub record View : Type 0 where
  pub attr : Row
  pub max_power_source : Option PowerSource
  pub product_name : Option Str

pub record Catalog : Type 0 where
  pub products : List Product
  pub specs : Slot → List (Str × Row)
  pub extractions : Slot → List (ℕ × Row)

abbrev pub text_of : Option Value → Option Str
text_of none = none
text_of (some v) = some (show_value v)

-- an INTEGER column
abbrev pub integer_of : Option Value → Option ℕ
integer_of (some (integer n)) = some n
integer_of _ = none

-- `getattr(row, name, None) if row else None`
abbrev pub read : Option Row → Field → Option Value
read none name = none
read (some row) name = row name

-- `value if it is not None else other`
abbrev pub or_else : Option Value → Option Value → Option Value
or_else none other = other
or_else (some v) other = some v

abbrev merged : Option Row → Option Row → Option Field → Field → Option Value
merged specs extraction none name = none
merged specs extraction (some ext_name) name = or_else (read extraction ext_name) (read specs name)

-- `_merge`; the dictionary of names as a function
unfoldable pub merge : Option Row → Option Row → (Field → Option Field) → View
merge specs extraction fields = record {
  attr = λ name. merged specs extraction (fields name) name;
  max_power_source = none;
  product_name = none;
}

-- the dictionaries of `_resolve_slot`
abbrev same_names : List Field → (Field → ℕ) → Field → Option Field
same_names [] number name = none
same_names (f ∷ fs) number name =
    if number f == number name then some name else same_names fs number name

unfoldable pub named_fields : List Field → Field → Option Field
unfolding field_number
named_fields fs = same_names fs field_number

-- a view with one more attribute
unfoldable pub set_attr : Field → Option Value → View → View
unfolding field_number
set_attr name value view = record view {
  attr = λ other. if other == name then value else view.attr other;
}

abbrev as_integer : Option ℕ → Option Value
as_integer none = none
as_integer (some n) = some (integer n)

unfoldable pub with_power : View → Power → View
unfolding set_attr
with_power view (watts, source) = record (set_attr Field.max_power (as_integer watts) view) {
  max_power_source = source;
}

abbrev largest_size : List ℕ → Option ℕ
largest_size [] = none
largest_size (n ∷ ns) = elim (largest_size ns) [ none ↦ some n | some m ↦ some (max n m) ]

unfoldable pub with_max_radiator : View → View
unfolding set_attr parse_radiator_sizes
with_max_radiator v =
    set_attr Field.max_radiator_mm
      (as_integer (largest_size (parse_radiator_sizes (text_of (v.attr Field.radiator_sizes))))) v

-- the first source whose type is known
abbrev known_type : Option Value → Option Value → Option Value
known_type a b = elim (cooler_kind (text_of a)) [
  | some _ ↦ a
  | none ↦ elim (cooler_kind (text_of b)) [ some _ ↦ b | none ↦ none ]
]

abbrev radiator_of : Option CoolerKind → Option Value → Option Value
radiator_of (some aio) size = size
radiator_of _ size = none

unfoldable pub with_cooler_type : Option Row → Option Row → View → View
unfolding set_attr cooler_kind
with_cooler_type specs extraction v =
    let cooler_type =
      known_type (read extraction Field.cooler_type) (read specs Field.cooler_type) in
    set_attr Field.aio_radiator_mm
      (radiator_of (cooler_kind (text_of cooler_type)) (v.attr Field.radiator_size_mm))
      (set_attr Field.cooler_type cooler_type v)

unfoldable pub cooler_names : Field → Option Field
unfolding field_number named_fields
cooler_names name =
    if name == Field.radiator_size_mm
    then some Field.size_mm
    else named_fields
        (Field.supported_sockets ∷ Field.tdp_rating ∷ Field.height_mm ∷ Field.cooler_type ∷ []) name

-- the view of one product in a slot
unfoldable pub resolve : Slot → Product → Option Row → Option Row → View
unfolding merge with_max_radiator with_cooler_type cpu_max_power named_fields with_power
    cooler_names
resolve Slot.cpu p specs extraction =
    let view =
      merge specs none
        (named_fields (Field.socket ∷ Field.tdp ∷ Field.cores ∷ Field.threads ∷ [])) in
    with_power view (
      cpu_max_power p.canonical_id (text_of (view.attr Field.socket))
        (integer_of (view.attr Field.tdp)))
resolve Slot.motherboard p specs extraction = merge specs extraction (
    named_fields (
      Field.socket ∷ Field.chipset ∷ Field.form_factor ∷ Field.memory_type ∷ Field.memory_slots
      ∷ Field.max_memory_gb ∷ []))
resolve Slot.ram p specs extraction =
    merge specs extraction
      (named_fields (Field.memory_type ∷ Field.capacity_gb ∷ Field.modules ∷ Field.speed_mhz ∷ []))
resolve Slot.gpu p specs extraction =
    merge specs extraction
      (named_fields (Field.length_mm ∷ Field.tdp ∷ Field.recommended_psu ∷ Field.chipset ∷ []))
resolve Slot.psu p specs extraction =
    merge specs extraction (named_fields (Field.wattage ∷ Field.form_factor ∷ []))
resolve Slot.cabinet p specs extraction = with_max_radiator (
    merge specs extraction (
      named_fields (
        Field.form_factor ∷ Field.max_gpu_length_mm ∷ Field.max_cooler_height_mm
        ∷ Field.max_psu_length_mm ∷ Field.radiator_sizes ∷ [])))
resolve Slot.cooler p specs extraction =
    with_cooler_type specs extraction (merge specs extraction cooler_names)
resolve Slot.storage p specs extraction =
    merge specs extraction (named_fields (Field.capacity_gb ∷ Field.interface ∷ []))
resolve Slot.other p specs extraction = merge none none (λ name. none)

abbrev by_product : ℕ → List (ℕ × Row) → Option Row
by_product k [] = none
by_product k ((n, row) ∷ rows) = if k == n then some row else by_product k rows

-- a missing or empty `canonical_id` is not looked up
abbrev specs_of : Option Str → List (Str × Row) → Option Row
specs_of none rows = none
specs_of (some s) rows = if is_empty s then none else lookup s rows

unfoldable pub resolve_product : Catalog → Slot → Product → View
unfolding resolve
resolve_product catalog slot p =
    resolve slot p (specs_of p.canonical_id (catalog.specs slot))
      (by_product p.id (catalog.extractions slot))

-- `_resolve_slot`
unfoldable pub resolve_slot : Catalog → Slot → List Product → List View
unfolding resolve_product
resolve_slot catalog slot = map (resolve_product catalog slot)

-- `_slot_key`
abbrev pub slot_keys : List (Str × Slot)
slot_keys =
    (codes "CPU", Slot.cpu)
    ∷ (codes "Motherboard", Slot.motherboard)
    ∷ (codes "RAM", Slot.ram)
    ∷ (codes "GPU", Slot.gpu)
    ∷ (codes "Power Supply", Slot.psu)
    ∷ (codes "Cabinet", Slot.cabinet)
    ∷ (codes "CPU Cooler", Slot.cooler)
    ∷ (codes "Storage", Slot.storage)
    ∷ []

unfoldable pub slot_key : Option Str → Option Slot
slot_key none = none
slot_key (some p_category) = lookup p_category slot_keys

-- The groups of views by slot; `selections.get(slot, [])` is an application.
abbrev pub Selections : Type 0
Selections = Slot → List View

unfoldable pub in_slot : Slot → Product → Bool
unfolding slot_key
in_slot slot p = slot_key p.p_category == some slot

abbrev pub is_selected : List ℕ → Product → Bool
is_selected ids p = any (λ k. k == p.id) ids

unfoldable pub named_view : Catalog → Slot → Product → View
unfolding resolve_product
named_view catalog slot p = record (resolve_product catalog slot p) { product_name = some p.name }

unfoldable pub group_selections : Catalog → List ℕ → Selections
unfolding in_slot named_view
group_selections catalog product_ids slot =
    map (named_view catalog slot)
      (filter (in_slot slot) (filter (is_selected product_ids) catalog.products))
