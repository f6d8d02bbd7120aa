-- ===== src/Compat/Check.antt =====
-- One pair of parts against one rule: `rule_applies` of src/services/compatibility_rules.py, and
-- `_unknown`, `_unverified`, `_eval_rule` and the body of the loops of `validate_build` of
-- src/services/compatibility_engine.py.
use pc_builder.Shared.{
  ℕ, ◌*◌, Bool, true, false, not, ◌&&◌, ◌||◌, Option, none, some, List, [], ◌∷◌, ◌++◌, ltb,
  if◌then◌else◌, ◌==◌, nat_eq, option_eq, get_or, is_none, is_some, Str, codes, str_eq, mem_str,
  is_empty, upper, strip, has_substring, join,
}
use pc_builder.Compat.Fields.{
  Slot, Field, Value, text, integer, decimal, slot_eq, field_eq, slot_number, field_number,
  show_value, slot_label, field_label,
}
use pc_builder.Compat.Rules.{
  Rule, Op, eq, le, contains_in, form_factor_fits, Level, is_error, CoolerKind, aio, air,
  cooler_kind,
}
use pc_builder.Compat.View.{View, text_of}
use pc_builder.Compat.FormFactor.{form_factor_index}
use pc_builder.Compat.Sockets.{socket_supported, normalize_sockets, current_sockets}

-- CompatibilityWarning of src/domain/builder.py
pub record Warning : Type 0 where
  pub level : Level
  pub message : Str

unfoldable pub of_kind : Field → CoolerKind → Bool
unfolding field_number
of_kind field aio = not (field == Field.height_mm)
of_kind field air = not (field == Field.aio_radiator_mm)

-- the body of the loop of `rule_applies`: whether it returns, and what; `field` is the rule's field
-- for this slot
unfoldable pub applies_to : Slot → Field → View → Option Bool
unfolding slot_number cooler_kind of_kind
applies_to slot field view =
    if slot == Slot.cooler
    then elim (cooler_kind (text_of (view.attr Field.cooler_type))) [
      | none ↦ some true
      | some kind ↦ if of_kind field kind then none else some false
    ]
    else none

unfoldable pub rule_applies : Rule → View → View → Bool
unfolding slot_number applies_to
rule_applies r view_a view_b =
    let field_b = if r.slot_b == r.slot_a then r.field_a else r.field_b in
    elim (applies_to r.slot_a r.field_a view_a) [
      | some answer ↦ answer
      | none ↦ get_or (applies_to r.slot_b field_b view_b) true
    ]

pub data Unknown : Type 0 where
  missing unrecognised : Unknown

abbrev pub is_blank : Value → Bool
is_blank (text s) = is_empty (strip s)
is_blank (integer n) = false
is_blank (decimal h) = false

unfoldable pub placed : Op → Value → Bool
unfolding form_factor_index show_value
placed form_factor_fits v = is_some (form_factor_index (show_value v))
placed _ v = true

-- `_unknown`
unfoldable pub unknown : Rule → Option Value → Option Unknown
unfolding form_factor_index show_value placed
unknown r none = some missing
unknown r (some v) =
    if is_blank v then some missing else if placed r.op v then none else some unrecognised

-- `x or d` for a text
abbrev pub name_or : Option Str → Str → Str
name_or none d = d
name_or (some s) d = if is_empty s then d else s

unfoldable pub part : View → Slot → Field → Unknown → Str
unfolding slot_label field_label show_value
part item slot field missing =
    name_or item.product_name (codes "the selected " ++ slot_label slot)
    ++ codes " has no published "
    ++ field_label field
part item slot field unrecognised =
    name_or item.product_name (codes "the selected " ++ slot_label slot)
    ++ codes " has an unrecognised "
    ++ field_label field
    ++ codes " ("
    ++ get_or (text_of (item.attr field)) (codes "None")
    ++ codes ")"

unfoldable pub parts_of : View → Slot → Field → Option Unknown → List Str
unfolding slot_label field_label show_value part
parts_of item slot field none = []
parts_of item slot field (some why) = part item slot field why ∷ []

-- `_unverified`
unfoldable pub unverified : Rule → View → View → Option Unknown → Option Unknown → Warning
unfolding slot_label field_label show_value parts_of
unverified r item_a item_b unknown_a unknown_b = record {
  level = Level.unverified;
  message =
      codes "Unverified: "
      ++ join (codes " and ") (
          parts_of item_a r.slot_a r.field_a unknown_a
          ++ parts_of item_b r.slot_b r.field_b unknown_b)
      ++ codes ", so "
      ++ slot_label r.slot_a
      ++ codes "/"
      ++ slot_label r.slot_b
      ++ codes " fit could not be checked.";
}

abbrev canonical : Str → Str
canonical s = upper (strip s)

-- `float(value)` in hundredths. The columns that `le` compares are numbers, for which it does not
-- raise.
abbrev float : Value → Option ℕ
float (integer n) = some (n * 100)
float (decimal h) = some h
float (text s) = none

abbrev above : Option ℕ → Option ℕ → Bool
above (some a) (some b) = ltb b a
above _ _ = false

unfoldable pub supports : Str → Str → Bool
unfolding normalize_sockets socket_supported
supports cpu_socket cooler_sockets = elim (normalize_sockets cooler_sockets) [
  | none ↦ has_substring (canonical cooler_sockets) (canonical cpu_socket)
  | some _ ↦ get_or (socket_supported cpu_socket cooler_sockets) false
]

unfoldable pub fails : Op → Value → Value → Bool
unfolding form_factor_index show_value normalize_sockets socket_supported supports
fails eq a b = not (canonical (show_value a) == canonical (show_value b))
fails le a b = above (float a) (float b)
fails contains_in a b = not (supports (show_value a) (show_value b))
fails form_factor_fits a b =
    above (form_factor_index (show_value a)) (form_factor_index (show_value b))

unfoldable pub failure : Rule → Value → Value → Warning
unfolding show_value
failure r a b = record { level = r.level; message = r.message (show_value a) (show_value b) }

-- `_eval_rule`
unfoldable pub eval_rule : Rule → Option Value → Option Value → Option Warning
unfolding fails show_value failure
eval_rule r (some a) (some b) = if fails r.op a b then some (failure r a b) else none
eval_rule r _ _ = none

unfoldable pub is_failure : Warning → Bool
unfolding is_error
is_failure w = is_error w.level

-- what `validate_build` has found so far
pub record Report : Type 0 where
  pub compatible : Bool
  pub warnings : List Warning

abbrev pub warn : Warning → Report → Report
warn w report = record report { warnings = report.warnings ++ w ∷ [] }

unfoldable pub judge : Option Warning → Report → Report
unfolding is_failure
judge none report = report
judge (some w) report = record (warn w report) {
  compatible = if is_error w.level then false else report.compatible;
}

abbrev cooler_note : View → Str → Warning
cooler_note item_b socket = record {
  level = Level.estimate;
  message =
      codes "Cooler sockets: "
      ++ name_or item_b.product_name (codes "the selected cooler")
      ++ codes " doesn't list its supported sockets. Almost every cooler sold today fits "
      ++ socket
      ++ codes ", but check the box says "
      ++ socket
      ++ codes ".";
}

abbrev is_contains : Op → Bool
is_contains contains_in = true
is_contains _ = false

-- an unknown socket list beside a current CPU socket
unfoldable pub fits_anyway : Rule → Option Value → Option Unknown → Option Unknown → Bool
unfolding show_value
fits_anyway r val_a unknown_a unknown_b =
    is_contains r.op
    && is_some unknown_b
    && is_none unknown_a
    && mem_str (canonical (get_or (text_of val_a) (codes "None"))) current_sockets

-- the innermost body of the loops
unfoldable pub check_pair : Rule → View → View → Report → Report
unfolding rule_applies unknown fits_anyway unverified eval_rule show_value is_failure judge
check_pair r item_a item_b report =
    let val_a = item_a.attr r.field_a in
    let val_b = item_b.attr r.field_b in
    let unknown_a = unknown r val_a in
    let unknown_b = unknown r val_b in
    if not (rule_applies r item_a item_b)
    then report
    else if fits_anyway r val_a unknown_a unknown_b
    then warn (cooler_note item_b (get_or (text_of val_a) (codes "None"))) report
    else if is_some unknown_a || is_some unknown_b
    then warn (unverified r item_a item_b unknown_a unknown_b) report
    else judge (eval_rule r val_a val_b) report
