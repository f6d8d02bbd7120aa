-- ===== src/Matching/Category.antt =====
-- src/matching/category_classifier.py: the category of a listing, from the store's category and the
-- title.
pub mod Tables
pub mod Stray
use pc_builder.Shared.{
  Bool, false, not, ◌&&◌, ◌||◌, Option, none, some, List, [], ◌∷◌, ◌++◌, if◌then◌else◌, ◌==◌,
  nat_eq, option_eq, get_or, any, Str, codes, str_eq, mem_str, is_empty, lower, strip,
  has_substring,
}
use pc_builder.Regex.{Regex, any_case, is_found}
use pc_builder.Matching.Category.Tables.{
  category_mapping, gpu_title_indicators, cpu_brand_indicators, audio_indicators,
  thermal_material_indicators, removable_media_indicators, title_only_category_markers,
}
use pc_builder.Matching.Category.Stray.{StrayRule, stray_title_rules}

abbrev pub named : List (Str × List Str) → (Str → Bool) → Option Str
named [] p = none
named ((category, names) ∷ rest) p = if any p names then some category else named rest p

-- f" {(title or '').lower()} "
abbrev pub padded : Option Str → Str
padded title = codes " " ++ lower (get_or title []) ++ codes " "

abbrev pub says : List Str → Option Str → Bool
says markers title = any (λ m. has_substring (padded title) m) markers

-- `_title_indicates_discrete_gpu`
unfoldable pub indicates_discrete_gpu : Option Str → Bool
indicates_discrete_gpu title =
    says gpu_title_indicators title && not (says cpu_brand_indicators title)

-- `_title_indicates_standalone_fan`
unfoldable pub indicates_standalone_fan : Option Str → Bool
unfolding is_found
indicates_standalone_fan title =
    let t = get_or title [] in
    is_found (any_case "\\bfans?\\b") t
    && not (is_found (any_case "\\b(?:cabinet|case|chassis|tower)\\b") t)
    && not (is_found (any_case "\\bwith\\s+\\d+\\s+(?:\\w+\\s+)?fans?\\b") t)

abbrev pub first_marked : List (Str × List Str) → Option Str → Option Str
first_marked [] title = none
first_marked ((category, markers) ∷ rest) title =
    if says markers title then some category else first_marked rest title

-- `_classify_from_title`
unfoldable pub classify_from_title : Option Str → Option Str
unfolding indicates_discrete_gpu
classify_from_title title =
    if is_empty (get_or title [])
    then none
    else if indicates_discrete_gpu title
    then some (codes "GPU")
    else if says removable_media_indicators title || says audio_indicators title
    then some (codes "Accessories")
    else if says thermal_material_indicators title
    then some (codes "Accessories")
    else if says cpu_brand_indicators title
    then some (codes "CPU")
    else first_marked title_only_category_markers title

abbrev is_cancelled : Option Regex → Str → Bool
is_cancelled none title = false
is_cancelled (some cancel) title = is_found cancel title

unfoldable pub rule_names : StrayRule → Str → Str → Bool
unfolding is_found
rule_names rule p_category title =
    mem_str p_category rule.sources
    && is_found rule.pattern title
    && not (is_cancelled rule.cancel title)

unfoldable pub first_rule : List StrayRule → Str → Str → Option Str
unfolding rule_names
first_rule [] p_category title = none
first_rule (rule ∷ rules) p_category title =
    if rule_names rule p_category title then some rule.target else first_rule rules p_category title

unfoldable pub category_named_by_title : Str → Option Str → Option Str
unfolding first_rule
category_named_by_title p_category none = none
category_named_by_title p_category (some title) =
    if is_empty title then none else first_rule stray_title_rules p_category title

abbrev pub accessories : Str
accessories = codes "Accessories"

-- the mapping, exact and then without case
unfoldable pub mapped : Str → Option Str
mapped raw = elim (named category_mapping (λ k. k == raw)) [
  | some category ↦ some category
  | none ↦ named category_mapping (λ k. lower k == lower raw)
]

-- the overrides of a mapped category
unfoldable pub corrected : Str → Option Str → Str
unfolding indicates_discrete_gpu indicates_standalone_fan category_named_by_title
corrected p title =
    if p == codes "CPU" && indicates_discrete_gpu title
    then codes "GPU"
    else if p == codes "CPU Cooler" && says thermal_material_indicators title
    then accessories
    else if p == codes "Power Supply" && says audio_indicators title
    then accessories
    else if p == codes "Cabinet" && indicates_standalone_fan title
    then accessories
    else if p == codes "GPU" && says removable_media_indicators title
    then accessories
    else get_or (category_named_by_title p title) p

unfoldable pub get_p_category : Option Str → Option Str → Str
unfolding classify_from_title mapped corrected
get_p_category raw title =
    if is_empty (get_or raw [])
    then get_or (classify_from_title title) accessories
    else elim (mapped (strip (get_or raw []))) [
      | none ↦ get_or (classify_from_title title) accessories
      | some p ↦ corrected p title
    ]
