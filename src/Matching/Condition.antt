-- ===== src/Matching/Condition.antt =====
-- src/matching/condition_policy.py: listings that are not sealed retail stock.
use pc_builder.Shared.{
  ◌&&◌, Option, none, some, List, [], ◌∷◌, if◌then◌else◌, ◌==◌, nat_eq, option_eq, get_or, Str,
  codes, str_eq, is_empty, upper,
}
use pc_builder.Regex.{Regex, any_case, is_found}

-- _PATTERNS: the first that is found wins
abbrev condition_patterns : List (Str × Regex)
condition_patterns =
    (codes "repacked", any_case "\\[?\\s*re-?pack(ed|aged)?\\s*\\]?")
    ∷ (codes "open_box", any_case "\\bopen[\\s\\-]?box\\b")
    ∷ (
      codes "refurbished",
      any_case "\\b(refurb(ished)?|renewed|pre[\\s\\-]?owned|second[\\s\\-]?hand)\\b",
    )
    ∷ (codes "oem", any_case "\\boem\\b")
    ∷ []

-- _CPU_OEM
abbrev cpu_oem : Regex
cpu_oem = any_case "\\b(tray|multi[\\s\\-]?pack|mpk)\\b"

-- the first condition whose pattern is found in the title
unfoldable pub first_condition : List (Str × Regex) → Str → Option Str
unfolding is_found
first_condition [] title = none
first_condition ((condition, pattern) ∷ ps) title =
    if is_found pattern title then some condition else first_condition ps title

abbrev cpu_condition : Str → Option Str → Option Str
cpu_condition title p_category =
    if upper (get_or p_category []) == codes "CPU" && is_found cpu_oem title
    then some (codes "oem")
    else none

unfoldable pub detect_condition : Option Str → Option Str → Option Str
unfolding first_condition
detect_condition none p_category = none
detect_condition (some title) p_category =
    if is_empty title then none else elim (first_condition condition_patterns title) [
      | some condition ↦ some condition
      | none ↦ cpu_condition title p_category
    ]
