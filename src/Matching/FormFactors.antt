-- ===== src/Matching/FormFactors.antt =====
-- src/matching/form_factor.py: one spelling for the form factors of boards and cabinets.
use pc_builder.Shared.{
  ◌||◌, Option, none, some, List, [], ◌∷◌, if◌then◌else◌, nat_eq, option_eq, get_or, Str, codes,
  str_eq, mem_str, is_empty, upper, strip,
}
use pc_builder.Regex.{Regex, regex, is_found}

-- CANONICAL
abbrev pub canonical_forms : List Str
canonical_forms = codes "ITX" ∷ codes "MATX" ∷ codes "ATX" ∷ codes "EATX" ∷ []

-- _PATTERNS
abbrev pub form_patterns : List (Regex × Str)
form_patterns =
    (regex "\\bE[\\s\\-_]?ATX\\b", codes "EATX")
    ∷ (regex "\\bEXTENDED[\\s\\-_]?ATX\\b", codes "EATX")
    ∷ (regex "\\bCEB\\b", codes "EATX")
    ∷ (regex "\\bSSI[\\s\\-_]?(EEB|CEB)\\b", codes "EATX")
    ∷ (regex "\\bM(?:ICRO)?[\\s\\-_]?ATX\\b", codes "MATX")
    ∷ (regex "\\bMATX\\b", codes "MATX")
    ∷ (regex "\\bU?ATX\\b(?=.*\\bMICRO\\b)", codes "MATX")
    ∷ (regex "\\bMINI[\\s\\-_]?ITX\\b", codes "ITX")
    ∷ (regex "\\bM[\\s\\-_]?ITX\\b", codes "ITX")
    ∷ (regex "\\bITX\\b", codes "ITX")
    ∷ (regex "\\bATX\\b", codes "ATX")
    ∷ []

-- CHASSIS_SIZE_TERMS
abbrev chassis_size_terms : List Str
chassis_size_terms =
    codes "MID TOWER"
    ∷ codes "MIDTOWER"
    ∷ codes "MID-TOWER"
    ∷ codes "FULL TOWER"
    ∷ codes "FULLTOWER"
    ∷ codes "FULL-TOWER"
    ∷ codes "MINI TOWER"
    ∷ codes "MINITOWER"
    ∷ codes "MINI-TOWER"
    ∷ codes "SFF"
    ∷ codes "SMALL FORM FACTOR"
    ∷ codes "CUBE"
    ∷ codes "DESKTOP"
    ∷ codes "TOWER"
    ∷ []

unfoldable pub first_form : List (Regex × Str) → Str → Option Str
unfolding is_found
first_form [] text = none
first_form ((pattern, canonical) ∷ ps) text =
    if is_found pattern text then some canonical else first_form ps text

-- One candidate, none where the loop goes on to the next.
unfoldable pub form_of : Option Str → Option Str
unfolding first_form
form_of candidate =
    let text = upper (get_or candidate []) in
    if is_empty text || mem_str (strip text) chassis_size_terms
    then none
    else first_form form_patterns text

unfoldable pub normalize_form_factor : Option Str → Option Str → Option Str
unfolding form_of
normalize_form_factor value fallback_text = elim (form_of value) [
  | some form ↦ some form
  | none ↦ form_of fallback_text
]
