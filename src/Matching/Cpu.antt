-- ===== src/Matching/Cpu.antt =====
-- src/matching/cpu_identity.py: which listings are the same processor.
use pc_builder.Shared.{
  not, ◌&&◌, Option, [], ◌∷◌, ◌++◌, if◌then◌else◌, ◌==◌, nat_eq, option_eq, get_or, Str, codes,
  str_eq, is_empty, lower, strip, ends_with, has_substring,
}
use pc_builder.Regex.{Regex, regex, any_case, regex_of, escaped, is_found, sub_text}
use pc_builder.Matching.Keys.{KeyFields, make_canonical_key_string}

-- _AMD_WORDS and _INTEL_WORDS
abbrev amd_words : Regex
amd_words = any_case "\\b(ryzen|threadripper|athlon|epyc|amd)\\b"

abbrev intel_words : Regex
intel_words = any_case "\\b(intel|core|xeon|pentium|celeron)\\b"

unfoldable pub normalize_model : Option Str → Option Str → Str
unfolding is_found sub_text
normalize_model model_number title =
    let joined = sub_text (regex "[\\s\\-_]+") [] (lower (get_or model_number [])) in
    let model = sub_text (regex "^(?:core)?(?:i[3579]|ultra[3579]?)") [] joined in
    let said_3d =
      is_found (regex_of (codes "\\b" ++ escaped model ++ codes "\\s?3d\\b"))
        (lower (get_or title [])) in
    if not (is_empty model) && not (ends_with model (codes "3d")) && said_3d
    then model ++ codes "3d"
    else model

unfoldable pub infer_brand : Option Str → Option Str → Str
unfolding is_found
infer_brand brand title =
    let text = get_or title [] in
    let b = strip (get_or brand []) in
    if is_found amd_words text
    then codes "AMD"
    else if is_found intel_words text
    then codes "Intel"
    else if not (is_empty b) && not (lower b == codes "unknown")
    then b
    else codes "Unknown"

-- f"{series or ''} {title or ''}"
abbrev series_and_title : Option Str → Option Str → Str
series_and_title series title = get_or series [] ++ codes " " ++ get_or title []

unfoldable pub cpu_key_fields : Option Str → Option Str → Option Str → Option Str → KeyFields
unfolding normalize_model infer_brand is_found
cpu_key_fields brand series model_number title =
    let text = series_and_title series title in
    let fields =
      (codes "category", codes "cpu")
      ∷ (codes "brand", infer_brand brand title)
      ∷ (codes "model_number", normalize_model model_number title)
      ∷ [] in
    if not (has_substring (lower text) (codes "threadripper"))
      && is_found (any_case "\\bpro\\b") text
    then fields ++ (codes "pro", codes "pro") ∷ []
    else fields

unfoldable pub cpu_key : Option Str → Option Str → Option Str → Option Str → Str
unfolding cpu_key_fields make_canonical_key_string
cpu_key brand series model_number title =
    make_canonical_key_string (codes "cpu") (cpu_key_fields brand series model_number title)
