-- ===== src/Matching/BuildKey.antt =====
-- `build_canonical_key` of src/matching/canonical_key_builder.py: its branches for memory,
-- motherboards and graphics cards, and the choice of the branch.
use pc_builder.Shared.{
  ◌||◌, none, some, [], ◌∷◌, ◌++◌, if◌then◌else◌, ◌==◌, nat_eq, option_eq, Str, codes, str_eq,
  is_empty, upper, lower, strip, drop_prefix,
}
use pc_builder.Regex.{regex, search, group_of}
use pc_builder.Matching.Keys.{KeyFields, normalize_category}
use pc_builder.Matching.Board.{resolve_board_designation}
use pc_builder.Matching.TitleKeys.{
  extract_brand, clean_cpu_title, cpu_model_number, text_in, whole_or, without_spaces, psu_fields,
  cooler_fields, storage_fields,
}

unfoldable pub ram_fields : Str → KeyFields
unfolding search group_of
ram_fields title =
    let t = lower title in
    (
      codes "series",
      whole_or (search (regex "(fury\\s*beast|trident\\s*z5?|vengeance|lancer|ripjaws)") t)
          (codes "generic"),
    )
    ∷ (
      codes "capacity",
      elim (search (regex "(\\d+\\s*gb(\\s*x\\s*\\d+)?)") t) [
        | some m ↦ without_spaces (text_in 1 m)
        | none ↦ codes "Unknown"
      ],
    )
    ∷ (
      codes "speed_mhz",
      elim (search (regex "(\\d{4})\\s*mhz") t) [
        | some m ↦ text_in 1 m ++ codes "MHz"
        | none ↦ codes "Unknown"
      ],
    )
    ∷ (
      codes "cl_timing",
      elim (search (regex "cl\\s*(\\d{2})") t) [
        | some m ↦ codes "CL" ++ text_in 1 m
        | none ↦ codes "Unknown"
      ],
    )
    ∷ []

unfoldable pub motherboard_fields : Str → KeyFields
unfolding search resolve_board_designation
motherboard_fields title =
    let t = lower title in
    (
      codes "chipset",
      elim (search (regex "([abhqxz]\\d{3}[eim]?)") t) [
        | some m ↦ resolve_board_designation (some m.whole) (some title)
        | none ↦ codes "Unknown"
      ],
    )
    ∷ (
      codes "model_number",
      whole_or
          (search
            (regex
              "(tuf\\s*gaming|rog\\s*strix|prime|aorus|tomahawk|mortar|pro\\s*rs|steel\\s*legend)")
            t)
          title,
    )
    ∷ []

-- the variant without the brand in front of it
abbrev without_brand : Str → Str → Str
without_brand brand variant = elim (drop_prefix (lower brand) variant) [
  | none ↦ variant
  | some rest ↦ strip rest
]

abbrev base_if_empty : Str → Str
base_if_empty variant = if is_empty variant then codes "base" else variant

unfoldable pub gpu_fields : Str → Str → KeyFields
unfolding search
gpu_fields brand title =
    let t = lower title in
    let variant =
      whole_or
        (search
          (regex
            "(ventus|gaming\\s*x|tuf|strix|aorus|eagle|windforce|solid|twin\\s*edge|shadow|inspire)")
          t)
        (codes "base") in
    (codes "aib_brand", brand)
    ∷ (codes "variant_model", base_if_empty (without_brand brand variant))
    ∷ (
      codes "chipset",
      elim (search (regex "(rtx\\s*\\d{4}\\s*(ti)?\\s*(super)?|rx\\s*\\d{4}\\s*(xt)?(x)?)") t) [
        | some m ↦ upper m.whole
        | none ↦ codes "Unknown"
      ],
    )
    ∷ []

-- the fields of a category, besides the category and the brand
unfoldable pub category_fields : Str → Str → Str → KeyFields
unfolding clean_cpu_title cpu_model_number psu_fields cooler_fields storage_fields ram_fields
    motherboard_fields gpu_fields
category_fields cat brand title =
    if cat == codes "cpu"
    then (codes "model_number", cpu_model_number (clean_cpu_title (lower title))) ∷ []
    else if cat == codes "psu"
    then psu_fields title
    else if cat == codes "cooler" || cat == codes "case"
    then cooler_fields title
    else if cat == codes "storage"
    then storage_fields title
    else if cat == codes "ram"
    then ram_fields title
    else if cat == codes "motherboard"
    then motherboard_fields title
    else if cat == codes "gpu"
    then gpu_fields brand title
    else (codes "model_number", title) ∷ []

unfoldable pub build_canonical_key : Str → Str → KeyFields
unfolding normalize_category extract_brand category_fields
build_canonical_key title category =
    let cat = normalize_category category in
    let brand = extract_brand title in
    (codes "category", cat) ∷ (codes "brand", brand) ∷ category_fields cat brand title
