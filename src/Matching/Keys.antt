-- ===== src/Matching/Keys.antt =====
-- src/matching/canonical_key_builder.py: the keys of products, as dictionaries and as texts.
use pc_builder.Shared.{
  ℕ, Bool, not, ◌&&◌, ◌||◌, Option, none, some, List, [], ◌∷◌, ◌++◌, map, if◌then◌else◌, ◌==◌,
  nat_eq, option_eq, get_or, any, filter, find, sort, Str, codes, str_eq, mem_str, is_empty, lower,
  strip, has_substring, str_leb, replace, join, show_nat,
}
use pc_builder.Matching.Words.{or_else}

-- A dictionary of key fields, each value as `str` gives it. Its keys are distinct.
abbrev pub KeyFields : Type 0
KeyFields = List (Str × Str)

abbrev category_names : List (Str × List Str)
category_names =
    (codes "cpu", codes "cpu" ∷ codes "processor" ∷ [])
    ∷ (codes "gpu", codes "gpu" ∷ codes "graphics card" ∷ [])
    ∷ (codes "ram", codes "ram" ∷ codes "desktop ram" ∷ codes "laptop ram" ∷ codes "memory" ∷ [])
    ∷ (
      codes "storage",
      codes "storage"
          ∷ codes "ssd"
          ∷ codes "hdd"
          ∷ codes "nvme ssd"
          ∷ codes "m.2 nvme ssd"
          ∷ codes "sata ssd"
          ∷ [],
    )
    ∷ (codes "psu", codes "power supply" ∷ codes "psu" ∷ codes "smps" ∷ [])
    ∷ (codes "cooler", codes "cpu cooler" ∷ codes "cooler" ∷ [])
    ∷ (codes "case", codes "cabinet" ∷ codes "case" ∷ codes "pc cabinet" ∷ [])
    ∷ (codes "motherboard", codes "motherboard" ∷ codes "mobo" ∷ [])
    ∷ []

abbrev key_named : List (Str × List Str) → Str → Str
key_named [] cat = cat
key_named ((key, names) ∷ rest) cat = if mem_str cat names then key else key_named rest cat

unfoldable pub normalize_category : Str → Str
normalize_category category = key_named category_names (strip (lower category))

-- str(v).lower().strip().replace(" ", "_")
abbrev pub key_part : Str → Str
key_part v = replace (codes " ") (codes "_") (strip (lower v))

-- the values that are not empty and were not seen
abbrev pub new_parts : List Str → List Str → List Str
new_parts seen [] = []
new_parts seen (v ∷ vs) =
    if is_empty v || mem_str v seen then new_parts seen vs else v ∷ new_parts (v ∷ seen) vs

abbrev pub by_field : Str × Str → Str × Str → Bool
by_field a b = str_leb a.0 b.0

abbrev pub is_part : Str × Str → Bool
is_part f = not (f.0 == codes "category")

-- sorted(key_dict.keys()), without the category
unfoldable pub sorted_fields : KeyFields → KeyFields
sorted_fields fields = filter is_part (sort by_field fields)

abbrev pub part_of : Str × Str → Str
part_of f = key_part f.1

unfoldable pub make_canonical_key_string : Str → KeyFields → Str
unfolding normalize_category sorted_fields
make_canonical_key_string category fields =
    join (codes ":")
      (normalize_category category ∷ new_parts [] (map part_of (sorted_fields fields)))

-- _NON_IDENTIFYING_FIELDS
abbrev pub non_identifying_fields : List Str
non_identifying_fields =
    codes "category"
    ∷ codes "efficiency"
    ∷ codes "color"
    ∷ codes "colour"
    ∷ codes "brand"
    ∷ codes "aib_brand"
    ∷ codes "memory"
    ∷ []

unfoldable pub is_signal : Str × Str → Bool
is_signal (k, v) =
    not (mem_str k non_identifying_fields)
    && not (is_empty v)
    && not (lower (strip v) == codes "unknown")

unfoldable pub has_signal : KeyFields → Bool
unfolding is_signal
has_signal fields = any is_signal fields

unfoldable pub disambiguate_failed_key : KeyFields → ℕ → KeyFields
unfolding has_signal
disambiguate_failed_key fields product_id =
    if has_signal fields then fields else (codes "_unresolved_id", show_nat product_id) ∷ fields

-- _EFFICIENCY_TIERS
abbrev pub efficiency_tiers : List Str
efficiency_tiers =
    codes "titanium"
    ∷ codes "platinum"
    ∷ codes "gold"
    ∷ codes "silver"
    ∷ codes "bronze"
    ∷ codes "white"
    ∷ codes "standard"
    ∷ []

unfoldable pub normalize_efficiency_trim : Option Str → Str
normalize_efficiency_trim rating =
    get_or (find (λ tier. has_substring (strip (lower (get_or rating []))) tier) efficiency_tiers)
      []

abbrev watts : Option ℕ → Str
watts none = []
watts (some w) = if w == 0 then [] else show_nat w ++ codes "w"

-- `build_psu_key_dict`, for a wattage that is a number
unfoldable pub build_psu_key_dict : Option Str → Option Str → Option ℕ → Option Str → KeyFields
unfolding normalize_efficiency_trim show_nat
build_psu_key_dict brand model_number wattage efficiency_rating =
    (codes "category", codes "psu")
    ∷ (codes "brand", or_else brand (codes "Unknown"))
    ∷ (codes "model_number", or_else model_number [])
    ∷ (codes "wattage", watts wattage)
    ∷ (codes "efficiency", normalize_efficiency_trim efficiency_rating)
    ∷ []
