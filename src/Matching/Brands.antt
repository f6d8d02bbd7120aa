-- ===== src/Matching/Brands.antt =====
-- src/matching/brand_registry.py: the brands that a prompt names for a category. The registry file
-- and the query for the counted brands are arguments.
use pc_builder.Shared.{
  ℕ, Bool, ◌||◌, Option, none, some, List, [], ◌∷◌, ◌++◌, map, ltb, if◌then◌else◌, ◌==◌, nat_eq,
  option_eq, length, take, Str, codes, str_eq, mem_str, is_empty, lower, join,
}
use pc_builder.Matching.Words.{words}
use pc_builder.Matching.Keys.{normalize_category}

-- SEED_BRANDS
abbrev pub seed_brands : List (Str × List Str)
seed_brands =
    (
      codes "psu",
      codes "Ant Esports"
          ∷ codes "Zebronics"
          ∷ codes "Circle"
          ∷ codes "Gamdias"
          ∷ codes "Prolab Design"
          ∷ codes "Chiptronex"
          ∷ codes "Foxin"
          ∷ codes "Artis"
          ∷ codes "iBall"
          ∷ codes "Frontech"
          ∷ [],
    )
    ∷ (
      codes "case",
      codes "Ant Esports"
          ∷ codes "Zebronics"
          ∷ codes "Chiptronex"
          ∷ codes "TAG Gamerz"
          ∷ codes "Circle"
          ∷ codes "Foxin"
          ∷ codes "Artis"
          ∷ codes "Gamdias"
          ∷ codes "Frontech"
          ∷ [],
    )
    ∷ (
      codes "cooler",
      codes "Ant Esports"
          ∷ codes "Zebronics"
          ∷ codes "Chiptronex"
          ∷ codes "Gamdias"
          ∷ codes "Artis"
          ∷ [],
    )
    ∷ (
      codes "ram",
      codes "EVM"
          ∷ codes "ZION"
          ∷ codes "GEONIX"
          ∷ codes "Consistent"
          ∷ codes "Hynix"
          ∷ codes "Simmtronics"
          ∷ codes "Foxin"
          ∷ [],
    )
    ∷ (
      codes "storage",
      codes "EVM"
          ∷ codes "ZION"
          ∷ codes "GEONIX"
          ∷ codes "Consistent"
          ∷ codes "Dawg"
          ∷ codes "Coconut"
          ∷ codes "Foxin"
          ∷ codes "Simmtronics"
          ∷ [],
    )
    ∷ (
      codes "monitor",
      codes "Zebronics"
          ∷ codes "Frontech"
          ∷ codes "Foxin"
          ∷ codes "Consistent"
          ∷ codes "Artis"
          ∷ [],
    )
    ∷ (codes "motherboard", codes "Consistent" ∷ codes "Foxin" ∷ codes "Zebronics" ∷ [])
    ∷ (codes "gpu", codes "Consistent" ∷ codes "Foxin" ∷ [])
    ∷ (codes "cpu", [])
    ∷ []

abbrev pub max_hints_per_category : ℕ
max_hints_per_category = 60

-- _UNNAMED
abbrev unnamed : List Str
unnamed =
    []
    ∷ codes "unknown"
    ∷ codes "none"
    ∷ codes "null"
    ∷ codes "n/a"
    ∷ codes "generic"
    ∷ codes "no brand"
    ∷ codes "unbranded"
    ∷ []

abbrev pub brand_name : Str → Str
brand_name raw = join (codes " ") (words raw)

abbrev pub is_dropped : List Str → Str → Bool
is_dropped seen name =
    mem_str (lower name) unnamed || mem_str (lower name) seen || ltb 40 (length name)

-- `_clean`, with the folded names that it has seen
unfoldable pub clean : List Str → List Str → List Str
clean seen [] = []
clean seen (raw ∷ brands) =
    let name = brand_name raw in
    if is_empty raw || is_dropped seen name
    then clean seen brands
    else name ∷ clean (lower name ∷ seen) brands

abbrev pub Registry : Type 0
Registry = List (Str × List Str)

-- registry.get(category, [])
abbrev pub brands_of : Registry → Str → List Str
brands_of [] category = []
brands_of ((key, brands) ∷ rest) category =
    if key == category then brands else brands_of rest category

-- derived.setdefault(category, []).append(brand)
abbrev pub add_brand : Str → Str → Registry → Registry
add_brand category brand [] = (category, brand ∷ []) ∷ []
add_brand category brand ((key, brands) ∷ rest) =
    if key == category
    then (key, brands ++ brand ∷ []) ∷ rest
    else (key, brands) ∷ add_brand category brand rest

-- the rows of the query, the most frequent brands first
unfoldable pub derived_from : List (Str × Str) → Registry → Registry
unfolding normalize_category
derived_from [] derived = derived
derived_from ((category, brand) ∷ rows) derived =
    derived_from rows (add_brand (normalize_category category) brand derived)

abbrev seeds : Registry
seeds = map (λ x. (normalize_category x.0, x.1)) seed_brands

abbrev keys : Registry → List Str
keys = map (λ x. x.0)

abbrev add_key : List Str → List Str → List Str
add_key [] kept = kept
add_key (k ∷ ks) kept = if mem_str k kept then add_key ks kept else add_key ks (kept ++ k ∷ [])

-- `build_registry`, with the entries of the dictionary in the order of the two sources
unfoldable pub build_registry : List (Str × Str) → Registry
unfolding derived_from clean
build_registry rows =
    let derived = derived_from rows [] in
    map
      (λ category. (
        category,
        take max_hints_per_category
            (clean [] (brands_of seeds category ++ brands_of derived category)),
      ))
      (add_key (keys derived ++ keys seeds) [])

-- The entries of a dictionary that is built from pairs: a later pair takes an earlier one's place.
abbrev pub set_brands : Str → List Str → Registry → Registry
set_brands category brands [] = (category, brands) ∷ []
set_brands category brands ((key, old) ∷ rest) =
    if key == category then (key, brands) ∷ rest else (key, old) ∷ set_brands category brands rest

unfoldable pub cleaned : Registry → Registry → Registry
unfolding clean normalize_category
cleaned [] kept = kept
cleaned ((category, brands) ∷ rest) kept =
    cleaned rest (set_brands (normalize_category category) (clean [] brands) kept)

-- `load_registry`: none stands for a file that is missing or is no dictionary
unfoldable pub load_registry : Option Registry → Registry
unfolding cleaned
load_registry none = cleaned seed_brands []
load_registry (some file) = cleaned file []

-- the brands that `brand_hint_block` lists
unfoldable pub hints : Str → Registry → List Str
unfolding clean normalize_category
hints category registry =
    take max_hints_per_category (clean [] (brands_of registry (normalize_category category)))
