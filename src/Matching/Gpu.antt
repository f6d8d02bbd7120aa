-- ===== src/Matching/Gpu.antt =====
-- src/matching/gpu_identity.py: which listings are the same graphics card.
use pc_builder.Shared.{
  ℕ, Bool, ◌||◌, Option, none, some, List, [], ◌∷◌, ◌++◌, map, if◌then◌else◌, ◌==◌, nat_eq,
  option_eq, get_or, is_some, any, find, Str, codes, str_eq, mem_str, is_empty, upper, lower, strip,
  replace, join, read_nat, show_nat,
}
use pc_builder.Regex.{
  Regex, regex, any_case, any_case_of, Match, search, match_start, is_found, find_all, sub,
  sub_text, group_of,
}
use pc_builder.Matching.Words.{words, or_else}
use pc_builder.Matching.Keys.{KeyFields, make_canonical_key_string}

-- _MEMORY_SIZES
abbrev pub memory_sizes : List ℕ
memory_sizes = 1 ∷ 2 ∷ 3 ∷ 4 ∷ 6 ∷ 8 ∷ 10 ∷ 11 ∷ 12 ∷ 16 ∷ 20 ∷ 24 ∷ 32 ∷ 48 ∷ 64 ∷ 80 ∷ 96 ∷ []

-- _MEMORY_GB and _MEMORY_G
abbrev memory_gb : Regex
memory_gb = any_case "(?<![\\d.])(\\d{1,2})\\s?GB\\b"

abbrev memory_g : Regex
memory_g = any_case "(?<![\\w.])(?<!\\d{5}-\\d{2}-)O?(\\d{1,2})G\\b"

abbrev pub is_memory_size : ℕ → Bool
is_memory_size gb = any (λ n. n == gb) memory_sizes

abbrev pub first_number : Match → ℕ
first_number m = read_nat (get_or (group_of 1 m) [])

unfoldable pub memory_gb_from_title : Option Str → Option ℕ
unfolding find_all group_of
memory_gb_from_title title =
    find is_memory_size (
      map first_number
        (find_all memory_gb (get_or title []) ++ find_all memory_g (get_or title [])))

-- _CHIPSET_PREFIXES
abbrev chipset_prefixes : List Str
chipset_prefixes =
    codes "INTEL"
    ∷ codes "AMD"
    ∷ codes "NVIDIA"
    ∷ codes "GEFORCE"
    ∷ codes "RADEON"
    ∷ codes "QUADRO"
    ∷ []

abbrev behind_prefixes : List Str → List Str
behind_prefixes [] = []
behind_prefixes (w ∷ ws) = if mem_str w chipset_prefixes then behind_prefixes ws else w ∷ ws

-- " ".join(text.split())
abbrev single_spaced : Str → Str
single_spaced text = join (codes " ") (words text)

unfoldable pub normalize_chipset : Option Str → Str
unfolding sub group_of
normalize_chipset chipset =
    let text = join (codes " ") (
      behind_prefixes
        (words (replace (codes "GENERATION") (codes " ") (upper (get_or chipset []))))) in
    single_spaced (
      sub (regex "(\\d)(XTX|XT|TI|GRE|SUPER)\\b")
        (λ m. get_or (group_of 1 m) [] ++ codes " " ++ get_or (group_of 2 m) []) text)

-- _WORKSTATION and _R9700
abbrev workstation : Regex
workstation = any_case "\\bPRO\\s*W(\\d{4})\\b"

abbrev r9700 : Regex
r9700 = any_case "\\bR9700\\b"

-- the chip number `n` in a title, with what stands before and behind it
abbrev said_chip : Str → Regex
said_chip n = any_case_of (
    codes "\\b(GTX|GT|RTX|RX)?[\\s-]*(?<!\\d)"
    ++ n
    ++ codes "(?:\\s*(TI\\s*SUPER|XTX|XT|TI|SUPER|GRE))?(?![\\dA-Z])")

abbrev chip_suffixes : List Str
chip_suffixes =
    [] ∷ codes "XT" ∷ codes "XTX" ∷ codes "TI" ∷ codes "SUPER" ∷ codes "GRE" ∷ codes "TI SUPER" ∷ []

abbrev said_prefix : Str → Option Str → Str
said_prefix prefix none = prefix
said_prefix prefix (some said) =
    if strip prefix == codes "GT" || strip prefix == codes "GTX"
    then upper said ++ codes " "
    else prefix

abbrev said_suffix : Str → Option Str → Str
said_suffix rest none = rest
said_suffix rest (some said) =
    if mem_str rest chip_suffixes then single_spaced (upper said) else rest

unfoldable pub with_number : Str → Str → Match → Str
unfolding search group_of
with_number chipset title num =
    let n = get_or (group_of 1 num) [] in
    elim (search (said_chip n) title) [
      | none ↦ chipset
      | some hit ↦ single_spaced (
          said_prefix num.start (group_of 1 hit)
          ++ n
          ++ codes " "
          ++ said_suffix (strip num.end) (group_of 2 hit))
    ]

unfoldable pub chipset_from_title : Str → Option Str → Str
unfolding search is_found group_of with_number
chipset_from_title chipset title = elim (search workstation (get_or title [])) [
  | some m ↦ codes "PRO W" ++ get_or (group_of 1 m) []
  | none ↦
      if is_found r9700 (get_or title [])
      then codes "R9700"
      else elim (search (regex "(?<!\\d)(\\d{3,4})(?!\\d)") chipset) [
        | none ↦ chipset
        | some num ↦ with_number chipset (get_or title []) num
      ]
]

-- _NOISE_WORDS
abbrev noise_words : List Str
noise_words =
    codes "edition"
    ∷ codes "graphics"
    ∷ codes "graphic"
    ∷ codes "card"
    ∷ codes "gpu"
    ∷ codes "gddr6"
    ∷ codes "gddr6x"
    ∷ codes "gddr7"
    ∷ codes "amd"
    ∷ codes "radeon"
    ∷ codes "nvidia"
    ∷ codes "geforce"
    ∷ []

-- _BRAND_NOISE
abbrev brand_noise : Str → List Str
brand_noise brand = if brand == codes "sapphire" then codes "gaming" ∷ codes "oc" ∷ [] else []

abbrev is_noise : Str → Str → Bool
is_noise brand word = mem_str word noise_words || mem_str word (brand_noise brand)

-- _MEMORY_TOKEN
abbrev memory_token : Regex
memory_token = regex "^o?\\d{1,2}g(b)?$"

abbrev as_oc : Str → Str
as_oc word = if word == codes "overclocked" then codes "oc" else word

-- the words that are kept, in order
unfoldable pub kept_words : Str → List Str → List Str → List Str
unfolding match_start
kept_words brand out [] = out
kept_words brand out (w ∷ ws) =
    let word = as_oc w in
    if is_empty word
      || is_noise brand word
      || is_some (match_start memory_token word)
      || mem_str word out
    then kept_words brand out ws
    else kept_words brand (out ++ word ∷ []) ws

-- re.split(r"[\s_]+", text); empty words are dropped
abbrev split_words : Str → List Str
split_words text = words (replace (codes "_") (codes " ") text)

unfoldable pub normalize_variant : Option Str → Option Str → Str
unfolding sub_text kept_words
normalize_variant brand variant =
    let text =
      sub_text (regex "[()]") (codes " ")
        (replace (codes "+") (codes " plus ") (lower (get_or variant []))) in
    join (codes " ") (kept_words (lower (strip (get_or brand []))) [] (split_words text))

abbrev memory_field : Option ℕ → KeyFields
memory_field none = []
memory_field (some gb) = (codes "memory", show_nat gb ++ codes "gb") ∷ []

unfoldable pub gpu_key_fields : Option Str → Option Str → Option Str → Option Str → KeyFields
unfolding normalize_chipset chipset_from_title normalize_variant memory_gb_from_title show_nat
gpu_key_fields brand chipset variant title =
    ((codes "category", codes "gpu")
      ∷ (codes "aib_brand", or_else brand (codes "Unknown"))
      ∷ (codes "chipset", chipset_from_title (normalize_chipset chipset) title)
      ∷ (codes "variant_model", normalize_variant brand variant)
      ∷ [])
    ++ memory_field (memory_gb_from_title title)

unfoldable pub gpu_key : Option Str → Option Str → Option Str → Option Str → Str
unfolding gpu_key_fields make_canonical_key_string
gpu_key brand chipset variant title =
    make_canonical_key_string (codes "gpu") (gpu_key_fields brand chipset variant title)
