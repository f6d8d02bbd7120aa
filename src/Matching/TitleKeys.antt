-- ===== src/Matching/TitleKeys.antt =====
-- `build_canonical_key` of src/matching/canonical_key_builder.py: the key of a listing from its title
-- alone.
use pc_builder.Shared.{
  ℕ, Bool, ◌||◌, Option, none, some, List, [], ◌∷◌, ◌++◌, leb, if◌then◌else◌, nat_eq, option_eq,
  get_or, length, take, any, find, Str, codes, str_eq, upper, lower, strip, starts_with,
  has_substring, replace, join,
}
use pc_builder.Regex.{Regex, regex, Match, search, sub, sub_text, group_of}
use pc_builder.Matching.Words.{words, title_case}
use pc_builder.Matching.Keys.{KeyFields}

abbrev known_brands : List Str
known_brands =
    codes "ant esports"
    ∷ codes "cooler master"
    ∷ codes "western digital"
    ∷ codes "deepcool"
    ∷ codes "thermalright"
    ∷ codes "lii auto"
    ∷ codes "g.skill"
    ∷ codes "gskill"
    ∷ codes "kingston"
    ∷ codes "corsair"
    ∷ codes "crucial"
    ∷ codes "adata"
    ∷ codes "samsung"
    ∷ codes "kioxia"
    ∷ codes "teamgroup"
    ∷ codes "montech"
    ∷ codes "arctic"
    ∷ codes "noctua"
    ∷ codes "be quiet!"
    ∷ codes "inno3d"
    ∷ codes "zotac"
    ∷ codes "gigabyte"
    ∷ codes "asus"
    ∷ codes "msi"
    ∷ codes "galax"
    ∷ codes "sapphire"
    ∷ codes "powercolor"
    ∷ codes "xfx"
    ∷ codes "asrock"
    ∷ codes "amd"
    ∷ codes "intel"
    ∷ codes "lenovo"
    ∷ codes "tps"
    ∷ codes "nzxt"
    ∷ codes "silverstone"
    ∷ []

abbrev as_brand : Str → Str
as_brand brand = if leb (length brand) 4 then upper brand else title_case brand

abbrev first_word : Str → Str
first_word title = elim (words title) [ [] ↦ codes "Unknown" | (w ∷ ws) ↦ title_case w ]

unfoldable pub extract_brand : Str → Str
extract_brand title =
    let t = lower title in
    if has_substring t (codes "ryzen") || has_substring t (codes "threadripper")
    then codes "AMD"
    else if has_substring t (codes "intel")
        || has_substring t (codes "core i")
        || has_substring t (codes "xeon")
    then codes "Intel"
    else elim (find (has_substring t) known_brands) [
      | some brand ↦ as_brand brand
      | none ↦ first_word title
    ]

abbrev pub text_in : ℕ → Match → Str
text_in n m = get_or (group_of n m) []

-- the replacements of a title, one after another
unfoldable pub clean_cpu_title : Str → Str
unfolding sub group_of
clean_cpu_title t =
    let t₁ =
      sub (regex "core\\s+(\\d{1,2}(st|nd|rd|th))\\s+gen\\s+(i[3579])")
        (λ m. codes "core " ++ text_in 3 m) t in
    let t₂ =
      sub (regex "core\\s+ultra\\s+([3579])\\s*[\\-_\\s]+\\s*(processor\\s+)?(\\d{3}[a-z]*)")
        (λ m. codes "core ultra " ++ text_in 1 m ++ codes " " ++ text_in 3 m) t₁ in
    let t₃ =
      sub (regex "core\\s+i\\s*([3579])\\s*[\\-_\\s]+\\s*(processor\\s+)?(\\d{4,5}[a-z]*)")
        (λ m. codes "core i" ++ text_in 1 m ++ codes "-" ++ text_in 3 m) t₂ in
    let t₄ =
      sub (regex "ryzen\\s*(\\d)\\s*[\\-_\\s]+\\s*(processor\\s+)?(\\d{4}[a-z0-9]*)")
        (λ m. codes "ryzen " ++ text_in 1 m ++ codes " " ++ text_in 3 m) t₃ in
    sub (regex "(\\d{4}[a-z0-9]*)\\s*ryzen\\s*(\\d)")
      (λ m. codes "ryzen " ++ text_in 2 m ++ codes " " ++ text_in 1 m) t₄

abbrev starts_any : Str → List Str → Bool
starts_any s prefixes = any (starts_with s) prefixes

-- a bare number with its family
unfoldable pub with_family : Str → Str
with_family num =
    if starts_any num (
      codes "12400"
      ∷ codes "13400"
      ∷ codes "14400"
      ∷ codes "12600"
      ∷ codes "13600"
      ∷ codes "14600"
      ∷ codes "10400"
      ∷ codes "11400"
      ∷ [])
    then codes "core i5-" ++ num
    else if starts_any num
        (codes "12700" ∷ codes "13700" ∷ codes "14700" ∷ codes "10700" ∷ codes "11700" ∷ [])
    then codes "core i7-" ++ num
    else if starts_any num
        (codes "12900" ∷ codes "13900" ∷ codes "14900" ∷ codes "10900" ∷ codes "11900" ∷ [])
    then codes "core i9-" ++ num
    else if starts_any num (codes "12100" ∷ codes "13100" ∷ codes "14100" ∷ codes "10100" ∷ [])
    then codes "core i3-" ++ num
    else num

abbrev cpu_model : Regex
cpu_model =
    regex
      "(core\\s+ultra\\s+[3579]\\s+\\d{3}[a-z]*|ryzen\\s+threadripper\\s+(pro\\s+)?\\d{4}[a-z]*|ryzen\\s+[3579]\\s+\\d{4}[a-z0-9]*|core\\s+i[3579]-\\d{4,5}[a-z]*|athlon\\s+3000g|pentium\\s+[a-z0-9]+)"

unfoldable pub cpu_model_number : Str → Str
unfolding search with_family
cpu_model_number t = strip (elim (search cpu_model t) [
  | some m ↦ m.whole
  | none ↦ elim (search (regex "\\b(1\\d{4}|[3579]\\d{3})[a-z]{0,2}\\b") t) [
    | some m ↦ with_family m.whole
    | none ↦ t
  ]
])

-- the whole match, or a default
abbrev pub whole_or : Option Match → Str → Str
whole_or none other = other
whole_or (some m) other = m.whole

abbrev second_word : Str → Str
second_word title = elim (words title) [
  | [] ↦ title
  | (w ∷ ws) ↦ elim ws [ [] ↦ title | (v ∷ vs) ↦ v ]
]

abbrev pub without_spaces : Str → Str
without_spaces s = replace (codes " ") [] s

unfoldable pub psu_fields : Str → KeyFields
unfolding search group_of
psu_fields title =
    let t = lower title in
    (
      codes "model_number",
      strip (
          whole_or
            (search
              (regex
                "(cx\\d{3}m?|cv\\d{3}|rm\\d{3}[x|e]?|pylon\\s*\\d{3}|vs\\d{3}l?|mwe\\s*\\d{3}|toughpower\\s*\\d{3})")
              t)
            (second_word title)),
    )
    ∷ (
      codes "wattage",
      elim (search (regex "(\\d{3,4})\\s*w(att)?") t) [
        | some m ↦ text_in 1 m ++ codes "W"
        | none ↦ codes "Unknown"
      ],
    )
    ∷ []

unfoldable pub cooler_fields : Str → KeyFields
unfolding sub_text
cooler_fields title =
    let clean = strip (
      sub_text (regex "(cpu air cooler|liquid cooler|argb|rgb|mid tower cabinet|atx|matx)") []
        (lower title)) in
    (codes "model_number", join (codes " ") (take 4 (words clean))) ∷ []

abbrev interface_of : Str → Str
interface_of t =
    if has_substring t (codes "nvme")
      || has_substring t (codes "pcie")
      || has_substring t (codes "m.2")
    then if has_substring t (codes "gen5") || has_substring t (codes "pcie 5")
      then codes "nvme_gen5"
      else if has_substring t (codes "gen4") || has_substring t (codes "pcie 4")
      then codes "nvme_gen4"
      else codes "nvme"
    else if has_substring t (codes "hdd") || has_substring t (codes "hard drive")
    then codes "hdd_sata"
    else codes "sata"

abbrev first_group_or : Option Match → Str → Str
first_group_or none other = other
first_group_or (some m) other = text_in 1 m

unfoldable pub storage_fields : Str → KeyFields
unfolding search group_of
storage_fields title =
    let t = lower title in
    (
      codes "series",
      whole_or
          (search
            (regex
              "(990\\s*pro|980\\s*pro|990\\s*evo|legend\\s*\\d+|exceria\\s*\\w+|sn850x|sn770|p3\\s*plus)")
            t)
          (codes "generic"),
    )
    ∷ (
      codes "capacity",
      elim (search (regex "(\\d+(\\.\\d+)?\\s*(tb|gb))") t) [
        | some m ↦ without_spaces (text_in 1 m)
        | none ↦ codes "Unknown"
      ],
    )
    ∷ (codes "interface", interface_of t)
    ∷ []
