-- ===== src/SpecValues/Normalizers.antt =====
-- The functions of src/matching/spec_value_normalizer.py, for values that are texts: any other value
-- is given back as it is. Patterns that ignore case do so in ASCII.
use pc_builder.Shared.{
  ℕ, zero, suc, ◌+◌, ◌-◌, Bool, true, false, not, ◌&&◌, ◌||◌, Option, none, some, List, [], ◌∷◌,
  ◌++◌, map, ltb, leb, nat_beq, if◌then◌else◌, ◌==◌, nat_eq, option_eq, get_or, length, take, drop,
  filter, Str, codes, str_beq, str_eq, mem_str, is_empty, upper, lower, is_space, is_digit, strip,
  starts_with, replace, lookup,
}
use pc_builder.SpecValues.Tables.{
  brand_canonical, gpu_fixes, resolution_canonical, panel_canonical, efficiency_canonical,
  interface_canonical, modularity_canonical, not_chipsets, valid_gpu_memory, placeholders,
}

abbrev is_upper : ℕ → Bool
is_upper c = leb b'A' c && leb c b'Z'

abbrev is_lower : ℕ → Bool
is_lower c = leb b'a' c && leb c b'z'

-- re.sub(r"[^A-Z0-9]", "", s.upper())
abbrev pub upper_key : Str → Str
upper_key s = filter (λ c. is_upper c || is_digit c) (upper s)

-- re.sub(r"[^a-z0-9]", "", s.lower())
abbrev lower_key : Str → Str
lower_key s = filter (λ c. is_lower c || is_digit c) (lower s)

-- s.strip().upper().replace(" ", "")
abbrev packed : Str → Str
packed s = filter (λ c. not (nat_beq c b' ')) (upper (strip s))

abbrev says_nothing : Str → Bool
says_nothing s = mem_str s (codes "UNKNOWN" ∷ codes "NA" ∷ codes "NONE" ∷ [])

unfoldable pub normalize_brand : Str → Option Str
normalize_brand value =
    let key = lower_key (strip value) in
    if is_empty key
      || mem_str key
          (codes "unknown" ∷ codes "na" ∷ codes "none" ∷ codes "generic" ∷ codes "brand" ∷ [])
    then none
    else some (get_or (lookup key brand_canonical) (strip value))

unfoldable pub normalize_socket : Str → Option Str
normalize_socket value =
    let text = packed value in
    if is_empty text || says_nothing text
    then none
    else if starts_with text (codes "LGA")
    then some (codes "LGA" ++ drop 3 text)
    else some (strip value)

-- how many characters a text starts with that pass a test
abbrev count_while : (ℕ → Bool) → Str → ℕ
count_while p [] = 0
count_while p (c ∷ s) = if p c then suc (count_while p s) else 0

-- `^([A-Z]{1,2}\d{3,4})[MI]$`
abbrev form_suffix : Str → Bool
form_suffix s =
    let letters = count_while is_upper s in
    let digits = count_while is_digit (drop letters s) in
    let rest = drop (letters + digits) s in
    leb 1 letters
    && leb letters 2
    && leb 3 digits
    && leb digits 4
    && (str_beq rest (codes "M") || str_beq rest (codes "I"))

unfoldable pub normalize_chipset : Str → Option Str
normalize_chipset value =
    let text = packed value in
    let dashed = replace (8722 ∷ []) (codes "-") text in
    if is_empty text || says_nothing text || mem_str text not_chipsets
    then none
    else some (if form_suffix dashed then take (length dashed - 1) dashed else dashed)

abbrev is_word : ℕ → Bool
is_word c = is_upper c || is_lower c || is_digit c || nat_beq c b'_'

abbrev ends_word : Str → Bool
ends_word [] = true
ends_word (c ∷ s) = not (is_word c)

-- the length of the first suffix in the list that stands here as the end of a word
abbrev suffix_at : List Str → Str → ℕ
suffix_at [] s = 0
suffix_at (x ∷ xs) s =
    if starts_with (upper s) x && ends_word (drop (length x) s) then length x else suffix_at xs s

-- re.sub(r"(\d)(XTX|XT|GRE|TI)\b", r"\1 \2", text, flags=re.I), `keep` characters being copied
abbrev space_suffix : ℕ → Str → Str
space_suffix keep [] = []
space_suffix (suc keep) (c ∷ s) = c ∷ space_suffix keep s
space_suffix zero (c ∷ s) =
    let n = suffix_at (codes "XTX" ∷ codes "XT" ∷ codes "GRE" ∷ codes "TI" ∷ []) s in
    elim (is_digit c && ltb 0 n) [
      | true ↦ c ∷ b' ' ∷ space_suffix n s
      | false ↦ c ∷ space_suffix 0 s
    ]

-- re.sub(r"\s+", " ", text); `after` behind white space
abbrev one_space : Bool → Str → Str
one_space after [] = []
one_space after (c ∷ s) = elim (is_space c) [
  | true ↦ if after then one_space true s else b' ' ∷ one_space true s
  | false ↦ c ∷ one_space false s
]

unfoldable pub normalize_gpu_chipset : Str → Option Str
normalize_gpu_chipset value =
    let text = strip value in
    if is_empty text || says_nothing (upper text)
    then none
    else elim (lookup (upper_key text) gpu_fixes) [
      | some fixed ↦ some fixed
      | none ↦ some (strip (one_space false (space_suffix 0 text)))
    ]

unfoldable pub normalize_gpu_memory_type : Str → Option Str
normalize_gpu_memory_type value =
    let text = packed value in if mem_str text valid_gpu_memory then some text else none

-- re.sub(r"[^\x20-\x7e]", "x", value).strip()
abbrev printable : Str → Str
printable value = strip (map (λ c. if leb 32 c && leb c 126 then c else b'x') value)

-- re.sub(r"XX+", "X", key); `after` behind an X
abbrev one_x : Bool → Str → Str
one_x after [] = []
one_x after (c ∷ s) = elim (nat_beq c b'X') [
  | true ↦ if after then one_x true s else b'X' ∷ one_x true s
  | false ↦ c ∷ one_x false s
]

abbrev resolution_key : Str → Str
resolution_key text = one_x false (
    map (λ c. if nat_beq c b'*' then b'X' else c)
      (filter (λ c. not (is_space c || nat_beq c b'_')) (upper text)))

unfoldable pub normalize_resolution : Str → Option Str
normalize_resolution value =
    let text = printable value in
    if is_empty value then none else elim (lookup (resolution_key text) resolution_canonical) [
      | some label ↦ some label
      | none ↦ if leb (length text) 12 then some text else none
    ]

unfoldable pub normalize_panel_type : Str → Option Str
normalize_panel_type value = lookup (upper_key value) panel_canonical

-- re.sub(r"[\s_-]", "", value.upper())
abbrev pub efficiency_key : Str → Str
efficiency_key value =
    filter (λ c. not (is_space c || nat_beq c b'_' || nat_beq c b'-')) (upper value)

unfoldable pub normalize_efficiency : Str → Option Str
normalize_efficiency value = lookup (efficiency_key value) efficiency_canonical

unfoldable pub normalize_interface : Str → Option Str
normalize_interface value = lookup (upper_key value) interface_canonical

-- re.sub(r"[^A-Z]", "", value.upper())
abbrev pub modularity_key : Str → Str
modularity_key value = filter is_upper (upper value)

unfoldable pub normalize_modularity : Str → Option Str
normalize_modularity value = lookup (modularity_key value) modularity_canonical

-- `_is_placeholder`
unfoldable pub is_placeholder : Str → Bool
is_placeholder text =
    mem_str (filter (λ c. is_lower c || is_digit c || nat_beq c b'/') (lower text)) placeholders

-- NORMALIZERS
unfoldable pub normalizer_of : Str → Option (Str → Option Str)
unfolding normalize_brand normalize_socket normalize_chipset normalize_resolution
    normalize_panel_type normalize_efficiency normalize_interface normalize_modularity
normalizer_of column = lookup column (
    (codes "brand", normalize_brand)
    ∷ (codes "socket", normalize_socket)
    ∷ (codes "chipset", normalize_chipset)
    ∷ (codes "resolution", normalize_resolution)
    ∷ (codes "panel_type", normalize_panel_type)
    ∷ (codes "efficiency_rating", normalize_efficiency)
    ∷ (codes "interface", normalize_interface)
    ∷ (codes "modularity", normalize_modularity)
    ∷ [])

-- CATEGORY_NORMALIZERS.get(category or "", {}).get(column)
unfoldable pub category_normalizer : Option Str → Str → Option (Str → Option Str)
unfolding normalize_gpu_chipset normalize_gpu_memory_type
category_normalizer category column =
    if get_or category [] == codes "GPU"
    then lookup column (
        (codes "chipset", normalize_gpu_chipset)
        ∷ (codes "memory_type", normalize_gpu_memory_type)
        ∷ [])
    else none

abbrev pass_through : Str → Option Str
pass_through value = if is_empty (strip value) then none else some (strip value)

abbrev pub run : Option (Str → Option Str) → Option (Str → Option Str) → Str → Option Str
run (some f) g value = f value
run none (some g) value = g value
run none none value = pass_through value

unfoldable pub normalize_spec_value : Str → Str → Option Str → Option Str
unfolding is_placeholder normalizer_of category_normalizer
normalize_spec_value column value category =
    if is_placeholder value
    then none
    else run (category_normalizer category column) (normalizer_of column) value
