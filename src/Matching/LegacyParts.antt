-- ===== src/Matching/LegacyParts.antt =====
-- src/matching/legacy_policy.py: parts that are too old for a new build.
use pc_builder.Shared.{
  ℕ, ◌+◌, Bool, true, false, not, ◌&&◌, ◌||◌, Option, none, some, List, [], ◌∷◌, map, ltb, leb,
  if◌then◌else◌, ◌==◌, nat_eq, option_eq, get_or, is_some, length, take, any, filter, Str, codes,
  str_eq, mem_str, is_empty, upper, lower, is_digit, strip, starts_with, has_substring, split_on,
  read_nat, least,
}
use pc_builder.Regex.{regex, any_case, search, match_start, sub_text, group_of}

-- CURRENT_SOCKETS
abbrev pub current_sockets : List Str
current_sockets =
    codes "LGA1200"
    ∷ codes "LGA1700"
    ∷ codes "LGA1851"
    ∷ codes "AM4"
    ∷ codes "AM5"
    ∷ codes "STR5"
    ∷ codes "SWRX8"
    ∷ codes "STRX4"
    ∷ codes "LGA4677"
    ∷ codes "SP5"
    ∷ codes "SP6"
    ∷ []

-- LEGACY_SOCKETS
abbrev pub legacy_sockets : List Str
legacy_sockets =
    codes "LGA775"
    ∷ codes "LGA1150"
    ∷ codes "LGA1151"
    ∷ codes "LGA1155"
    ∷ codes "LGA1156"
    ∷ codes "LGA1366"
    ∷ codes "LGA2011"
    ∷ codes "LGA2066"
    ∷ codes "2066"
    ∷ codes "AM3"
    ∷ codes "AM3+"
    ∷ codes "FM2"
    ∷ codes "FM2+"
    ∷ codes "TR4"
    ∷ codes "STR4"
    ∷ []

abbrev current_memory_types : List Str
current_memory_types = codes "DDR4" ∷ codes "DDR5" ∷ codes "DDR6" ∷ []

abbrev legacy_memory_types : List Str
legacy_memory_types =
    codes "DDR" ∷ codes "DDR2" ∷ codes "DDR3" ∷ codes "DDR3L" ∷ codes "LPDDR3" ∷ codes "SDRAM" ∷ []

abbrev min_intel_core_gen : ℕ
min_intel_core_gen = 10

abbrev min_amd_ryzen_gen : ℕ
min_amd_ryzen_gen = 3

abbrev pub text_of : Option Str → Str
text_of s = get_or s []

abbrev is_capital_or_digit : ℕ → Bool
is_capital_or_digit c = is_digit c || (leb b'A' c && leb c b'Z')

-- `_normalize_socket`, with re.sub(r"[^A-Z0-9]", "", …) as a filter
unfoldable pub normalize_socket : Option Str → Option Str
normalize_socket socket =
    if is_empty (text_of socket)
    then none
    else some (filter is_capital_or_digit (upper (text_of socket)))

abbrev leading_digits : Str → Str
leading_digits cleaned = elim (match_start (regex "(\\d+)") cleaned) [
  | none ↦ []
  | some m ↦ get_or (group_of 1 m) []
]

abbrev generation_of : Str → Option ℕ
generation_of digits =
    if leb 5 (length digits)
    then some (read_nat (take 2 digits))
    else if length digits == 4
    then some (read_nat (take 1 digits))
    else none

-- the model number without its "i5-" or, failing that, without leading letters
abbrev without_tier : Str → Str
without_tier text =
    let cleaned = sub_text (any_case "^i[3579][-\\s]*") [] text in
    if cleaned == text then sub_text (regex "^[a-zA-Z]+[-\\s]*") [] text else cleaned

unfoldable pub intel_core_generation : Option Str → Option ℕ
unfolding search match_start group_of sub_text
intel_core_generation model_number =
    let text = strip (text_of model_number) in
    if is_empty (text_of model_number)
    then none
    else elim (search (any_case "\\b(\\d{1,2})\\s*(?:st|nd|rd|th)\\s*gen\\b") text) [
      | some m ↦ some (read_nat (get_or (group_of 1 m) []))
      | none ↦ generation_of (leading_digits (without_tier text))
    ]

unfoldable pub amd_ryzen_generation : Option Str → Option ℕ
amd_ryzen_generation model_number =
    let first = take 1 (strip (text_of model_number)) in
    if any is_digit first then some (read_nat first) else none

abbrev is_before : ℕ → Option ℕ → Bool
is_before least none = false
is_before least (some gen) = ltb gen least

-- `a or b`
abbrev first_of : Option Str → Option Str → Option Str
first_of a b = if is_empty (text_of a) then b else a

abbrev names_any : Str → List Str → Bool
names_any text = any (has_substring text)

-- the fallback to the title, when the series is blank
unfoldable pub is_title_legacy : Option Str → Str → Bool
unfolding intel_core_generation amd_ryzen_generation
is_title_legacy model_number title =
    let t = lower (strip title) in
    if names_any t (codes "ryzen" ∷ codes "threadripper" ∷ [])
    then is_before min_amd_ryzen_gen (amd_ryzen_generation (first_of model_number (some title)))
    else if has_substring t (codes "core ultra")
    then false
    else if names_any t (codes "core i" ∷ codes "intel core" ∷ [])
    then is_before min_intel_core_gen (intel_core_generation (first_of model_number (some title)))
    else names_any t (codes "pentium" ∷ codes "celeron" ∷ codes "athlon" ∷ [])

unfoldable pub is_series_legacy : Str → Option Str → Bool
unfolding intel_core_generation amd_ryzen_generation match_start
is_series_legacy series model_number =
    if has_substring series (codes "core ultra")
    then false
    else if has_substring series (codes "core i")
        || is_some (match_start (regex "^i[3579]\\b") series)
    then is_before min_intel_core_gen (intel_core_generation model_number)
    else if names_any series (codes "threadripper" ∷ codes "ryzen" ∷ [])
    then is_before min_amd_ryzen_gen (amd_ryzen_generation model_number)
    else mem_str series (codes "pentium" ∷ codes "celeron" ∷ codes "athlon" ∷ [])

abbrev is_in : List Str → Option Str → Bool
is_in sockets none = false
is_in sockets (some s) = mem_str s sockets

unfoldable pub is_cpu_legacy : Option Str → Option Str → Option Str → Option Str → Bool
unfolding normalize_socket is_title_legacy is_series_legacy
is_cpu_legacy series model_number socket title =
    let series_text = lower (strip (text_of series)) in
    if is_in legacy_sockets (normalize_socket socket)
    then true
    else if is_empty series_text && not (is_empty (text_of title))
    then is_title_legacy model_number (text_of title)
    else is_series_legacy series_text model_number

unfoldable pub is_motherboard_legacy : Option Str → Bool
unfolding normalize_socket
is_motherboard_legacy socket = elim (normalize_socket socket) [
  | none ↦ false
  | some s ↦ mem_str s legacy_sockets || not (mem_str s current_sockets)
]

abbrev current_marks : List Str
current_marks =
    codes "1700"
    ∷ codes "1851"
    ∷ codes "1200"
    ∷ codes "AM4"
    ∷ codes "AM5"
    ∷ codes "TR5"
    ∷ codes "SP5"
    ∷ codes "SP6"
    ∷ codes "4677"
    ∷ codes "4189"
    ∷ []

abbrev legacy_marks : List Str
legacy_marks =
    codes "775"
    ∷ codes "115"
    ∷ codes "1150"
    ∷ codes "1155"
    ∷ codes "1156"
    ∷ codes "1366"
    ∷ codes "2011"
    ∷ codes "2066"
    ∷ codes "TR4"
    ∷ codes "TRX4"
    ∷ codes "TRX40"
    ∷ []

unfoldable pub is_current_token : Str → Bool
unfolding normalize_socket
is_current_token token =
    let norm = text_of (normalize_socket (some token)) in
    mem_str norm current_sockets || names_any norm current_marks

unfoldable pub is_retired_token : Str → Bool
unfolding normalize_socket
is_retired_token token =
    let norm = text_of (normalize_socket (some token)) in
    mem_str norm legacy_sockets || names_any norm legacy_marks

-- re.split(r"[,/;|]", s), stripped, without the empty parts
abbrev is_mark : ℕ → Bool
is_mark c = c == b',' || c == b'/' || c == b';' || c == b'|'

abbrev pub tokens_of : Str → List Str
tokens_of s =
    filter (λ t. not (is_empty t))
      (map strip (split_on b',' (map (λ c. if is_mark c then b',' else c) s)))

-- the loop over the tokens: it returns at a current one, and counts the retired ones
unfoldable pub all_retired : List Str → ℕ → ℕ → Bool
unfolding is_current_token is_retired_token
all_retired [] recognized total = ltb 0 recognized && recognized == total
all_retired (t ∷ ts) recognized total =
    if is_current_token t
    then false
    else all_retired ts (if is_retired_token t then recognized + 1 else recognized) total

unfoldable pub is_cooler_legacy : Option Str → Bool
unfolding all_retired
is_cooler_legacy supported_sockets =
    let tokens = tokens_of (text_of supported_sockets) in all_retired tokens 0 (length tokens)

unfoldable pub is_ram_legacy : Option Str → Bool
is_ram_legacy memory_type =
    let norm = upper (strip (text_of memory_type)) in
    if is_empty (text_of memory_type)
    then false
    else mem_str norm legacy_memory_types
      || (not (mem_str norm current_memory_types) && starts_with norm (codes "DDR"))
