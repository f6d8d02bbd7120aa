-- ===== src/Matching/Clearance.antt =====
-- src/matching/cabinet_clearance.py: what is read off a retailer's page about a cabinet.
pub mod Votes
pub mod RoundTrip
use pc_builder.Shared.{
  ℕ, ◌+◌, ◌-◌, ◌*◌, min, max, Bool, true, false, not, ◌&&◌, Option, none, some, List, [], ◌∷◌, ◌++◌,
  map, ltb, leb, if◌then◌else◌, ◌==◌, nat_eq, option_eq, get_or, length, take, drop, any, all,
  filter, Str, codes, str_eq, is_empty, lower, is_digit, strip, has_substring, split_on, join,
  read_nat, show_nat,
}
use pc_builder.Regex.{Regex, regex, any_case, regex_of, Match, is_found, find_all, sub_text}

abbrev pub clearance_terms : Regex
clearance_terms =
    any_case
      "\\b(?:GPU|VGA|graphics\\s*card|video\\s*card|CPU\\s*cooler|cooler\\s*height|CPU\\s*heat\\s*sink|heatsink)\\b"

abbrev pub cooler_height_terms : Regex
cooler_height_terms = any_case "\\b(?:height|dimensions?)\\b"

abbrev pub radiator_terms : Regex
radiator_terms = any_case "\\b(?:radiators?|AIO|liquid\\s*cool\\w*|water\\s*cool\\w*)\\b"

-- A window of the text, from a place up to another.
abbrev pub Span : Type 0
Span = ℕ × ℕ

-- the window round a match
abbrev window : ℕ → ℕ → Match → Span
window radius size m =
    let start = length m.start in (start - radius, min size (start + length m.whole + radius))

-- The windows, the last first: one that begins inside the last is merged with it.
unfoldable pub merge_spans : List Span → List Span → List Span
merge_spans spans [] = spans
merge_spans [] (w ∷ ws) = merge_spans (w ∷ []) ws
merge_spans ((s, e) ∷ spans) (w ∷ ws) =
    if leb w.0 e
    then merge_spans ((s, max e w.1) ∷ spans) ws
    else merge_spans (w ∷ (s, e) ∷ spans) ws

abbrev cut : Str → Span → Str
cut text (s, e) = strip (take (e - s) (drop s text))

abbrev in_order : List Span → List Span → List Span
in_order [] done = done
in_order (s ∷ ss) done = in_order ss (s ∷ done)

unfoldable pub snippets_for_llm : Str → ℕ → ℕ → Regex → Str
unfolding find_all merge_spans
snippets_for_llm text radius max_chars terms =
    let spans = merge_spans [] (map (window radius (length text)) (find_all terms text)) in
    take max_chars (join (codes " ... ") (map (cut text) (in_order spans [])))

-- `_norm`
unfoldable pub norm : Option Str → Str
unfolding sub_text
norm s = lower (strip (sub_text (regex "\\s+") (codes " ") (get_or s [])))

-- the value as a number of its own in the quote
abbrev names_value : ℕ → Str → Bool
names_value value q = is_found (regex_of (codes "(?<!\\d)" ++ show_nat value ++ codes "(?!\\d)")) q

-- `is_grounded`; a value that is not a natural number is none
unfoldable pub is_grounded : Option ℕ → Option Str → Str → ℕ × ℕ → Bool
unfolding norm is_found show_nat
is_grounded none quote page_text valid_range = false
is_grounded (some value) quote page_text (lo, hi) =
    let q = norm quote in
    leb lo value
    && leb value hi
    && leb 6 (length q)
    && has_substring (norm (some page_text)) q
    && names_value value q

abbrev pub radiator_sizes_mm : List ℕ
radiator_sizes_mm = 120 ∷ 140 ∷ 240 ∷ 280 ∷ 360 ∷ 420 ∷ 480 ∷ []

abbrev pub is_radiator_size : ℕ → Bool
is_radiator_size s = any (λ r. r == s) radiator_sizes_mm

-- A set of numbers, as its sorted list.
abbrev pub add_number : ℕ → List ℕ → List ℕ
add_number n [] = n ∷ []
add_number n (m ∷ ms) =
    if ltb n m then n ∷ m ∷ ms else if n == m then m ∷ ms else m ∷ add_number n ms

unfoldable pub set_of : List ℕ → List ℕ
set_of [] = []
set_of (n ∷ ns) = add_number n (set_of ns)

unfoldable pub valid_sizes : List ℕ → List ℕ
unfolding set_of
valid_sizes sizes = set_of (filter is_radiator_size sizes)

unfoldable pub format_radiator_sizes : List ℕ → Option Str
unfolding valid_sizes show_nat
format_radiator_sizes sizes = elim (valid_sizes sizes) [
  | [] ↦ none
  | (n ∷ ns) ↦ some (join (codes ",") (map show_nat (n ∷ ns)))
]

-- `str.isdigit` over ASCII
abbrev pub is_number : Str → Bool
is_number p = not (is_empty p) && all is_digit p

unfoldable pub numbers_in : List Str → List ℕ
numbers_in [] = []
numbers_in (p ∷ ps) =
    if is_number (strip p) then read_nat (strip p) ∷ numbers_in ps else numbers_in ps

unfoldable pub parse_radiator_sizes : Option Str → List ℕ
unfolding set_of numbers_in
parse_radiator_sizes value = set_of (numbers_in (split_on b',' (get_or value [])))

unfoldable pub is_radiator_conditional : Option Str → Bool
unfolding is_found
is_radiator_conditional quote =
    is_found (any_case "radiator") (get_or quote [])
    && not (
        is_found (any_case "\\bwithout\\b|\\bw/o\\b|\\bw/out\\b|\\bno\\s+radiator\\b")
          (get_or quote []))

abbrev pub smallest : ℕ → List ℕ → ℕ
smallest n [] = n
smallest n (m ∷ ms) = smallest (min n m) ms

abbrev pub largest : ℕ → List ℕ → ℕ
largest n [] = n
largest n (m ∷ ms) = largest (max n m) ms

-- `resolve_votes`: the value, and whether the pages are in conflict. A smallest value of 0, by which
-- the code divides, raises. AGREEMENT_TOLERANCE is a tenth, here without a division.
unfoldable pub resolve_votes : List ℕ → Option (Option ℕ × Bool)
resolve_votes [] = some (none, false)
resolve_votes (n ∷ ns) =
    let lo = smallest n ns in
    let hi = largest n ns in
    if lo == 0
    then none
    else if ltb lo (10 * (hi - lo))
    then some (none, true)
    else some (some lo, false)
