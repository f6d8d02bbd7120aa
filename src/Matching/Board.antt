-- ===== src/Matching/Board.antt =====
-- src/matching/canonical_key_builder.py and src/matching/motherboard_identity.py: the designation and
-- the form factor of a motherboard.
pub mod Votes
pub mod Settled
use pc_builder.Shared.{
  ℕ, ◌+◌, Bool, true, false, not, ◌&&◌, Option, none, some, List, [], ◌∷◌, ◌++◌, map, ltb,
  if◌then◌else◌, ◌==◌, nat_eq, option_eq, get_or, is_none, is_some, length, filter, Str, codes,
  str_eq, mem_str, is_empty, upper, strip,
}
use pc_builder.Regex.{
  Regex, regex, any_case, any_case_of, Match, match_start, is_found, find_all, group_of,
}
use pc_builder.Matching.Words.{or_else}
use pc_builder.Matching.Keys.{KeyFields}

-- the most specific of the matches and the chipset
abbrev longest : Str → List Match → Str
longest best [] = best
longest best (m ∷ ms) =
    longest (if ltb (length best) (length m.whole) then upper m.whole else best) ms

unfoldable pub resolve_board_designation : Option Str → Option Str → Str
unfolding match_start group_of find_all
resolve_board_designation chipset title =
    let cs = upper (strip (get_or chipset [])) in
    if is_empty (get_or chipset []) then [] else elim (match_start (regex "^([A-Z]+\\d+)") cs) [
      | none ↦ cs
      | some m ↦
          let stem = get_or (group_of 1 m) [] in
          longest cs
            (find_all (any_case_of (codes "\\b" ++ stem ++ codes "([EIM])?\\b")) (get_or title []))
    ]

abbrev variant : Option Str → Option Str → Option Str
variant stem_suffix dash_suffix =
    if stem_suffix == some (codes "M")
    then some (codes "MATX")
    else if stem_suffix == some (codes "I")
    then some (codes "ITX")
    else if dash_suffix == some (codes "I")
    then some (codes "ITX")
    else none

unfoldable pub form_factor_from_designation : Option Str → Option Str
unfolding match_start group_of
form_factor_from_designation designation =
    if is_empty (get_or designation [])
    then none
    else elim (match_start (regex "^[A-Z]+\\d+([EIM])?(?:-([A-Z]{1,2}))?$")
        (upper (strip (get_or designation [])))) [
          | none ↦ none
          | some m ↦ variant (group_of 1 m) (group_of 2 m)
        ]

-- _FORM_FACTOR_PATTERNS
abbrev pub form_factor_patterns : List (Str × Regex)
form_factor_patterns =
    (codes "EATX", any_case "\\b(?:e\\s*-?\\s*atx|extended\\s+atx)\\b")
    ∷ (codes "MATX", any_case "\\b(?:m\\s*-?\\s*atx|micro\\s*-?\\s*atx|matx|uatx)\\b")
    ∷ (codes "ITX", any_case "\\b(?:mini\\s*-?\\s*itx|m\\s*-?\\s*itx|itx)\\b")
    ∷ (codes "ATX", any_case "\\b(?:full\\s*-?\\s*atx|atx)\\b")
    ∷ []

abbrev pub first_label : List (Str × Regex) → Str → Option Str
first_label [] title = none
first_label ((label, pattern) ∷ ps) title =
    if is_found pattern title then some label else first_label ps title

unfoldable pub form_factor_from_title : Option Str → Option Str
unfolding is_found
form_factor_from_title title = first_label form_factor_patterns (get_or title [])

unfoldable pub resolve_motherboard_form_factor : Option Str → Option Str → Option Str
unfolding form_factor_from_designation form_factor_from_title
resolve_motherboard_form_factor designation title =
    elim (form_factor_from_designation designation) [
      | some form ↦ some form
      | none ↦ form_factor_from_title title
    ]

unfoldable pub build_motherboard_key_dict :
    Option Str → Option Str → Option Str → Option Str → KeyFields
unfolding resolve_board_designation
build_motherboard_key_dict brand chipset model_number title =
    (codes "category", codes "motherboard")
    ∷ (codes "brand", or_else brand (codes "Unknown"))
    ∷ (codes "chipset", resolve_board_designation chipset title)
    ∷ (codes "model_number", or_else model_number [])
    ∷ []

-- FORM_FACTOR_RANK
abbrev form_factor_rank : List Str
form_factor_rank = codes "ATX" ∷ codes "MATX" ∷ codes "ITX" ∷ codes "EATX" ∷ []

abbrev rank_in : List Str → Str → ℕ
rank_in [] v = 0
rank_in (r ∷ rs) v = if r == v then 0 else rank_in rs v + 1

abbrev pub count : Str → List Str → ℕ
count v [] = 0
count v (w ∷ ws) = if w == v then count v ws + 1 else count v ws

-- Whether `v` comes before `w` in a vote: more often, or as often and with a lower rank.
abbrev beats : List Str → Str → Str → Bool
beats values v w =
    if count v values == count w values
    then ltb (rank_in form_factor_rank v) (rank_in form_factor_rank w)
    else ltb (count w values) (count v values)

abbrev pub best_of : List Str → Str → List Str → Str
best_of values best [] = best
best_of values best (v ∷ vs) = best_of values (if beats values v best then v else best) vs

-- `_majority`: the most common value, the first of those with the lowest rank
unfoldable pub majority : List Str → Option Str
majority [] = none
majority (v ∷ vs) = some (best_of (v ∷ vs) v vs)

-- the columns of a row of motherboard_title_extractions that are read
pub record BoardRow : Type 0 where
  pub canonical_id : Option Str
  pub chipset : Option Str
  pub raw_title : Option Str
  pub form_factor : Option Str

abbrev some_of : List (Option Str) → List Str
some_of [] = []
some_of (none ∷ os) = some_of os
some_of (some s ∷ os) = if is_empty s then some_of os else s ∷ some_of os

abbrev pub evidence_of : BoardRow → Option Str
evidence_of r =
    resolve_motherboard_form_factor (some (resolve_board_designation r.chipset r.raw_title))
      r.raw_title

-- Evidence decides; without any, the extractor's guesses vote.
unfoldable pub decide_form : List Str → List Str → Option Str
unfolding majority
decide_form [] guesses = majority guesses
decide_form (v ∷ vs) guesses = majority (v ∷ vs)

abbrev pub evidence : List BoardRow → List Str
evidence rows = some_of (map evidence_of rows)

abbrev pub guesses : List BoardRow → List Str
guesses rows = some_of (map (λ r. r.form_factor) rows)

unfoldable pub resolve_group_form_factor : List BoardRow → Option Str
unfolding decide_form resolve_motherboard_form_factor resolve_board_designation
resolve_group_form_factor rows = decide_form (evidence rows) (guesses rows)

-- The rows of one group, and whether the pass covers it: `canonical_ids`, if it is not empty, limits
-- the pass.
abbrev pub in_group : Option Str → BoardRow → Bool
in_group id r = r.canonical_id == id

abbrev pub covers : List Str → Option Str → Bool
covers ids none = false
covers [] (some id) = true
covers (i ∷ is) (some id) = mem_str id (i ∷ is)

unfoldable pub group_form : List BoardRow → Option Str → Option Str
unfolding resolve_group_form_factor
group_form rows id = resolve_group_form_factor (filter (in_group id) rows)

abbrev pub is_covered : List Str → BoardRow → Bool
is_covered ids r = covers ids r.canonical_id

abbrev pub settled_form : List BoardRow → BoardRow → Option Str
settled_form rows r = group_form rows r.canonical_id

unfoldable pub settle_row : List Str → List BoardRow → BoardRow → BoardRow
unfolding group_form
settle_row ids rows r =
    if is_covered ids r then record r { form_factor = settled_form rows r } else r

-- `reconcile_group_form_factors`: the table after the pass, and the numbers of listings that were
-- updated and cleared
unfoldable pub reconcile : List Str → List BoardRow → List BoardRow
unfolding settle_row
reconcile ids rows = map (settle_row ids rows) rows

abbrev pub is_changed : List Str → List BoardRow → BoardRow → Bool
is_changed ids rows r = is_covered ids r && not (r.form_factor == settled_form rows r)

unfoldable pub listings_updated : List Str → List BoardRow → ℕ
unfolding group_form
listings_updated ids rows =
    length (filter (λ r. is_changed ids rows r && is_some (settled_form rows r)) rows)

unfoldable pub listings_cleared : List Str → List BoardRow → ℕ
unfolding group_form
listings_cleared ids rows =
    length (filter (λ r. is_changed ids rows r && is_none (settled_form rows r)) rows)
