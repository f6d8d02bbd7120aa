-- ===== src/Compat/FormFactor.antt =====
-- `form_factor_index` of src/services/compatibility_rules.py.
use pc_builder.Shared.{
  ℕ, max, true, false, Option, none, some, List, [], ◌∷◌, ◌++◌, leb, if◌then◌else◌, nat_eq,
  option_eq, length, sort, Str, codes, str_eq, is_empty, upper, strip, has_substring, replace,
}

-- _FORM_FACTOR_ALIASES
abbrev pub form_factor_aliases : List (Str × Option ℕ)
form_factor_aliases =
    (codes "EXTENDEDATX", some 3)
    ∷ (codes "MICROATX", some 1)
    ∷ (codes "MINIITX", some 0)
    ∷ (codes "XLATX", none)
    ∷ (codes "EATX", some 3)
    ∷ (codes "MATX", some 1)
    ∷ (codes "UATX", some 1)
    ∷ (codes "MITX", some 0)
    ∷ (codes "ITX", some 0)
    ∷ (codes "ATX", some 2)
    ∷ []

-- `sorted(..., key=len, reverse=True)`, which keeps the order of texts of one length
abbrev pub aliases_longest_first : List (Str × Option ℕ)
aliases_longest_first = sort (λ a b. leb (length b.0) (length a.0)) form_factor_aliases

abbrev pub max_of : ℕ → List ℕ → ℕ
max_of m [] = m
max_of m (n ∷ ns) = max_of (max m n) ns

abbrev pub max_or_none : List ℕ → Option ℕ
max_or_none [] = none
max_or_none (n ∷ ns) = some (max_of n ns)

-- the loop over the aliases, with what is left of the text and the indices found
unfoldable pub scan_aliases : List (Str × Option ℕ) → Str → List ℕ → Option ℕ
scan_aliases [] v found = max_or_none found
scan_aliases ((alias, idx) ∷ rest) v found = elim (has_substring v alias) [
  | true ↦ elim idx [
    | none ↦ none
    | some i ↦ scan_aliases rest (replace alias (codes "/") v) (found ++ i ∷ [])
  ]
  | false ↦ scan_aliases rest v found
]

unfoldable pub form_factor_index : Str → Option ℕ
unfolding scan_aliases
form_factor_index value =
    if is_empty value
    then none
    else scan_aliases aliases_longest_first
        (replace (codes " ") [] (replace (codes "-") [] (upper (strip value)))) []
