-- ===== src/Matching/Sizes.antt =====
-- src/matching/size_from_title.py: the size that a title states. A number with a decimal point is
-- given in hundredths.
use mathlib.Core.Option
use pc_builder.Shared.{
  ℕ, ◌+◌, ◌*◌, ◌/◌, ◌%◌, ◌&&◌, Option, none, some, [], ◌∷◌, ◌++◌, ltb, leb, if◌then◌else◌, ◌==◌,
  nat_eq, option_eq, get_or, Str, codes, str_eq, upper, partition, read_nat, show_nat,
}
use pc_builder.Regex.{Regex, any_case, regex, Match, search, match_start, group_of}
use pc_builder.Matching.Gpu.{memory_gb_from_title}

abbrev storage_size : Regex
storage_size = any_case "(?<![\\d.])(\\d+(?:\\.\\d+)?)\\s?(TB|GB)\\b"

abbrev watts_size : Regex
watts_size = any_case "(?<![\\d.])(\\d{3,4})\\s?(?:W|Watts?)\\b"

abbrev ram_kit : Regex
ram_kit = any_case "(?<![\\d.])(\\d)\\s?[xX*]\\s?(\\d{1,3})\\s?GB\\b"

abbrev ram_total : Regex
ram_total = any_case "(?<![\\d.xX*])(\\d{1,3})\\s?GB\\b"

abbrev screen_size : Regex
screen_size = any_case "(?<![\\d.])(\\d{2}(?:\\.\\d)?)\\s?(?:\"|”|''|-?\\s?inch(?:es)?\\b|in\\b)"

abbrev text_in : ℕ → Match → Str
text_in n m = get_or (group_of n m) []

abbrev number_in : ℕ → Match → ℕ
number_in n m = read_nat (text_in n m)

-- The first two digits behind the point, for numbers that have no more.
abbrev two_digits : Str → ℕ
two_digits [] = 0
two_digits (c ∷ []) = read_nat (c ∷ []) * 10
two_digits (c ∷ d ∷ s) = read_nat (c ∷ d ∷ [])

-- `float(text)`, in hundredths
unfoldable pub hundredths : Str → ℕ
hundredths text =
    let (whole, fraction) = partition b'.' text in
    read_nat whole * 100 + two_digits (get_or fraction [])

-- `int(round(n / 100))`, a half to the even side
unfoldable pub round_hundredths : ℕ → ℕ
round_hundredths n =
    let whole = n / 100 in
    if ltb (n % 100) 50 then whole else if n % 100 == 50 && whole % 2 == 0 then whole else whole + 1

unfoldable pub storage_gb_from_title : Option Str → Option ℕ
unfolding search group_of hundredths round_hundredths
storage_gb_from_title title =
    Option.map
      (λ m.
        round_hundredths
          (hundredths (text_in 1 m) * (if upper (text_in 2 m) == codes "TB" then 1000 else 1)))
      (search storage_size (get_or title []))

unfoldable pub psu_watts_from_title : Option Str → Option ℕ
unfolding search group_of
psu_watts_from_title title = Option.map (number_in 1) (search watts_size (get_or title []))

unfoldable pub ram_gb_from_title : Option Str → Option ℕ
unfolding search group_of
ram_gb_from_title title = elim (search ram_total (get_or title [])) [
  | some m ↦ some (number_in 1 m)
  | none ↦ Option.map (λ m. number_in 1 m * number_in 2 m) (search ram_kit (get_or title []))
]

-- `_gb`
abbrev gb : ℕ → Str
gb n =
    if leb 1000 n && n % 1000 == 0
    then show_nat (n / 1000) ++ codes "TB"
    else show_nat n ++ codes "GB"

-- in hundredths of an inch
unfoldable pub screen_inches_from_title : Option Str → Option ℕ
unfolding search group_of hundredths
screen_inches_from_title title = elim (search screen_size (get_or title [])) [
  | none ↦ none
  | some m ↦
      let inches = hundredths (text_in 1 m) in
      if leb 1500 inches && leb inches 5700 then some inches else none
]

-- `f"{v:g}"` of a number with one digit behind the point, in hundredths
abbrev one_place : ℕ → Str
one_place n =
    if n % 100 == 0
    then show_nat (n / 100)
    else show_nat (n / 100) ++ codes "." ++ show_nat (n % 100 / 10)

unfoldable pub size_label : Option Str → Option Str → Option Str
unfolding memory_gb_from_title ram_gb_from_title storage_gb_from_title psu_watts_from_title
    screen_inches_from_title show_nat
size_label p_category title =
    let category = get_or p_category [] in
    if category == codes "GPU"
    then Option.map (λ v. show_nat v ++ codes "GB") (memory_gb_from_title title)
    else if category == codes "RAM"
    then Option.map (λ v. show_nat v ++ codes "GB") (ram_gb_from_title title)
    else if category == codes "Storage"
    then Option.map gb (storage_gb_from_title title)
    else if category == codes "Power Supply"
    then Option.map (λ v. show_nat v ++ codes "W") (psu_watts_from_title title)
    else if category == codes "Monitor"
    then Option.map (λ v. one_place v ++ codes "\"") (screen_inches_from_title title)
    else none

-- in hundredths
unfoldable pub size_sort_key : Str → ℕ
unfolding match_start group_of hundredths
size_sort_key label = elim (match_start (regex "([\\d.]+)\\s*(TB|GB|W|\")?") label) [
  | none ↦ 0
  | some m ↦ hundredths (text_in 1 m) * (if group_of 2 m == some (codes "TB") then 1000 else 1)
]
