-- ===== src/Regex/RegexTests.antt =====
-- Patterns at concrete texts.
use mathlib.Core.Option
use pc_builder.Shared.{
  ◌≡◌, refl, Option, none, some, [], ◌∷◌, ◌++◌, map, nat_eq, option_eq, get_or, Str, codes, str_eq,
}
use pc_builder.Regex.Syntax.{regex, any_case, read_pattern}
use pc_builder.Regex.Find.{Match, search, match_start, find_all, sub, sub_text, group_of}

abbrev whole_of : Option Match → Option Str
whole_of m = Option.map (λ m. m.whole) m

abbrev first_group : Option Match → Option Str
first_group none = none
first_group (some m) = group_of 1 m

memory :
    first_group (search (any_case "(?<![\\d.])(\\d{1,2})\\s?GB\\b") (codes "RX 9060 XT 16gb OC"))
    ≡ some (codes "16")
unfolding search group_of read_pattern
memory = refl

behind_a_point : search (any_case "(?<![\\d.])(\\d{1,2})\\s?GB\\b") (codes "GDDR 1.16GB") ≡ none
unfolding search read_pattern
behind_a_point = refl

part_number :
    search (any_case "(?<![\\w.])(?<!\\d{5}-\\d{2}-)O?(\\d{1,2})G\\b") (codes "11349-01-20G") ≡ none
unfolding search read_pattern
part_number = refl

spaces_joined : sub_text (regex "[\\s\\-_]+") [] (codes "i5 - 14400_f") ≡ codes "i514400f"
unfolding sub_text read_pattern
spaces_joined = refl

numbers :
    map (λ m. m.whole) (find_all (regex "\\d{3,5}[a-z0-9]*") (codes "cpu 14700kf 9800x3d 12"))
    ≡ codes "14700kf" ∷ codes "9800x3d" ∷ []
unfolding find_all read_pattern
numbers = refl

suffix :
    sub
      (regex "(\\d)(XTX|XT|TI|GRE|SUPER)\\b")
      (λ m. get_or (group_of 1 m) [] ++ codes " " ++ get_or (group_of 2 m) [])
      (codes "9060XT 5070TI")
    ≡ codes "9060 XT 5070 TI"
unfolding sub group_of read_pattern
suffix = refl

from_the_start :
    whole_of (match_start (regex "^[A-Z]+\\d+") (codes "B650M-K")) ≡ some (codes "B650")
unfolding match_start read_pattern
from_the_start = refl
