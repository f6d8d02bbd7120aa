-- ===== src/Regex/Find.antt =====
-- Matching, searching and replacing with patterns of Python's module re.
use mathlib.Core.Option
use mathlib.Core.List.{reverse}
use pc_builder.Shared.{
  ℕ, zero, suc, ◌+◌, ◌-◌, Bool, true, false, not, ◌&&◌, ◌||◌, Option, none, some, List, [], ◌∷◌,
  ◌++◌, ltb, leb, if◌then◌else◌, ◌==◌, nat_eq, option_eq, is_some, length, take, drop, any, find,
  Str, str_eq, is_empty, upper_char, lower_char, is_space, is_digit,
}
use pc_builder.Regex.Syntax.{
  Item, one, range, digit, space, word, Pattern, empty, never, boundary, at_start, at_end, chars,
  seq, alt, opt, star, ahead, behind, group, Regex,
}

-- A place in a text: what stands before it, the last character first, and what stands behind it.
-- `groups` has what was captured.
pub record Place : Type 0 where
  pub before : Str
  pub rest : Str
  pub groups : List (ℕ × Str)

abbrev Goal : Type 0
Goal = Place → Option Place

-- the value, turned round if the flag is set
turned : Bool → Bool → Bool
turned true b = not b
turned false b = b

is_word : ℕ → Bool
is_word c = is_digit c || (leb b'a' c && leb c b'z') || (leb b'A' c && leb c b'Z') || c == b'_'

has_item : ℕ → Item → Bool
unfolding is_word
has_item c (one d) = c == d
has_item c (range a b) = leb a c && leb c b
has_item c digit = is_digit c
has_item c space = is_space c
has_item c word = is_word c

-- Without case, a character stands for its other case too.
in_class : Bool → List Item → ℕ → Bool
unfolding has_item
in_class folded items c =
    any (has_item c) items
    || (folded && (any (has_item (lower_char c)) items || any (has_item (upper_char c)) items))

word_at : Str → Bool
unfolding is_word
word_at [] = false
word_at (c ∷ s) = is_word c

is_boundary : Place → Bool
unfolding word_at turned
is_boundary p = turned (word_at p.before) (word_at p.rest)

abbrev step : Bool → Bool → List Item → Place → Goal → Option Place
unfolding in_class
step folded negated items p goal = elim p.rest [
  | [] ↦ none
  | (c ∷ s) ↦ elim (turned negated (in_class folded items c)) [
    | true ↦ goal (record p { before = c ∷ p.before; rest = s })
    | false ↦ none
  ]
]

-- the rounds of a greedy star, each of which takes a character
many : (Place → Goal → Option Place) → ℕ → Place → Goal → Option Place
many round zero p goal = goal p
many round (suc f) p goal =
    elim (round p (λ q. elim (ltb (length q.rest) (length p.rest)) [
      | true ↦ many round f q goal
      | false ↦ none
    ])) [ some q ↦ some q | none ↦ goal p ]

-- some start before `p` from which `round` ends at `p`
ends_from : (Place → Goal → Option Place) → Place → Str → Str → Bool
ends_from round p before rest = is_some (
    round (record { before = before; rest = rest; groups = [] })
      (λ q. if length q.rest == length p.rest then some q else none))

ends_here : (Place → Goal → Option Place) → Place → Str → Str → Bool
unfolding ends_from
ends_here round p [] rest = ends_from round p [] rest
ends_here round p (c ∷ before) rest =
    ends_from round p (c ∷ before) rest || ends_here round p before (c ∷ rest)

-- `goal` is what has to match behind the pattern.
run : Bool → Pattern → Place → Goal → Option Place
unfolding is_boundary in_class many ends_here turned
run folded empty p goal = goal p
run folded never p goal = none
run folded boundary p goal = elim (is_boundary p) [ true ↦ goal p | false ↦ none ]
run folded at_start p goal = elim (is_empty p.before) [ true ↦ goal p | false ↦ none ]
run folded at_end p goal = elim (is_empty p.rest) [ true ↦ goal p | false ↦ none ]
run folded (chars negated items) p goal = step folded negated items p goal
run folded (seq r s) p goal = run folded r p (λ q. run folded s q goal)
run folded (alt r s) p goal = elim (run folded r p goal) [
  | some q ↦ some q
  | none ↦ run folded s p goal
]
run folded (opt r) p goal = elim (run folded r p goal) [ some q ↦ some q | none ↦ goal p ]
run folded (star r) p goal = many (run folded r) (length p.rest) p goal
run folded (ahead negated r) p goal =
    elim (turned negated (is_some (run folded r p (λ q. some q)))) [ true ↦ goal p | false ↦ none ]
run folded (behind negated r) p goal =
    elim (turned negated (ends_here (run folded r) p p.before p.rest)) [
      | true ↦ goal p
      | false ↦ none
    ]
run folded (group n r) p goal =
    run folded r p (λ q.
      goal (record q { groups = (n, take (length p.rest - length q.rest) p.rest) ∷ q.groups }))

-- A match: the text before it, the matched text, the groups, and the text behind it.
pub record Match : Type 0 where
  pub start : Str
  pub whole : Str
  pub groups : List (ℕ × Str)
  pub end : Str

match_at : Regex → Place → Option Match
unfolding run
match_at r p =
    Option.map
      (λ q. record {
        start = reverse p.before;
        whole = take (length p.rest - length q.rest) p.rest;
        groups = q.groups;
        end = q.rest;
      })
      (run r.folded r.pattern p (λ q. some q))

search_from : Regex → Str → Str → Option Match
unfolding match_at
search_from r before [] = match_at r (record { before = before; rest = []; groups = [] })
search_from r before (c ∷ s) =
    elim (match_at r (record { before = before; rest = c ∷ s; groups = [] })) [
      | some m ↦ some m
      | none ↦ search_from r (c ∷ before) s
    ]

-- r.search(s)
unfoldable pub search : Regex → Str → Option Match
unfolding search_from
search r s = search_from r [] s

-- re.match(r, s)
unfoldable pub match_start : Regex → Str → Option Match
unfolding match_at
match_start r s = match_at r (record { before = []; rest = s; groups = [] })

unfoldable pub is_found : Regex → Str → Bool
unfolding search
is_found r s = is_some (search r s)

-- m.group(n), None where the group took no part
unfoldable pub group_of : ℕ → Match → Option Str
group_of n m = Option.map (λ g. g.1) (find (λ g. g.0 == n) m.groups)

-- r.finditer(s) and r.sub(f, s): the matches from left to right, an empty match moves on by a
-- character. `sub_from` has the text that is done, the last character first.
find_from : Regex → ℕ → Str → Str → List Match
unfolding search_from
find_from r zero before s = []
find_from r (suc f) before s = elim (search_from r before s) [
  | none ↦ []
  | some m ↦ elim (is_empty m.whole) [
    | false ↦ m ∷ find_from r f (reverse (m.start ++ m.whole)) m.end
    | true ↦ m ∷ elim m.end [ [] ↦ [] | (c ∷ t) ↦ find_from r f (c ∷ reverse m.start) t ]
  ]
]

unfoldable pub find_all : Regex → Str → List Match
unfolding find_from
find_all r s = find_from r (length s + 1) [] s

pieces : (Match → Str) → ℕ → List Match → Str → Str
pieces f done [] s = drop done s
pieces f done (m ∷ ms) s =
    drop done m.start ++ f m ++ pieces f (length m.start + length m.whole) ms s

-- r.sub(f, s)
unfoldable pub sub : Regex → (Match → Str) → Str → Str
unfolding find_all pieces
sub r f s = pieces f 0 (find_all r s) s

unfoldable pub sub_text : Regex → Str → Str → Str
unfolding sub
sub_text r new s = sub r (λ m. new) s
