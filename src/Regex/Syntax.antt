-- ===== src/Regex/Syntax.antt =====
-- Patterns of Python's module re, and their syntax. `regex` reads a pattern; a text that is not in
-- the supported syntax gives a pattern that matches nothing.
use Prim.Native.String.{String}
use pc_builder.Shared.{
  ℕ, zero, suc, ◌+◌, ◌-◌, ◌*◌, Bool, true, false, not, ◌&&◌, ◌||◌, Option, none, some, List, [],
  ◌∷◌, leb, if◌then◌else◌, ◌==◌, nat_eq, option_eq, length, drop, Str, codes, str_eq, is_empty,
  lower_char, is_digit, drop_prefix, read_nat, least,
}

pub data Item : Type 0 where
  one : ℕ → Item
  range : ℕ → ℕ → Item
  digit space word : Item

-- `chars` is a character class, negated if its flag is set. A look-around is negative if its flag is
-- set. `group` numbers what it captures.
pub data Pattern : Type 0 where
  empty never boundary at_start at_end : Pattern
  chars : Bool → List Item → Pattern
  seq alt : Pattern → Pattern → Pattern
  opt star : Pattern → Pattern
  ahead behind : Bool → Pattern → Pattern
  group : ℕ → Pattern → Pattern

pub record Regex : Type 0 where
  pub pattern : Pattern
  pub folded : Bool

-- the quantifiers + and {m,n}
abbrev plus : Pattern → Pattern
plus p = seq p (star p)

times : ℕ → Pattern → Pattern → Pattern
times zero p rest = rest
times (suc n) p rest = seq p (times n p rest)

up_to : ℕ → Pattern → Pattern
up_to zero p = empty
up_to (suc n) p = opt (seq p (up_to n p))

-- What was read, the number of the next group, and the text behind it.
abbrev Read : Type 0
Read = Option (Pattern × ℕ × Str)

digits : Str → Str
digits [] = []
digits (c ∷ s) = if is_digit c then c ∷ digits s else []

-- {m} and {m,n} behind the opening brace
counts : Str → Option (ℕ × ℕ × Str)
unfolding digits
counts s =
    let first = digits s in
    let m = read_nat first in
    elim (drop (length first) s) [
      | [] ↦ none
      | (c ∷ r) ↦
          if c == b'}'
          then some (m, m, r)
          else let second = digits r in some (m, read_nat second, drop (length second + 1) r)
    ]

-- `\` and a letter, inside or outside of a class
escape : ℕ → Item
escape c =
    if c == b'd' then digit else if c == b's' then space else if c == b'w' then word else one c

-- the items of a class up to the closing bracket
class : ℕ → Str → List Item × Str
unfolding escape
class zero s = ([], s)
class (suc f) [] = ([], [])
class (suc f) (c ∷ []) = elim (c == b']') [ true ↦ ([], []) | false ↦ (one c ∷ [], []) ]
class (suc f) (c ∷ d ∷ []) = elim (c == b']') [
  | true ↦ ([], d ∷ [])
  | false ↦ elim (c == b'\\') [
    | true ↦ (escape d ∷ [], [])
    | false ↦ let (items, t) = class f (d ∷ []) in (one c ∷ items, t)
  ]
]
class (suc f) (c ∷ d ∷ e ∷ s) = elim (c == b']') [
  | true ↦ ([], d ∷ e ∷ s)
  | false ↦ elim (c == b'\\') [
    | true ↦ let (items, t) = class f (e ∷ s) in (escape d ∷ items, t)
    | false ↦ elim (d == b'-' && not (e == b']')) [
      | true ↦ let (items, t) = class f s in (range c e ∷ items, t)
      | false ↦ let (items, t) = class f (d ∷ e ∷ s) in (one c ∷ items, t)
    ]
  ]
]

-- the quantifiers behind an atom
quantify : Pattern → ℕ → Str → Read
unfolding counts times up_to
quantify p n [] = some (p, n, [])
quantify p n (c ∷ s) =
    if c == b'*'
    then some (star p, n, s)
    else if c == b'+'
    then some (plus p, n, s)
    else if c == b'?'
    then some (opt p, n, s)
    else if c == b'{'
    then elim (counts s) [
      | none ↦ none
      | some (least, most, r) ↦ some (times least p (up_to (most - least) p), n, r)
    ]
    else some (p, n, c ∷ s)

abbrev closed : Read → (Pattern → Pattern) → Read
closed none wrap = none
closed (some (p, n, [])) wrap = none
closed (some (p, n, c ∷ s)) wrap = if c == b')' then some (wrap p, n, s) else none

abbrev letter : Str → ℕ → Option Str
letter [] c = none
letter (d ∷ s) c = if d == c then some s else none

abbrev class_atom : Str → ℕ → Read
class_atom s n = elim (letter s b'^') [
  | some r ↦ let (items, t) = class (length r) r in some (chars true items, n, t)
  | none ↦ let (items, t) = class (length s) s in some (chars false items, n, t)
]

abbrev escape_atom : Str → ℕ → Read
escape_atom [] n = none
escape_atom (c ∷ s) n =
    if c == b'b' then some (boundary, n, s) else some (chars false (escape c ∷ []), n, s)

abbrev plain_atom : ℕ → Str → ℕ → Read
plain_atom c s n =
    if c == b'.'
    then some (chars true (one 10 ∷ []), n, s)
    else if c == b'^'
    then some (at_start, n, s)
    else if c == b'$'
    then some (at_end, n, s)
    else some (chars false (one c ∷ []), n, s)

mutual
  alternatives : ℕ → ℕ → Str → Read
  alternatives zero n s = none
  alternatives (suc f) n s = elim (sequence f n s) [
    | none ↦ none
    | some (p, n', t) ↦ elim (letter t b'|') [
      | none ↦ some (p, n', t)
      | some r ↦ elim (alternatives f n' r) [
        | none ↦ none
        | some (q, n'', u) ↦ some (alt p q, n'', u)
      ]
    ]
  ]

  sequence : ℕ → ℕ → Str → Read
  sequence zero n s = none
  sequence (suc f) n [] = some (empty, n, [])
  sequence (suc f) n (c ∷ s) = elim (c == b'|' || c == b')') [
    | true ↦ some (empty, n, c ∷ s)
    | false ↦ elim (atom f n c s) [
      | none ↦ none
      | some (p, n', t) ↦ elim (quantify p n' t) [
        | none ↦ none
        | some (q, n'', u) ↦ elim (sequence f n'' u) [
          | none ↦ none
          | some (rest, m, v) ↦ some (seq q rest, m, v)
        ]
      ]
    ]
  ]

  atom : ℕ → ℕ → ℕ → Str → Read
  atom zero n c s = none
  atom (suc f) n c s = elim (c == b'(') [
    | true ↦ brackets f n s
    | false ↦ elim (c == b'[') [
      | true ↦ class_atom s n
      | false ↦ elim (c == b'\\') [ true ↦ escape_atom s n | false ↦ plain_atom c s n ]
    ]
  ]

  brackets : ℕ → ℕ → Str → Read
  brackets zero n s = none
  brackets (suc f) n s = elim (drop_prefix (codes "?:") s) [
    | some r ↦ closed (alternatives f n r) (λ p. p)
    | none ↦ elim (drop_prefix (codes "?=") s) [
      | some r ↦ closed (alternatives f n r) (ahead false)
      | none ↦ elim (drop_prefix (codes "?!") s) [
        | some r ↦ closed (alternatives f n r) (ahead true)
        | none ↦ elim (drop_prefix (codes "?<!") s) [
          | some r ↦ closed (alternatives f n r) (behind true)
          | none ↦ closed (alternatives f (n + 1) s) (group n)
        ]
      ]
    ]
  ]

-- Four levels of recursion for each character are enough.
unfoldable pub read_pattern : Str → Pattern
unfolding alternatives quantify class
read_pattern s = elim (alternatives (4 * length s + 4) 1 s) [
  | none ↦ never
  | some (p, n, rest) ↦ if is_empty rest then p else never
]

-- re.compile(s)
abbrev pub regex : String → Regex
regex s = record { pattern = read_pattern (codes s); folded = false }

-- re.compile(s, re.I)
abbrev pub any_case : String → Regex
any_case s = record { pattern = read_pattern (codes s); folded = true }

-- a pattern that is put together when the code runs
abbrev pub regex_of : Str → Regex
regex_of s = record { pattern = read_pattern s; folded = false }

abbrev pub any_case_of : Str → Regex
any_case_of s = record { pattern = read_pattern s; folded = true }

-- re.escape(s): a backslash before whatever is not a letter, a digit or an underscore
abbrev pub escaped : Str → Str
escaped [] = []
escaped (c ∷ s) =
    if is_digit (lower_char c) || (leb b'a' (lower_char c) && leb (lower_char c) b'z') || c == b'_'
    then c ∷ escaped s
    else b'\\' ∷ c ∷ escaped s
