-- ===== src/Shared/Text.antt =====
-- Python's `str` as its list of code points. Letters change case in ASCII only.
use Prim.Native.Nat.{zero, suc, ◌/◌, ◌%◌, ℕ, ◌+◌, ◌-◌, ◌*◌}
use Prim.Native.Char.{code}
use Prim.Native.String.{String}
use mathlib.Core.Path.{◌≡◌, refl, ap}
use mathlib.Core.Logic.{◌↔◌}
use mathlib.Core.Bool.{Bool, true, false, ◌&&◌, ◌||◌}
use mathlib.Core.List.{◌++◌, List, [], ◌∷◌, map, reverse}
use mathlib.Core.Option.{Option, none, some}
use native.Mathlib.Omega.{arith}
use pc_builder.Shared.Lists.{length}
use pc_builder.Shared.Tests.{Comparable, option_beq, nat_eq, nat_beq, leb, if◌then◌else◌}

abbrev pub Str : Type 0
Str = List ℕ

-- a literal
abbrev pub codes : String → Str
codes String.[] = []
codes (String.◌∷◌ c s) = code c ∷ codes s

abbrev pub str_beq : Str → Str → Bool
str_beq [] [] = true
str_beq (c ∷ s) (d ∷ t) = nat_beq c d && str_beq s t
str_beq _ _ = false

pub str_beq_iff : (s t : Str) → (str_beq s t ≡ true) ↔ (s ≡ t)
str_beq_iff [] [] = (λ _. refl, λ _. refl)
str_beq_iff [] (d ∷ t) = (λ p. cc, λ p. cc)
str_beq_iff (c ∷ s) [] = (λ p. cc, λ p. cc)
str_beq_iff (c ∷ s) (d ∷ t) = ground (arith, str_beq_iff s t)

pub str_beq_refl : (s : Str) → str_beq s s ≡ true
str_beq_refl s = (str_beq_iff s s).1 refl

pub option_beq_refl : (o : Option Str) → option_beq str_beq o o ≡ true
option_beq_refl none = refl
option_beq_refl (some s) = str_beq_refl s

instance abbrev pub str_eq : Comparable Str
str_eq = record { test = str_beq }

-- `x in xs` for a tuple or a set of texts
abbrev pub mem_str : Str → List Str → Bool
mem_str s [] = false
mem_str s (t ∷ ts) = str_beq s t || mem_str s ts

-- `c in s` for a character
abbrev pub mem_code : ℕ → Str → Bool
mem_code c [] = false
mem_code c (d ∷ s) = nat_beq c d || mem_code c s

-- `not s`
abbrev pub is_empty : Str → Bool
is_empty [] = true
is_empty (_ ∷ _) = false

abbrev pub upper_char : ℕ → ℕ
upper_char c = if leb b'a' c && leb c b'z' then c - 32 else c

abbrev pub lower_char : ℕ → ℕ
lower_char c = if leb b'A' c && leb c b'Z' then c + 32 else c

abbrev pub upper : Str → Str
upper = map upper_char

abbrev pub lower : Str → Str
lower = map lower_char

abbrev pub is_space : ℕ → Bool
is_space c = (leb 9 c && leb c 13) || (leb 28 c && leb c 32)

abbrev pub is_digit : ℕ → Bool
is_digit c = leb b'0' c && leb c b'9'

abbrev pub lstrip : (ℕ → Bool) → Str → Str
lstrip p [] = []
lstrip p (c ∷ s) = if p c then lstrip p s else c ∷ s

abbrev pub rstrip : (ℕ → Bool) → Str → Str
rstrip p s = reverse (lstrip p (reverse s))

abbrev pub strip : Str → Str
strip s = rstrip is_space (lstrip is_space s)

-- `s.startswith(p)`, and what is left behind the prefix
abbrev pub drop_prefix : Str → Str → Option Str
drop_prefix [] s = some s
drop_prefix (c ∷ p) [] = none
drop_prefix (c ∷ p) (d ∷ s) = if nat_beq c d then drop_prefix p s else none

abbrev pub starts_with : Str → Str → Bool
starts_with s p = elim (drop_prefix p s) [ none ↦ false | some _ ↦ true ]

abbrev pub ends_with : Str → Str → Bool
ends_with s p = starts_with (reverse s) (reverse p)

-- `p in s`
abbrev pub has_substring : Str → Str → Bool
has_substring [] p = starts_with [] p
has_substring (c ∷ s) p = starts_with (c ∷ s) p || has_substring s p

-- `s.partition(c)` without the separator: what stands before the first `c`, and what behind it
abbrev pub partition : ℕ → Str → Str × Option Str
partition c [] = ([], none)
partition c (d ∷ s) = let r = partition c s in if nat_beq c d then ([], some s) else (d ∷ r.0, r.1)

-- the order of Python's `str`: by code points
abbrev pub str_leb : Str → Str → Bool
str_leb [] t = true
str_leb (c ∷ s) [] = false
str_leb (c ∷ s) (d ∷ t) = if nat_beq c d then str_leb s t else leb c d

abbrev pub replace_go : Str → Str → ℕ → Str → Str
replace_go p r k [] = []
replace_go p r (suc k) (c ∷ s) = replace_go p r k s
replace_go p r zero (c ∷ s) = elim (starts_with (c ∷ s) p) [
  | true ↦ r ++ replace_go p r (length p - 1) s
  | false ↦ c ∷ replace_go p r 0 s
]

abbrev replace_case : Str → Str → ℕ → Str → Bool → Str
replace_case p r c s true = r ++ replace_go p r (length p - 1) s
replace_case p r c s false = c ∷ replace_go p r 0 s

pub replace_go_skip :
    (p r : Str) (c : ℕ) (s : Str)
    → starts_with (c ∷ s) p ≡ false
    → replace_go p r 0 (c ∷ s) ≡ c ∷ replace_go p r 0 s
replace_go_skip p r c s e = ap (replace_case p r c s) e

-- `s.replace(p, r)` for a non-empty `p`
abbrev pub replace : Str → Str → Str → Str
replace p r s = replace_go p r 0 s

abbrev add_char : ℕ → List Str → List Str
add_char d [] = (d ∷ []) ∷ []
add_char d (t ∷ ts) = (d ∷ t) ∷ ts

abbrev pub split_on : ℕ → Str → List Str
split_on c [] = [] ∷ []
split_on c (d ∷ s) = let rest = split_on c s in if nat_beq c d then [] ∷ rest else add_char d rest

-- `sep.join(parts)`
abbrev pub join : Str → List Str → Str
join sep [] = []
join sep (s ∷ []) = s
join sep (s ∷ t ∷ ts) = s ++ sep ++ join sep (t ∷ ts)

-- `int(s)` for a text of digits
abbrev pub read_from : ℕ → Str → ℕ
read_from n [] = n
read_from n (c ∷ s) = read_from (n * 10 + (c - b'0')) s

abbrev pub read_nat : Str → ℕ
read_nat s = read_from 0 s

-- the entry of a dictionary written as a list
abbrev pub lookup {ℓ} : {A : Type ℓ} → Str → List (Str × A) → Option A
lookup k [] = none
lookup k ((s, a) ∷ d) = if str_beq k s then some a else lookup k d

abbrev pub show_digit : ℕ → Str
show_digit n = (b'0' + n) ∷ []

abbrev pub show_fuel : ℕ → ℕ → Str
show_fuel zero n = []
show_fuel (suc fuel) n = elim (leb n 9) [
  | true ↦ show_digit n
  | false ↦ show_fuel fuel (n / 10) ++ show_digit (n % 10)
]

-- `str(n)`. A number has at most as many digits as its value, and one more for 0.
unfoldable pub show_nat : ℕ → Str
show_nat n = show_fuel (suc n) n

show_nat_example : show_nat 12070 ≡ codes "12070"
unfolding show_nat
show_nat_example = refl
