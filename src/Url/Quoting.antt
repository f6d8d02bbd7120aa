-- ===== src/Url/Quoting.antt =====
-- `urllib.parse.quote_plus` and `str.format` of Python, and the bytes of UTF-8.
use pc_builder.Shared.{
  ℕ, zero, suc, ◌+◌, ◌-◌, ◌/◌, ◌%◌, Bool, true, false, ◌&&◌, ◌||◌, Option, none, some, List, [],
  ◌∷◌, ◌++◌, ltb, leb, nat_beq, if◌then◌else◌, nat_eq, option_eq, length, Str, codes, str_eq,
  mem_code, is_digit, drop_prefix, partition, lookup,
}

-- the UTF-8 bytes of a character
unfoldable pub utf8 : ℕ → List ℕ
utf8 c =
    if ltb c 128
    then c ∷ []
    else if ltb c 2048
    then (192 + c / 64) ∷ (128 + c % 64) ∷ []
    else if ltb c 65536
    then (224 + c / 4096) ∷ (128 + c / 64 % 64) ∷ (128 + c % 64) ∷ []
    else (240 + c / 262144) ∷ (128 + c / 4096 % 64) ∷ (128 + c / 64 % 64) ∷ (128 + c % 64) ∷ []

abbrev hex_digit : ℕ → ℕ
hex_digit n = if ltb n 10 then b'0' + n else b'A' + (n - 10)

abbrev is_safe : ℕ → Bool
is_safe c =
    is_digit c
    || (leb b'a' c && leb c b'z')
    || (leb b'A' c && leb c b'Z')
    || mem_code c (codes "_.-~")

abbrev quote_byte : ℕ → Str
quote_byte b =
    if is_safe b
    then b ∷ []
    else if nat_beq b b' '
    then codes "+"
    else b'%' ∷ hex_digit (b / 16) ∷ hex_digit (b % 16) ∷ []

abbrev quote_bytes : List ℕ → Str
quote_bytes [] = []
quote_bytes (b ∷ bs) = quote_byte b ++ quote_bytes bs

-- `urllib.parse.quote_plus`
unfoldable pub quote_plus : Str → Str
unfolding utf8
quote_plus [] = []
quote_plus (c ∷ s) = quote_bytes (utf8 c) ++ quote_plus s

-- what stands before the closing brace, and what behind it
abbrev format_field : List (Str × Str) → Str × Option Str → Option (Str × Str)
format_field fields (name, none) = none
format_field fields (name, some rest) = elim (lookup name fields) [
  | none ↦ none
  | some value ↦ some (value, rest)
]

abbrev prepend : Str → Option Str → Option Str
prepend s none = none
prepend s (some t) = some (s ++ t)

-- `text.format(**fields)` for fields without conversions; every step uses up a character.
unfoldable pub format_fuel : ℕ → List (Str × Str) → Str → Option Str
format_fuel zero fields s = some []
format_fuel (suc fuel) fields [] = some []
format_fuel (suc fuel) fields (c ∷ s) = elim (nat_beq c b'{') [
  | true ↦ elim (drop_prefix (codes "{") s) [
    | some rest ↦ prepend (codes "{") (format_fuel fuel fields rest)
    | none ↦ elim (format_field fields (partition b'}' s)) [
      | none ↦ none
      | some (value, rest) ↦ prepend value (format_fuel fuel fields rest)
    ]
  ]
  | false ↦ elim (nat_beq c b'}') [
    | false ↦ prepend (c ∷ []) (format_fuel fuel fields s)
    | true ↦ elim (drop_prefix (codes "}") s) [
      | some rest ↦ prepend (codes "}") (format_fuel fuel fields rest)
      | none ↦ none
    ]
  ]
]

unfoldable pub format : List (Str × Str) → Str → Option Str
unfolding format_fuel
format fields s = format_fuel (length s) fields s
