-- ===== src/Compat/Sockets.antt =====
-- src/matching/cooler_sockets.py. The regular expressions are written out as scanners: one behind
-- `\b` looks at the character before.
use pc_builder.Shared.{
  ℕ, zero, suc, ◌+◌, ◌-◌, Bool, true, false, not, ◌&&◌, ◌||◌, Option, none, some, List, [], ◌∷◌,
  ◌++◌, leb, nat_beq, if◌then◌else◌, nat_eq, option_eq, get_or, drop, filter, sort, Str, codes,
  str_eq, mem_str, is_empty, upper, lower, is_space, is_digit, strip, starts_with, str_leb, replace,
  split_on, join, read_nat, lookup,
}

abbrev lga_115x : List Str
lga_115x = codes "LGA1150" ∷ codes "LGA1151" ∷ codes "LGA1155" ∷ codes "LGA1156" ∷ []

abbrev lga_numbers : List Str
lga_numbers =
    codes "775"
    ∷ codes "1150"
    ∷ codes "1151"
    ∷ codes "1155"
    ∷ codes "1156"
    ∷ codes "1200"
    ∷ codes "1356"
    ∷ codes "1366"
    ∷ codes "1700"
    ∷ codes "1851"
    ∷ codes "2011"
    ∷ codes "2066"
    ∷ codes "3647"
    ∷ codes "4189"
    ∷ codes "4677"
    ∷ codes "4710"
    ∷ []

-- _NAMED
abbrev named : List (Str × Str)
named =
    (codes "AM2", codes "AM2")
    ∷ (codes "AM2+", codes "AM2+")
    ∷ (codes "AM3", codes "AM3")
    ∷ (codes "AM3+", codes "AM3+")
    ∷ (codes "AM4", codes "AM4")
    ∷ (codes "AM5", codes "AM5")
    ∷ (codes "FM1", codes "FM1")
    ∷ (codes "FM2", codes "FM2")
    ∷ (codes "FM2+", codes "FM2+")
    ∷ (codes "TR4", codes "sTR4")
    ∷ (codes "STR4", codes "sTR4")
    ∷ (codes "STRX4", codes "sTRX4")
    ∷ (codes "TR5", codes "sTR5")
    ∷ (codes "STR5", codes "sTR5")
    ∷ (codes "SWRX8", codes "sWRX8")
    ∷ (codes "WRX8", codes "sWRX8")
    ∷ (codes "SWRX9", codes "sWRX9")
    ∷ (codes "SP3", codes "SP3")
    ∷ (codes "SP5", codes "SP5")
    ∷ (codes "SP6", codes "SP6")
    ∷ []

-- `\w` in ASCII
abbrev is_word : ℕ → Bool
is_word c = is_digit c || (leb b'a' c && leb c b'z') || (leb b'A' c && leb c b'Z') || nat_beq c b'_'

abbrev begins : (ℕ → Bool) → Str → Bool
begins p [] = false
begins p (c ∷ s) = p c

-- re.sub(r"\bLGA\s+", "LGA", text); `skipping` while white space behind such an LGA is dropped
abbrev join_lga : Bool → ℕ → Bool → Str → Str
join_lga before k skipping [] = []
join_lga before (suc k) skipping (c ∷ s) = c ∷ join_lga (is_word c) k skipping s
join_lga before zero skipping (c ∷ s) = elim (skipping && is_space c) [
  | true ↦ join_lga false 0 true s
  | false ↦
      elim (not before && starts_with (c ∷ s) (codes "LGA") && begins is_space (drop 3 (c ∷ s))) [
        | true ↦ c ∷ join_lga true 2 true s
        | false ↦ c ∷ join_lga (is_word c) 0 false s
      ]
]

-- how many digits a text starts with, four at most
abbrev leading_digits : ℕ → Str → ℕ
leading_digits zero s = 0
leading_digits (suc n) [] = 0
leading_digits (suc n) (c ∷ s) = if is_digit c then suc (leading_digits n s) else 0

-- the length of a match of `LGA\d{3,4}` that `-V\d` follows
abbrev versioned : Str → Option ℕ
versioned s =
    let n = leading_digits 4 (drop 3 s) in
    let rest = drop (3 + n) s in
    if starts_with s (codes "LGA")
      && leb 3 n
      && starts_with rest (codes "-V")
      && begins is_digit (drop 2 rest)
    then some (3 + n)
    else none

-- re.sub(r"(LGA\d{3,4})-V\d", r"\1", text): `keep` characters are copied, then `skip` are dropped.
abbrev drop_versions : ℕ → ℕ → Str → Str
drop_versions keep skip [] = []
drop_versions (suc keep) skip (c ∷ s) = c ∷ drop_versions keep skip s
drop_versions zero (suc skip) (c ∷ s) = drop_versions 0 skip s
drop_versions zero zero (c ∷ s) = elim (versioned (c ∷ s)) [
  | none ↦ c ∷ drop_versions 0 0 s
  | some n ↦ c ∷ drop_versions (n - 1) 3 s
]

-- `[\s,/;|&-]`
abbrev is_separator : ℕ → Bool
is_separator c =
    is_space c
    || nat_beq c b','
    || nat_beq c b'/'
    || nat_beq c b';'
    || nat_beq c b'|'
    || nat_beq c b'&'
    || nat_beq c b'-'

-- `\bAND\b` at this place
abbrev is_and : Bool → Str → Bool
is_and before s = not before && starts_with s (codes "AND") && not (begins is_word (drop 3 s))

-- re.split(r"[\s,/;|&-]+|\bAND\b", text), the empty parts dropped
abbrev split_sockets : Bool → ℕ → Str → Str → List Str
split_sockets before k token [] = if is_empty token then [] else token ∷ []
split_sockets before (suc k) token (c ∷ s) = split_sockets true k token s
split_sockets before zero token (c ∷ s) = elim (is_separator c || is_and before (c ∷ s)) [
  | true ↦
      let k = if is_separator c then 0 else 2 in
      let rest = split_sockets (is_word c) k [] s in if is_empty token then rest else token ∷ rest
  | false ↦ split_sockets (is_word c) 0 (token ++ c ∷ []) s
]

-- `_tokens`
unfoldable pub socket_tokens : Str → List Str
socket_tokens text =
    let spaced =
      replace (codes "AMD") (codes " ") (replace (codes "INTEL") (codes " ") (upper text)) in
    split_sockets false 0 [] (drop_versions 0 0 (join_lga false 0 false spaced))

-- what one token adds to the set
unfoldable pub token_sockets : Str → List Str
token_sockets token =
    let tok = strip token in
    let bare = if starts_with tok (codes "LGA") then drop 3 tok else tok in
    if mem_str bare (codes "115X" ∷ codes "115" ∷ [])
    then lga_115x
    else if mem_str bare lga_numbers
    then (codes "LGA" ++ bare) ∷ []
    else elim (lookup tok named) [ none ↦ [] | some s ↦ s ∷ [] ]

-- `set.update`
unfoldable pub union : List Str → List Str → List Str
union found [] = found
union found (s ∷ ss) = union (if mem_str s found then found else found ++ s ∷ []) ss

abbrev no_sockets : List Str → Bool
no_sockets [] = true
no_sockets (_ ∷ _) = false

unfoldable find_sockets : List Str → List Str → List Str
unfolding token_sockets union
find_sockets found [] = found
find_sockets found (t ∷ ts) = find_sockets (union found (token_sockets t)) ts

abbrev is_lga : Str → Bool
is_lga s = starts_with s (codes "LGA")

abbrev by_number : Str → Str → Bool
by_number a b = leb (read_nat (drop 3 a)) (read_nat (drop 3 b))

abbrev by_name : Str → Str → Bool
by_name a b = str_leb (lower a) (lower b)

abbrev sorted_sockets : List Str → List Str
sorted_sockets found =
    sort by_number (filter is_lga found) ++ sort by_name (filter (λ s. not (is_lga s)) found)

unfoldable pub normalize_sockets : Str → Option Str
unfolding socket_tokens find_sockets
normalize_sockets text =
    let found = find_sockets [] (socket_tokens text) in
    if is_empty text || no_sockets found
    then none
    else some (join (codes ",") (sorted_sockets found))

-- SAME_MOUNT
abbrev same_mount : List (Str × Str)
same_mount = (codes "LGA1700", codes "LGA1851") ∷ (codes "AM4", codes "AM5") ∷ []

-- CURRENT_SOCKETS
abbrev pub current_sockets : List Str
current_sockets = codes "AM4" ∷ codes "AM5" ∷ codes "LGA1700" ∷ codes "LGA1851" ∷ []

unfoldable pub mounts : List Str → List Str
mounts [] = []
mounts (s ∷ ss) = elim (lookup s same_mount) [ none ↦ mounts ss | some t ↦ t ∷ mounts ss ]

unfoldable pub socket_supported : Str → Str → Option Bool
unfolding normalize_sockets mounts
socket_supported cpu_socket cooler_sockets =
    let have = split_on b',' (get_or (normalize_sockets cooler_sockets) []) in
    let want = get_or (normalize_sockets cpu_socket) (strip cpu_socket) in
    if is_empty cpu_socket || is_empty cooler_sockets
    then none
    else some (mem_str want (have ++ mounts have))
