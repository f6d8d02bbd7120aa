-- ===== src/Matching/Words.antt =====
-- Methods of Python's `str` that the title rules use.
use pc_builder.Shared.{
  ℕ, Bool, false, ◌&&◌, Option, none, some, List, [], ◌∷◌, leb, if◌then◌else◌, nat_eq, option_eq,
  Str, str_eq, is_empty, upper_char, lower_char, is_space,
}

abbrev add_word : Str → List Str → List Str
add_word [] ws = ws
add_word (c ∷ w) ws = (c ∷ w) ∷ ws

-- the first word, which may be empty, and the words behind it
abbrev words_from : Str → Str × List Str
words_from [] = ([], [])
words_from (c ∷ s) =
    let (w, ws) = words_from s in if is_space c then ([], add_word w ws) else (c ∷ w, ws)

-- `s.split()`
abbrev pub words : Str → List Str
words s = let (w, ws) = words_from s in add_word w ws

abbrev is_letter : ℕ → Bool
is_letter c = leb b'a' (lower_char c) && leb (lower_char c) b'z'

abbrev title_from : Bool → Str → Str
title_from behind_letter [] = []
title_from behind_letter (c ∷ s) =
    (if behind_letter then lower_char c else upper_char c) ∷ title_from (is_letter c) s

-- `s.title()`
abbrev pub title_case : Str → Str
title_case s = title_from false s

-- `s or default`
abbrev pub or_else : Option Str → Str → Str
or_else none other = other
or_else (some s) other = if is_empty s then other else s
