-- ===== src/Compat/Scale.antt =====
-- The scale of form factors has four sizes.
use mathlib.Core.Path.{subst}
use pc_builder.Shared.{
  ℕ, ◌≤◌, max, ◌≡◌, refl, inl, inr, Bool, true, ◌&&◌, Option, none, some, List, [], ◌∷◌, ◌++◌,
  arith, leb, nat_eq, option_eq, Bool-cases, some_inj, All, All-append, Str, codes, str_eq,
  is_empty, upper, strip, has_substring, replace,
}
use pc_builder.Compat.FormFactor.{
  form_factor_index, scan_aliases, aliases_longest_first, max_of, max_or_none,
}

small : List (Str × Option ℕ) → Bool
small [] = true
small ((alias, none) ∷ rest) = small rest
small ((alias, some i) ∷ rest) = leb i 3 && small rest

max_of-small : (m : ℕ) (ns : List ℕ) → m ≤ 3 → All (λ n. n ≤ 3) ns → max_of m ns ≤ 3
max_of-small m [] h a = h
max_of-small m (n ∷ ns) h a = max_of-small (max m n) ns (omega (arith, h, a.0)) a.1

max_or_none-small : (ns : List ℕ) (i : ℕ) → All (λ n. n ≤ 3) ns → max_or_none ns ≡ some i → i ≤ 3
max_or_none-small [] i a e = absurd (ground (arith, e))
max_or_none-small (n ∷ ns) i a e = subst (λ k. k ≤ 3) (some_inj e) (max_of-small n ns a.0 a.1)

scan_aliases-small :
    (aliases : List (Str × Option ℕ)) (v : Str) (found : List ℕ) (i : ℕ)
    → small aliases ≡ true
    → All (λ n. n ≤ 3) found
    → scan_aliases aliases v found ≡ some i
    → i ≤ 3
unfolding scan_aliases small
scan_aliases-small [] v found i s a e = max_or_none-small found i a e
scan_aliases-small ((alias, none) ∷ rest) v found i s a e =
    elim (Bool-cases (has_substring v alias)) [
      | inl t ↦ absurd (ground (arith, rw (t, scan_aliases) at e))
      | inr t ↦ scan_aliases-small rest v found i s a (rw (t, scan_aliases) at e)
    ]
scan_aliases-small ((alias, some k) ∷ rest) v found i s a e =
    elim (Bool-cases (has_substring v alias)) [
      | inl t ↦
          scan_aliases-small rest (replace alias (codes "/") v) (found ++ k ∷ []) i
            (ground (arith, s)) (All-append (λ n. n ≤ 3) found (k ∷ []) a (ground (arith, s), tt))
            (rw (t, scan_aliases) at e)
      | inr t ↦ scan_aliases-small rest v found i (ground (arith, s)) a (rw (t, scan_aliases) at e)
    ]

-- A form factor is placed on the scale ITX, MATX, ATX, EATX or nowhere.
pub form_factor_index-le : (value : Str) (i : ℕ) → form_factor_index value ≡ some i → i ≤ 3
unfolding form_factor_index small
form_factor_index-le value i e = elim (Bool-cases (is_empty value)) [
  | inl t ↦ absurd (ground (arith, rw t at e))
  | inr t ↦
      scan_aliases-small aliases_longest_first
        (replace (codes " ") [] (replace (codes "-") [] (upper (strip value)))) [] i refl tt
        (rw t at e)
]
