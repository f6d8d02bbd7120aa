-- ===== src/SpecValues/Canonical.antt =====
-- A canonical value stays as it is: the normalizers that look a value up give their own results back.
use pc_builder.Shared.{
  ◌≡◌, refl, sym, ap, inl, inr, Bool, true, false, not, ◌&&◌, Option, none, some, List, [], ◌∷◌,
  arith, ◌==◌, nat_eq, option_eq, Bool-cases, get_or, some_inj, all, Str, codes, str_beq,
  str_beq_iff, str_eq, mem_str, lookup,
}
use mathlib.Core.Path.{subst}
use pc_builder.SpecValues.Tables.{
  panel_canonical, efficiency_canonical, interface_canonical, modularity_canonical,
}
use pc_builder.SpecValues.Normalizers.{
  upper_key, efficiency_key, modularity_key, normalize_panel_type, normalize_efficiency,
  normalize_interface, normalize_modularity, is_placeholder, normalizer_of, category_normalizer,
  normalize_spec_value,
}

lookup-all {ℓ} :
    {A : Type ℓ} (p : A → Bool) (k : Str) (d : List (Str × A)) (a : A)
    → all (λ e. p e.1) d ≡ true
    → lookup k d ≡ some a
    → p a ≡ true
lookup-all p k [] a h e = absurd (ground (arith, e))
lookup-all p k ((s, b) ∷ d) a h e = elim (Bool-cases (str_beq k s)) [
  | inl t ↦ subst (λ x. p x ≡ true) (some_inj (rw t at e)) (ground (arith, h))
  | inr t ↦ lookup-all p k d a (ground (arith, h)) (rw t at e)
]

-- whether a value is its own canonical form, and no placeholder
is_fixed : (Str → Str) → List (Str × Str) → Str → Bool
is_fixed key table v = lookup (key v) table == some v && not (is_placeholder v)

-- the columns whose normalizer looks the whole value up
abbrev pub table_columns : List Str
table_columns =
    codes "panel_type" ∷ codes "efficiency_rating" ∷ codes "interface" ∷ codes "modularity" ∷ []

panel_fixed : all (λ e. is_fixed upper_key panel_canonical e.1) panel_canonical ≡ true
unfolding is_fixed is_placeholder
panel_fixed = refl

efficiency_fixed :
    all (λ e. is_fixed efficiency_key efficiency_canonical e.1) efficiency_canonical ≡ true
unfolding is_fixed is_placeholder
efficiency_fixed = refl

interface_fixed : all (λ e. is_fixed upper_key interface_canonical e.1) interface_canonical ≡ true
unfolding is_fixed is_placeholder
interface_fixed = refl

modularity_fixed :
    all (λ e. is_fixed modularity_key modularity_canonical e.1) modularity_canonical ≡ true
unfolding is_fixed is_placeholder
modularity_fixed = refl

found : (o : Str) (r : Option Str) → (r == some o) ≡ true → r ≡ some o
found o none h = absurd (ground (arith, h))
found o (some x) h = ap some ((str_beq_iff x o).0 h)

-- A column whose normalizer looks a value up in a table of fixed values.
module _ (key : Str → Str) (table : List (Str × Str))
    (fixed : all (λ e. is_fixed key table e.1) table ≡ true) where
  lookup_again :
      (v o : Str)
      → lookup (key v) table ≡ some o
      → (lookup (key o) table ≡ some o) × (is_placeholder o ≡ false)
  unfolding is_fixed
  lookup_again v o e =
      let h = lookup-all (is_fixed key table) (key v) table o fixed e in
      let parts : ((lookup (key o) table == some o) ≡ true) × (is_placeholder o ≡ false) =
        ground (arith, h) in
      (found o (lookup (key o) table) parts.0, parts.1)

  column_again :
      (column v o : Str) (category : Option Str)
      → normalizer_of column ≡ some (λ x. lookup (key x) table)
      → category_normalizer category column ≡ none
      → normalize_spec_value column v category ≡ some o
      → normalize_spec_value column o category ≡ some o
  unfolding normalize_spec_value
  column_again column v o category general special e = elim (Bool-cases (is_placeholder v)) [
    | inl t ↦ absurd (ground (arith, rw t at e))
    | inr t ↦
        let (same, says) = lookup_again v o (rw (t, special, general) at e) in
        rw (says, special, general) same
  ]

not_special :
    (category : Option Str) (column : Str)
    → str_beq column (codes "chipset") ≡ false
    → str_beq column (codes "memory_type") ≡ false
    → category_normalizer category column ≡ none
unfolding category_normalizer
not_special category column c m = elim (Bool-cases (get_or category [] == codes "GPU")) [
  | inl t ↦ rw (t, c, m) refl
  | inr t ↦ rw t refl
]

-- what is shown of a column: its results stay as they are
IsStable : Str → Type 0
IsStable column =
    (v o : Str) (category : Option Str)
    → normalize_spec_value column v category ≡ some o
    → normalize_spec_value column o category ≡ some o

IsStable-at : (column name : Str) → str_beq column name ≡ true → IsStable name → IsStable column
IsStable-at column name e h = subst IsStable (sym ((str_beq_iff column name).0 e)) h

panel-IsStable : IsStable (codes "panel_type")
unfolding IsStable normalizer_of normalize_panel_type
panel-IsStable v o category =
    column_again upper_key panel_canonical panel_fixed (codes "panel_type") v o category refl
      (not_special category (codes "panel_type") refl refl)

efficiency-IsStable : IsStable (codes "efficiency_rating")
unfolding IsStable normalizer_of normalize_efficiency
efficiency-IsStable v o category =
    column_again efficiency_key efficiency_canonical efficiency_fixed (codes "efficiency_rating") v
      o category refl (not_special category (codes "efficiency_rating") refl refl)

interface-IsStable : IsStable (codes "interface")
unfolding IsStable normalizer_of normalize_interface
interface-IsStable v o category =
    column_again upper_key interface_canonical interface_fixed (codes "interface") v o category refl
      (not_special category (codes "interface") refl refl)

modularity-IsStable : IsStable (codes "modularity")
unfolding IsStable normalizer_of normalize_modularity
modularity-IsStable v o category =
    column_again modularity_key modularity_canonical modularity_fixed (codes "modularity") v o
      category refl (not_special category (codes "modularity") refl refl)

table-IsStable : (column : Str) → mem_str column table_columns ≡ true → IsStable column
table-IsStable column h = elim (Bool-cases (str_beq column (codes "panel_type"))) [
  | inl e ↦ IsStable-at column (codes "panel_type") e panel-IsStable
  | inr e ↦ elim (Bool-cases (str_beq column (codes "efficiency_rating"))) [
    | inl f ↦ IsStable-at column (codes "efficiency_rating") f efficiency-IsStable
    | inr f ↦ elim (Bool-cases (str_beq column (codes "interface"))) [
      | inl g ↦ IsStable-at column (codes "interface") g interface-IsStable
      | inr g ↦
          IsStable-at column (codes "modularity") (ground (arith, rw (e, f, g) at h))
            modularity-IsStable
    ]
  ]
]

-- A value that `normalize_spec_value` gives for a column with a table is its own canonical form.
pub normalize_spec_value-again :
    (column v o : Str) (category : Option Str)
    → mem_str column table_columns ≡ true
    → normalize_spec_value column v category ≡ some o
    → normalize_spec_value column o category ≡ some o
unfolding IsStable
normalize_spec_value-again column v o category h = table-IsStable column h v o category
