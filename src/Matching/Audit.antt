-- ===== src/Matching/Audit.antt =====
-- src/pipeline/identity_audit.py: models whose listings differ in size, and listings in the wrong
-- category. A check that raises gives the texts or rows that it names.
use pc_builder.Shared.{
  ℕ, ◌||◌, Option, none, some, List, [], ◌∷◌, ◌++◌, ltb, if◌then◌else◌, ◌==◌, nat_eq, option_eq,
  get_or, length, filter, Str, codes, str_eq, is_empty,
}
use pc_builder.Matching.Gpu.{memory_gb_from_title}
use pc_builder.Matching.Sizes.{storage_gb_from_title, psu_watts_from_title}
use pc_builder.Matching.Clearance.{add_number}
use pc_builder.Matching.Category.{get_p_category}

-- the columns of products that are read
pub record AuditRow : Type 0 where
  pub id : ℕ
  pub p_category : Option Str
  pub canonical_id : Option Str
  pub name : Option Str

-- SIZE_OF.get(category), applied to the title; none too for a category without a reader
unfoldable pub size_of : Option Str → Option Str → Option ℕ
unfolding memory_gb_from_title storage_gb_from_title psu_watts_from_title
size_of category title =
    if category == some (codes "GPU")
    then memory_gb_from_title title
    else if category == some (codes "Storage")
    then storage_gb_from_title title
    else if category == some (codes "Power Supply")
    then psu_watts_from_title title
    else none

-- sizes[cid].add(size), the sizes as a sorted list
abbrev pub add_size : Str → ℕ → List (Str × List ℕ) → List (Str × List ℕ)
add_size cid size [] = (cid, size ∷ []) ∷ []
add_size cid size ((key, sizes) ∷ rest) =
    if key == cid
    then (key, add_number size sizes) ∷ rest
    else (key, sizes) ∷ add_size cid size rest

abbrev add_listing : List (Str × List ℕ) → AuditRow → List (Str × List ℕ)
add_listing sizes r =
    let cid = get_or r.canonical_id [] in
    if is_empty cid
    then sizes
    else elim (size_of r.p_category r.name) [ none ↦ sizes | some size ↦ add_size cid size sizes ]

unfoldable pub sizes_of : List AuditRow → List (Str × List ℕ) → List (Str × List ℕ)
unfolding size_of
sizes_of [] sizes = sizes
sizes_of (r ∷ rs) sizes = sizes_of rs (add_listing sizes r)

unfoldable pub size_conflicts : List AuditRow → List (Str × List ℕ)
unfolding sizes_of
size_conflicts listings = filter (λ x. ltb 1 (length x.1)) (sizes_of listings [])

-- (id, p_category, where its title says it belongs)
pub record StrayListing : Type 0 where
  pub id : ℕ
  pub p_category : Str
  pub belongs : Str

abbrev pub stray_of : AuditRow → List StrayListing
stray_of r =
    let category = get_or r.p_category [] in
    let belongs = get_p_category (some category) r.name in
    if is_empty category || belongs == category
    then []
    else record { id = r.id; p_category = category; belongs = belongs } ∷ []

unfoldable pub category_strays : List AuditRow → List StrayListing
unfolding get_p_category
category_strays [] = []
category_strays (r ∷ rs) = stray_of r ++ category_strays rs
