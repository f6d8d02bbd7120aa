-- ===== src/Matching/PsuTrims.antt =====
-- src/matching/psu_identity.py: the efficiency trims of the listings of one power supply.
use pc_builder.Shared.{
  ℕ, ◌≡◌, Bool, false, ◌&&◌, ◌||◌, Option, none, some, List, [], ◌∷◌, map, arith, if◌then◌else◌,
  ◌==◌, nat_eq, option_eq, get_or, any, filter, Str, codes, str_eq, mem_str, is_empty, lower, strip,
}
use pc_builder.Matching.Keys.{normalize_efficiency_trim}

-- the columns of psu_title_extractions that are read or written
pub record PsuRow : Type 0 where
  pub product_id : ℕ
  pub brand : Option Str
  pub model_number : Option Str
  pub wattage : Option ℕ
  pub efficiency_rating : Option Str
  pub status : Str

abbrev folded : Option Str → Str
folded s = lower (strip (get_or s []))

-- two rows have the same `_group_key`
abbrev pub same_group : PsuRow → PsuRow → Bool
same_group a b =
    folded a.brand == folded b.brand
    && folded a.model_number == folded b.model_number
    && a.wattage == b.wattage

abbrev pub trim_of : PsuRow → Str
trim_of r = normalize_efficiency_trim r.efficiency_rating

-- the different trims that rows state
unfoldable pub stated : List PsuRow → List Str
unfolding normalize_efficiency_trim
stated [] = []
stated (r ∷ rs) =
    let rest = stated rs in
    if is_empty (trim_of r) || mem_str (trim_of r) rest then rest else trim_of r ∷ rest

unfoldable pub resolve_group_trim : List PsuRow → Option Str
unfolding stated
resolve_group_trim rows = elim (stated rows) [
  | [] ↦ none
  | (t ∷ ts) ↦ elim ts [ [] ↦ some t | (u ∷ us) ↦ none ]
]

abbrev pub is_covered : List ℕ → PsuRow → Bool
is_covered [] r = r.status == codes "ok"
is_covered (p ∷ ps) r = r.status == codes "ok" && any (λ q. q == r.product_id) (p ∷ ps)

abbrev group_of_row : List ℕ → List PsuRow → PsuRow → List PsuRow
group_of_row ids rows r = filter (λ q. is_covered ids q && same_group q r) rows

-- what becomes of a listing that states no trim, by the trims that its group states
abbrev fill : List Str → PsuRow → PsuRow
fill [] r = r
fill (t ∷ []) r = record r { efficiency_rating = some t }
fill (t ∷ u ∷ ts) r = record r { status = codes "needs_review" }

unfoldable pub reconcile_row : List ℕ → List PsuRow → PsuRow → PsuRow
unfolding stated normalize_efficiency_trim
reconcile_row ids rows r =
    if is_covered ids r && is_empty (trim_of r)
    then fill (stated (group_of_row ids rows r)) r
    else r

-- `reconcile_group_trims`: the rows after the pass
unfoldable pub reconcile_group_trims : List ℕ → List PsuRow → List PsuRow
unfolding reconcile_row
reconcile_group_trims ids rows = map (reconcile_row ids rows) rows

-- A pass leaves each listing that states a trim as it was.
pub reconcile_row-stated :
    (ids : List ℕ) (rows : List PsuRow) (r : PsuRow)
    → is_empty (trim_of r) ≡ false
    → reconcile_row ids rows r ≡ r
unfolding reconcile_row
reconcile_row-stated ids rows r e = ground (arith, e)
