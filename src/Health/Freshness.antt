-- ===== src/Health/Freshness.antt =====
-- src/pipeline/checks.py: the checks that the worker runs after its tasks. Times are UTC; a check
-- that raises gives its error.
use pc_builder.Shared.{
  ℕ, Bool, not, ◌&&◌, ◌||◌, Option, none, some, List, [], ◌∷◌, map, ltb, if◌then◌else◌, ◌==◌,
  nat_eq, option_eq, get_or, is_none, is_some, length, any, filter, sort, Str, codes, str_eq,
  mem_str, str_leb,
}
use pc_builder.Health.{hours, is_stale}

abbrev pub backlog_categories : List Str
backlog_categories =
    codes "CPU"
    ∷ codes "Motherboard"
    ∷ codes "GPU"
    ∷ codes "Storage"
    ∷ codes "Power Supply"
    ∷ codes "CPU Cooler"
    ∷ codes "Cabinet"
    ∷ codes "Monitor"
    ∷ codes "RAM"
    ∷ []

-- the columns of products that are read
pub record BacklogRow : Type 0 where
  pub id : ℕ
  pub p_category : Option Str
  pub canonical_id : Option Str
  pub spec_status : Str

-- canonical_id and spec_status
abbrev pub State : Type 0
State = Option Str × Str

abbrev state : BacklogRow → ℕ × State
state r = (r.id, (r.canonical_id, r.spec_status))

abbrev in_backlog : BacklogRow → Bool
in_backlog r = mem_str (get_or r.p_category []) backlog_categories && is_none r.canonical_id

unfoldable pub backlog_snapshot : List BacklogRow → List (ℕ × State)
backlog_snapshot rows = map state (filter in_backlog rows)

unfoldable pub state_of : List BacklogRow → List ℕ → List (ℕ × State)
state_of rows ids = map state (filter (λ r. any (λ id. id == r.id) ids) rows)

-- after.get(pid, default)
abbrev pub state_after : List (ℕ × State) → ℕ → State → State
state_after [] pid default = default
state_after ((id, s) ∷ after) pid default = if id == pid then s else state_after after pid default

abbrev pub has_moved : State → State → Bool
has_moved (before_canonical, before_status) (after_canonical, after_status) =
    (is_none before_canonical && is_some after_canonical)
    || (not (after_status == before_status) && not (after_status == codes "failed"))

unfoldable pub count_extraction_progress : List (ℕ × State) → List (ℕ × State) → ℕ
count_extraction_progress before after =
    length (filter (λ x. has_moved x.1 (state_after after x.0 x.1)) before)

pub data CheckError : Type 0 where
  no_extractions : ℕ → CheckError
  stale_prices : List (Str × Option ℕ) → CheckError

unfoldable pub check_extraction_progress : ℕ → ℕ → Option CheckError
check_extraction_progress backlog_before progress =
    if ltb 0 backlog_before && progress == 0 then some (no_extractions backlog_before) else none

abbrev pub price_max_age : ℕ
price_max_age = hours 24

abbrev pub price_data_is_stale : Option ℕ → ℕ → ℕ → Bool
price_data_is_stale latest now max_age = is_stale max_age now latest

abbrev pub names : List (Str × Option ℕ) → List Str
names = map (λ x. x.0)

unfoldable pub stale_stores : List (Str × Option ℕ) → ℕ → ℕ → List Str
stale_stores latest_by_store now max_age =
    sort str_leb (names (filter (λ x. price_data_is_stale x.1 now max_age) latest_by_store))

-- latest_by_store[name], for a name that is there
abbrev latest_of : List (Str × Option ℕ) → Str → Option ℕ
latest_of [] name = none
latest_of ((key, t) ∷ rest) name = if key == name then t else latest_of rest name

-- `check_price_freshness`, for the latest prices of the active stores
unfoldable pub check_price_freshness : List (Str × Option ℕ) → ℕ → Option CheckError
unfolding stale_stores
check_price_freshness latest_by_store now = elim (stale_stores latest_by_store now price_max_age) [
  | [] ↦ none
  | (name ∷ rest) ↦ some (stale_prices (map (λ n. (n, latest_of latest_by_store n)) (name ∷ rest)))
]
