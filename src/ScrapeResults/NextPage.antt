-- ===== src/ScrapeResults/NextPage.antt =====
-- How many pages a listing has, and the request for one, as `_max_pages` and `_plan_next_page` of
-- src/pipeline/scrape_results.py give them.
use mathlib.Core.Path.{subst}
use pc_builder.Shared.{
  ℕ, ◌≡◌, refl, ◌≢◌, inl, inr, Option, none, some, arith, nat_beq_iff, ◌==◌, nat_eq, option_eq,
  Bool-cases, Option-cases, get_or, some_inj, str_eq,
}
use pc_builder.Db.{Store}
use pc_builder.Db.Tables.{ScrapeTarget, ScheduleConfig, search_target}
use pc_builder.Planner.{PlannedRequest, plan_search_page, plan_category_page}
use pc_builder.ScrapeResults.Listing.{max_pages, plan_next_page}

-- The pages that a target may have: two, unless its schedule says otherwise; the schedule of a search
-- is not asked.
pub data AllowsPages (target : ScrapeTarget) : ℕ → Type 0 where
  search : target.target_type ≡ search_target → AllowsPages target 2
  no_config : target.schedule_config ≡ none → AllowsPages target 2
  no_limit :
      (c : ScheduleConfig)
      → target.schedule_config ≡ some c
      → c.max_pages ≡ none
      → AllowsPages target 2
  limited :
      (c : ScheduleConfig) (n : ℕ)
      → target.schedule_config ≡ some c
      → c.max_pages ≡ some (some n)
      → AllowsPages target n

-- The planner's request for a page of a target's listing.
pub data IsPlanned (store : Store) (target : ScrapeTarget) (page : ℕ) (r : PlannedRequest)
    : Type 0 where
  search :
      target.target_type ≡ search_target
      → plan_search_page store target.target_value page ≡ some r
      → IsPlanned store target page r
  category :
      target.target_type ≢ search_target
      → plan_category_page store target.target_value page ≡ some r
      → IsPlanned store target page r

pub plan_next_page-IsPlanned :
    (store : Store) (target : ScrapeTarget) (page : ℕ) (r : PlannedRequest)
    → plan_next_page store target page ≡ some r
    → IsPlanned store target page r
unfolding plan_next_page
plan_next_page-IsPlanned store target page r h =
    elim (Bool-cases (target.target_type == search_target)) [
      | inl e ↦ search ((nat_beq_iff target.target_type search_target).0 e) (rw e at h)
      | inr e ↦
          category (λ t. ground (arith, e, nat_beq_iff target.target_type search_target, t))
            (rw e at h)
    ]

config_pages :
    (target : ScrapeTarget) (c : ScheduleConfig) (limit : ℕ) (m : Option (Option ℕ))
    → target.schedule_config ≡ some c
    → c.max_pages ≡ m
    → get_or m (some 2) ≡ some limit
    → AllowsPages target limit
config_pages target c limit none s e h = subst (AllowsPages target) (some_inj h) (no_limit c s e)
config_pages target c limit (some (some n)) s e h =
    subst (AllowsPages target) (some_inj h) (limited c n s e)
config_pages target c limit (some none) s e h = cc

pub max_pages-AllowsPages :
    (target : ScrapeTarget) (limit : ℕ) → max_pages target ≡ some limit → AllowsPages target limit
unfolding max_pages
max_pages-AllowsPages target limit h = elim (Bool-cases (target.target_type == search_target)) [
  | inl e ↦
      subst (AllowsPages target) (some_inj (rw e at h))
        (search ((nat_beq_iff target.target_type search_target).0 e))
  | inr e ↦ elim (Option-cases target.schedule_config) [
    | inl n ↦ subst (AllowsPages target) (some_inj (rw (e, n) at h)) (no_config n)
    | inr (c, s) ↦ config_pages target c limit c.max_pages s refl (rw (e, s) at h)
  ]
]
