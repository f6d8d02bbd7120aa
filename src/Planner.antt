-- ===== src/Planner.antt =====
-- src/scrapers/request_planner.py: which URL and headers fetch a page of a store. None is an
-- exception: a null column where a text is used, or a format string with an unknown field.
pub mod Headers
pub mod Expected
mod PlannerTests
use mathlib.Core.Option
use pc_builder.Shared.{
  ℕ, Bool, false, not, ◌&&◌, ◌||◌, Option, none, some, List, [], ◌∷◌, ◌++◌, ltb, nat_beq,
  if◌then◌else◌, ◌==◌, nat_eq, option_eq, get_or, Str, codes, str_eq, is_empty, lstrip, rstrip,
  starts_with, ends_with, has_substring, partition, split_on, show_nat,
}
use pc_builder.Url.Quoting.{quote_plus, format, format_fuel}
use pc_builder.Db.{Store, SiteConfig}

infixl 5 ◌>>=◌
abbrev ◌>>=◌ {ℓ κ} : {A : Type ℓ} {B : Type κ} → Option A → (A → Option B) → Option B
none >>= f = none
some a >>= f = f a

abbrev shopify_page_size : ℕ
shopify_page_size = 100

pub data Expects : Type 0 where
  json html : Expects

pub record PlannedRequest : Type 0 where
  pub url : Str
  pub headers : List (Str × Str)
  pub expects : Expects

-- `config.get("platform")` if the column holds a dictionary
abbrev platform_of : Option SiteConfig → Option Str
platform_of none = none
platform_of (some config) = config.platform

unfoldable pub search_platform : Store → Option Str
search_platform store = platform_of store.search_config

unfoldable pub product_platform : Store → Option Str
product_platform store = elim store.product_config [
  | some config ↦ config.platform
  | none ↦ platform_of store.search_config
]

unfoldable pub listing_expects : Store → Expects
unfolding search_platform
listing_expects store =
    if search_platform store == some (codes "shopify")
      || search_platform store == some (codes "fleetcart")
    then json
    else html

abbrev is_slash : ℕ → Bool
is_slash c = nat_beq c b'/'

abbrev plain : Expects → Str → PlannedRequest
plain expects url = record { url = url; headers = []; expects = expects }

abbrev is_truthy : Option Str → Bool
is_truthy none = false
is_truthy (some s) = not (is_empty s)

unfoldable pub plan_search_page : Store → Str → ℕ → Option PlannedRequest
unfolding quote_plus format_fuel listing_expects show_nat format
plan_search_page store query page = do
  config ← store.search_config
  let q : Str × Str = (codes "query", quote_plus query)
  url ←
      if ltb 1 page && is_truthy config.page_endpoint
      then format (q ∷ (codes "page", show_nat page) ∷ []) (get_or config.page_endpoint [])
      else format (q ∷ []) store.search_endpoint
  some (plain (listing_expects store) url)

-- f"{store.base_url.rstrip('/')}/{path.lstrip('/')}"
abbrev on_base : Store → Str → Option Str
on_base store path = do
  base ← store.base_url
  some (rstrip is_slash base ++ codes "/" ++ lstrip is_slash path)

abbrev absolute_or : Str → Option Str → Option Str
absolute_or path other = if starts_with path (codes "http") then some path else other

abbrev pub is_shopify : Option Str → Bool
is_shopify platform = platform == some (codes "shopify")

abbrev product_url : Option Str → Str → Str
product_url platform url =
    if is_shopify platform
      && not (ends_with url (codes ".json"))
      && not (has_substring url (codes "?"))
    then rstrip is_slash url ++ codes ".json"
    else url

unfoldable pub plan_product_page : Store → Str → Option PlannedRequest
unfolding product_platform
plan_product_page store path = do
  url ← absolute_or path (on_base store path)
  some (
      plain (if is_shopify (platform_of store.product_config) then json else html)
        (product_url (product_platform store) url))

-- "&page=2" or "?page=2"
unfoldable pub with_page : Str → ℕ → Str
unfolding show_nat
with_page url page =
    url
    ++ (if has_substring url (codes "?") then codes "&page=" else codes "?page=")
    ++ show_nat page

unfoldable pub shopify_url : Store → Str → ℕ → Option Str
unfolding show_nat with_page
shopify_url store endpoint page =
    let clean_ep = lstrip is_slash endpoint in
    absolute_or endpoint (do
      base ← store.base_url
      let site = rstrip is_slash base ++ codes "/" ++ clean_ep
      let listing = site ++ codes "/products.json?limit=" ++ show_nat shopify_page_size
      some (
          if has_substring clean_ep (codes "products.json")
          then (if ltb 1 page then with_page site page else site)
          else (if ltb 1 page then listing ++ codes "&page=" ++ show_nat page else listing)))

abbrev last_of : Str → List Str → Str
last_of s [] = s
last_of s (t ∷ ts) = last_of t ts

unfoldable pub fleetcart_url : Store → Str → ℕ → Option Str
unfolding show_nat
fleetcart_url store endpoint page = do
  base ← store.base_url
  let clean_ep = last_of [] (split_on b'/' (rstrip is_slash (lstrip is_slash endpoint)))
  some (
      rstrip is_slash base
      ++ codes "/products?category="
      ++ clean_ep
      ++ codes "&page="
      ++ show_nat page)

unfoldable pub computech_url : Str → ℕ → Str
unfolding show_nat with_page
computech_url base page = if page == 1 then base else with_page base page ++ codes "&sort=newest"

unfoldable pub modx_url : Str → ℕ → Str
unfolding show_nat
modx_url base page =
    if has_substring base (codes "?")
    then (if ltb 1 page then base ++ codes "&page=" ++ show_nat page else base)
    else if ltb 1 page
    then base ++ codes "?in_stock=true&page=" ++ show_nat page
    else base ++ codes "?in_stock=true"

-- WooCommerce's path pagination
unfoldable pub path_page : Str × Option Str → ℕ → Str
unfolding show_nat
path_page (path, none) page = rstrip is_slash path ++ codes "/page/" ++ show_nat page ++ codes "/"
path_page (path, some query) page =
    rstrip is_slash path ++ codes "/page/" ++ show_nat page ++ codes "/?" ++ query

unfoldable pub default_url : Str → ℕ → Str
unfolding show_nat with_page path_page
default_url base page =
    if page == 1
    then base
    else if has_substring base (codes "buy-online-price-india")
        || has_substring base (codes "product-category")
        || has_substring base (codes "/page/")
    then path_page (partition b'?' base) page
    else with_page base page

-- f"{store.base_url}/…" writes None where the column is null
abbrev default_base : Store → Str → Str
default_base store endpoint =
    if starts_with endpoint (codes "http")
    then endpoint
    else get_or store.base_url (codes "None") ++ codes "/" ++ lstrip is_slash endpoint

abbrev pub fleetcart_headers : List (Str × Str)
fleetcart_headers =
    (codes "Accept", codes "application/json, text/plain, */*")
    ∷ (codes "X-Requested-With", codes "XMLHttpRequest")
    ∷ []

abbrev pub request : Expects → List (Str × Str) → Str → PlannedRequest
request expects headers url = record { url = url; headers = headers; expects = expects }

unfoldable pub plan_category_page : Store → Str → ℕ → Option PlannedRequest
unfolding search_platform shopify_url fleetcart_url show_nat computech_url modx_url default_url
plan_category_page store endpoint page =
    let base = absolute_or endpoint (on_base store endpoint) in
    if is_shopify (search_platform store)
    then Option.map (request json []) (shopify_url store endpoint page)
    else if search_platform store == some (codes "fleetcart")
    then Option.map (request json fleetcart_headers) (fleetcart_url store endpoint page)
    else if store.name == codes "computechstore"
    then Option.map
        (λ b. request html ((codes "HX-Request", codes "true") ∷ []) (computech_url b page)) base
    else if store.name == codes "modxcomputers"
    then Option.map (λ b. request html [] (modx_url b page)) base
    else some (request html [] (default_url (default_base store endpoint) page))
