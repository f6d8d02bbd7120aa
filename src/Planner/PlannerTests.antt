-- ===== src/Planner/PlannerTests.antt =====
-- Runs of the request planner, and a store for which its results hold.
use pc_builder.Shared.{◌≡◌, refl, true, none, some, [], ◌∷◌, nat_eq, option_eq, codes, str_eq}
use mathlib.Core.Option
use pc_builder.Db.{Store}
use pc_builder.JobQueue.Insert.{extra_headers}
use pc_builder.Planner.Expected.{plan_category_page-expects}
use pc_builder.Planner.{
  listing_expects, PlannedRequest, json, plan_search_page, plan_category_page, plan_product_page,
}
use pc_builder.Url.Quoting.{quote_plus}
use pc_builder.Planner.Headers.{plan_category_page-allowed}

abbrev fleet : Store
fleet = record {
  id = 2;
  name = codes "fleet";
  domain = some (codes "fleet.in");
  base_url = some (codes "https://fleet.in/");
  search_endpoint = codes "https://fleet.in/search?q={query}";
  search_config = some (record {
    platform = some (codes "fleetcart");
    page_endpoint = some (codes "https://fleet.in/p/{page}?q={query}");
  });
  product_config = none;
  active = true;
  min_fetch_interval_s = 10;
  next_fetch_at = none;
}

abbrev shopify : Store
shopify = record fleet {
  search_config = some (record { platform = some (codes "shopify"); page_endpoint = none });
}

abbrev cart : Store
cart = record fleet { search_config = none; base_url = some (codes "https://cart.in") }

quotes : quote_plus (codes "rtx 4070 (₹)") ≡ codes "rtx+4070+%28%E2%82%B9%29"
unfolding quote_plus
quotes = refl

searches_page_two :
    Option.map (λ r. r.url) (plan_search_page fleet (codes "i5 13400") 2)
    ≡ some (codes "https://fleet.in/p/2?q=i5+13400")
unfolding plan_search_page
searches_page_two = refl

lists_fleetcart :
    Option.map (λ r. r.url) (plan_category_page fleet (codes "product-category/cpu/") 3)
    ≡ some (codes "https://fleet.in/products?category=cpu&page=3")
unfolding plan_category_page
lists_fleetcart = refl

lists_shopify :
    Option.map (λ r. r.url) (plan_category_page shopify (codes "/collections/gpu") 2)
    ≡ some (codes "https://fleet.in/collections/gpu/products.json?limit=100&page=2")
unfolding plan_category_page
lists_shopify = refl

lists_paths :
    Option.map (λ r. r.url) (plan_category_page cart (codes "product-category/gpu/?a=1") 2)
    ≡ some (codes "https://cart.in/product-category/gpu/page/2/?a=1")
unfolding plan_category_page
lists_paths = refl

plans_product :
    Option.map (λ r. r.url) (plan_product_page shopify (codes "/products/x/"))
    ≡ some (codes "https://fleet.in/products/x.json")
unfolding plan_product_page
plans_product = refl

abbrev planned : PlannedRequest
planned = record {
  url = codes "https://fleet.in/products?category=cpu&page=3";
  headers =
      (codes "Accept", codes "application/json, text/plain, */*")
      ∷ (codes "X-Requested-With", codes "XMLHttpRequest")
      ∷ [];
  expects = json;
}

plan_category_page-allowed_example : extra_headers planned.headers ≡ []
unfolding plan_category_page
plan_category_page-allowed_example =
    plan_category_page-allowed fleet (codes "product-category/cpu/") 3 planned refl

plan_category_page-expects_example : planned.expects ≡ listing_expects fleet
unfolding plan_category_page
plan_category_page-expects_example =
    plan_category_page-expects fleet (codes "product-category/cpu/") 3 planned refl
