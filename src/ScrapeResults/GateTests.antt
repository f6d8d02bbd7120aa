-- ===== src/ScrapeResults/GateTests.antt =====
-- Uploads that pass and that do not.
use pc_builder.Shared.{◌≡◌, refl, ◌↔◌, true, none, some, nat_eq, option_eq, codes, str_eq}
use pc_builder.Db.{Store}
use pc_builder.Planner.{html}
use pc_builder.ScrapeResults.{Upload, passed, stopped, check_upload, blocked, failed}
use pc_builder.ScrapeResults.Gate.{IsParsable, check_upload-IsParsable}

abbrev shop : Store
shop = record {
  id = 1;
  name = codes "shop";
  domain = some (codes "Shop.in");
  base_url = none;
  search_endpoint = codes "https://www.shop.in/search?q={query}";
  search_config = none;
  product_config = none;
  active = true;
  min_fetch_interval_s = 10;
  next_fetch_at = none;
}

abbrev listing : Upload
listing = record {
  final_url = some (codes "https://www.shop.in/cpus?page=2");
  http_status = some 200;
  content_type = some (codes "text/HTML; charset=utf-8");
  body = some (codes "<html></html>");
  error = none;
}

abbrev gone : Upload
gone = record listing { http_status = some 404 }

abbrev login : Upload
login = record listing { final_url = some (codes "https://www.shop.in/Login?next=cpus") }

gone_page :
    check_upload shop gone html
    ≡ stopped (record { status = failed; reason = codes "HTTP 404"; http_status = some 404 })
unfolding check_upload
gone_page = refl

login_page :
    check_upload shop login html
    ≡ stopped (record {
      status = blocked;
      reason = codes "redirected to a login page";
      http_status = none;
    })
unfolding check_upload
login_page = refl

check_upload-IsParsable_example :
    (check_upload shop listing html ≡ passed) ↔ IsParsable shop listing html
check_upload-IsParsable_example = check_upload-IsParsable shop listing html

passes : check_upload shop listing html ≡ passed
unfolding check_upload
passes = refl
