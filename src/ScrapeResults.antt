-- ===== src/ScrapeResults.antt =====
-- `check_upload` of src/pipeline/scrape_results.py: which uploads may be parsed.
pub mod Gate
pub mod Prices
pub mod Listing
pub mod Single
pub mod Processing
pub mod NextPage
pub mod Steps
pub mod Processor
pub mod Saved
pub mod Usable
pub mod Seen
pub mod Fresh
pub mod Counts
mod ProcessTests
mod GateTests
use pc_builder.Shared.{
  ℕ, ◌+◌, ◌*◌, Bool, false, not, ◌&&◌, ◌||◌, Option, none, some, List, [], ◌∷◌, ◌++◌, ltb, leb,
  if◌then◌else◌, ◌==◌, nat_eq, option_eq, get_or, length, any, Str, codes, str_eq, is_empty, lower,
  has_substring, show_nat,
}
use pc_builder.Url.{urlsplit, hostname, UrlParts}
use pc_builder.Db.{Store}
use pc_builder.JobQueue.Config.{host_belongs_to_store}
use pc_builder.Planner.{Expects, json, html}
use pc_builder.Url.Quoting.{utf8}

abbrev pub max_body_bytes : ℕ
max_body_bytes = 5 * 1024 * 1024

pub record Upload : Type 0 where
  pub final_url : Option Str
  pub http_status : Option ℕ
  pub content_type : Option Str
  pub body : Option Str
  pub error : Option Str

-- the statuses that `check_upload` returns
pub data GateStatus : Type 0 where
  retry rejected blocked failed : GateStatus

-- `_outcome`, with the "http_status" of a page that is gone
pub record GateOutcome : Type 0 where
  pub status : GateStatus
  pub reason : Str
  pub http_status : Option ℕ

abbrev outcome : GateStatus → Str → GateOutcome
outcome status reason = record { status = status; reason = reason; http_status = none }

-- `len(text.encode("utf-8"))`
unfoldable pub byte_length : Str → ℕ
unfolding utf8
byte_length [] = 0
byte_length (c ∷ s) = length (utf8 c) + byte_length s

-- _CHALLENGE_MARKERS and `_is_challenge_body` of src/scrapers/generic_scraper.py
abbrev challenge_markers : List Str
challenge_markers =
    codes "Just a moment"
    ∷ codes "_cf_chl_opt"
    ∷ codes "cType:"
    ∷ codes "Enable JavaScript and cookies to continue"
    ∷ []

unfoldable pub is_challenge_body : Str → Bool
is_challenge_body text = any (has_substring text) challenge_markers

abbrev login_paths : List Str
login_paths =
    codes "/login"
    ∷ codes "/signin"
    ∷ codes "/sign-in"
    ∷ codes "/account/login"
    ∷ codes "route=account/login"
    ∷ codes "my-account"
    ∷ []

abbrev in_paths : UrlParts → Bool
in_paths parts = any (has_substring (lower (parts.path ++ codes "?" ++ parts.query))) login_paths

-- `_looks_like_login`
unfoldable pub looks_like_login : Str → Bool
unfolding urlsplit
looks_like_login final_url = elim (urlsplit final_url) [ none ↦ false | some u ↦ in_paths u ]

-- `up.body or ""`
abbrev pub text_or_empty : Option Str → Str
text_or_empty text = get_or text []

-- None where `urlsplit` raises
unfoldable pub final_host : Upload → Option Str
unfolding urlsplit hostname
final_host up = elim (urlsplit (text_or_empty up.final_url)) [
  | none ↦ none
  | some parts ↦ some (lower (text_or_empty (hostname parts)))
]

unfoldable pub on_store : Store → Str → Bool
unfolding host_belongs_to_store
on_store store host =
    not (is_empty host) && host_belongs_to_store host (lower (text_or_empty store.domain))

abbrev pub is_given : Option Str → Bool
is_given none = false
is_given (some s) = not (is_empty s)

abbrev pub wanted : Expects → Str
wanted json = codes "json"
wanted html = codes "html"

-- `repr` of a text without quotes, backslashes and control characters
abbrev repr : Str → Str
repr s = codes "'" ++ s ++ codes "'"

abbrev repr_or_none : Option Str → Str
repr_or_none none = codes "None"
repr_or_none (some s) = repr s

abbrev host_or_none : Str → Str
host_or_none host = if is_empty host then codes "(none)" else host

abbrev wrong_host : Store → Str → Str
wrong_host store host =
    codes "final URL host "
    ++ repr (host_or_none host)
    ++ codes " is not "
    ++ get_or store.domain (codes "None")

abbrev wrong_type : Option Str → Str → Str
wrong_type content_type expected =
    codes "content type " ++ repr_or_none content_type ++ codes ", expected " ++ expected

abbrev fetch_error : Option Str → Str
fetch_error error =
    codes "fetch error: "
    ++ (if is_given error then text_or_empty error else codes "no HTTP status")

unfoldable pub http : ℕ → Str
unfolding show_nat
http status = codes "HTTP " ++ show_nat status

-- The checks of the status and the content type.
unfoldable pub check_answer : Upload → Expects → ℕ → Option GateOutcome
unfolding show_nat http
check_answer up expects status =
    if status == 429 || leb 500 status
    then some (outcome retry (http status))
    else if status == 401 || status == 403
    then some (outcome blocked (http status))
    else if status == 404 || status == 410
    then some (record (outcome failed (http status)) { http_status = some status })
    else if not (leb 200 status && ltb status 300)
    then some (outcome failed (http status))
    else if not (has_substring (lower (text_or_empty up.content_type)) (wanted expects))
    then some (outcome rejected (wrong_type up.content_type (wanted expects)))
    else none

-- the checks that need a host
unfoldable pub check_page : Store → Upload → Expects → ℕ → Str → Option GateOutcome
unfolding is_challenge_body looks_like_login on_store check_answer show_nat http
check_page store up expects status host =
    if not (on_store store host)
    then some (outcome rejected (wrong_host store host))
    else if is_challenge_body (text_or_empty up.body)
    then some (outcome blocked (codes "challenge page (" ++ http status ++ codes ")"))
    else if looks_like_login (text_or_empty up.final_url)
    then some (outcome blocked (codes "redirected to a login page"))
    else check_answer up expects status

-- What `check_upload` gives, or the ValueError of `urlsplit`.
pub data GateAnswer : Type 0 where
  passed : GateAnswer
  stopped : GateOutcome → GateAnswer
  raised : GateAnswer

abbrev pub gate_of : Option GateOutcome → GateAnswer
gate_of none = passed
gate_of (some o) = stopped o

unfoldable pub check_status : Store → Upload → Expects → ℕ → GateAnswer
unfolding byte_length final_host check_page
check_status store up expects status =
    if ltb max_body_bytes (byte_length (text_or_empty up.body))
    then stopped (outcome rejected (codes "body over 5 MB"))
    else elim (final_host up) [
      | none ↦ raised
      | some host ↦ gate_of (check_page store up expects status host)
    ]

unfoldable pub check_upload : Store → Upload → Expects → GateAnswer
unfolding check_status
check_upload store up expects = elim up.http_status [
  | none ↦ stopped (outcome retry (fetch_error up.error))
  | some status ↦
      if is_given up.error
      then stopped (outcome retry (fetch_error up.error))
      else check_status store up expects status
]
