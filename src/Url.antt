-- ===== src/Url.antt =====
-- `urllib.parse.urlsplit` and `SplitResult.hostname` of Python's standard library, for ASCII texts.
-- A host in brackets (an IPv6 address) is refused like the malformed ones that Python refuses.
pub mod Quoting
use mathlib.Core.Option
use mathlib.Core.List.{reverse}
use pc_builder.Shared.{
  ℕ, ◌≡◌, refl, Bool, false, not, ◌&&◌, ◌||◌, Option, none, some, [], ◌∷◌, ◌++◌, leb, if◌then◌else◌,
  ◌==◌, nat_eq, option_eq, any, all, filter, Str, codes, str_eq, is_empty, lower, is_digit, lstrip,
  drop_prefix, partition,
}

pub record UrlParts : Type 0 where
  pub scheme : Str
  pub netloc : Str
  pub path : Str
  pub query : Str

abbrev is_alpha : ℕ → Bool
is_alpha c = (leb b'a' c && leb c b'z') || (leb b'A' c && leb c b'Z')

abbrev is_scheme_char : ℕ → Bool
is_scheme_char c = is_alpha c || is_digit c || c == b'+' || c == b'-' || c == b'.'

abbrev is_scheme : Str → Bool
is_scheme [] = false
is_scheme (c ∷ s) = is_alpha c && all is_scheme_char s

-- `_WHATWG_C0_CONTROL_OR_SPACE`
abbrev is_control : ℕ → Bool
is_control c = leb c 32

-- `_UNSAFE_URL_BYTES_TO_REMOVE`
abbrev is_kept : ℕ → Bool
is_kept c = not (c == 9 || c == 10 || c == 13)

abbrev scheme_or_rest : Str → Str → Option Str → Str × Str
scheme_or_rest url s none = ([], url)
scheme_or_rest url s (some rest) = if is_scheme s then (lower s, rest) else ([], url)

abbrev split_scheme : Str → Str × Str
split_scheme url = let (s, rest) = partition b':' url in scheme_or_rest url s rest

-- the authority ends at the first `/`, `?` or `#`
abbrev split_netloc : Str → Str × Str
split_netloc [] = ([], [])
split_netloc (c ∷ s) =
    let r = split_netloc s in
    if c == b'/' || c == b'?' || c == b'#' then ([], c ∷ s) else (c ∷ r.0, r.1)

abbrev split_authority : Str → Str × Str
split_authority url = elim (drop_prefix (codes "//") url) [
  | none ↦ ([], url)
  | some rest ↦ split_netloc rest
]

abbrev has_bracket : Str → Bool
has_bracket = any (λ c. c == b'[' || c == b']')

abbrev query_of : Option Str → Str
query_of none = []
query_of (some q) = q

-- None is the ValueError.
unfoldable pub urlsplit : Str → Option UrlParts
urlsplit text =
    let url = filter is_kept (lstrip is_control text) in
    let (scheme, after_scheme) = split_scheme url in
    let (netloc, rest) = split_authority after_scheme in
    let (no_fragment, _) = partition b'#' rest in
    let (path, query) = partition b'?' no_fragment in
    if has_bracket netloc
    then none
    else some (record { scheme = scheme; netloc = netloc; path = path; query = query_of query })

-- `netloc.rpartition('@')[2]`
abbrev after_last_at : Str → Str
after_last_at s = reverse (partition b'@' (reverse s)).0

abbrev with_zone : Str → Option Str → Str
with_zone name none = lower name
with_zone name (some zone) = lower name ++ b'%' ∷ zone

abbrev lower_host : Str → Str
lower_host s = let (name, zone) = partition b'%' s in with_zone name zone

unfoldable pub hostname : UrlParts → Option Str
hostname u =
    let (host, _) = partition b':' (after_last_at u.netloc) in
    if is_empty host then none else some (lower_host host)

abbrev example_url : Option UrlParts
unfolding urlsplit
example_url = urlsplit (codes " HTTPS://me@Shop.Example.in:443/a/b?q=1#top")

urlsplit_example :
    (Option.map (λ u. u.scheme) example_url ≡ some (codes "https"))
    × (Option.bind example_url hostname ≡ some (codes "shop.example.in"))
    × (Option.map (λ u. u.path) example_url ≡ some (codes "/a/b"))
    × (Option.map (λ u. u.query) example_url ≡ some (codes "q=1"))
unfolding urlsplit hostname Option.bind
urlsplit_example = (refl, refl, refl, refl)
