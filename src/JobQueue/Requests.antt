-- ===== src/JobQueue/Requests.antt =====
-- The requests that `insert_job` of src/pipeline/job_queue.py admits, written as conditions on them.
use mathlib.Core.Path.{subst}
use pc_builder.Shared.{
  ℕ, ◌≡◌, refl, ◌≢◌, ◌↔◌, ◌⊎◌, inl, inr, Bool, true, false, ◌&&◌, ◌||◌, Option, none, some, List,
  [], ◌∷◌, arith, ◌==◌, nat_eq, option_eq, Bool-cases, Option-cases, get_or, some_inj, any, all,
  insert_sorted, Str, codes, str_beq_iff, str_eq, mem_str, is_empty, lower, str_leb, get_row,
}
use pc_builder.Url.{UrlParts, urlsplit, hostname}
use pc_builder.Db.{ScrapeJob, Store, Db}
use pc_builder.Db.Job.{job_types, is_queued, is_leased}
use pc_builder.JobQueue.Config.{ok, allowed_headers}
use pc_builder.JobQueue.Hosts.{IsWithin, host_belongs_iff}
use pc_builder.JobQueue.Insert.{
  NewJob, validate, no_extra, extra_headers, same_page, has_row, has_references,
}

abbrev header_allowed : Str × Str → Bool
header_allowed h = mem_str h.0 allowed_headers

-- A foreign key that is NULL or one of the ids.
abbrev IsId {ℓ} : {A : Type ℓ} → Option ℕ → (A → ℕ) → List A → Type 0
IsId key id_of rows = (id : ℕ) → key ≡ some id → any (λ r. id_of r == id) rows ≡ true

-- a queued or leased job of the page
abbrev live_page : ℕ → Str → ScrapeJob → Bool
live_page store_id url job =
    (is_queued job.status || is_leased job.status) && job.store_id == store_id && job.url == url

-- The request itself is one that the queue may hold.
pub record Valid (new : NewJob) (db : Db) : Type 0 where
  pub type_known : mem_str new.job_type job_types ≡ true
  pub headers_allowed : all header_allowed new.headers ≡ true
  pub store : Store
  pub store_row : get_row (λ s. s.id) new.store_id db.stores ≡ some store
  pub domain : Str
  pub has_domain : store.domain ≡ some domain
  pub domain_set : is_empty domain ≡ false
  pub parts : UrlParts
  pub parsed : urlsplit new.url ≡ some parts
  pub https : parts.scheme ≡ codes "https"
  pub on_store : IsWithin (lower (get_or (hostname parts) [])) (lower domain)

-- The page of a request is live, or the rows that the request points to are there.
abbrev References : NewJob → Db → Type 0
References new db =
    (any (live_page new.store_id new.url) db.jobs ≡ true)
    ⊎ (IsId new.target_id (λ t. t.id) db.catalog.targets
        × IsId new.product_id (λ p. p.id) db.catalog.products
        × IsId new.parent_job_id (λ j. j.id) db.jobs)

-- The request is valid, and its page is live or the rows that it points to are there.
pub record Admissible (new : NewJob) (db : Db) : Type 0 where
  pub valid : Valid new db
  pub references : References new db

not_nil-insert_sorted : (s : Str) (ss : List Str) → insert_sorted str_leb s ss ≢ []
not_nil-insert_sorted s [] e = cc
not_nil-insert_sorted s (t ∷ ss) e = ground arith

extra_headers_none :
    (hs : List (Str × Str)) → (extra_headers hs ≡ []) ↔ (all header_allowed hs ≡ true)
unfolding extra_headers
extra_headers_none [] = (λ _. refl, λ _. refl)
extra_headers_none (h ∷ hs) = elim (Bool-cases (header_allowed h)) [
  | inl e ↦ rw e (extra_headers_none hs)
  | inr e ↦ rw e (λ p. absurd (not_nil-insert_sorted h.0 _ p), λ p. cc)
]

no_extra-nil : (ss : List Str) → no_extra ss ≡ true → ss ≡ []
no_extra-nil [] h = refl
no_extra-nil (s ∷ ss) h = cc

pub validate-Valid : (new : NewJob) (db : Db) → validate new db ≡ ok tt → Valid new db
unfolding validate
validate-Valid new db h = elim (Option-cases (get_row (λ s. s.id) new.store_id db.stores)) [
  | inl e ↦ absurd (ground arith)
  | inr (store, e) ↦ elim (Option-cases store.domain) [
    | inl e₂ ↦ absurd (ground arith)
    | inr (domain, e₂) ↦ elim (Option-cases (urlsplit new.url)) [
      | inl e₃ ↦ absurd (ground arith)
      | inr (parts, e₃) ↦ record {
        type_known = ground arith;
        headers_allowed =
            (extra_headers_none new.headers).0
              (no_extra-nil (extra_headers new.headers) (ground arith));
        store = store;
        store_row = e;
        domain = domain;
        has_domain = e₂;
        domain_set = ground arith;
        parts = parts;
        parsed = e₃;
        https = ground (arith, str_beq_iff parts.scheme (codes "https"));
        on_store = (host_belongs_iff _ (lower domain)).0 (ground arith);
      }
    ]
  ]
]

pub Valid-validate : (new : NewJob) (db : Db) → Valid new db → validate new db ≡ ok tt
unfolding validate
Valid-validate new db a = ground (
  arith,
  (extra_headers_none new.headers).1 a.headers_allowed,
  str_beq_iff a.parts.scheme (codes "https"),
  (host_belongs_iff _ (lower a.domain)).1 a.on_store,
)

has_row_iff {ℓ} :
    {A : Type ℓ} (id_of : A → ℕ) (key : Option ℕ) (rows : List A)
    → (has_row id_of key rows ≡ true) ↔ IsId key id_of rows
has_row_iff id_of none rows = (λ _ id e. cc, λ _. refl)
has_row_iff id_of (some id) rows =
    (λ h k e. subst (λ x. any (λ r. id_of r == x) rows ≡ true) (some_inj e) h, λ h. h id refl)

live_page-same :
    (store_id : ℕ) (url : Str) (jobs : List ScrapeJob)
    → any (live_page store_id url) jobs ≡ any (same_page store_id url) jobs
unfolding same_page
live_page-same store_id url jobs = refl

unfoldable pub may_refer : NewJob → Db → Bool
may_refer new db = any (same_page new.store_id new.url) db.jobs || has_references new db

pub may_refer_iff : (new : NewJob) (db : Db) → (may_refer new db ≡ true) ↔ References new db
unfolding may_refer same_page has_references
may_refer_iff new db = ground (
  arith,
  has_row_iff (λ t. t.id) new.target_id db.catalog.targets,
  has_row_iff (λ p. p.id) new.product_id db.catalog.products,
  has_row_iff (λ j. j.id) new.parent_job_id db.jobs,
)
