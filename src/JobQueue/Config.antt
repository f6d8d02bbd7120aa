-- ===== src/JobQueue/Config.antt =====
-- The constants of src/pipeline/job_queue.py, what its functions raise, the lease that is handed
-- out, and the two helpers that end a lease.
use pc_builder.Shared.{
  ℕ, ◌+◌, ◌-◌, ◌*◌, ◌^◌, Bool, ◌||◌, Option, none, refl, ◌≡◌, List, [], ◌∷◌, ◌==◌, nat_eq,
  option_eq, Str, codes, str_eq, ends_with,
}
use pc_builder.Db.{ScrapeJob, seconds}
use pc_builder.Db.Job.{queued}

abbrev pub allowed_headers : List Str
allowed_headers = codes "Accept" ∷ codes "X-Requested-With" ∷ codes "HX-Request" ∷ []

abbrev pub lease_seconds : ℕ
lease_seconds = 120

abbrev pub lease_window_seconds : ℕ
lease_window_seconds = 25

abbrev pub max_lease_batch : ℕ
max_lease_batch = 50

abbrev pub max_attempts : ℕ
max_attempts = 3

abbrev pub retry_base_seconds : ℕ
retry_base_seconds = 60

-- What `insert_job` and `complete` raise; `missing_reference` is the database's IntegrityError. `processor` is whatever the result processor raised.
pub data QueueError : Type 0 where
  unknown_job_type : Str → QueueError
  headers_not_allowed : List Str → QueueError
  store_has_no_domain : ℕ → QueueError
  invalid_url : Str → QueueError
  not_https_on_store : Str → Str → QueueError
  missing_reference : QueueError
  stale_lease : ℕ → Str → QueueError
  processor_status : Option Str → QueueError
  processor : Str → QueueError

pub data Result {ℓ} (A : Type ℓ) : Type ℓ where
  ok : A → Result A
  err : QueueError → Result A

infixl 5 ◌>>=◌
abbrev pub ◌>>=◌ {ℓ κ} : {A : Type ℓ} {B : Type κ} → Result A → (A → Result B) → Result B
ok a >>= f = f a
err e >>= f = err e

module _ {ℓ κ} {A : Type ℓ} {B : Type κ} {result : B} where
  -- A chain that succeeds has a first step that succeeds.
  pub >>=-eq-ok :
      (first : Result A) (next : A → Result B)
      → (first >>= next) ≡ ok result
      → (x : A) × (first ≡ ok x) × (next x ≡ ok result)
  >>=-eq-ok (err e) next done = cc
  >>=-eq-ok (ok x) next done = (x, refl, done)

-- Rows that other sessions hold locked while a call runs: SKIP LOCKED passes over them.
pub record Locks : Type 0 where
  pub store : ℕ → Bool
  pub job : ℕ → Bool

pub record LeasedJob : Type 0 where
  pub job_id : ℕ
  pub lease_id : Str
  pub url : Str
  pub headers : List (Str × Str)
  pub store_host : Option Str
  pub not_before : ℕ

unfoldable pub host_belongs_to_store : Str → Str → Bool
host_belongs_to_store host domain = host == domain || ends_with host (b'.' ∷ domain)

unfoldable pub clear_lease : ScrapeJob → ScrapeJob
clear_lease job = record job { lease_id = none; lease_expires_at = none }

-- RETRY_BASE_SECONDS * 2 ** max(attempts - 1, 0), in seconds
unfoldable pub backoff : ℕ → ℕ
backoff attempts = retry_base_seconds * 2 ^ (attempts - 1)

unfoldable pub requeue : ScrapeJob → ℕ → Option Str → ScrapeJob
unfolding clear_lease backoff
requeue job now reason = clear_lease (record job {
  status = queued;
  available_at = now + seconds (backoff job.attempts);
  agent_id = none;
  not_before = none;
  reason = reason;
})
