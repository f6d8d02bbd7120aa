-- ===== src/AgentApi.antt =====
-- src/api/routes/agent.py: the calls of the browser extension. The decoding of JSON is an argument;
-- the rate limits are not modelled.
pub mod Refusals
mod ApiTests
use pc_builder.Shared.{
  ℕ, zero, suc, ◌+◌, ◌-◌, ◌*◌, ◌/◌, ◌%◌, ◌^◌, ◌≤◌, ◌<◌, min, max, String, ◌≡◌, refl, sym, ap, ◌∙◌,
  ◌≢◌, ◌↔◌, ◌⊎◌, inl, inr, Bool, true, false, not, ◌&&◌, ◌||◌, Option, none, some, List, [], ◌∷◌,
  ◌++◌, map, arith, ltb, leb, nat_beq, if◌then◌else◌, nat_beq_iff, leb→le, le→leb, Comparable, ◌==◌,
  nat_eq, option_beq, option_eq, Bool-cases, Option-cases, get_or, is_none, is_some, some_inj,
  length, length-append, take, length-take-le, drop, any, all, filter, find, insert_sorted, sort,
  All, All-append, All-map, any-append, any-none, all-append, insert_at, all-insert_at,
  any-insert_at, any-ext, any-or, any-below, Str, codes, str_beq, str_beq_iff, str_beq_refl,
  option_beq_refl, str_eq, mem_str, mem_code, is_empty, upper_char, lower_char, upper, lower,
  is_space, is_digit, lstrip, rstrip, strip, drop_prefix, starts_with, ends_with, has_substring,
  partition, str_leb, replace_go, replace_go_skip, replace, split_on, join, read_from, read_nat,
  lookup, show_digit, show_fuel, show_nat, get_row, update_row, get_row-key,
  get_row-update_row_self, get_row-update_row_ne, length-update_row, All-update_row, All-get_row,
  least, least-All, least-none, Below, Below-mono, get_row_above, get_row_under, Below-get_row,
  Pointwise, Pointwise-refl, Pointwise-map, Pointwise-trans, Pointwise-All, Pointwise-Below,
  Pointwise-update_row, Pointwise-get_row, read_nat-show_nat, show_nat-digits, is_empty-show_nat,
  lstrip-digits, strip-digits,
}
use pc_builder.Db.{ScrapeAgent, Db, Outcome, OutcomeStatus}
use pc_builder.JobQueue.Config.{Result, ok, err, stale_lease, Locks, LeasedJob}
use pc_builder.JobQueue.Lease.{lease}
use pc_builder.JobQueue.Config.{max_lease_batch}
use pc_builder.JobQueue.Complete.{Processed, complete}
use pc_builder.Db.{ScrapeJob}
use pc_builder.AgentTokens.{authenticate}
use pc_builder.ScrapeResults.{Upload}

abbrev pub max_result_request_bytes : ℕ
max_result_request_bytes = 8388608

abbrev pub max_small_request_bytes : ℕ
max_small_request_bytes = 65536

-- The bytes of the body stand as they were sent.
pub record Request : Type 0 where
  pub authorization : Option Str
  pub content_length : Option Str
  pub body : Str

pub data Answer {ℓ} (A : Type ℓ) : Type ℓ where
  http_error : ℕ → Answer A
  answered : A → Answer A

-- `current_agent`
unfoldable pub current_agent : (Str → Str) → Request → Db → Option ScrapeAgent
unfolding authenticate
current_agent hash_token request db =
    let (scheme, rest) = partition b' ' (get_or request.authorization []) in
    if lower scheme == codes "bearer"
    then authenticate hash_token (strip (get_or rest [])) db
    else none

abbrev pub is_declared_over : ℕ → Option Str → Bool
is_declared_over limit none = false
is_declared_over limit (some n) = not (is_empty n) && all is_digit n && ltb limit (read_nat n)

module _ {ℓ} {A : Type ℓ} where
  -- a body that decodes to a model whose fields are valid
  abbrev decoded : (A → Bool) → Option A → Answer A
  decoded is_valid none = http_error 400
  decoded is_valid (some a) = if is_valid a then answered a else http_error 400

  -- `_read_json`
  unfoldable pub read_json : (Str → Option A) → (A → Bool) → ℕ → Request → Answer A
  read_json decode is_valid limit request =
      if is_declared_over limit request.content_length || ltb limit (length request.body)
      then http_error 413
      else decoded is_valid (decode (if is_empty request.body then codes "{}" else request.body))

-- `Depends(current_agent)`, in front of a route
abbrev pub with_agent {ℓ} :
    {A : Type ℓ} → Option ScrapeAgent → (ScrapeAgent → Answer A × Db) → Db → Answer A × Db
with_agent none route db = (http_error 401, db)
with_agent (some agent) route db = route agent

-- LeaseRequest, ResultRequest and HeartbeatRequest
pub record LeaseRequest : Type 0 where
  pub max_jobs : Option ℕ

pub record ResultRequest : Type 0 where
  pub job_id : ℕ
  pub lease_id : Str
  pub upload : Upload

pub record HeartbeatRequest : Type 0 where
  pub extension_version : Option Str

abbrev pub jobs_wanted : LeaseRequest → ℕ
jobs_wanted r = get_or r.max_jobs 10

unfoldable pub is_lease_request : LeaseRequest → Bool
is_lease_request r = leb 1 (jobs_wanted r) && leb (jobs_wanted r) max_lease_batch

abbrev pub at_most : ℕ → Option Str → Bool
at_most n s = leb (length (get_or s [])) n

abbrev pub is_status : Option ℕ → Bool
is_status none = true
is_status (some n) = leb 100 n && leb n 599

unfoldable pub is_result_request : ResultRequest → Bool
is_result_request r =
    leb (length r.lease_id) 64
    && at_most 4096 r.upload.final_url
    && is_status r.upload.http_status
    && at_most 255 r.upload.content_type
    && at_most 500 r.upload.error

unfoldable pub is_heartbeat_request : HeartbeatRequest → Bool
is_heartbeat_request r = at_most 32 r.extension_version

pub record ResultAnswer : Type 0 where
  pub job_id : ℕ
  pub status : OutcomeStatus
  pub reason : Option Str

-- 409 for a lease that is not current; any other exception ends as 500
abbrev pub answer_of : ResultRequest → Result Outcome → Answer ResultAnswer
answer_of r (ok o) = answered (record { job_id = r.job_id; status = o.status; reason = o.reason })
answer_of r (err (stale_lease _ _)) = http_error 409
answer_of r (err _) = http_error 500

module _ (hash_token : Str → Str) (now : ℕ) where
  -- POST /lease
  module _ (decode : Str → Option LeaseRequest) (uuid4 : ℕ → Str) (locks : Locks) where
    abbrev pub lease_for : ScrapeAgent → Answer LeaseRequest → Db → Answer (List LeasedJob) × Db
    lease_for agent (http_error code) db = (http_error code, db)
    lease_for agent (answered r) db =
        let (jobs, after) = lease uuid4 locks agent.id now (jobs_wanted r) db in
        (answered jobs, after)

    unfoldable pub lease_route : Request → Db → Answer (List LeasedJob) × Db
    unfolding current_agent read_json is_lease_request lease
    lease_route request db =
        with_agent (current_agent hash_token request db)
          (λ agent.
            lease_for agent (read_json decode is_lease_request max_small_request_bytes request) db)
          db

  -- POST /result
  module _ (decode : Str → Option ResultRequest)
      (process : ScrapeJob → Upload → Db → Result (Processed × Db)) where
    abbrev pub result_for : ScrapeAgent → Answer ResultRequest → Db → Answer ResultAnswer × Db
    result_for agent (http_error code) db = (http_error code, db)
    result_for agent (answered r) db =
        let (done, after) = complete process r.job_id r.lease_id agent.id r.upload now db in
        (answer_of r done, after)

    unfoldable pub result_route : Request → Db → Answer ResultAnswer × Db
    unfolding current_agent read_json is_result_request complete
    result_route request db =
        with_agent (current_agent hash_token request db)
          (λ agent.
            result_for agent (read_json decode is_result_request max_result_request_bytes request)
              db)
          db

  -- POST /heartbeat
  module _ (decode : Str → Option HeartbeatRequest) where
    abbrev pub touch : ℕ → Db → Db
    touch id db = record db {
      agents = update_row (λ a. a.id) id (λ a. record a { last_seen_at = some now }) db.agents;
    }

    abbrev pub heartbeat_for : ScrapeAgent → Answer HeartbeatRequest → Db → Answer Bool × Db
    heartbeat_for agent (http_error code) db = (http_error code, db)
    heartbeat_for agent (answered r) db = (answered true, touch agent.id db)

    unfoldable pub heartbeat_route : Request → Db → Answer Bool × Db
    unfolding current_agent read_json is_heartbeat_request update_row
    heartbeat_route request db =
        with_agent (current_agent hash_token request db)
          (λ agent.
            heartbeat_for agent
              (read_json decode is_heartbeat_request max_small_request_bytes request) db)
          db
