-- ===== src/AgentApi/Refusals.antt =====
-- A call that is refused changes nothing.
use pc_builder.Shared.{ℕ, ◌≡◌, refl, Option, none, some, nat_eq, option_eq, Str, str_eq}
use pc_builder.Db.{ScrapeJob, ScrapeAgent, Db, Outcome}
use pc_builder.JobQueue.Config.{Result, ok, err, Locks}
use pc_builder.JobQueue.Complete.{Processed, complete}
use pc_builder.JobQueue.Uploads.{complete_atomic}
use pc_builder.ScrapeResults.{Upload}
use pc_builder.AgentApi.{
  Request, Answer, http_error, answered, current_agent, with_agent, answer_of, LeaseRequest,
  ResultRequest, HeartbeatRequest, lease_for, result_for, heartbeat_for, lease_route, result_route,
  heartbeat_route,
}

-- the tables after a refusal are those before it
abbrev pub Unchanged {ℓ} : {A : Type ℓ} → Db → Answer A × Db → Type ℓ
Unchanged db (answer, after) = (code : ℕ) → answer ≡ http_error code → after ≡ db

-- Such a call, and one without a token that authenticates is refused with 401.
pub record IsRefusable {ℓ} {A : Type ℓ} (known : Option ScrapeAgent) (db : Db) (r : Answer A × Db)
    : Type ℓ where
  pub unchanged : Unchanged db r
  pub unknown : known ≡ none → r.0 ≡ http_error 401

with_agent-IsRefusable {ℓ} :
    {A : Type ℓ} (known : Option ScrapeAgent) (db : Db) (route : ScrapeAgent → Answer A × Db)
    → ((agent : ScrapeAgent) → Unchanged db (route agent))
    → IsRefusable known db (with_agent known route db)
with_agent-IsRefusable none db route h = record { unchanged = λ code e. refl; unknown = λ e. refl }
with_agent-IsRefusable (some agent) db route h = record { unchanged = h agent; unknown = λ e. cc }

module _ (hash_token : Str → Str) (now : ℕ) (db : Db) where
  lease_for-Unchanged :
      (decode : Str → Option LeaseRequest) (uuid4 : ℕ → Str) (locks : Locks)
      (r : Answer LeaseRequest) (agent : ScrapeAgent)
      → Unchanged db (lease_for hash_token now decode uuid4 locks agent r db)
  lease_for-Unchanged decode uuid4 locks (http_error code) agent = λ c e. refl
  lease_for-Unchanged decode uuid4 locks (answered r) agent = λ c e. cc

  heartbeat_for-Unchanged :
      (decode : Str → Option HeartbeatRequest) (r : Answer HeartbeatRequest) (agent : ScrapeAgent)
      → Unchanged db (heartbeat_for hash_token now decode agent r db)
  heartbeat_for-Unchanged decode (http_error code) agent = λ c e. refl
  heartbeat_for-Unchanged decode (answered r) agent = λ c e. cc

  module _ (process : ScrapeJob → Upload → Db → Result (Processed × Db))
      (decode : Str → Option ResultRequest) where
    result_for-Unchanged :
        (r : Answer ResultRequest) (agent : ScrapeAgent)
        → Unchanged db (result_for hash_token now decode process agent r db)
    result_for-Unchanged (http_error code) agent = λ c e. refl
    result_for-Unchanged (answered r) agent = λ c e. go (run.0) refl c e
      where
        run : Result Outcome × Db
        run = complete process r.job_id r.lease_id agent.id r.upload now db

        go :
            (d : Result Outcome)
            → run.0 ≡ d
            → (c : ℕ) → answer_of r run.0 ≡ http_error c
            → run.1 ≡ db
        go (err e) h c k = complete_atomic process r.job_id r.lease_id agent.id r.upload now db e h
        go (ok o) h c k = let wrong = rw h at k in cc

-- Each of the three calls leaves the tables as they were when it is refused, with whatever code, and
-- refuses a request without a token that authenticates with 401.
pub routes-IsRefusable :
    (hash_token : Str → Str) (now : ℕ) (uuid4 : ℕ → Str) (locks : Locks)
    (process : ScrapeJob → Upload → Db → Result (Processed × Db))
    (decode_lease : Str → Option LeaseRequest) (decode_result : Str → Option ResultRequest)
    (decode_heartbeat : Str → Option HeartbeatRequest) (request : Request) (db : Db)
    → IsRefusable
        (current_agent hash_token request db)
        db
        (lease_route hash_token now decode_lease uuid4 locks request db)
      × IsRefusable
          (current_agent hash_token request db)
          db
          (result_route hash_token now decode_result process request db)
      × IsRefusable
          (current_agent hash_token request db)
          db
          (heartbeat_route hash_token now decode_heartbeat request db)
unfolding lease_route result_route heartbeat_route
routes-IsRefusable hash_token now uuid4 locks process decode_lease decode_result decode_heartbeat
      request db =
    (
      with_agent-IsRefusable _ db _
          (lease_for-Unchanged hash_token now db decode_lease uuid4 locks _),
      with_agent-IsRefusable _ db _
          (result_for-Unchanged hash_token now db process decode_result _),
      with_agent-IsRefusable _ db _ (heartbeat_for-Unchanged hash_token now db decode_heartbeat _),
    )
