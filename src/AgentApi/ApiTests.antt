-- ===== src/AgentApi/ApiTests.antt =====
-- An agent that sends a heartbeat, and a request without its token.
use pc_builder.Shared.{
  ◌≡◌, refl, true, false, Option, none, some, [], ◌∷◌, nat_eq, option_eq, Str, codes, str_eq,
  show_nat,
}
use pc_builder.Db.{ScrapeJob, ScrapeAgent, Db}
use pc_builder.Db.Tables.{empty_catalog}
use pc_builder.JobQueue.Config.{Result, err, processor, Locks}
use pc_builder.JobQueue.Complete.{Processed}
use pc_builder.ScrapeResults.{Upload}
use pc_builder.AgentTokens.{authenticate}
use pc_builder.AgentApi.{
  Request, http_error, answered, current_agent, LeaseRequest, ResultRequest, HeartbeatRequest,
  lease_route, result_route, heartbeat_route,
}
use pc_builder.AgentApi.Refusals.{IsRefusable, routes-IsRefusable}

abbrev kiosk : ScrapeAgent
kiosk = record {
  id = 1;
  name = codes "kiosk";
  token_hash = codes "pcba_1";
  last_seen_at = none;
  revoked_at = none;
}

abbrev tables : Db
tables = record {
  stores = [];
  agents = kiosk ∷ [];
  jobs = [];
  catalog = empty_catalog;
  next_job_id = 1;
  uuids_drawn = 0;
}

abbrev same_text : Str → Str
same_text token = token

abbrev beat : Request
beat = record { authorization = some (codes "Bearer pcba_1"); content_length = none; body = [] }

abbrev no_token : Request
no_token = record beat { authorization = none }

abbrev no_process : ScrapeJob → Upload → Db → Result (Processed × Db)
no_process job upload db = err (processor (codes "none"))

abbrev unlocked : Locks
unlocked = record { store = λ _. false; job = λ _. false }

abbrev wants_five : Str → Option LeaseRequest
wants_five body = some (record { max_jobs = some 5 })

abbrev no_result : Str → Option ResultRequest
no_result body = none

abbrev no_version : Str → Option HeartbeatRequest
no_version body = some (record { extension_version = none })

routes-IsRefusable_example :
    IsRefusable
      (current_agent same_text no_token tables)
      tables
      (lease_route same_text 9 wants_five show_nat unlocked no_token tables)
    × IsRefusable
        (current_agent same_text no_token tables)
        tables
        (result_route same_text 9 no_result no_process no_token tables)
    × IsRefusable
        (current_agent same_text no_token tables)
        tables
        (heartbeat_route same_text 9 no_version no_token tables)
routes-IsRefusable_example =
    routes-IsRefusable same_text 9 show_nat unlocked no_process wants_five no_result no_version
      no_token tables

touched :
    heartbeat_route same_text 9 no_version beat tables
    ≡ (answered true, record tables { agents = record kiosk { last_seen_at = some 9 } ∷ [] })
unfolding heartbeat_route current_agent authenticate
touched = refl

bad_result : (result_route same_text 9 no_result no_process beat tables).0 ≡ http_error 400
unfolding result_route current_agent authenticate
bad_result = refl

turned_away :
    (lease_route same_text 9 wants_five show_nat unlocked no_token tables).0 ≡ http_error 401
unfolding lease_route current_agent
turned_away = refl
