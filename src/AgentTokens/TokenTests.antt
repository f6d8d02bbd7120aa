-- ===== src/AgentTokens/TokenTests.antt =====
-- Two agents, one of them revoked.
use pc_builder.Shared.{◌≡◌, refl, none, [], ◌∷◌, nat_eq, option_eq, Str, codes, str_eq}
use pc_builder.Db.Tables.{empty_catalog}
use pc_builder.Db.{Db}
use pc_builder.AgentTokens.{
  new_agent, create_agent, refused, already_exists, authenticate, revoke_agent,
}
use pc_builder.AgentTokens.Revoking.{unless_named, authenticate-revoke_agent}

-- a stand-in for SHA-256
abbrev hash : Str → Str
hash token = b'h' ∷ token

abbrev agents_db : Db
agents_db = record {
  stores = [];
  agents =
      new_agent 1 (codes "home") (hash (codes "pcba_a"))
      ∷ new_agent 2 (codes "office") (hash (codes "pcba_b"))
      ∷ [];
  jobs = [];
  catalog = empty_catalog;
  next_job_id = 1;
  uuids_drawn = 0;
}

taken :
    create_agent hash 3 (codes "c") (codes "home") agents_db
    ≡ refused (already_exists (codes "home"))
unfolding create_agent
taken = refl

authenticate-revoke_agent_example :
    authenticate hash (codes "pcba_a") (revoke_agent (codes "home") 9 agents_db).1
    ≡ unless_named (codes "home") (authenticate hash (codes "pcba_a") agents_db)
authenticate-revoke_agent_example =
    authenticate-revoke_agent hash (codes "pcba_a") (codes "home") 9 agents_db

refused_now : authenticate hash (codes "pcba_a") (revoke_agent (codes "home") 9 agents_db).1 ≡ none
unfolding authenticate revoke_agent new_agent
refused_now = refl
