-- ===== src/AgentTokens.antt =====
-- src/pipeline/agent_tokens.py. SHA-256 and the random part of a token are arguments. The columns
-- `name` and `token_hash` are unique, so each query finds one row at most.
pub mod Revoking
mod TokenTests
use pc_builder.Shared.{
  ℕ, Bool, not, ◌&&◌, ◌||◌, Option, none, some, List, ◌∷◌, ◌++◌, map, leb, if◌then◌else◌, ◌==◌,
  nat_eq, option_eq, is_none, length, any, all, find, sort, Str, codes, str_eq, mem_code, is_digit,
  starts_with, str_leb,
}
use pc_builder.Db.{ScrapeAgent, Db}

abbrev pub token_prefix : Str
token_prefix = codes "pcba_"

abbrev is_name_char : ℕ → Bool
is_name_char c =
    is_digit c
    || (leb b'a' c && leb c b'z')
    || (leb b'A' c && leb c b'Z')
    || mem_code c (codes "._-")

-- `[A-Za-z0-9._-]{1,50}` on the whole name
unfoldable pub is_name : Str → Bool
is_name name = leb 1 (length name) && leb (length name) 50 && all is_name_char name

pub data AgentError : Type 0 where
  bad_name : AgentError
  already_exists : Str → AgentError

pub data Created : Type 0 where
  refused : AgentError → Created
  created : ScrapeAgent → Str → Db → Created

unfoldable pub has_name : Str → ScrapeAgent → Bool
has_name name agent = agent.name == name

unfoldable pub has_hash : Str → ScrapeAgent → Bool
has_hash token_hash agent = agent.token_hash == token_hash

unfoldable pub new_agent : ℕ → Str → Str → ScrapeAgent
new_agent id name token_hash = record {
  id = id;
  name = name;
  token_hash = token_hash;
  last_seen_at = none;
  revoked_at = none;
}

-- the row with the token's hash, unless it is revoked
unfoldable pub current : Option ScrapeAgent → Option ScrapeAgent
current none = none
current (some agent) = if is_none agent.revoked_at then some agent else none

module _ (hash_token : Str → Str) where
  -- `id` is the value of the table's sequence, `secret` that of `secrets.token_urlsafe`
  unfoldable pub create_agent : ℕ → Str → Str → Db → Created
  unfolding is_name has_name new_agent
  create_agent id secret name db =
      if not (is_name name)
      then refused bad_name
      else if any (has_name name) db.agents
      then refused (already_exists name)
      else let token = token_prefix ++ secret in
        let agent = new_agent id name (hash_token token) in
        created agent token (record db { agents = agent ∷ db.agents })

  unfoldable pub authenticate : Str → Db → Option ScrapeAgent
  unfolding has_hash current
  authenticate token db =
      if starts_with token token_prefix
      then current (find (has_hash (hash_token token)) db.agents)
      else none

-- `agent.revoked_at = now` where it is null
unfoldable pub revoke : Str → ℕ → ScrapeAgent → ScrapeAgent
unfolding has_name
revoke name now agent =
    if has_name name agent && is_none agent.revoked_at
    then record agent { revoked_at = some now }
    else agent

unfoldable pub revoke_agent : Str → ℕ → Db → Bool × Db
unfolding has_name revoke
revoke_agent name now db =
    (any (has_name name) db.agents, record db { agents = map (revoke name now) db.agents })

abbrev by_name : ScrapeAgent → ScrapeAgent → Bool
by_name a b = str_leb a.name b.name

unfoldable pub list_agents : Db → List ScrapeAgent
list_agents db = sort by_name db.agents
