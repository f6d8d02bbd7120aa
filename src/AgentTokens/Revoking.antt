-- ===== src/AgentTokens/Revoking.antt =====
-- A revoked agent is refused at once, every other agent keeps its access, and a new token works.
use mathlib.Core.Option
use pc_builder.Shared.{
  ℕ, ◌≡◌, refl, inl, inr, ◌&&◌, Option, none, some, List, [], ◌∷◌, map, arith, if◌then◌else◌,
  nat_eq, option_eq, Bool-cases, is_none, find, Str, str_eq, starts_with,
}
use pc_builder.Db.{ScrapeAgent, Db}
use pc_builder.AgentTokens.{
  token_prefix, has_name, has_hash, current, authenticate, revoke, revoke_agent,
}

revoke-hash :
    (name : Str) (now : ℕ) (h : Str) (a : ScrapeAgent)
    → has_hash h (revoke name now a) ≡ has_hash h a
unfolding revoke has_hash
revoke-hash name now h a = elim (Bool-cases (has_name name a && is_none a.revoked_at)) [
  | inl e ↦ rw e refl
  | inr e ↦ rw e refl
]

-- what the query for a hash finds behind a revocation
find_after :
    (name : Str) (now : ℕ) (h : Str) (agents : List ScrapeAgent)
    → find (has_hash h) (map (revoke name now) agents)
      ≡ Option.map (revoke name now) (find (has_hash h) agents)
find_after name now h [] = refl
find_after name now h (a ∷ agents) = elim (Bool-cases (has_hash h a)) [
  | inl e ↦ rw (revoke-hash name now h a, e) refl
  | inr e ↦ rw (revoke-hash name now h a, e) (find_after name now h agents)
]

-- an agent, unless it has this name
unfoldable pub unless_named : Str → Option ScrapeAgent → Option ScrapeAgent
unless_named name none = none
unless_named name (some a) = if has_name name a then none else some a

current_after :
    (name : Str) (now : ℕ) (o : Option ScrapeAgent)
    → current (Option.map (revoke name now) o) ≡ unless_named name (current o)
unfolding current revoke unless_named
current_after name now none = refl
current_after name now (some a) = grind arith

-- After an agent is revoked, a token authenticates as it did before, except that agents of that name
-- are refused.
pub authenticate-revoke_agent :
    (hash_token : Str → Str) (token name : Str) (now : ℕ) (db : Db)
    → authenticate hash_token token (revoke_agent name now db).1
      ≡ unless_named name (authenticate hash_token token db)
unfolding authenticate revoke_agent
authenticate-revoke_agent hash_token token name now db =
    elim (Bool-cases (starts_with token token_prefix)) [
      | inl t ↦
          rw (t, find_after name now (hash_token token) db.agents)
            (current_after name now (find (has_hash (hash_token token)) db.agents))
      | inr t ↦ rw t (unfold unless_named in refl)
    ]
