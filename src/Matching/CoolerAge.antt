-- ===== src/Matching/CoolerAge.antt =====
-- When a cooler counts as too old.
use pc_builder.Shared.{
  ℕ, ◌+◌, ◌≤◌, ◌<◌, ◌≡◌, refl, ◌↔◌, inl, inr, true, false, not, ◌&&◌, Option, List, [], ◌∷◌, arith,
  ltb, if◌then◌else◌, ◌==◌, nat_eq, option_eq, Bool-cases, length, any, all, Str, str_eq,
}
use pc_builder.Matching.LegacyParts.{
  is_current_token, is_retired_token, tokens_of, all_retired, is_cooler_legacy, text_of,
}

-- the tokens that are counted
retired : List Str → ℕ
retired [] = 0
retired (t ∷ ts) = if is_retired_token t then retired ts + 1 else retired ts

retired-le : (ts : List Str) → retired ts ≤ length ts
unfolding retired
retired-le [] = omega arith
retired-le (t ∷ ts) = ground (arith, retired-le ts)

retired-all : (ts : List Str) → retired ts ≡ length ts → all is_retired_token ts ≡ true
unfolding retired
retired-all [] e = refl
retired-all (t ∷ ts) e = ground (arith, retired-le ts, retired-all ts)

all-retired : (ts : List Str) → all is_retired_token ts ≡ true → retired ts ≡ length ts
unfolding retired
all-retired [] e = refl
all-retired (t ∷ ts) e = ground (arith, all-retired ts)

all_retired_lem :
    (ts : List Str) (n total : ℕ)
    → all_retired ts n total
      ≡ not (any is_current_token ts) && ltb 0 (n + retired ts) && n + retired ts == total
unfolding all_retired retired
all_retired_lem [] n total = ground arith
all_retired_lem (t ∷ ts) n total = elim (Bool-cases (is_current_token t)) [
  | inl e ↦ rw e refl
  | inr e ↦ elim (Bool-cases (is_retired_token t)) [
    | inl r ↦ rw (e, r, all_retired_lem ts (n + 1) total) (ground arith)
    | inr r ↦ rw (e, r, all_retired_lem ts n total) refl
  ]
]

legacy-to :
    (ts : List Str)
    → all_retired ts 0 (length ts) ≡ true
    → (0 < length ts) × (any is_current_token ts ≡ false) × (all is_retired_token ts ≡ true)
legacy-to ts h =
    let h' = rw (all_retired_lem ts 0 (length ts)) at h in
    (ground (arith, retired-le ts, h'), ground (arith, h'), retired-all ts (ground (arith, h')))

legacy-from :
    (ts : List Str)
    → 0 < length ts
    → any is_current_token ts ≡ false
    → all is_retired_token ts ≡ true
    → all_retired ts 0 (length ts) ≡ true
legacy-from ts some_token current old =
    rw (all_retired_lem ts 0 (length ts), current) (ground (arith, all-retired ts old, some_token))

-- A cooler counts as too old exactly when it lists at least one socket, none that it lists is a
-- current one, and all are retired ones.
pub is_cooler_legacy_iff :
    (sockets : Option Str)
    → (is_cooler_legacy sockets ≡ true) ↔ (
        (0 < length (tokens_of (text_of sockets)))
        × (any is_current_token (tokens_of (text_of sockets)) ≡ false)
        × (all is_retired_token (tokens_of (text_of sockets)) ≡ true))
unfolding is_cooler_legacy
is_cooler_legacy_iff sockets = (
  legacy-to (tokens_of (text_of sockets)),
  λ (some_token, current, old). legacy-from (tokens_of (text_of sockets)) some_token current old,
)
