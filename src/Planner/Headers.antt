-- ===== src/Planner/Headers.antt =====
-- Every request that the planner makes can be queued: `insert_job` allows its headers.
use pc_builder.Shared.{
  ℕ, ◌≡◌, refl, sym, ap, ◌∙◌, inl, inr, Option, none, some, [], ◌∷◌, arith, ◌==◌, nat_eq, option_eq,
  Bool-cases, some_inj, Str, codes, str_eq,
}
use mathlib.Core.Option
use pc_builder.Db.{Store}
use pc_builder.JobQueue.Insert.{extra_headers}
use pc_builder.Planner.{
  PlannedRequest, json, html, plan_category_page, search_platform, is_shopify, request,
  fleetcart_headers, computech_url, modx_url,
}

-- If every result of a function is allowed, so is what it makes of an optional value.
map-allowed :
    (f : Str → PlannedRequest) (o : Option Str) (r : PlannedRequest)
    → ((u : Str) → extra_headers (f u).headers ≡ [])
    → Option.map f o ≡ some r
    → extra_headers r.headers ≡ []
map-allowed f none r h e = absurd (ground (arith, e))
map-allowed f (some u) r h e = ap (λ q. extra_headers q.headers) (sym (some_inj e)) ∙ h u

module _ (store : Store) (endpoint : Str) (page : ℕ) (r : PlannedRequest) where
  -- A planned listing page has only headers that a job may have.
  pub plan_category_page-allowed :
      plan_category_page store endpoint page ≡ some r → extra_headers r.headers ≡ []
  unfolding plan_category_page extra_headers
  plan_category_page-allowed e = elim (Bool-cases (is_shopify (search_platform store))) [
    | inl t ↦ map-allowed (request json []) _ r (λ u. refl) (rw t at e)
    | inr t ↦ elim (Bool-cases (search_platform store == some (codes "fleetcart"))) [
      | inl f ↦ map-allowed (request json fleetcart_headers) _ r (λ u. refl) (rw (t, f) at e)
      | inr f ↦ elim (Bool-cases (store.name == codes "computechstore")) [
        | inl c ↦
            map-allowed
              (λ b. request html ((codes "HX-Request", codes "true") ∷ []) (computech_url b page)) _
              r (λ u. refl) (rw (t, f, c) at e)
        | inr c ↦ elim (Bool-cases (store.name == codes "modxcomputers")) [
          | inl m ↦
              map-allowed (λ b. request html [] (modx_url b page)) _ r (λ u. refl)
                (rw (t, f, c, m) at e)
          | inr m ↦ ap (λ q. extra_headers q.headers) (sym (some_inj (rw (t, f, c, m) at e)))
        ]
      ]
    ]
  ]
