-- ===== src/Planner/Expected.antt =====
-- A listing page is planned with the kind of answer that the check of its upload asks for.
use pc_builder.Shared.{
  ℕ, ◌≡◌, refl, sym, ap, ◌∙◌, inl, inr, Option, none, some, [], ◌∷◌, arith, ◌==◌, nat_eq, option_eq,
  Bool-cases, some_inj, Str, codes, str_eq,
}
use mathlib.Core.Option
use pc_builder.Db.{Store}
use pc_builder.Planner.{
  PlannedRequest, Expects, json, html, plan_category_page, search_platform, listing_expects,
  is_shopify, request, fleetcart_headers, computech_url, modx_url,
}

map-expects :
    (x : Expects) (f : Str → PlannedRequest) (o : Option Str) (r : PlannedRequest)
    → ((u : Str) → (f u).expects ≡ x)
    → Option.map f o ≡ some r
    → r.expects ≡ x
map-expects x f none r h e = absurd (ground (arith, e))
map-expects x f (some u) r h e = ap (λ q. q.expects) (sym (some_inj e)) ∙ h u

module _ (store : Store) (endpoint : Str) (page : ℕ) (r : PlannedRequest) where
  -- A planned listing page expects what the store's listings are checked for.
  pub plan_category_page-expects :
      plan_category_page store endpoint page ≡ some r → r.expects ≡ listing_expects store
  unfolding plan_category_page listing_expects
  plan_category_page-expects e = elim (Bool-cases (is_shopify (search_platform store))) [
    | inl t ↦ rw t (map-expects json (request json []) _ r (λ u. refl) (rw t at e))
    | inr t ↦ elim (Bool-cases (search_platform store == some (codes "fleetcart"))) [
      | inl f ↦
          rw (t, f)
            (map-expects json (request json fleetcart_headers) _ r (λ u. refl) (rw (t, f) at e))
      | inr f ↦ elim (Bool-cases (store.name == codes "computechstore")) [
        | inl c ↦
            rw (t, f)
              (map-expects html
                (λ b. request html ((codes "HX-Request", codes "true") ∷ []) (computech_url b page))
                _ r (λ u. refl) (rw (t, f, c) at e))
        | inr c ↦ elim (Bool-cases (store.name == codes "modxcomputers")) [
          | inl m ↦
              rw (t, f)
                (map-expects html (λ b. request html [] (modx_url b page)) _ r (λ u. refl)
                  (rw (t, f, c, m) at e))
          | inr m ↦ rw (t, f) (ap (λ q. q.expects) (sym (some_inj (rw (t, f, c, m) at e))))
        ]
      ]
    ]
  ]
