-- ===== src/SearchService/Prices.antt =====
-- What saving listings keeps of the catalog: one row for each page of a store, and prices of rows
-- that exist.
use mathlib.Core.Path.{subst}
use pc_builder.Shared.{
  ℕ, ◌≡◌, refl, sym, inl, inr, Bool, true, false, not, ◌&&◌, Option, none, some, List, [], ◌∷◌,
  arith, ◌==◌, nat_eq, option_eq, Bool-cases, is_none, some_inj, any, All, All-map, Str, str_eq,
  update_row, All-update_row, Below,
}
use pc_builder.SearchService.Rounding.{IsRounded, to_cents-IsRounded}
use pc_builder.Db.Tables.{to_cents, Catalog, Decimal, Product, PriceHistory}
use pc_builder.SearchService.{
  SearchResult, ProductFields, is_page, is_true, get_by_sid_pid, create, update, link_target,
  add_price, fields_of, upsert, save,
}

abbrev pub product_id : Product → ℕ
product_id p = p.id

-- No page of a store has two products.
abbrev pub OnePerListing : List Product → Type 0
OnePerListing [] = Unit
OnePerListing (p ∷ ps) = All (λ q. is_page p.sid p.pid q ≡ false) ps × OnePerListing ps

abbrev pub has_product : ℕ → List Product → Bool
has_product id ps = any (λ p. p.id == id) ps

-- A saved price is a good one, rounded, and is of a product that has a row.
pub record PricedOk (good : Decimal → Type 0) (ps : List Product) (r : PriceHistory) : Type 0 where
  pub offered : Decimal
  pub is_good : good offered
  pub rounded : IsRounded offered r.price
  pub known : has_product r.product_id ps ≡ true

pub record CatalogOk (good : Decimal → Type 0) (c : Catalog) : Type 0 where
  pub ids : Below product_id c.next_product_id c.products
  pub listings : OnePerListing c.products
  pub prices : All (PricedOk good c.products) c.prices

-- an update of a row leaves its keys
record KeepsKeys (f : Product → Product) : Type 0 where
  pub same_id : (p : Product) → (f p).id ≡ p.id
  pub same_sid : (p : Product) → (f p).sid ≡ p.sid
  pub same_pid : (p : Product) → (f p).pid ≡ p.pid

-- The product of an update stays known.
pub has_product-updated :
    (f : Product → Product) (k id : ℕ) (ps : List Product)
    → ((p : Product) → (f p).id ≡ p.id)
    → has_product id ps ≡ true
    → has_product id (update_row product_id k f ps) ≡ true
unfolding update_row
has_product-updated f k id [] same h = cc
has_product-updated f k id (p ∷ ps) same h =
    ground (arith, same p, has_product-updated f k id ps same)

PricedOk-mono :
    (good : Decimal → Type 0) (ps qs : List Product) (rs : List PriceHistory)
    → ((id : ℕ) → has_product id ps ≡ true → has_product id qs ≡ true)
    → All (PricedOk good ps) rs
    → All (PricedOk good qs) rs
PricedOk-mono good ps qs rs more = All-map (PricedOk good ps) (PricedOk good qs) rs (λ r h. record {
  offered = h.offered;
  is_good = h.is_good;
  rounded = h.rounded;
  known = more r.product_id h.known;
})

module _ (f : Product → Product) (keeps : KeepsKeys f) (k : ℕ) where
  Below-update_row :
      (n : ℕ) (ps : List Product)
      → Below product_id n ps
      → Below product_id n (update_row product_id k f ps)
  unfolding update_row
  Below-update_row n [] b = tt
  Below-update_row n (p ∷ ps) b = elim (Bool-cases (p.id == k)) [
    | inl e ↦ rw (e, keeps.same_id p) (b.0, Below-update_row p.id ps b.1)
    | inr e ↦ rw e (b.0, Below-update_row p.id ps b.1)
  ]

  PricedOk-update_row :
      (good : Decimal → Type 0) (ps : List Product) (rs : List PriceHistory)
      → All (PricedOk good ps) rs
      → All (PricedOk good (update_row product_id k f ps)) rs
  PricedOk-update_row good ps rs =
      PricedOk-mono good ps (update_row product_id k f ps) rs
        (λ id. has_product-updated f k id ps keeps.same_id)

  All-is_page :
      (sid : ℕ) (pid : Str) (ps : List Product)
      → All (λ q. is_page sid pid q ≡ false) ps
      → All (λ q. is_page sid pid q ≡ false) (update_row product_id k f ps)
  All-is_page sid pid ps h =
      All-update_row product_id (λ q. is_page sid pid q ≡ false) k f ps
        (λ q _ e. rw (keeps.same_sid q, keeps.same_pid q) e) h

  OnePerListing-update_row :
      (ps : List Product) → OnePerListing ps → OnePerListing (update_row product_id k f ps)
  unfolding update_row
  OnePerListing-update_row [] h = tt
  OnePerListing-update_row (p ∷ ps) h = elim (Bool-cases (p.id == k)) [
    | inl e ↦
        rw (e, keeps.same_sid p, keeps.same_pid p)
          (All-is_page p.sid p.pid ps h.0, OnePerListing-update_row ps h.1)
    | inr e ↦ rw e (All-is_page p.sid p.pid ps h.0, OnePerListing-update_row ps h.1)
  ]

-- An update of one product that leaves its keys keeps the catalog well-formed.
pub CatalogOk-update_row :
    (good : Decimal → Type 0) (f : Product → Product) (k : ℕ) (c : Catalog)
    → ((p : Product) → (f p).id ≡ p.id)
    → ((p : Product) → (f p).sid ≡ p.sid)
    → ((p : Product) → (f p).pid ≡ p.pid)
    → CatalogOk good c
    → CatalogOk good (record c { products = update_row product_id k f c.products })
CatalogOk-update_row good f k c id sid pid w =
    let keeps : KeepsKeys f = record { same_id = id; same_sid = sid; same_pid = pid } in
    record {
      ids = Below-update_row f keeps k c.next_product_id c.products w.ids;
      listings = OnePerListing-update_row f keeps k c.products w.listings;
      prices = PricedOk-update_row f keeps k good c.products c.prices w.prices;
    }

find-none :
    (sid : ℕ) (pid : Str) (ps : List Product)
    → get_by_sid_pid sid pid ps ≡ none
    → All (λ q. is_page sid pid q ≡ false) ps
unfolding get_by_sid_pid
find-none sid pid [] h = tt
find-none sid pid (p ∷ ps) h = elim (Bool-cases (is_page sid pid p)) [
  | inl e ↦ absurd (ground (arith, rw e at h))
  | inr e ↦ (e, find-none sid pid ps (rw e at h))
]

find-known :
    (sid : ℕ) (pid : Str) (ps : List Product) {p : Product}
    → get_by_sid_pid sid pid ps ≡ some p
    → has_product p.id ps ≡ true
unfolding get_by_sid_pid
find-known sid pid [] h = cc
find-known sid pid (q ∷ ps) {p} h = elim (Bool-cases (is_page sid pid q)) [
  | inl e ↦ let same : q ≡ p = some_inj (rw e at h) in ground (arith, same)
  | inr e ↦ ground (arith, find-known sid pid ps {p = p} (rw e at h))
]

-- The catalog after a step that gives a product's id.
record GivesId (good : Decimal → Type 0) (r : ℕ × Catalog) : Type 0 where
  pub good_catalog : CatalogOk good r.1
  pub known : has_product r.0 r.1.products ≡ true

create-GivesId :
    (good : Decimal → Type 0) (sid : ℕ) (pid : Str) (fields : ProductFields) (c : Catalog)
    → get_by_sid_pid sid pid c.products ≡ none
    → CatalogOk good c
    → GivesId good ((create sid pid fields c).0.id, (create sid pid fields c).1)
unfolding create
create-GivesId good sid pid fields c e w = record {
  good_catalog = record {
    ids = (omega arith, w.ids);
    listings = (find-none sid pid c.products e, w.listings);
    prices = PricedOk-mono good c.products _ c.prices (λ id h. ground (arith, h)) w.prices;
  };
  known = ground arith;
}

link_target-GivesId :
    (good : Decimal → Type 0) (id : ℕ) (target_id : Option ℕ) (c : Catalog)
    → GivesId good (id, c)
    → GivesId good (id, link_target id target_id c)
unfolding link_target
link_target-GivesId good id none c g = g
link_target-GivesId good id (some target_id) c g =
    elim (Bool-cases (any (λ l. l.product_id == id && l.target_id == target_id) c.links)) [
      | inl e ↦ rw e g
      | inr e ↦ rw e (record {
        good_catalog = record {
          ids = g.good_catalog.ids;
          listings = g.good_catalog.listings;
          prices = g.good_catalog.prices;
        };
        known = g.known;
      })
    ]

-- A good price of a known product, rounded.
pub add_price-CatalogOk :
    (good : Decimal → Type 0) (d : Decimal) (r : PriceHistory) (c : Catalog)
    → good d
    → r.price ≡ to_cents d
    → has_product r.product_id c.products ≡ true
    → CatalogOk good c
    → CatalogOk good (record c { prices = r ∷ c.prices })
add_price-CatalogOk good d r c g e b w = record {
  ids = w.ids;
  listings = w.listings;
  prices = (
    record {
      offered = d;
      is_good = g;
      rounded = subst (IsRounded d) (sym e) (to_cents-IsRounded d);
      known = b;
    },
    w.prices,
  );
}

upsert-GivesId :
    (good : Decimal → Type 0) (result : SearchResult) (fields : ProductFields)
    (existing : Option Product) (c : Catalog)
    → get_by_sid_pid result.sid result.pid c.products ≡ existing
    → CatalogOk good c
    → GivesId good (upsert result fields existing c)
unfolding upsert update
upsert-GivesId good result fields none c e w =
    create-GivesId good result.sid result.pid fields c e w
upsert-GivesId good result fields (some p) c e w = record {
  good_catalog =
      CatalogOk-update_row good (update fields) p.id c (λ q. refl) (λ q. refl) (λ q. refl) w;
  known =
      has_product-updated (update fields) p.id p.id c.products (λ q. refl)
        (find-known result.sid result.pid c.products e);
}

module _ (get_p_category : Option Str → Str → Option Str)
    (detect_condition : Str → Option Str → Option Str) (good : Decimal → Type 0) where
  save_as-CatalogOk :
      (r : SearchResult) (target_id : Option ℕ) (hard_category : Option Str)
      (agent_id job_id : Option ℕ) (c : Catalog) (existing : Option Product)
      → get_by_sid_pid r.sid r.pid c.products ≡ existing
      → good r.price
      → CatalogOk good c
      → CatalogOk good
          (save get_p_category detect_condition r target_id hard_category agent_id job_id c).1
  unfolding save add_price
  save_as-CatalogOk r target_id hard_category agent_id job_id c existing e g w =
      rw e (elim (Bool-cases (is_none existing && not (is_true r.in_stock))) [
        | inl t ↦ rw t w
        | inr t ↦
            let u =
              upsert r (fields_of get_p_category detect_condition r hard_category) existing c in
            let linked = link_target-GivesId good u.0 target_id u.1 (
              upsert-GivesId good r (fields_of get_p_category detect_condition r hard_category)
                existing c e w) in
            rw t (add_price-CatalogOk good r.price _ _ g refl linked.known linked.good_catalog)
      ])

  -- Saving a listing with a good price keeps the catalog well-formed: product ids are distinct, no page
  -- of a store has two products, and every saved price is a good one, rounded to two places, of a
  -- product that has a row.
  pub save-CatalogOk :
      (r : SearchResult) (target_id : Option ℕ) (hard_category : Option Str)
      (agent_id job_id : Option ℕ) (c : Catalog)
      → good r.price
      → CatalogOk good c
      → CatalogOk good
          (save get_p_category detect_condition r target_id hard_category agent_id job_id c).1
  save-CatalogOk r target_id hard_category agent_id job_id c =
      save_as-CatalogOk r target_id hard_category agent_id job_id c
        (get_by_sid_pid r.sid r.pid c.products) refl
