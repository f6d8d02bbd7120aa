-- ===== src/SearchService.antt =====
-- src/services/search_service.py, over src/db/repositories/product_repository.py and
-- src/domain/search_result.py: saving the listings of a page. The classifier of titles and the
-- detector of a listing's condition are arguments.
pub mod Rounding
pub mod Prices
use mathlib.Core.Option
use pc_builder.Shared.{
  ℕ, ◌+◌, Bool, true, false, not, ◌&&◌, ◌||◌, Option, none, some, List, [], ◌∷◌, if◌then◌else◌,
  ◌==◌, nat_eq, option_eq, get_or, is_none, any, find, Str, codes, str_eq, is_empty, update_row,
}
use pc_builder.Db.Tables.{Catalog, Decimal, Product, ProductTarget, to_cents}

-- `SearchResult`, its URLs as the texts that are saved
pub record SearchResult : Type 0 where
  pub store : Str
  pub sid : ℕ
  pub pid : Str
  pub name : Str
  pub url : Str
  pub price : Decimal
  pub mrp : Option Decimal
  pub currency : Str
  pub image : Option Str
  pub in_stock : Option Bool

-- the truth of a value that may be None
abbrev pub is_true : Option Bool → Bool
is_true none = false
is_true (some b) = b

abbrev pub is_given : Option Str → Bool
is_given none = false
is_given (some s) = not (is_empty s)

abbrev pub is_page : ℕ → Str → Product → Bool
is_page sid pid p = p.sid == sid && p.pid == pid

unfoldable pub get_by_sid_pid : ℕ → Str → List Product → Option Product
get_by_sid_pid sid pid products = find (is_page sid pid) products

-- The keyword arguments with which `save` creates and updates a product.
pub record ProductFields : Type 0 where
  pub name : Str
  pub product_url : Str
  pub image_url : Option Str
  pub category : Option Str
  pub p_category : Option Str
  pub condition : Option Str
  pub currency : Str
  pub current_price : Decimal
  pub current_mrp : Option Decimal
  pub in_stock : Option Bool

-- `ProductRepository.create`, the columns that it leaves at their defaults
unfoldable pub create : ℕ → Str → ProductFields → Catalog → Product × Catalog
create sid pid fields c =
    let product : Product = record {
      id = c.next_product_id;
      sid = sid;
      pid = pid;
      name = fields.name;
      product_url = fields.product_url;
      image_url = fields.image_url;
      category = fields.category;
      p_category = fields.p_category;
      condition = fields.condition;
      currency = fields.currency;
      current_price = some (to_cents fields.current_price);
      current_mrp = Option.map to_cents fields.current_mrp;
      in_stock = fields.in_stock;
      spec_status = codes "pending";
    } in
    (product, record c { products = product ∷ c.products; next_product_id = c.next_product_id + 1 })

-- `if value is not None: setattr(product, key, value)`
abbrev pub set {ℓ} : {A : Type ℓ} → Option A → Option A → Option A
set none old = old
set (some value) old = some value

-- A changed title or category puts the product back into the queue of the extraction.
unfoldable pub spec_status_after : ProductFields → Product → Str
spec_status_after fields p =
    if not (p.name == fields.name) || not (fields.p_category == p.p_category)
    then codes "pending"
    else p.spec_status

-- `ProductRepository.update` with the fields of `save`; `category` only if it is not empty
unfoldable pub update : ProductFields → Product → Product
unfolding spec_status_after
update fields p = record p {
  name = fields.name;
  product_url = fields.product_url;
  image_url = set fields.image_url p.image_url;
  category = if is_given fields.category then fields.category else p.category;
  p_category = set fields.p_category p.p_category;
  condition = set fields.condition p.condition;
  currency = fields.currency;
  current_price = some (to_cents fields.current_price);
  current_mrp = set (Option.map to_cents fields.current_mrp) p.current_mrp;
  in_stock = set fields.in_stock p.in_stock;
  spec_status = spec_status_after fields p;
}

abbrev is_link : ℕ → ℕ → ProductTarget → Bool
is_link product_id target_id l = l.product_id == product_id && l.target_id == target_id

-- `ProductRepository.link_target`, for a target that is not None
unfoldable pub link_target : ℕ → Option ℕ → Catalog → Catalog
link_target product_id none c = c
link_target product_id (some target_id) c =
    if any (is_link product_id target_id) c.links
    then c
    else record c { links = record { product_id = product_id; target_id = target_id } ∷ c.links }

unfoldable pub add_price : SearchResult → Option ℕ → Option ℕ → ℕ → Catalog → Catalog
add_price result agent_id job_id product_id c = record c {
  prices =
      record {
        product_id = product_id;
        price = to_cents result.price;
        mrp = Option.map to_cents result.mrp;
        in_stock = get_or result.in_stock true;
        agent_id = agent_id;
        job_id = job_id;
      }
      ∷ c.prices;
}

-- `get_or_create`, and the update of a product that was there
unfoldable pub upsert : SearchResult → ProductFields → Option Product → Catalog → ℕ × Catalog
unfolding create update update_row
upsert result fields (some product) c = (
  product.id,
  record c { products = update_row (λ p. p.id) product.id (update fields) c.products },
)
upsert result fields none c =
    let (product, after) = create result.sid result.pid fields c in (product.id, after)

-- The value of a dictionary at a key is replaced in its place; a new key goes to the end.
module _ {ℓ} {A : Type ℓ} (same : A → A → Bool) where
  unfoldable pub put : A → List A → List A
  put x [] = x ∷ []
  put x (y ∷ ys) = if same x y then x ∷ ys else y ∷ put x ys

  -- for r in results: deduped[key(r)] = r
  unfoldable pub put_all : List A → List A → List A
  unfolding put
  put_all [] kept = kept
  put_all (x ∷ xs) kept = put_all xs (put x kept)

abbrev pub same_listing : SearchResult → SearchResult → Bool
same_listing a b = a.sid == b.sid && a.pid == b.pid

module _ (get_p_category : Option Str → Str → Option Str)
    (detect_condition : Str → Option Str → Option Str) where
  unfoldable pub fields_of : SearchResult → Option Str → ProductFields
  fields_of result hard_category =
      let p_category = get_p_category hard_category result.name in
      record {
        name = result.name;
        product_url = result.url;
        image_url = result.image;
        category = hard_category;
        p_category = p_category;
        condition = detect_condition result.name p_category;
        currency = result.currency;
        current_price = result.price;
        current_mrp = result.mrp;
        in_stock = result.in_stock;
      }

  -- Whether a price was saved, and the catalog.
  unfoldable pub save :
      SearchResult → Option ℕ → Option Str → Option ℕ → Option ℕ → Catalog → Bool × Catalog
  unfolding get_by_sid_pid fields_of upsert link_target add_price
  save result target_id hard_category agent_id job_id c =
      let existing = get_by_sid_pid result.sid result.pid c.products in
      if is_none existing && not (is_true result.in_stock)
      then (false, c)
      else let (id, after) = upsert result (fields_of result hard_category) existing c in
        (true, add_price result agent_id job_id id (link_target id target_id after))

  save_all : List SearchResult → Option ℕ → Option Str → Catalog → Catalog
  unfolding save
  save_all [] target_id hard_category c = c
  save_all (r ∷ rs) target_id hard_category c =
      save_all rs target_id hard_category (save r target_id hard_category none none c).1

  unfoldable pub save_many : List SearchResult → Option ℕ → Option Str → Catalog → Catalog
  unfolding put_all save_all
  save_many results target_id hard_category c =
      save_all (put_all same_listing results []) target_id hard_category c
