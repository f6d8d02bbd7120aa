-- ===== src/ScrapeResults/Prices.antt =====
-- src/pipeline/scrape_results.py: what a result processor gives, and `_usable`.
use pc_builder.Shared.{
  ℕ, zero, suc, ◌-◌, ◌*◌, ◌^◌, Bool, false, not, ◌&&◌, Option, none, some, [], ◌++◌, ltb, leb,
  if◌then◌else◌, nat_eq, option_eq, length, take, drop, Str, codes, str_eq, show_nat,
}
use pc_builder.Db.{Decimal}
use pc_builder.JobQueue.Config.{Result, ok, err, processor}
use pc_builder.JobQueue.Complete.{Processed}
use pc_builder.ScrapeResults.{GateStatus, retry, rejected, blocked, failed, GateOutcome}

-- what `GenericParser` gives, or the text of the exception
pub data Parse {ℓ} (A : Type ℓ) : Type ℓ where
  parsed : A → Parse A
  crashed : Str → Parse A

-- the fields of a parsed product page that are used
pub record ProductPage : Type 0 where
  pub price : Option Decimal
  pub mrp : Option Decimal
  pub in_stock : Option Bool
  pub image : Option Str

-- PRICE_CEILING
abbrev pub price_ceiling : ℕ
price_ceiling = 2000000

abbrev pub default_max_pages : ℕ
default_max_pages = 2

-- price > 0 and price <= PRICE_CEILING
unfoldable pub in_range : Decimal → Bool
in_range d =
    not d.negative && ltb 0 d.coefficient && leb d.coefficient (price_ceiling * 10 ^ d.places)

-- `_usable`
abbrev pub usable : Option Decimal → Bool
usable none = false
usable (some d) = in_range d

zeros : ℕ → Str
zeros zero = []
zeros (suc n) = codes "0" ++ zeros n

-- The point stands before the last `places` digits, behind at least one.
point_at : ℕ → Str → Str
unfolding zeros
point_at zero digits = digits
point_at (suc k) digits =
    let padded = zeros (suc (suc k) - length digits) ++ digits in
    let whole = length padded - suc k in take whole padded ++ codes "." ++ drop whole padded

-- `str` of a decimal, for values that it prints without an exponent
unfoldable pub show_decimal : Decimal → Str
unfolding point_at show_nat
show_decimal d =
    (if d.negative then codes "-" else []) ++ point_at d.places (show_nat d.coefficient)

-- `_outcome` without counts
abbrev pub outcome : Str → Option Str → Processed
outcome status reason = record {
  status = some status;
  reason = reason;
  counts = [];
  pids = [];
  next_job_id = none;
  price = none;
}

abbrev status_text : GateStatus → Str
status_text retry = codes "retry"
status_text rejected = codes "rejected"
status_text blocked = codes "blocked"
status_text failed = codes "failed"

abbrev pub of_gate : GateOutcome → Processed
of_gate o = outcome (status_text o.status) (some o.reason)

abbrev pub raise {ℓ} : {A : Type ℓ} → Str → Result A
raise what = err (processor what)

abbrev pub need {ℓ} : {A : Type ℓ} → Str → Option A → Result A
need what none = raise what
need what (some a) = ok a
