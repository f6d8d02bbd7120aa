-- ===== src/SearchService/Rounding.antt =====
-- The columns of type Numeric(12, 2) of src/db/models/price_history.py: how near a value they keep.
use native.Mathlib.Nat.{one-le-pow, mul-div-le, lt-mul-div-succ}
use pc_builder.Shared.{
  ℕ, ◌+◌, ◌*◌, ◌^◌, ◌≤◌, ◌<◌, ◌≡◌, refl, false, arith, nat_eq, option_eq, str_eq,
}
use pc_builder.Db.Tables.{Decimal, to_cents}

-- A price of the catalog and the value it is saved from: two places, less than half a cent below it
-- and at most half a cent above.
pub record IsRounded (d x : Decimal) : Type 0 where
  pub places : x.places ≡ 2
  pub sign : d.negative ≡ false → x.negative ≡ false
  pub above : 2 * (x.coefficient * 10 ^ d.places) ≤ 200 * d.coefficient + 10 ^ d.places
  pub below : 200 * d.coefficient < 2 * (x.coefficient * 10 ^ d.places) + 10 ^ d.places

one-le-power : (n : ℕ) → 1 ≤ 10 ^ n
one-le-power n = one-le-pow n 10 (omega arith)

pub to_cents-IsRounded : (d : Decimal) → IsRounded d (to_cents d)
unfolding to_cents
to_cents-IsRounded d =
    let m = 10 ^ d.places in
    let n = 200 * d.coefficient + m in
    let one = one-le-power d.places in
    let low = mul-div-le n (2 * m) in
    let high = lt-mul-div-succ n {b = 2 * m} (omega (arith, one)) in
    record {
      places = refl;
      sign = λ e. ground (arith, e);
      above = grind (arith, low);
      below = grind (arith, high);
    }
