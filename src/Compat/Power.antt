-- ===== src/Compat/Power.antt =====
-- What `cpu_max_power` promises: the figure for a processor that no table lists lies between its TDP
-- and twice its TDP.
use pc_builder.Shared.{
  ℕ, zero, suc, ◌*◌, ◌≤◌, ◌<◌, min, ◌≡◌, refl, inl, inr, Bool, true, ◌&&◌, Option, none, some,
  arith, leb, nat_beq_iff, ◌==◌, nat_eq, option_eq, Bool-cases, get_or, Str, codes, str_beq, str_eq,
}
use pc_builder.Compat.CpuPower.{
  amd_ppt_table, times_1_35, by_tdp, turbo_of, cpu_max_power, brand_of, in_sockets, desktop_sockets,
  workstation_sockets,
}

amd_draw : ℕ → ℕ
amd_draw tdp = get_or (amd_ppt_table tdp) (times_1_35 tdp)

in_range : ℕ → Bool
unfolding amd_draw
in_range t = leb t (amd_draw t) && leb (amd_draw t) (t * 2)

all_in_range : ℕ → Bool
unfolding in_range
all_in_range zero = true
all_in_range (suc n) = in_range n && all_in_range n

all_in_range-in_range : (n t : ℕ) → all_in_range n ≡ true → t < n → in_range t ≡ true
unfolding all_in_range
all_in_range-in_range zero t h lt = absurd (omega arith)
all_in_range-in_range (suc n) t h lt = elim (Bool-cases (t == n)) [
  | inl e ↦ let same : t ≡ n = (nat_beq_iff t n).0 e in rw same (ground (arith, h))
  | inr e ↦ all_in_range-in_range n t (ground (arith, h)) (ground arith)
]

table_in_range : all_in_range 254 ≡ true
unfolding all_in_range times_1_35
table_in_range = refl

-- a wattage between the TDP and twice the TDP
unfoldable pub IsPlausible : ℕ → Option ℕ → Type 0
IsPlausible tdp power = (w : ℕ) × (power ≡ some w) × (tdp ≤ w) × (w ≤ tdp * 2)

amd_draw-bounds : (t : ℕ) → t ≤ 253 → (t ≤ amd_draw t) × (amd_draw t ≤ t * 2)
unfolding in_range
amd_draw-bounds t le = ground (arith, all_in_range-in_range 254 t table_in_range (omega arith))

by_tdp-IsPlausible :
    (brand : Str) (socket : Option Str) (n : ℕ)
    → suc n ≤ 253
    → IsPlausible (suc n) (by_tdp brand socket (some (suc n))).0
unfolding IsPlausible by_tdp amd_draw
by_tdp-IsPlausible brand socket n le =
    let amd = str_beq brand (codes "amd") in
    let (low, high) = amd_draw-bounds (suc n) le in
    elim (Bool-cases (amd && in_sockets socket desktop_sockets)) [
      | inl e ↦ rw e (amd_draw (suc n), refl, low, high)
      | inr e ↦ rw e (elim (Bool-cases (amd && in_sockets socket workstation_sockets)) [
        | inl f ↦ rw f (suc n, refl, omega arith, omega arith)
        | inr f ↦ rw f (min (suc n * 2) 253, refl, omega arith, omega arith)
      ])
    ]

-- The figure for a processor that Intel's table does not list is at least its TDP and at most twice
-- its TDP, for a TDP from 1 to 253 W.
pub cpu_max_power-IsPlausible :
    (canonical_id socket : Option Str) (tdp : ℕ)
    → turbo_of canonical_id ≡ none
    → 1 ≤ tdp
    → tdp ≤ 253
    → IsPlausible tdp (cpu_max_power canonical_id socket (some tdp)).0
unfolding cpu_max_power
cpu_max_power-IsPlausible canonical_id socket zero e pos le = absurd (omega arith)
cpu_max_power-IsPlausible canonical_id socket (suc n) e pos le =
    rw (e, cpu_max_power) (by_tdp-IsPlausible (brand_of canonical_id) socket n le)
