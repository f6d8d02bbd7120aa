-- ===== src/Compat/CpuPower.antt =====
-- src/matching/cpu_power.py.
use pc_builder.Shared.{
  ℕ, zero, suc, ◌+◌, ◌-◌, ◌*◌, ◌/◌, ◌%◌, ◌^◌, min, Bool, true, false, ◌&&◌, Option, none, some,
  List, [], ◌∷◌, ltb, if◌then◌else◌, ◌==◌, nat_eq, option_eq, get_or, Str, codes, str_beq, str_eq,
  mem_str, split_on, lookup,
}

-- INTEL_MAX_TURBO_W
abbrev pub intel_max_turbo_w : List (Str × ℕ)
intel_max_turbo_w =
    (codes "12100", 89)
    ∷ (codes "12100f", 89)
    ∷ (codes "12400", 117)
    ∷ (codes "12400f", 117)
    ∷ (codes "12600k", 150)
    ∷ (codes "12600kf", 150)
    ∷ (codes "12700", 180)
    ∷ (codes "12700f", 180)
    ∷ (codes "12700k", 190)
    ∷ (codes "12700kf", 190)
    ∷ (codes "12900", 202)
    ∷ (codes "12900f", 202)
    ∷ (codes "12900k", 241)
    ∷ (codes "12900kf", 241)
    ∷ (codes "12900ks", 241)
    ∷ (codes "13100", 110)
    ∷ (codes "13100f", 110)
    ∷ (codes "13400", 148)
    ∷ (codes "13400f", 148)
    ∷ (codes "13600", 154)
    ∷ (codes "13600k", 181)
    ∷ (codes "13600kf", 181)
    ∷ (codes "13700", 219)
    ∷ (codes "13700f", 219)
    ∷ (codes "13700k", 253)
    ∷ (codes "13700kf", 253)
    ∷ (codes "13900", 219)
    ∷ (codes "13900f", 219)
    ∷ (codes "13900k", 253)
    ∷ (codes "13900kf", 253)
    ∷ (codes "13900ks", 253)
    ∷ (codes "14100", 110)
    ∷ (codes "14100f", 110)
    ∷ (codes "14400", 148)
    ∷ (codes "14400f", 148)
    ∷ (codes "14500", 154)
    ∷ (codes "14600", 154)
    ∷ (codes "14600k", 181)
    ∷ (codes "14600kf", 181)
    ∷ (codes "14700", 219)
    ∷ (codes "14700f", 219)
    ∷ (codes "14700k", 253)
    ∷ (codes "14700kf", 253)
    ∷ (codes "14900", 219)
    ∷ (codes "14900f", 219)
    ∷ (codes "14900k", 253)
    ∷ (codes "14900kf", 253)
    ∷ (codes "14900ks", 253)
    ∷ (codes "225", 121)
    ∷ (codes "225f", 121)
    ∷ (codes "235", 121)
    ∷ (codes "245", 121)
    ∷ (codes "245k", 159)
    ∷ (codes "245kf", 159)
    ∷ (codes "265", 182)
    ∷ (codes "265f", 182)
    ∷ (codes "265k", 250)
    ∷ (codes "265kf", 250)
    ∷ (codes "285", 182)
    ∷ (codes "285k", 250)
    ∷ (codes "270k", 250)
    ∷ []

-- _AMD_PPT
abbrev pub amd_ppt_table : ℕ → Option ℕ
amd_ppt_table tdp =
    if tdp == 65
    then some 88
    else if tdp == 105
    then some 142
    else if tdp == 120
    then some 162
    else if tdp == 170
    then some 230
    else none

pub data PowerSource : Type 0 where
  intel amd_ppt estimated : PowerSource

-- division rounded to the nearest, ties to even
abbrev round_div : ℕ → ℕ → ℕ
round_div n d =
    let q = n / d in
    let r = n % d in if ltb (2 * r) d then q else if ltb d (2 * r) then q + 1 else q + q % 2

-- how many low bits of the exact product a double leaves out
abbrev dropped_bits : ℕ → ℕ → ℕ
dropped_bits zero p = 0
dropped_bits (suc fuel) p = elim (ltb p (2 ^ 53)) [
  | true ↦ 0
  | false ↦ suc (dropped_bits fuel (p / 2))
]

-- `round(tdp * 1.35)` in doubles: 1.35 is 6079859496950170 / 2 ^ 52, the product is rounded to 53
-- bits and then to an integer. The fuel covers every `tdp` of an INTEGER column.
unfoldable pub times_1_35 : ℕ → ℕ
times_1_35 tdp =
    let p = tdp * 6079859496950170 in
    let s = dropped_bits 32 p in round_div (round_div p (2 ^ s)) (2 ^ (52 - s))

abbrev nth_part : ℕ → List Str → Str
nth_part n [] = []
nth_part zero (s ∷ ss) = s
nth_part (suc n) (s ∷ ss) = nth_part n ss

abbrev pub brand_of : Option Str → Str
brand_of canonical_id = nth_part 1 (split_on b':' (get_or canonical_id []))

abbrev pub model_of : Option Str → Str
model_of canonical_id = nth_part 2 (split_on b':' (get_or canonical_id []))

abbrev pub in_sockets : Option Str → List Str → Bool
in_sockets none ss = false
in_sockets (some s) ss = mem_str s ss

abbrev pub desktop_sockets : List Str
desktop_sockets = codes "AM4" ∷ codes "AM5" ∷ []

abbrev pub workstation_sockets : List Str
workstation_sockets = codes "sTR5" ∷ codes "sWRX8" ∷ codes "sTRX4" ∷ codes "sWRX9" ∷ []

abbrev pub Power : Type 0
Power = Option ℕ × Option PowerSource

unfoldable pub by_tdp : Str → Option Str → Option ℕ → Power
unfolding times_1_35
by_tdp brand socket none = (none, none)
by_tdp brand socket (some zero) = (none, none)
by_tdp brand socket (some (suc n)) =
    let tdp = suc n in
    if str_beq brand (codes "amd") && in_sockets socket desktop_sockets
    then (some (get_or (amd_ppt_table tdp) (times_1_35 tdp)), some amd_ppt)
    else if str_beq brand (codes "amd") && in_sockets socket workstation_sockets
    then (some tdp, some amd_ppt)
    else (some (min (tdp * 2) 253), some estimated)

-- the table's figure, for an Intel model that it lists
unfoldable pub turbo_of : Option Str → Option ℕ
turbo_of canonical_id =
    if str_beq (brand_of canonical_id) (codes "intel")
    then lookup (model_of canonical_id) intel_max_turbo_w
    else none

unfoldable pub cpu_max_power : Option Str → Option Str → Option ℕ → Power
unfolding turbo_of by_tdp
cpu_max_power canonical_id socket tdp = elim (turbo_of canonical_id) [
  | some w ↦ (some w, some intel)
  | none ↦ by_tdp (brand_of canonical_id) socket tdp
]
