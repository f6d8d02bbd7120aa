-- ===== src/Shared/Digits.antt =====
-- Numbers written in decimal digits: what is written reads back, and contains only digits.
use pc_builder.Shared.Tests.{leb, Bool-cases}
use pc_builder.Shared.Lists.{all, all-append}
use pc_builder.Shared.Text.{
  Str, is_space, lstrip, strip, is_empty, is_digit, read_nat, read_from, show_nat, show_fuel,
  show_digit,
}
use Prim.Native.Nat.{ℕ, zero, suc, ◌+◌, ◌*◌, ◌-◌, ◌/◌, ◌%◌, ◌≤◌, ◌<◌}
use mathlib.Core.Path.{◌≡◌, refl}
use mathlib.Core.Bool.{true, false}
use mathlib.Core.Logic.{inl, inr}
use mathlib.Core.List.{reverse, reverse-append, reverse-reverse, [], ◌∷◌, ◌++◌}
use native.Mathlib.Omega.{arith}

read_from-append : (m c : ℕ) (s : Str) → read_from m (s ++ c ∷ []) ≡ read_from m s * 10 + (c - b'0')
read_from-append m c [] = refl
read_from-append m c (d ∷ s) = read_from-append (m * 10 + (d - b'0')) c s

show_fuel_low : (fuel n : ℕ) → leb n 9 ≡ true → show_fuel (suc fuel) n ≡ show_digit n
show_fuel_low fuel n e = rw (e, show_fuel) refl

show_fuel_high :
    (fuel n : ℕ)
    → leb n 9 ≡ false
    → show_fuel (suc fuel) n ≡ show_fuel fuel (n / 10) ++ show_digit (n % 10)
show_fuel_high fuel n e = rw (e, show_fuel) refl

read-show_fuel : (fuel n : ℕ) → n < fuel → read_from 0 (show_fuel fuel n) ≡ n
read-show_fuel zero n h = absurd (omega arith)
read-show_fuel (suc fuel) n h = elim (Bool-cases (leb n 9)) [
  | inl e ↦ rw (show_fuel_low fuel n e) (omega arith)
  | inr e ↦
      let small : n / 10 < fuel = ground arith in
      rw
        (
          show_fuel_high fuel n e,
          read_from-append 0 (b'0' + n % 10) (show_fuel fuel (n / 10)),
          read-show_fuel fuel (n / 10) small,
        )
        (omega arith)
]

-- int(str(n)) is n.
pub read_nat-show_nat : (n : ℕ) → read_nat (show_nat n) ≡ n
unfolding show_nat
read_nat-show_nat n = read-show_fuel (suc n) n (omega arith)

show_digit-digits : (n : ℕ) → n ≤ 9 → all is_digit (show_digit n) ≡ true
show_digit-digits n h = ground arith

show_fuel-digits : (fuel n : ℕ) → all is_digit (show_fuel fuel n) ≡ true
show_fuel-digits zero n = refl
show_fuel-digits (suc fuel) n = elim (Bool-cases (leb n 9)) [
  | inl e ↦ rw (show_fuel_low fuel n e) (show_digit-digits n (ground arith))
  | inr e ↦
      rw
        (
          show_fuel_high fuel n e,
          all-append is_digit (show_fuel fuel (n / 10)) (show_digit (n % 10)),
          show_fuel-digits fuel (n / 10),
        )
        (show_digit-digits (n % 10) (omega arith))
]

pub show_nat-digits : (n : ℕ) → all is_digit (show_nat n) ≡ true
unfolding show_nat
show_nat-digits n = show_fuel-digits (suc n) n

is_empty-append : (s : Str) (c : ℕ) → is_empty (s ++ c ∷ []) ≡ false
is_empty-append [] c = refl
is_empty-append (d ∷ s) c = refl

pub is_empty-show_nat : (n : ℕ) → is_empty (show_nat n) ≡ false
unfolding show_nat
is_empty-show_nat n = elim (Bool-cases (leb n 9)) [
  | inl e ↦ rw (show_fuel_low n n e) refl
  | inr e ↦ rw (show_fuel_high n n e) (is_empty-append (show_fuel n (n / 10)) _)
]

pub lstrip-digits : (s : Str) → all is_digit s ≡ true → lstrip is_space s ≡ s
lstrip-digits [] e = refl
lstrip-digits (c ∷ s) e = let no : is_space c ≡ false = ground (arith, e) in rw no refl

all-reverse : (s : Str) → all is_digit s ≡ true → all is_digit (reverse s) ≡ true
all-reverse [] e = refl
all-reverse (c ∷ s) e =
    rw (reverse-append (c ∷ []) s, all-append is_digit (reverse s) (c ∷ []))
      (rw (all-reverse s (ground (arith, e))) (ground (arith, e)))

pub strip-digits : (s : Str) → all is_digit s ≡ true → strip s ≡ s
strip-digits s e =
    rw (lstrip-digits s e, lstrip-digits (reverse s) (all-reverse s e)) (reverse-reverse s)
