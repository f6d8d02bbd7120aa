-- ===== src/Matching/Clearance/RoundTrip.antt =====
-- Radiator sizes that are written to the database read back as the set of the valid ones.
use mathlib.Core.List.{append_assoc}
use pc_builder.Shared.{
  ℕ, ◌<◌, ◌≡◌, refl, ap, ◌∙◌, inl, inr, true, false, List, [], ◌∷◌, ◌++◌, map, arith, ltb, nat_beq,
  ◌==◌, nat_eq, option_eq, Bool-cases, all, filter, All, Str, codes, str_eq, mem_code, is_digit,
  split_on, join, show_nat, read_nat-show_nat, show_nat-digits, is_empty-show_nat, strip-digits,
}
use pc_builder.Matching.Clearance.{
  is_radiator_size, add_number, set_of, valid_sizes, format_radiator_sizes, numbers_in,
  parse_radiator_sizes,
}

-- the numbers rise
Rising : List ℕ → Type 0
Rising [] = Unit
Rising (n ∷ ns) = All (λ m. n < m) ns × Rising ns

All-add_number : (P : ℕ → Type 0) (n : ℕ) (ns : List ℕ) → P n → All P ns → All P (add_number n ns)
All-add_number P n [] p h = (p, tt)
All-add_number P n (m ∷ ms) p h = elim (Bool-cases (ltb n m)) [
  | inl e ↦ rw e (p, h)
  | inr e ↦ elim (Bool-cases (n == m)) [
    | inl t ↦ rw (e, t) h
    | inr t ↦ rw (e, t) (h.0, All-add_number P n ms p h.1)
  ]
]

above : (n m : ℕ) (ms : List ℕ) → n < m → All (λ k. m < k) ms → All (λ k. n < k) ms
above n m [] l h = tt
above n m (k ∷ ks) l h = (omega (arith, l, h.0), above n m ks l h.1)

Rising-add_number : (n : ℕ) (ns : List ℕ) → Rising ns → Rising (add_number n ns)
unfolding Rising
Rising-add_number n [] r = (tt, tt)
Rising-add_number n (m ∷ ms) r = elim (Bool-cases (ltb n m)) [
  | inl e ↦ let low : n < m = ground (arith, e) in rw e ((low, above n m ms low r.0), r)
  | inr e ↦ elim (Bool-cases (n == m)) [
    | inl t ↦ rw (e, t) r
    | inr t ↦
        let high : m < n = ground (arith, e, t) in
        rw (e, t) (All-add_number (λ k. m < k) n ms high r.0, Rising-add_number n ms r.1)
  ]
]

Rising-set_of : (ns : List ℕ) → Rising (set_of ns)
unfolding set_of Rising
Rising-set_of [] = tt
Rising-set_of (n ∷ ns) = Rising-add_number n (set_of ns) (Rising-set_of ns)

add_number-first : (n : ℕ) (ns : List ℕ) → All (λ m. n < m) ns → add_number n ns ≡ n ∷ ns
add_number-first n [] h = refl
add_number-first n (m ∷ ms) h = let e : ltb n m ≡ true = ground (arith, h.0) in rw e refl

set_of-Rising : (ns : List ℕ) → Rising ns → set_of ns ≡ ns
unfolding set_of Rising
set_of-Rising [] r = refl
set_of-Rising (n ∷ ns) r = rw (set_of-Rising ns r.1) (add_number-first n ns r.0)

split_on-clean : (c : ℕ) (s : Str) → mem_code c s ≡ false → split_on c s ≡ s ∷ []
split_on-clean c [] e = refl
split_on-clean c (d ∷ s) e = elim (Bool-cases (nat_beq c d)) [
  | inl t ↦ absurd (ground (arith, t, e))
  | inr t ↦ rw (t, split_on-clean c s (ground (arith, t, e))) refl
]

split_on-append :
    (c : ℕ) (s t : Str) → mem_code c s ≡ false → split_on c (s ++ c ∷ t) ≡ s ∷ split_on c t
split_on-append c [] t e = let same : nat_beq c c ≡ true = ground arith in rw same refl
split_on-append c (d ∷ s) t e = elim (Bool-cases (nat_beq c d)) [
  | inl u ↦ absurd (ground (arith, u, e))
  | inr u ↦ rw (u, split_on-append c s t (ground (arith, u, e))) refl
]

no_comma : (s : Str) → all is_digit s ≡ true → mem_code b',' s ≡ false
no_comma [] e = refl
no_comma (c ∷ s) e = ground (arith, e, no_comma s)

numbers_in-show_nat : (ns : List ℕ) → numbers_in (map show_nat ns) ≡ ns
unfolding numbers_in
numbers_in-show_nat [] = refl
numbers_in-show_nat (n ∷ ns) =
    rw
      (
        strip-digits (show_nat n) (show_nat-digits n),
        is_empty-show_nat n,
        show_nat-digits n,
        read_nat-show_nat n,
        numbers_in-show_nat ns,
      )
      refl

split_on-join :
    (n : ℕ) (ns : List ℕ)
    → split_on b',' (join (codes ",") (map show_nat (n ∷ ns))) ≡ map show_nat (n ∷ ns)
split_on-join n [] = split_on-clean b',' (show_nat n) (no_comma (show_nat n) (show_nat-digits n))
split_on-join n (m ∷ ms) =
    let rest = join (codes ",") (map show_nat (m ∷ ms)) in
    ap (split_on b',') (append_assoc (show_nat n) (codes ",") rest)
    ∙ split_on-append b',' (show_nat n) rest (no_comma (show_nat n) (show_nat-digits n))
    ∙ ap (λ (ps : List Str). show_nat n ∷ ps) (split_on-join m ms)

parse-join :
    (ns : List ℕ)
    → Rising ns
    → (sizes : List ℕ) → valid_sizes sizes ≡ ns
    → parse_radiator_sizes (format_radiator_sizes sizes) ≡ ns
unfolding parse_radiator_sizes format_radiator_sizes
parse-join [] r sizes e = rw (e, format_radiator_sizes) refl
parse-join (n ∷ ns) r sizes e =
    rw (e, format_radiator_sizes)
      (rw (split_on-join n ns, numbers_in-show_nat (n ∷ ns)) (set_of-Rising (n ∷ ns) r))

-- Reading the text that was written for some sizes gives the set of those that are radiator sizes.
pub parse-format_radiator_sizes :
    (sizes : List ℕ) → parse_radiator_sizes (format_radiator_sizes sizes) ≡ valid_sizes sizes
unfolding valid_sizes
parse-format_radiator_sizes sizes =
    parse-join (valid_sizes sizes) (Rising-set_of (filter is_radiator_size sizes)) sizes refl
