-- ===== src/Shared/Lists.antt =====
-- Lists measured by native numbers, searched and filtered by Boolean tests, and predicates on them.
use Prim.Native.Nat.{ℕ, zero, suc, ◌+◌, ◌≤◌}
use mathlib.Core.Path.{◌≡◌, refl}
use mathlib.Core.Bool.{Bool, true, false, ◌&&◌, ◌||◌}
use mathlib.Core.List.{List, [], ◌∷◌, ◌++◌}
use mathlib.Core.Option.{Option, none, some}
use native.Mathlib.Omega.{arith}
use pc_builder.Shared.Tests.{if◌then◌else◌}

module _ {ℓ} {A : Type ℓ} where
  abbrev pub length : List A → ℕ
  length [] = 0
  length (x ∷ xs) = suc (length xs)

  pub length-append : (xs ys : List A) → length (xs ++ ys) ≡ length xs + length ys
  length-append [] ys = omega arith
  length-append (x ∷ xs) ys = omega (arith, length-append xs ys)

  abbrev pub take : ℕ → List A → List A
  take zero xs = []
  take (suc n) [] = []
  take (suc n) (x ∷ xs) = x ∷ take n xs

  pub length-take-le : (n : ℕ) (xs : List A) → length (take n xs) ≤ n
  length-take-le zero xs = omega arith
  length-take-le (suc n) [] = omega arith
  length-take-le (suc n) (x ∷ xs) = omega (arith, length-take-le n xs)

  abbrev pub drop : ℕ → List A → List A
  drop zero xs = xs
  drop (suc n) [] = []
  drop (suc n) (x ∷ xs) = drop n xs

  abbrev pub any : (A → Bool) → List A → Bool
  any p [] = false
  any p (x ∷ xs) = p x || any p xs

  abbrev pub all : (A → Bool) → List A → Bool
  all p [] = true
  all p (x ∷ xs) = p x && all p xs

  abbrev pub filter : (A → Bool) → List A → List A
  filter p [] = []
  filter p (x ∷ xs) = if p x then x ∷ filter p xs else filter p xs

  abbrev pub find : (A → Bool) → List A → Option A
  find p [] = none
  find p (x ∷ xs) = if p x then some x else find p xs

  abbrev pub insert_sorted : (A → A → Bool) → A → List A → List A
  insert_sorted le x [] = x ∷ []
  insert_sorted le x (y ∷ ys) = if le x y then x ∷ y ∷ ys else y ∷ insert_sorted le x ys

  -- Python's `sorted` and SQL's ORDER BY, for a total order `le`
  abbrev pub sort : (A → A → Bool) → List A → List A
  sort le [] = []
  sort le (x ∷ xs) = insert_sorted le x (sort le xs)

  -- every element of the list satisfies `P`, as a nested tuple
  abbrev pub All {κ} : (P : A → Type κ) (l : List A) → Type κ
  All P (a ∷ l) = P a × All P l
  All P [] = Unit

  pub All-append {κ} : (P : A → Type κ) (l m : List A) → All P l → All P m → All P (l ++ m)
  All-append P (a ∷ l) m all_l all_m = (all_l.0, All-append P l m all_l.1 all_m)
  All-append P [] m all_l all_m = all_m

  pub All-map {κ μ} :
      (P : A → Type κ) (Q : A → Type μ) (xs : List A) → ((x : A) → P x → Q x) → All P xs → All Q xs
  All-map P Q [] f h = tt
  All-map P Q (x ∷ xs) f h = (f x h.0, All-map P Q xs f h.1)

module _ {ℓ} {A : Type ℓ} (p : A → Bool) where
  pub any-append : (xs ys : List A) → any p (xs ++ ys) ≡ any p xs || any p ys
  any-append [] ys = ground arith
  any-append (x ∷ xs) ys = ground (arith, any-append xs ys)

  pub any-none : (xs : List A) → ((x : A) → p x ≡ false) → any p xs ≡ false
  any-none [] h = refl
  any-none (x ∷ xs) h = rw (h x, any-none xs h) refl

  pub all-append : (xs ys : List A) → all p (xs ++ ys) ≡ all p xs && all p ys
  all-append [] ys = ground arith
  all-append (x ∷ xs) ys = ground (arith, all-append xs ys)

module _ {ℓ} {A : Type ℓ} where
  -- a list with one more element, at any place
  abbrev pub insert_at : ℕ → A → List A → List A
  insert_at zero v xs = v ∷ xs
  insert_at (suc n) v [] = v ∷ []
  insert_at (suc n) v (x ∷ xs) = x ∷ insert_at n v xs

  pub all-insert_at :
      (p : A → Bool) (n : ℕ) (v : A) (xs : List A) → all p (insert_at n v xs) ≡ p v && all p xs
  all-insert_at p zero v xs = ground arith
  all-insert_at p (suc n) v [] = ground arith
  all-insert_at p (suc n) v (x ∷ xs) = ground (arith, all-insert_at p n v xs)

  pub any-insert_at :
      (p : A → Bool) (n : ℕ) (v : A) (xs : List A) → any p (insert_at n v xs) ≡ p v || any p xs
  any-insert_at p zero v xs = ground arith
  any-insert_at p (suc n) v [] = ground arith
  any-insert_at p (suc n) v (x ∷ xs) = ground (arith, any-insert_at p n v xs)

  pub any-ext : (p q : A → Bool) (xs : List A) → ((x : A) → p x ≡ q x) → any p xs ≡ any q xs
  any-ext p q [] h = refl
  any-ext p q (x ∷ xs) h = rw (h x, any-ext p q xs h) refl

  pub any-or : (p q : A → Bool) (xs : List A) → any (λ x. p x || q x) xs ≡ any p xs || any q xs
  any-or p q [] = refl
  any-or p q (x ∷ xs) = ground (arith, any-or p q xs)

  -- what holds of some element only if another test does
  pub any-below :
      (p q : A → Bool) (xs : List A)
      → ((x : A) → q x ≡ false → p x ≡ false)
      → any q xs ≡ false
      → any p xs ≡ false
  any-below p q [] h none_q = refl
  any-below p q (x ∷ xs) h none_q = ground (arith, h x, any-below p q xs h)
