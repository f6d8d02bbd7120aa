-- ===== src/Shared/Table.antt =====
-- A database table as a list of rows with a key: lookup by key, update in place, and the least row
-- that passes a test (ORDER BY with LIMIT 1).
use pc_builder.Shared.Tests.{some_inj, ◌==◌, nat_eq, if◌then◌else◌, Bool-cases, nat_beq_iff}
use pc_builder.Shared.Lists.{any, All, length}
use Prim.Native.Nat.{ℕ}
use mathlib.Core.Path.{◌≡◌, refl, subst}
use mathlib.Core.Bool.{Bool, true, false}
use mathlib.Core.Logic.{◌≢◌, inl, inr}
use mathlib.Core.List.{List, [], ◌∷◌}
use mathlib.Core.Option.{Option, none, some}
use native.Mathlib.Omega.{arith}

module _ {ℓ} {A : Type ℓ} (key : A → ℕ) where
  -- session.get(Model, k)
  unfoldable pub get_row : ℕ → List A → Option A
  get_row k [] = none
  get_row k (x ∷ xs) = if key x == k then some x else get_row k xs

  -- the changes of the row object with this key, flushed
  unfoldable pub update_row : ℕ → (A → A) → List A → List A
  update_row k f [] = []
  update_row k f (x ∷ xs) = (if key x == k then f x else x) ∷ update_row k f xs

  pub get_row-key : (k : ℕ) (xs : List A) {x : A} → get_row k xs ≡ some x → key x ≡ k
  unfolding get_row
  get_row-key k [] h = cc
  get_row-key k (y ∷ xs) {x} h = ground (arith, get_row-key k xs {x = x})

  pub get_row-update_row_self :
      (k : ℕ) (f : A → A) (xs : List A) {x : A}
      → ((y : A) → key (f y) ≡ key y)
      → get_row k xs ≡ some x
      → get_row k (update_row k f xs) ≡ some (f x)
  unfolding get_row update_row
  get_row-update_row_self k f [] same e = cc
  get_row-update_row_self k f (y ∷ xs) {x} same e =
      ground (arith, same y, get_row-update_row_self k f xs {x = x} same)

  pub get_row-update_row_ne :
      (k j : ℕ) (f : A → A) (xs : List A)
      → ((y : A) → key (f y) ≡ key y)
      → j ≢ k
      → get_row j (update_row k f xs) ≡ get_row j xs
  unfolding get_row update_row
  get_row-update_row_ne k j f [] same ne = refl
  get_row-update_row_ne k j f (y ∷ xs) same ne =
      ground (arith, same y, get_row-update_row_ne k j f xs same ne)

  pub length-update_row : (k : ℕ) (f : A → A) (xs : List A) → length (update_row k f xs) ≡ length xs
  unfolding update_row
  length-update_row k f [] = refl
  length-update_row k f (x ∷ xs) = omega (arith, length-update_row k f xs)

  -- A property of every row is kept by an update that keeps it at the rows with its key.
  pub All-update_row {κ} :
      (P : A → Type κ) (k : ℕ) (f : A → A) (xs : List A)
      → ((x : A) → key x ≡ k → P x → P (f x))
      → All P xs
      → All P (update_row k f xs)
  unfolding update_row
  All-update_row P k f [] keep h = tt
  All-update_row P k f (x ∷ xs) keep h = elim (Bool-cases (key x == k)) [
    | inl e ↦ rw e (keep x ((nat_beq_iff (key x) k).0 e) h.0, All-update_row P k f xs keep h.1)
    | inr e ↦ rw e (h.0, All-update_row P k f xs keep h.1)
  ]

  pub All-get_row {κ} :
      (P : A → Type κ) (k : ℕ) (xs : List A) {x : A} → All P xs → get_row k xs ≡ some x → P x
  unfolding get_row
  All-get_row P k [] h e = cc
  All-get_row P k (y ∷ xs) {x} h e = elim (Bool-cases (key y == k)) [
    | inl t ↦ subst P (some_inj (rw t at e)) h.0
    | inr t ↦ All-get_row P k xs h.1 (rw t at e)
  ]

-- SELECT … WHERE p ORDER BY le LIMIT 1
module _ {ℓ} {A : Type ℓ} (le : A → A → Bool) (p : A → Bool) where
  abbrev better : A → Option A → A
  better x none = x
  better x (some y) = if le x y then x else y

  unfoldable pub least : List A → Option A
  least [] = none
  least (x ∷ xs) = let rest = least xs in if p x then some (better x rest) else rest

  -- The row found passes the test, and whatever holds of all rows holds of it.
  pub least-All {κ} :
      (P : A → Type κ) (xs : List A) {x : A} → All P xs → least xs ≡ some x → (p x ≡ true) × P x
  unfolding least
  least-All P [] h e = cc
  least-All P (y ∷ xs) {x} h e = elim (Bool-cases (p y)) [
    | inr t ↦ least-All P xs h.1 (rw t at e)
    | inl t ↦ chosen (least xs) (λ z q. least-All P xs {x = z} h.1 q) (t, h.0) (rw t at e)
  ]
    where
      chosen :
          (rest : Option A)
          → ((z : A) → rest ≡ some z → (p z ≡ true) × P z)
          → (p y ≡ true) × P y
          → some (better y rest) ≡ some x
          → (p x ≡ true) × P x
      chosen none ih good q = subst (λ z. (p z ≡ true) × P z) (some_inj q) good
      chosen (some z) ih good q = elim (Bool-cases (le y z)) [
        | inl b ↦ subst (λ w. (p w ≡ true) × P w) (some_inj (rw b at q)) good
        | inr b ↦ subst (λ w. (p w ≡ true) × P w) (some_inj (rw b at q)) (ih z refl)
      ]

  -- None is found exactly when no row passes.
  pub least-none : (xs : List A) → least xs ≡ none → any p xs ≡ false
  unfolding least
  least-none [] h = refl
  least-none (x ∷ xs) h = ground (arith, least-none xs)
