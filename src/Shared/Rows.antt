-- ===== src/Shared/Rows.antt =====
-- Tables whose keys are distinct, and tables that agree row by row up to a relation.
use pc_builder.Shared.Tests.{◌==◌, nat_eq, Bool-cases, some_inj}
use pc_builder.Shared.Lists.{All}
use pc_builder.Shared.Table.{get_row, update_row}
use Prim.Native.Nat.{ℕ, ◌≤◌, ◌<◌}
use mathlib.Core.Path.{◌≡◌, refl, subst, sym}
use mathlib.Core.Logic.{inl, inr}
use mathlib.Core.List.{List, [], ◌∷◌, map}
use mathlib.Core.Option.{none, some}
use native.Mathlib.Omega.{arith}

-- Keys fall along the list and stay below a bound, so that no key stands twice.
module _ {ℓ} {A : Type ℓ} (key : A → ℕ) where
  abbrev pub Below : ℕ → List A → Type 0
  Below n [] = Unit
  Below n (x ∷ xs) = (key x < n) × Below (key x) xs

  pub Below-mono : (m n : ℕ) (xs : List A) → m ≤ n → Below m xs → Below n xs
  Below-mono m n [] le b = tt
  Below-mono m n (x ∷ xs) le b = (omega arith, b.1)

  pub get_row_above : (n k : ℕ) (xs : List A) → Below n xs → n ≤ k → get_row key k xs ≡ none
  unfolding get_row
  get_row_above n k [] b le = refl
  get_row_above n k (x ∷ xs) b le = ground (arith, get_row_above (key x) k xs b.1)

  update_row_above :
      (n k : ℕ) (f : A → A) (xs : List A) → Below n xs → n ≤ k → update_row key k f xs ≡ xs
  unfolding update_row
  update_row_above n k f [] b le = refl
  update_row_above n k f (x ∷ xs) b le = ground (arith, update_row_above (key x) k f xs b.1)

  pub get_row_under :
      (n k : ℕ) (xs : List A) {x : A} → Below n xs → get_row key k xs ≡ some x → k < n
  unfolding get_row
  get_row_under n k [] b e = cc
  get_row_under n k (y ∷ xs) {x} b e = ground (arith, get_row_under (key y) k xs {x = x} b.1)

  shadowed :
      (n : ℕ) (x : A) (xs ys : List A)
      → Below (key x) xs
      → All (λ y. get_row key (key y) xs ≡ some y) ys
      → All (λ y. get_row key (key y) (x ∷ xs) ≡ some y) ys
  unfolding get_row
  shadowed n x xs [] b h = tt
  shadowed n x xs (y ∷ ys) b h =
      (ground (arith, get_row_under (key x) (key y) xs b h.0), shadowed n x xs ys b h.1)

  -- Each row is the one that its key finds.
  pub Below-get_row :
      (n : ℕ) (xs : List A) → Below n xs → All (λ x. get_row key (key x) xs ≡ some x) xs
  unfolding get_row
  Below-get_row n [] b = tt
  Below-get_row n (x ∷ xs) b = (ground arith, shadowed n x xs xs b.1 (Below-get_row (key x) xs b.1))

-- Two tables with the same rows in the same order, each row related to its successor.
pub data Pointwise {ℓ κ} {A : Type ℓ} (R : A → A → Type κ) : List A → List A → Type (ℓ ⊔ κ) where
  nil : Pointwise R [] []
  cons : {x y : A} {xs ys : List A} → R x y → Pointwise R xs ys → Pointwise R (x ∷ xs) (y ∷ ys)

module _ {ℓ κ} {A : Type ℓ} (R : A → A → Type κ) where
  pub Pointwise-refl : ((x : A) → R x x) → (xs : List A) → Pointwise R xs xs
  Pointwise-refl r [] = nil
  Pointwise-refl r (x ∷ xs) = cons (r x) (Pointwise-refl r xs)

  pub Pointwise-mono {μ} :
      (S : A → A → Type μ)
      → ((x y : A) → R x y → S x y)
      → {xs ys : List A} → Pointwise R xs ys
      → Pointwise S xs ys
  Pointwise-mono S f nil = nil
  Pointwise-mono S f (cons r p) = cons (f _ _ r) (Pointwise-mono S f p)

  pub Pointwise-map :
      (f : A → A) → ((x : A) → R x (f x)) → (xs : List A) → Pointwise R xs (map f xs)
  Pointwise-map f r [] = nil
  Pointwise-map f r (x ∷ xs) = cons (r x) (Pointwise-map f r xs)

  pub Pointwise-trans :
      ((x y z : A) → R x y → R y z → R x z)
      → {xs ys zs : List A} → Pointwise R xs ys
      → Pointwise R ys zs
      → Pointwise R xs zs
  Pointwise-trans t nil nil = nil
  Pointwise-trans t (cons r p) (cons s q) = cons (t _ _ _ r s) (Pointwise-trans t p q)

  pub Pointwise-All {μ} :
      (P : A → Type μ)
      → ((x y : A) → R x y → P x → P y)
      → {xs ys : List A} → Pointwise R xs ys
      → All P xs
      → All P ys
  Pointwise-All P keep nil h = tt
  Pointwise-All P keep (cons r p) h = (keep _ _ r h.0, Pointwise-All P keep p h.1)

  pub Pointwise-Below :
      (key : A → ℕ)
      → ((x y : A) → R x y → key y ≡ key x)
      → (n : ℕ) {xs ys : List A} → Pointwise R xs ys
      → Below key n xs
      → Below key n ys
  Pointwise-Below key same n nil b = tt
  Pointwise-Below key same n (cons {x} {y} {xs} {ys} r p) b =
      (omega (arith, same x y r), rw (same x y r) (Pointwise-Below key same (key x) p b.1))

  -- The update of one row, whose key finds it.
  pub Pointwise-update_row :
      (key : A → ℕ) (n k : ℕ) (f : A → A) (xs : List A) {j : A}
      → ((x : A) → R x x)
      → Below key n xs
      → get_row key k xs ≡ some j
      → R j (f j)
      → Pointwise R xs (update_row key k f xs)
  unfolding get_row update_row
  Pointwise-update_row key n k f [] r b e s = nil
  Pointwise-update_row key n k f (x ∷ xs) {j} r b e s = elim (Bool-cases (key x == k)) [
    | inl t ↦ rw t (
        rw (update_row_above key (key x) k f xs b.1 (ground arith))
          (cons (subst (λ z. R z (f z)) (sym (some_inj (rw t at e))) s) (Pointwise-refl r xs)))
    | inr t ↦ rw t (cons (r x) (Pointwise-update_row key (key x) k f xs r b.1 (rw t at e) s))
  ]

  -- The row behind a key, before.
  pub Pointwise-get_row :
      (key : A → ℕ)
      → ((x y : A) → R x y → key y ≡ key x)
      → (k : ℕ) {xs ys : List A} {y : A} → Pointwise R xs ys
      → get_row key k ys ≡ some y
      → (x : A) × (get_row key k xs ≡ some x) × R x y
  unfolding get_row
  Pointwise-get_row key same k nil e = cc
  Pointwise-get_row key same k {y} (cons {x = a} {y = b} r p) e = elim (Bool-cases (key b == k)) [
    | inl t ↦ (a, rw (sym (same a b r)) (rw t refl), subst (R a) (some_inj (rw t at e)) r)
    | inr t ↦
        let (x, found, rel) = Pointwise-get_row key same k p (rw t at e) in
        (x, rw (sym (same a b r)) (rw t found), rel)
  ]
