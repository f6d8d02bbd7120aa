-- ===== src/Matching/Clearance/Votes.antt =====
-- The value on which the pages of a cabinet agree.
use mathlib.Core.Path.{subst}
use pc_builder.Shared.{
  ℕ, ◌-◌, ◌*◌, ◌≤◌, min, max, ◌≡◌, inl, inr, Bool, some, List, [], ◌∷◌, arith, ltb, ◌==◌, nat_eq,
  option_eq, Bool-cases, All, str_eq,
}
use pc_builder.Matching.Clearance.{smallest, largest, resolve_votes}

smallest-le : (n : ℕ) (ns : List ℕ) → smallest n ns ≤ n
smallest-le n [] = omega arith
smallest-le n (m ∷ ms) = omega (arith, smallest-le (min n m) ms)

smallest-All : (n : ℕ) (ns : List ℕ) → All (λ x. smallest n ns ≤ x) ns
smallest-All n [] = tt
smallest-All n (m ∷ ms) = (omega (arith, smallest-le (min n m) ms), smallest-All (min n m) ms)

largest-ge : (n : ℕ) (ns : List ℕ) → n ≤ largest n ns
largest-ge n [] = omega arith
largest-ge n (m ∷ ms) = omega (arith, largest-ge (max n m) ms)

largest-All : (n : ℕ) (ns : List ℕ) → All (λ x. x ≤ largest n ns) ns
largest-All n [] = tt
largest-All n (m ∷ ms) = (omega (arith, largest-ge (max n m) ms), largest-All (max n m) ms)

between :
    (lo hi : ℕ) (ns : List ℕ)
    → 10 * (hi - lo) ≤ lo
    → All (λ x. lo ≤ x) ns
    → All (λ x. x ≤ hi) ns
    → All (λ x. (lo ≤ x) × (10 * (x - lo) ≤ lo)) ns
between lo hi [] e p q = tt
between lo hi (x ∷ xs) e p q = ((p.0, omega (arith, p.0, q.0, e)), between lo hi xs e p.1 q.1)

-- A value is taken from several pages only if no page is more than a tenth above it and none below.
pub resolve_votes-agree :
    (values : List ℕ) {v : ℕ} {conflict : Bool}
    → resolve_votes values ≡ some (some v, conflict)
    → All (λ x. (v ≤ x) × (10 * (x - v) ≤ v)) values
unfolding resolve_votes
resolve_votes-agree [] e = cc
resolve_votes-agree (n ∷ ns) {v} {conflict} e =
    let lo = smallest n ns in
    let hi = largest n ns in
    elim (Bool-cases (lo == 0)) [
      | inl z ↦ absurd (ground (arith, rw z at e))
      | inr z ↦ elim (Bool-cases (ltb lo (10 * (hi - lo)))) [
        | inl t ↦ absurd (ground (arith, rw (z, t) at e))
        | inr t ↦
            let same : lo ≡ v = let h = rw (z, t) at e in ground (arith, h) in
            subst (λ k. All (λ x. (k ≤ x) × (10 * (x - k) ≤ k)) (n ∷ ns)) same
              (between lo hi (n ∷ ns) (ground (arith, t)) (smallest-le n ns, smallest-All n ns)
                (largest-ge n ns, largest-All n ns))
      ]
    ]
