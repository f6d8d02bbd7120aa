-- ===== src/Matching/Board/Votes.antt =====
-- The vote of a group of motherboard listings, and that a pass settles every group.
use mathlib.Core.Path.{subst}
use pc_builder.Shared.{
  ℕ, zero, suc, ◌≤◌, ◌≡◌, refl, ap, ◌∙◌, inl, inr, Bool, true, false, Option, none, some, List, [],
  ◌∷◌, map, arith, if◌then◌else◌, nat_eq, option_eq, Bool-cases, some_inj, length, All, Str, str_eq,
  is_empty,
}
use pc_builder.Matching.Board.{BoardRow, count, beats, best_of, majority, some_of, evidence_of}

le_trans : {a b c : ℕ} → a ≤ b → b ≤ c → a ≤ c
le_trans p q = omega arith

module _ (values : List Str) where
  better_of : Str → Str → Str
  better_of best v = if beats values v best then v else best

  better_of-le :
      (best v : Str)
      → (count v values ≤ count (better_of best v) values)
        × (count best values ≤ count (better_of best v) values)
  unfolding better_of
  better_of-le best v = ground arith

  best_of-le :
      (best : Str) (vs : List Str) → count best values ≤ count (best_of values best vs) values
  unfolding better_of
  best_of-le best [] = omega arith
  best_of-le best (v ∷ vs) = le_trans ((better_of-le best v).1) (best_of-le (better_of best v) vs)

  best_of-IsMost :
      (best : Str) (vs : List Str)
      → All (λ v. count v values ≤ count (best_of values best vs) values) vs
  unfolding better_of
  best_of-IsMost best [] = tt
  best_of-IsMost best (v ∷ vs) = (
    le_trans ((better_of-le best v).0) (best_of-le (better_of best v) vs),
    best_of-IsMost (better_of best v) vs,
  )

  best_of-All {κ} :
      (P : Str → Type κ) (best : Str) (vs : List Str)
      → P best
      → All P vs
      → P (best_of values best vs)
  best_of-All P best [] p h = p
  best_of-All P best (v ∷ vs) p h = elim (Bool-cases (beats values v best)) [
    | inl e ↦ rw e (best_of-All P v vs h.0 h.1)
    | inr e ↦ rw e (best_of-All P best vs p h.1)
  ]

-- The winner of a vote stands among the values, and no value stands there more often.
pub majority-IsMost :
    (values : List Str) {winner : Str}
    → majority values ≡ some winner
    → All (λ v. count v values ≤ count winner values) values
unfolding majority
majority-IsMost [] e = cc
majority-IsMost (v ∷ vs) e =
    subst (λ w. All (λ u. count u (v ∷ vs) ≤ count w (v ∷ vs)) (v ∷ vs)) (some_inj e)
      (best_of-le (v ∷ vs) v vs, best_of-IsMost (v ∷ vs) v vs)

unfoldable pub with_form : Option Str → BoardRow → BoardRow
with_form v r = record r { form_factor = v }

-- the form factors and the evidence of a group after every row was given `v`
pub evidence-with_form :
    (v : Option Str) (rows : List BoardRow)
    → map evidence_of (map (with_form v) rows) ≡ map evidence_of rows
unfolding with_form
evidence-with_form v [] = refl
evidence-with_form v (r ∷ rs) = rw (evidence-with_form v rs) refl

pub no_forms :
    (rows : List BoardRow) → some_of (map (λ r. r.form_factor) (map (with_form none) rows)) ≡ []
unfolding with_form
no_forms [] = refl
no_forms (r ∷ rs) = no_forms rs

unfoldable pub copies : ℕ → Str → List Str
copies zero s = []
copies (suc n) s = s ∷ copies n s

pub same_forms :
    (s : Str) (rows : List BoardRow)
    → is_empty s ≡ false
    → some_of (map (λ r. r.form_factor) (map (with_form (some s)) rows)) ≡ copies (length rows) s
unfolding with_form copies
same_forms s [] e = refl
same_forms s (r ∷ rs) e = rw (e, same_forms s rs e) refl

either_way : (b : Bool) (s : Str) → (if b then s else s) ≡ s
either_way true s = refl
either_way false s = refl

best_of-copies : (values : List Str) (s : Str) (n : ℕ) → best_of values s (copies n s) ≡ s
unfolding copies
best_of-copies values s zero = refl
best_of-copies values s (suc n) =
    ap (λ x. best_of values x (copies n s)) (either_way (beats values s s) s)
    ∙ best_of-copies values s n

pub majority-copies : (s : Str) (n : ℕ) → majority (copies (suc n) s) ≡ some s
unfolding majority copies
majority-copies s n = ap some (best_of-copies (s ∷ copies n s) s n)

pub some_of-given : (os : List (Option Str)) → All (λ s. is_empty s ≡ false) (some_of os)
some_of-given [] = tt
some_of-given (none ∷ os) = some_of-given os
some_of-given (some s ∷ os) = elim (Bool-cases (is_empty s)) [
  | inl e ↦ rw e (some_of-given os)
  | inr e ↦ rw e (e, some_of-given os)
]

pub majority-All :
    (P : Str → Type 0) (vs : List Str) {s : Str} → All P vs → majority vs ≡ some s → P s
unfolding majority
majority-All P [] h e = cc
majority-All P (v ∷ vs) h e = subst P (some_inj e) (best_of-All (v ∷ vs) P v vs h.0 h.1)
