-- ===== src/Compat/Filtering.antt =====
-- What `filter_candidates` promises of `validate_build`: a candidate that it keeps makes no
-- compatible build incompatible.
use pc_builder.Shared.{
  ℕ, ◌≡◌, refl, sym, ap, ◌∙◌, inl, inr, true, false, not, ◌||◌, List, [], ◌∷◌, arith, if◌then◌else◌,
  ◌==◌, nat_eq, option_eq, Bool-cases, any, insert_at, any-insert_at, any-ext, any-or, any-below,
  str_eq,
}
use pc_builder.Compat.Fields.{slot_eq-apart, Slot, slot_eq, slot_number}
use pc_builder.Compat.Rules.{Rule, rules, is_error}
use pc_builder.Compat.View.{View, Selections}
use pc_builder.Compat.Check.{eval_rule}
use pc_builder.Compat.Validate.{validate, blocks, rejects, keeps}
use pc_builder.Compat.Blocking.{
  is_blocked, clashes, validate-clashes, not_blocks-blocked, not_error-clashes,
}

-- one more part in a slot, at any place of its group
unfoldable pub add_part : Slot → ℕ → View → Selections → Selections
unfolding slot_number
add_part slot n v s key = if key == slot then insert_at n v (s key) else s key

module _ (slot : Slot) (n : ℕ) (v : View) (s : Selections) where
  add_part-same :
      (key : Slot) → (key == slot) ≡ true → add_part slot n v s key ≡ insert_at n v (s key)
  unfolding add_part
  add_part-same key e = rw e refl

  add_part-kept : (key : Slot) → (key == slot) ≡ false → add_part slot n v s key ≡ s key
  unfolding add_part
  add_part-kept key e = rw e refl

  -- the candidate as the first part of a rule
  added_first :
      (q : Rule)
      → is_error q.level ≡ true
      → (q.slot_a == slot) ≡ true
      → rejects slot v s q ≡ false
      → any (is_blocked q v) (s q.slot_b) ≡ false
  unfolding rejects
  added_first q l e h =
      any-below (is_blocked q v) (λ b. blocks (eval_rule q (v.attr q.field_a) (b.attr q.field_b)))
        (s q.slot_b) (λ b. not_blocks-blocked q v b) (rw (l, e) at h)

  -- the candidate as the second part of a rule
  added_second :
      (q : Rule)
      → is_error q.level ≡ true
      → (q.slot_a == slot) ≡ false
      → (q.slot_b == slot) ≡ true
      → rejects slot v s q ≡ false
      → any (λ a. is_blocked q a v) (s q.slot_a) ≡ false
  unfolding rejects
  added_second q l e f h =
      any-below (λ a. is_blocked q a v)
        (λ a. blocks (eval_rule q (a.attr q.field_a) (v.attr q.field_b))) (s q.slot_a)
        (λ a. not_blocks-blocked q a v) (rw (l, e, f) at h)

  second_group :
      (q : Rule)
      → is_error q.level ≡ true
      → (q.slot_a == slot) ≡ false
      → (q.slot_b == slot) ≡ true
      → rejects slot v s q ≡ false
      → any (λ a. any (is_blocked q a) (insert_at n v (s q.slot_b))) (s q.slot_a)
        ≡ any (λ a. any (is_blocked q a) (s q.slot_b)) (s q.slot_a)
  second_group q l e f h =
      let old = λ (a : View). any (is_blocked q a) (s q.slot_b) in
      any-ext (λ a. any (is_blocked q a) (insert_at n v (s q.slot_b)))
        (λ a. is_blocked q a v || old a) (s q.slot_a)
        (λ a. any-insert_at (is_blocked q a) n v (s q.slot_b))
      ∙ any-or (λ a. is_blocked q a v) old (s q.slot_a)
      ∙ ap (λ t. t || any old (s q.slot_a)) (added_second q l e f h)

  error-clashes :
      (q : Rule)
      → (q.slot_a == q.slot_b) ≡ false
      → is_error q.level ≡ true
      → rejects slot v s q ≡ false
      → clashes (add_part slot n v s) q ≡ clashes s q
  unfolding clashes
  error-clashes q d l h = elim (Bool-cases (q.slot_a == slot)) [
    | inl e ↦
        let other = slot_eq-apart q.slot_a q.slot_b slot d e in
        rw
          (
            add_part-same q.slot_a e,
            add_part-kept q.slot_b other,
            any-insert_at (λ a. any (is_blocked q a) (s q.slot_b)) n v (s q.slot_a),
            added_first q l e h,
          )
          refl
    | inr e ↦ elim (Bool-cases (q.slot_b == slot)) [
      | inl f ↦ rw (add_part-kept q.slot_a e, add_part-same q.slot_b f) (second_group q l e f h)
      | inr f ↦ rw (add_part-kept q.slot_a e, add_part-kept q.slot_b f) refl
    ]
  ]

  rule-clashes :
      (q : Rule)
      → (q.slot_a == q.slot_b) ≡ false
      → rejects slot v s q ≡ false
      → clashes (add_part slot n v s) q ≡ clashes s q
  rule-clashes q d h = elim (Bool-cases (is_error q.level)) [
    | inl l ↦ error-clashes q d l h
    | inr l ↦ not_error-clashes q (add_part slot n v s) l ∙ sym (not_error-clashes q s l)
  ]

  rules-clashes :
      (qs : List Rule)
      → any (λ q. q.slot_a == q.slot_b) qs ≡ false
      → any (rejects slot v s) qs ≡ false
      → any (clashes (add_part slot n v s)) qs ≡ any (clashes s) qs
  rules-clashes [] d h = refl
  rules-clashes (q ∷ qs) d h =
      rw
        (
          rule-clashes q (ground (arith, d)) (ground (arith, h)),
          rules-clashes qs (ground (arith, d)) (ground (arith, h)),
        )
        refl

two_slots : any (λ q. q.slot_a == q.slot_b) rules ≡ false
unfolding rules slot_eq slot_number
two_slots = refl

-- A candidate that the filter keeps, added to its slot at any place, does not change whether the
-- build is compatible.
pub keeps-compatible :
    (slot : Slot) (n : ℕ) (v : View) (s : Selections)
    → keeps slot s v ≡ true
    → (validate (add_part slot n v s)).compatible ≡ (validate s).compatible
unfolding keeps
keeps-compatible slot n v s h =
    validate-clashes (add_part slot n v s)
    ∙ ap not (rules-clashes slot n v s rules two_slots (ground (arith, h)))
    ∙ sym (validate-clashes s)
