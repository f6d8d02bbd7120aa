-- ===== src/Matching/Board/Settled.antt =====
-- A pass of `reconcile_group_form_factors` settles every group: a second pass changes nothing.
use pc_builder.Shared.{
  ◌≡◌, refl, ap, ◌∙◌, inl, inr, Bool, true, false, not, ◌&&◌, Option, none, some, List, [], ◌∷◌,
  map, arith, nat_eq, option_beq, str_beq, str_beq_iff, option_beq_refl, option_eq, Bool-cases,
  length, filter, Str, str_eq, is_empty,
}
use pc_builder.Matching.Board.{
  BoardRow, majority, some_of, evidence, guesses, decide_form, resolve_group_form_factor, in_group,
  is_covered, covers, group_form, settled_form, settle_row, reconcile, is_changed, listings_updated,
  listings_cleared,
}
use pc_builder.Matching.Board.Votes.{
  with_form, evidence-with_form, no_forms, same_forms, majority-copies, some_of-given, majority-All,
}

-- the vote of form factors after every row was given its winner
forms_again :
    (rows : List BoardRow) (v : Option Str)
    → majority (some_of (map (λ r. r.form_factor) rows)) ≡ v
    → majority (some_of (map (λ r. r.form_factor) (map (with_form v) rows))) ≡ v
unfolding majority
forms_again rows none e = rw (no_forms rows) refl
forms_again [] (some s) e = absurd (ground (arith, e))
forms_again (r ∷ rs) (some s) e =
    let given =
      majority-All (λ t. is_empty t ≡ false) (some_of (map (λ q. q.form_factor) (r ∷ rs)))
        (some_of-given (map (λ q. q.form_factor) (r ∷ rs))) e in
    ap majority (same_forms s (r ∷ rs) given) ∙ majority-copies s (length rs)

decide_again :
    (ws : List Str) (rows : List BoardRow) (v : Option Str)
    → decide_form ws (guesses rows) ≡ v
    → decide_form ws (guesses (map (with_form v) rows)) ≡ v
unfolding decide_form
decide_again [] rows v e = forms_again rows v e
decide_again (w ∷ ws) rows v e = e

resolve_again :
    (rows : List BoardRow) (v : Option Str)
    → resolve_group_form_factor rows ≡ v
    → resolve_group_form_factor (map (with_form v) rows) ≡ v
unfolding resolve_group_form_factor
resolve_again rows v e =
    ap (λ ws. decide_form (some_of ws) (guesses (map (with_form v) rows)))
      (evidence-with_form v rows)
    ∙ decide_again (evidence rows) rows v e

settle_row-id :
    (ids : List Str) (rows : List BoardRow) (q : BoardRow)
    → (settle_row ids rows q).canonical_id ≡ q.canonical_id
unfolding settle_row
settle_row-id ids rows q = elim (Bool-cases (is_covered ids q)) [
  | inl e ↦ rw e refl
  | inr e ↦ rw e refl
]

same_id : (a b : Option Str) → option_beq str_beq a b ≡ true → a ≡ b
same_id none none e = refl
same_id none (some b) e = cc
same_id (some a) none e = cc
same_id (some a) (some b) e = ap some ((str_beq_iff a b).0 e)

settle_row-covered :
    (ids : List Str) (rows : List BoardRow) (q : BoardRow)
    → is_covered ids q ≡ true
    → settle_row ids rows q ≡ with_form (settled_form rows q) q
unfolding settle_row with_form
settle_row-covered ids rows q c = rw c refl

settle_row-uncovered :
    (ids : List Str) (rows : List BoardRow) (q : BoardRow)
    → is_covered ids q ≡ false
    → settle_row ids rows q ≡ q
unfolding settle_row
settle_row-uncovered ids rows q c = rw c refl

module _ (ids : List Str) (rows : List BoardRow) (id : Option Str) (c : covers ids id ≡ true) where
  -- The rows of a group that the pass covers, after the pass.
  settled_group :
      (some_rows : List BoardRow)
      → filter (in_group id) (map (settle_row ids rows) some_rows)
        ≡ map (with_form (group_form rows id)) (filter (in_group id) some_rows)
  unfolding with_form
  settled_group [] = refl
  settled_group (q ∷ qs) = elim (Bool-cases (in_group id q)) [
    | inl e ↦
        let same : q.canonical_id ≡ id = same_id q.canonical_id id e in
        let settled : settle_row ids rows q ≡ with_form (group_form rows id) q =
          settle_row-covered ids rows q (ap (covers ids) same ∙ c)
          ∙ ap (λ i. with_form (group_form rows i) q) same in
        rw (settle_row-id ids rows q, e, settled, settled_group qs) refl
    | inr e ↦ rw (settle_row-id ids rows q, e) (settled_group qs)
  ]

  group_form-reconcile : group_form (reconcile ids rows) id ≡ group_form rows id
  unfolding group_form reconcile
  group_form-reconcile =
      ap resolve_group_form_factor (settled_group rows)
      ∙ resolve_again (filter (in_group id) rows) (group_form rows id) refl

unchanged :
    (ids : List Str) (rows : List BoardRow) (q : BoardRow)
    → is_changed ids (reconcile ids rows) (settle_row ids rows q) ≡ false
unfolding with_form group_form
unchanged ids rows q = elim (Bool-cases (is_covered ids q)) [
  | inl c ↦
      rw
        (
          settle_row-id ids rows q,
          group_form-reconcile ids rows q.canonical_id c,
          c,
          ap (λ (r : BoardRow). r.form_factor) (settle_row-covered ids rows q c),
        )
        (ap not (option_beq_refl (settled_form rows q)))
  | inr c ↦ rw (settle_row-id ids rows q, c) refl
]

none_changed :
    (ids : List Str) (rows some_rows : List BoardRow) (p : BoardRow → Bool)
    → length (
        filter
          (λ r. is_changed ids (reconcile ids rows) r && p r)
          (map (settle_row ids rows) some_rows))
      ≡ 0
none_changed ids rows [] p = refl
none_changed ids rows (q ∷ qs) p = rw (unchanged ids rows q) (none_changed ids rows qs p)

-- After a pass, whatever groups it is limited to, every group that it covers is settled: the same
-- pass again finds no listing to update and none to clear.
pub reconcile-settles :
    (ids : List Str) (rows : List BoardRow)
    → (listings_updated ids (reconcile ids rows) ≡ 0)
      × (listings_cleared ids (reconcile ids rows) ≡ 0)
unfolding listings_updated listings_cleared reconcile
reconcile-settles ids rows = (none_changed ids rows rows _, none_changed ids rows rows _)
