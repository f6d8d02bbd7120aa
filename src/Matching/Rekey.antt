-- ===== src/Matching/Rekey.antt =====
-- src/matching/rekey.py: moving the listings of a category onto new keys. The key fields of a listing
-- and the change of a spec row by its key are arguments; what is in an extraction and in a spec row
-- is left open.
use pc_builder.Shared.{
  str_beq_refl, ℕ, ◌≡◌, refl, inl, inr, Bool, false, not, ◌&&◌, Option, none, some, List, [], ◌∷◌,
  ◌++◌, map, arith, ltb, if◌then◌else◌, ◌==◌, nat_eq, option_eq, Bool-cases, is_some, length, any,
  filter, Str, codes, str_eq,
}
use pc_builder.Matching.Keys.{KeyFields, make_canonical_key_string, disambiguate_failed_key}

-- a product with its extraction
pub record Listing {ℓ} (E : Type ℓ) : Type ℓ where
  pub id : ℕ
  pub name : Str
  pub canonical_id : Option Str
  pub extraction : E
  pub extraction_id : Option Str
  pub status : Str

pub record Part : Type 0 where
  pub canonical_id : Str
  pub category : Str
  pub brand : Option Str
  pub key_fields : KeyFields
  pub from_title : List Str
  pub status : Str

-- the rows of the category, and the canonical ids of the products that have no extraction
pub record Models {ℓ} (E S : Type ℓ) : Type ℓ where
  pub listings : List (Listing E)
  pub others : List (Option Str)
  pub parts : List Part
  pub specs : List (Str × S)

pub record Stats : Type 0 where
  pub listings_moved : ℕ
  pub old_models_split : ℕ
  pub new_models : ℕ
  pub models_deleted : ℕ

abbrev pub part_at : Str → List Part → Option Part
part_at cid [] = none
part_at cid (p ∷ ps) = if p.canonical_id == cid then some p else part_at cid ps

abbrev pub field_at : Str → KeyFields → Option Str
field_at name [] = none
field_at name ((k, v) ∷ fields) = if k == name then some v else field_at name fields

-- the ids of a list, each once
abbrev pub add_id : Option Str → List (Option Str) → List (Option Str)
add_id cid ids = if any (λ i. i == cid) ids then ids else cid ∷ ids

abbrev pub distinct_ids : List (Option Str) → List (Option Str)
distinct_ids [] = []
distinct_ids (cid ∷ ids) = add_id cid (distinct_ids ids)

abbrev part_of_old : Option Str → List Part → Option Part
part_of_old none parts = none
part_of_old (some cid) parts = part_at cid parts

module _ {ℓ} {S : Type ℓ} where
  abbrev pub spec_at : Str → List (Str × S) → Option S
  spec_at cid [] = none
  spec_at cid ((k, s) ∷ specs) = if k == cid then some s else spec_at cid specs

  abbrev pub set_spec : Str → (S → S) → List (Str × S) → List (Str × S)
  set_spec cid f [] = []
  set_spec cid f ((k, s) ∷ specs) =
      if k == cid then (k, f s) ∷ specs else (k, s) ∷ set_spec cid f specs

  -- a model without a spec row takes a copy of the old one's
  abbrev pub copy_spec : Option Str → Str → List (Str × S) → List (Str × S)
  copy_spec none new_id specs = specs
  copy_spec (some old_id) new_id specs =
      if is_some (spec_at new_id specs)
      then specs
      else elim (spec_at old_id specs) [ none ↦ specs | some s ↦ (new_id, s) ∷ specs ]

module _ {ℓ} {E S : Type ℓ} (category brand_field : Str) (fields_for : E → Str → KeyFields)
    (on_spec : S → KeyFields → S) where
  abbrev pub new_fields : Listing E → KeyFields
  new_fields l = disambiguate_failed_key (fields_for l.extraction l.name) l.id

  unfoldable pub new_key : Listing E → Str
  unfolding make_canonical_key_string disambiguate_failed_key
  new_key l = make_canonical_key_string category (new_fields l)

  unfoldable pub moves_on : Listing E → Bool
  unfolding new_key
  moves_on l = l.status == codes "ok" && not (some (new_key l) == l.canonical_id)

  -- the listings that move
  unfoldable pub moves : List (Listing E) → List (Listing E)
  unfolding moves_on
  moves listings = filter moves_on listings

  abbrev new_part : Listing E → List Part → Part
  new_part l parts = record {
    canonical_id = new_key l;
    category = category;
    brand = field_at brand_field (new_fields l);
    key_fields = new_fields l;
    from_title = l.name ∷ [];
    status = elim (part_of_old l.canonical_id parts) [ none ↦ codes "OK" | some p ↦ p.status ];
  }

  -- one round of the loop over the moves, on the parts and spec rows
  unfoldable pub move_models : Listing E → Models E S → Models E S
  unfolding new_key disambiguate_failed_key
  move_models l m = record m {
    parts = if is_some (part_at (new_key l) m.parts) then m.parts else new_part l m.parts ∷ m.parts;
    specs =
        set_spec (new_key l) (λ s. on_spec s (new_fields l))
          (copy_spec l.canonical_id (new_key l) m.specs);
  }

  unfoldable pub move_all : List (Listing E) → Models E S → Models E S
  unfolding move_models
  move_all [] m = m
  move_all (l ∷ ls) m = move_all ls (move_models l m)

  -- the same round, on the listing
  unfoldable pub move_listing : Listing E → Listing E
  unfolding moves_on new_key
  move_listing l =
      if moves_on l
      then record l { canonical_id = some (new_key l); extraction_id = some (new_key l) }
      else l

  abbrev ids_in_use : Models E S → List (Option Str)
  ids_in_use m = map (λ l. l.canonical_id) m.listings ++ m.others

  abbrev is_used : Models E S → Str → Bool
  is_used m cid = any (λ i. i == some cid) (ids_in_use m)

  abbrev old_ids : List (Listing E) → List (Option Str)
  old_ids moved = distinct_ids (map (λ l. l.canonical_id) moved)

  abbrev is_orphan : List (Option Str) → Models E S → Str → Bool
  is_orphan old m cid = any (λ i. i == some cid) old && not (is_used m cid)

  -- Models without listings are deleted, their spec rows with them.
  unfoldable pub delete_orphans : List (Option Str) → Models E S → Models E S × ℕ
  delete_orphans old m = (
    record m {
      parts = filter (λ p. not (is_orphan old m p.canonical_id)) m.parts;
      specs = filter (λ s. not (is_orphan old m s.0 && is_some (part_at s.0 m.parts))) m.specs;
    },
    length (filter (λ p. is_orphan old m p.canonical_id) m.parts),
  )

  -- whether the listings of a model move to more than one
  abbrev is_split : List (Listing E) → Option Str → Bool
  is_split moved old = ltb 1 (
      length
        (distinct_ids (map (λ l. some (new_key l)) (filter (λ l. l.canonical_id == old) moved))))

  unfoldable pub stats_of : List (Listing E) → ℕ → Stats
  unfolding new_key
  stats_of moved deleted = record {
    listings_moved = length moved;
    old_models_split = length (filter (is_split moved) (old_ids moved));
    new_models = length (distinct_ids (map (λ l. some (new_key l)) moved));
    models_deleted = deleted;
  }

  -- `rekey`, not as a dry run
  unfoldable pub rekey : Models E S → Stats × Models E S
  unfolding moves move_all move_listing delete_orphans stats_of
  rekey m =
      let moved = moves m.listings in
      let after = move_all moved m in
      let (done, deleted) =
        delete_orphans (old_ids moved) (record after { listings = map move_listing m.listings }) in
      (stats_of moved deleted, done)

  new_key-move_listing : (l : Listing E) → new_key (move_listing l) ≡ new_key l
  unfolding move_listing
  new_key-move_listing l = elim (Bool-cases (moves_on l)) [ inl e ↦ rw e refl | inr e ↦ rw e refl ]

  settled_listing : (l : Listing E) → moves_on (move_listing l) ≡ false
  unfolding moves_on move_listing
  settled_listing l = elim (Bool-cases (moves_on l)) [
    | inl e ↦ rw (e, str_beq_refl (new_key l)) (ground arith)
    | inr e ↦ rw e e
  ]

  no_moves : (ls : List (Listing E)) → moves (map move_listing ls) ≡ []
  unfolding moves
  no_moves [] = refl
  no_moves (l ∷ ls) = rw (settled_listing l) (no_moves ls)

  -- Keys are settled by one run: whatever the rows were, a second run finds no listing to move.
  pub rekey-settles : (m : Models E S) → moves (rekey m).1.listings ≡ []
  unfolding rekey
  rekey-settles m = no_moves m.listings
