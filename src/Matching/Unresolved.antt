-- ===== src/Matching/Unresolved.antt =====
-- Listings whose extraction failed do not share a key.
use mathlib.Core.List.{append_assoc}
use pc_builder.Shared.{
  ℕ, ◌≡◌, refl, sym, ap, ◌∙◌, inl, inr, true, false, List, [], ◌∷◌, ◌++◌, map, arith, nat_beq,
  nat_eq, option_eq, Bool-cases, all, filter, insert_sorted, sort, All, Str, codes, str_eq,
  mem_code, lower_char, lower, is_digit, starts_with, partition, str_leb, replace_go_skip, replace,
  join, read_nat, show_nat, read_nat-show_nat, show_nat-digits, is_empty-show_nat, strip-digits,
}
use pc_builder.Matching.Keys.{
  KeyFields, normalize_category, key_part, new_parts, by_field, is_part, part_of, sorted_fields,
  make_canonical_key_string, has_signal, disambiguate_failed_key,
}

abbrev pub salt_name : Str
salt_name = codes "_unresolved_id"

abbrev salt : ℕ → Str × Str
salt id = (salt_name, show_nat id)

-- The fields of a key come behind the salt when they are sorted.
abbrev pub BehindSalt : Str × Str → Type 0
BehindSalt f = str_leb salt_name f.0 ≡ true

All-insert_sorted :
    (f : Str × Str) (fs : KeyFields)
    → BehindSalt f
    → All BehindSalt fs
    → All BehindSalt (insert_sorted by_field f fs)
All-insert_sorted f [] b h = (b, tt)
All-insert_sorted f (g ∷ gs) b h = elim (Bool-cases (by_field f g)) [
  | inl e ↦ rw e (b, h)
  | inr e ↦ rw e (h.0, All-insert_sorted f gs b h.1)
]

All-sort : (fs : KeyFields) → All BehindSalt fs → All BehindSalt (sort by_field fs)
All-sort [] h = tt
All-sort (f ∷ fs) h = All-insert_sorted f (sort by_field fs) h.0 (All-sort fs h.1)

salt_first :
    (id : ℕ) (fs : KeyFields)
    → All BehindSalt fs
    → insert_sorted by_field (salt id) fs ≡ salt id ∷ fs
salt_first id [] h = refl
salt_first id (f ∷ fs) h = rw h.0 refl

lower-digits : (s : Str) → all is_digit s ≡ true → lower s ≡ s
lower-digits [] e = refl
lower-digits (c ∷ s) e =
    let same : lower_char c ≡ c = ground (arith, e) in
    rw (same, lower-digits s (ground (arith, e))) refl

not_a_space : (c : ℕ) (s : Str) → is_digit c ≡ true → starts_with (c ∷ s) (codes " ") ≡ false
not_a_space c s e = let no : nat_beq 32 c ≡ false = ground (arith, e) in rw (no, starts_with) refl

no_spaces : (s : Str) → all is_digit s ≡ true → replace (codes " ") (codes "_") s ≡ s
no_spaces [] e = refl
no_spaces (c ∷ s) e =
    replace_go_skip (codes " ") (codes "_") c s (not_a_space c s (ground (arith, e)))
    ∙ ap (λ (r : Str). c ∷ r) (no_spaces s (ground (arith, e)))

key_part-show_nat : (id : ℕ) → key_part (show_nat id) ≡ show_nat id
key_part-show_nat id =
    let d = show_nat-digits id in
    rw (lower-digits (show_nat id) d, strip-digits (show_nat id) d) (no_spaces (show_nat id) d)

-- what stands behind the salt in a key
others : ℕ → KeyFields → List Str
others id fields =
    new_parts (show_nat id ∷ []) (map part_of (filter is_part (sort by_field fields)))

salted_key :
    (category : Str) (fields : KeyFields) (id : ℕ)
    → has_signal fields ≡ false
    → All BehindSalt fields
    → make_canonical_key_string category (disambiguate_failed_key fields id)
      ≡ join (codes ":") (normalize_category category ∷ show_nat id ∷ others id fields)
unfolding make_canonical_key_string disambiguate_failed_key sorted_fields others
salted_key category fields id e h =
    rw
      (
        e,
        salt_first id (sort by_field fields) (All-sort fields h),
        key_part-show_nat id,
        is_empty-show_nat id,
      )
      refl

colon_free : (s : Str) → all is_digit s ≡ true → mem_code b':' s ≡ false
colon_free [] e = refl
colon_free (c ∷ s) e = ground (arith, e, colon_free s)

partition-clean : (s : Str) → mem_code b':' s ≡ false → (partition b':' s).0 ≡ s
partition-clean [] e = refl
partition-clean (c ∷ s) e = ground (arith, e, partition-clean s)

partition-append : (s t : Str) → mem_code b':' s ≡ false → (partition b':' (s ++ b':' ∷ t)).0 ≡ s
partition-append [] t e = refl
partition-append (c ∷ s) t e = ground (arith, e, partition-append s t)

first-join :
    (s : Str) (ts : List Str)
    → mem_code b':' s ≡ false
    → (partition b':' (join (codes ":") (s ∷ ts))).0 ≡ s
first-join s [] e = partition-clean s e
first-join s (t ∷ ts) e =
    ap (λ (k : Str). (partition b':' k).0) (append_assoc s (codes ":") (join (codes ":") (t ∷ ts)))
    ∙ partition-append s (join (codes ":") (t ∷ ts)) e

abbrev tail : Str → Str
tail [] = []
tail (c ∷ s) = s

cancel_prefix : (p s t : Str) → p ++ s ≡ p ++ t → s ≡ t
cancel_prefix [] s t e = e
cancel_prefix (c ∷ p) s t e = cancel_prefix p s t (ap tail e)

-- Two listings of one category whose extraction failed, so that no field of their keys identifies a
-- product, get the same canonical id only if they are the same listing.
pub failed_keys-differ :
    (category : Str) (f g : KeyFields) (p q : ℕ)
    → has_signal f ≡ false
    → has_signal g ≡ false
    → All BehindSalt f
    → All BehindSalt g
    → make_canonical_key_string category (disambiguate_failed_key f p)
      ≡ make_canonical_key_string category (disambiguate_failed_key g q)
    → p ≡ q
failed_keys-differ category f g p q ef eg hf hg same =
    let keys = sym (salted_key category f p ef hf) ∙ same ∙ salted_key category g q eg hg in
    let rest =
      cancel_prefix (normalize_category category ++ codes ":")
        (join (codes ":") (show_nat p ∷ others p f)) (join (codes ":") (show_nat q ∷ others q g))
        keys in
    let shown : show_nat p ≡ show_nat q =
      sym (first-join (show_nat p) (others p f) (colon_free (show_nat p) (show_nat-digits p)))
      ∙ ap (λ (k : Str). (partition b':' k).0) rest
      ∙ first-join (show_nat q) (others q g) (colon_free (show_nat q) (show_nat-digits q)) in
    sym (read_nat-show_nat p) ∙ ap read_nat shown ∙ read_nat-show_nat q
