-- ===== src/Matching/Vocabulary.antt =====
-- The classifiers answer from their own vocabulary, whatever the title.
use mathlib.Core.Path.{subst}
use pc_builder.Shared.{
  ◌≡◌, refl, ◌∙◌, inl, inr, Bool, true, false, ◌&&◌, ◌||◌, Option, none, some, List, [], ◌∷◌,
  if◌then◌else◌, ◌==◌, nat_eq, option_eq, Bool-cases, Option-cases, get_or, some_inj, any, all, Str,
  codes, str_eq, mem_str, is_empty, upper, lower, strip,
}
use pc_builder.Regex.{Regex, is_found}
use pc_builder.Matching.Category.Tables.{
  production_categories, category_mapping, title_only_category_markers, cpu_brand_indicators,
  thermal_material_indicators, removable_media_indicators, audio_indicators,
}
use pc_builder.Matching.Category.Stray.{StrayRule, stray_title_rules}
use pc_builder.Matching.Category.{
  named, says, first_marked, classify_from_title, rule_names, first_rule, category_named_by_title,
  accessories, mapped, corrected, get_p_category, indicates_discrete_gpu, indicates_standalone_fan,
}
use pc_builder.Matching.FormFactors.{
  canonical_forms, form_patterns, first_form, form_of, normalize_form_factor,
}

and_left : (a b : Bool) → a && b ≡ true → a ≡ true
and_left true b e = refl
and_left false b e = cc

and_right : (a b : Bool) → a && b ≡ true → b ≡ true
and_right true b e = e
and_right false b e = cc

module _ (vocabulary : List Str) where
  -- The text is in the vocabulary; the answer is, if there is one.
  record In (s : Str) : Type 0 where
    pub holds : mem_str s vocabulary ≡ true

  record Known (o : Option Str) : Type 0 where
    pub given : (s : Str) → o ≡ some s → mem_str s vocabulary ≡ true

  Known-none : Known none
  Known-none = record { given = λ s e. cc }

  Known-some : (s : Str) → mem_str s vocabulary ≡ true → Known (some s)
  Known-some s i = record { given = λ t e. subst (λ u. mem_str u vocabulary ≡ true) (some_inj e) i }

  Known-if : (b : Bool) (x y : Option Str) → Known x → Known y → Known (if b then x else y)
  Known-if true x y p q = p
  Known-if false x y p q = q

  In-if : (b : Bool) (x y : Str) → In x → In y → In (if b then x else y)
  In-if true x y p q = p
  In-if false x y p q = q

  In-get_or : (o : Option Str) (s : Str) → Known o → In s → In (get_or o s)
  In-get_or none s k i = i
  In-get_or (some t) s k i = record { holds = k.given t refl }

  named-Known :
      (rows : List (Str × List Str)) (p : Str → Bool)
      → all (λ r. mem_str r.0 vocabulary) rows ≡ true
      → Known (named rows p)
  named-Known [] p h = Known-none
  named-Known (r ∷ rows) p h =
      Known-if (any p r.1) _ _ (Known-some r.0 (and_left _ _ h))
        (named-Known rows p (and_right (mem_str r.0 vocabulary) _ h))

  first_marked-Known :
      (rows : List (Str × List Str)) (title : Option Str)
      → all (λ r. mem_str r.0 vocabulary) rows ≡ true
      → Known (first_marked rows title)
  first_marked-Known [] title h = Known-none
  first_marked-Known (r ∷ rows) title h =
      Known-if (says r.1 title) _ _ (Known-some r.0 (and_left _ _ h))
        (first_marked-Known rows title (and_right (mem_str r.0 vocabulary) _ h))

  first_rule-Known :
      (rules : List StrayRule) (p title : Str)
      → all (λ r. mem_str r.target vocabulary) rules ≡ true
      → Known (first_rule rules p title)
  unfolding first_rule
  first_rule-Known [] p title h = Known-none
  first_rule-Known (r ∷ rules) p title h =
      Known-if (rule_names r p title) _ _ (Known-some r.target (and_left _ _ h))
        (first_rule-Known rules p title (and_right (mem_str r.target vocabulary) _ h))

  first_form-Known :
      (rows : List (Regex × Str)) (text : Str)
      → all (λ r. mem_str r.1 vocabulary) rows ≡ true
      → Known (first_form rows text)
  unfolding first_form
  first_form-Known [] text h = Known-none
  first_form-Known (r ∷ rows) text h =
      Known-if (is_found r.0 text) _ _ (Known-some r.1 (and_left _ _ h))
        (first_form-Known rows text (and_right (mem_str r.1 vocabulary) _ h))

classify_from_title-Known :
    (title : Option Str) → Known production_categories (classify_from_title title)
unfolding classify_from_title
classify_from_title-Known title =
    let c = production_categories in
    Known-if c (is_empty (get_or title [])) _ _ (Known-none c) (
      Known-if c (indicates_discrete_gpu title) _ _ (Known-some c (codes "GPU") refl) (
        Known-if c (says removable_media_indicators title || says audio_indicators title) _ _
          (Known-some c accessories refl)
          (Known-if c (says thermal_material_indicators title) _ _ (Known-some c accessories refl) (
            Known-if c (says cpu_brand_indicators title) _ _ (Known-some c (codes "CPU") refl)
              (first_marked-Known c title_only_category_markers title refl)))))

named_by_title-Known :
    (p : Str) (title : Option Str) → Known production_categories (category_named_by_title p title)
unfolding category_named_by_title
named_by_title-Known p none = Known-none production_categories
named_by_title-Known p (some title) =
    Known-if production_categories (is_empty title) _ _ (Known-none production_categories)
      (first_rule-Known production_categories stray_title_rules p title refl)

abbrev in_site : (s : Str) → mem_str s production_categories ≡ true → In production_categories s
in_site s e = record { holds = e }

corrected-In :
    (p : Str) (title : Option Str)
    → In production_categories p
    → In production_categories (corrected p title)
unfolding corrected
corrected-In p title i =
    let c = production_categories in
    In-if c (p == codes "CPU" && indicates_discrete_gpu title) _ _ (in_site (codes "GPU") refl) (
      In-if c (p == codes "CPU Cooler" && says thermal_material_indicators title) _ _
        (in_site accessories refl)
        (In-if c (p == codes "Power Supply" && says audio_indicators title) _ _
          (in_site accessories refl)
          (In-if c (p == codes "Cabinet" && indicates_standalone_fan title) _ _
            (in_site accessories refl)
            (In-if c (p == codes "GPU" && says removable_media_indicators title) _ _
              (in_site accessories refl)
              (In-get_or c (category_named_by_title p title) p (named_by_title-Known p title) i)))))

mapped-Known : (raw : Str) → Known production_categories (mapped raw)
unfolding mapped
mapped-Known raw = elim (Option-cases (named category_mapping (λ k. k == raw))) [
  | inl e ↦
      rw e (named-Known production_categories category_mapping (λ k. lower k == lower raw) refl)
  | inr (s, e) ↦ rw e (
      Known-some production_categories s
        ((named-Known production_categories category_mapping (λ k. k == raw) refl).given s e))
]

from_title-In :
    (title : Option Str) → In production_categories (get_or (classify_from_title title) accessories)
from_title-In title =
    In-get_or production_categories (classify_from_title title) accessories
      (classify_from_title-Known title) (in_site accessories refl)

get_p_category-In : (raw title : Option Str) → In production_categories (get_p_category raw title)
unfolding get_p_category
get_p_category-In raw title = elim (Bool-cases (is_empty (get_or raw []))) [
  | inl e ↦ rw e (from_title-In title)
  | inr e ↦ elim (Option-cases (mapped (strip (get_or raw [])))) [
    | inl m ↦ rw (e, m) (from_title-In title)
    | inr (p, m) ↦
        rw (e, m)
          (corrected-In p title (in_site p ((mapped-Known (strip (get_or raw []))).given p m)))
  ]
]

-- Every listing gets one of the ten categories of the site, whatever its store and its title say.
pub get_p_category-known :
    (raw title : Option Str) → mem_str (get_p_category raw title) production_categories ≡ true
get_p_category-known raw title = (get_p_category-In raw title).holds

form_of-Known : (o : Option Str) → Known canonical_forms (form_of o)
unfolding form_of
form_of-Known o =
    Known-if canonical_forms _ _ _ (Known-none canonical_forms)
      (first_form-Known canonical_forms form_patterns (upper (get_or o [])) refl)

-- A form factor that is given is one of the four of the compatibility rules.
pub normalize_form_factor-known :
    (value fallback : Option Str) {form : Str}
    → normalize_form_factor value fallback ≡ some form
    → mem_str form canonical_forms ≡ true
unfolding normalize_form_factor
normalize_form_factor-known value fallback {form} e = elim (Option-cases (form_of value)) [
  | inl n ↦ (form_of-Known fallback).given form (rw (n, normalize_form_factor) at e)
  | inr (f, n) ↦ (form_of-Known value).given form (n ∙ rw (n, normalize_form_factor) at e)
]
