-- ===== src/JobQueue/Hosts.antt =====
-- What `_host_belongs_to_store` of src/pipeline/job_queue.py tests, as an equation of texts.
use mathlib.Core.Path.{subst}
use mathlib.Core.List.{reverse, reverse-append, reverse-reverse}
use pc_builder.Shared.{
  ◌≡◌, refl, sym, ap, ◌∙◌, ◌↔◌, ◌⊎◌, inl, inr, true, ◌||◌, [], ◌∷◌, ◌++◌, arith, nat_beq,
  nat_beq_iff, ◌==◌, nat_eq, option_eq, Bool-cases, Str, str_beq, str_beq_iff, str_eq, starts_with,
  ends_with,
}
use pc_builder.JobQueue.Config.{host_belongs_to_store}

-- A host that is the domain, or has labels in front of it.
abbrev pub IsWithin : Str → Str → Type 0
IsWithin host domain = (host ≡ domain) ⊎ ((sub : Str) × (host ≡ sub ++ b'.' ∷ domain))

starts_with-append : (p r : Str) → starts_with (p ++ r) p ≡ true
starts_with-append [] r = refl
starts_with-append (c ∷ p) r = ground (arith, starts_with-append p r)

starts_with-split : (s p : Str) → starts_with s p ≡ true → (r : Str) × (s ≡ p ++ r)
starts_with-split s [] h = (s, refl)
starts_with-split [] (c ∷ p) h = cc
starts_with-split (d ∷ s) (c ∷ p) h = elim (Bool-cases (nat_beq c d)) [
  | inl e ↦
      let (r, q) = starts_with-split s p (ground arith) in
      (r, ap (λ x. x ∷ s) (sym ((nat_beq_iff c d).0 e)) ∙ ap (λ x. c ∷ x) q)
  | inr e ↦ absurd (ground arith)
]

ends_with_iff : (s p : Str) → (ends_with s p ≡ true) ↔ ((sub : Str) × (s ≡ sub ++ p))
ends_with_iff s p = (
  λ h.
      (let (r, q) = starts_with-split (reverse s) (reverse p) h in
        (
          reverse r,
          sym (reverse-reverse s)
              ∙ ap reverse q
              ∙ reverse-append (reverse p) r
              ∙ ap (λ x. reverse r ++ x) (reverse-reverse p),
        )),
  λ q.
      subst (λ x. starts_with x (reverse p) ≡ true) (sym (ap reverse q.1 ∙ reverse-append q.0 p))
        (starts_with-append (reverse p) (reverse q.0)),
)

pub host_belongs_iff :
    (host domain : Str) → (host_belongs_to_store host domain ≡ true) ↔ IsWithin host domain
unfolding host_belongs_to_store
host_belongs_iff host domain = (belongs, within)
  where
    belongs : (host == domain || ends_with host (b'.' ∷ domain)) ≡ true → IsWithin host domain
    belongs h = elim (Bool-cases (str_beq host domain)) [
      | inl e ↦ inl ((str_beq_iff host domain).0 e)
      | inr e ↦ inr ((ends_with_iff host (b'.' ∷ domain)).0 (rw e at h))
    ]

    within : IsWithin host domain → (host == domain || ends_with host (b'.' ∷ domain)) ≡ true
    within (inl e) = ground (arith, str_beq_iff host domain)
    within (inr q) = ground (arith, (ends_with_iff host (b'.' ∷ domain)).1 q)
