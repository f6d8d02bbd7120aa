-- ===== src/ScrapeResults/Fresh.antt =====
-- What `_process_listing` reports: the products that earlier pages did not bring, and the counts.
use pc_builder.Shared.{
  suc, ◌+◌, ◌≤◌, ◌≡◌, refl, inl, inr, Bool, not, ◌&&◌, ◌||◌, Option, some, List, [], ◌∷◌, map,
  arith, nat_eq, option_eq, Bool-cases, length, filter, insert_sorted, sort, Str, str_beq,
  str_beq_iff, str_eq, mem_str, str_leb,
}
use pc_builder.Db.{ScrapeJob}
use pc_builder.ScrapeResults.Prices.{in_range}
use pc_builder.ScrapeResults.Listing.{same_pid, fresh_results, Tally, save_one, save_fresh}
use pc_builder.SearchService.{SearchResult, put, put_all, save}

abbrev pub pid_of : SearchResult → Str
pid_of r = r.pid

abbrev pub pids : List SearchResult → List Str
pids rs = map pid_of rs

pids-put :
    (s : Str) (x : SearchResult) (ys : List SearchResult)
    → mem_str s (pids (put same_pid x ys)) ≡ str_beq s x.pid || mem_str s (pids ys)
unfolding put
pids-put s x [] = refl
pids-put s x (y ∷ ys) = elim (Bool-cases (str_beq x.pid y.pid)) [
  | inl e ↦ rw (e, (str_beq_iff x.pid y.pid).0 e) (ground arith)
  | inr e ↦ rw (e, pids-put s x ys) (ground arith)
]

pids-put_all :
    (s : Str) (xs kept : List SearchResult)
    → mem_str s (pids (put_all same_pid xs kept)) ≡ mem_str s (pids xs) || mem_str s (pids kept)
unfolding put_all
pids-put_all s [] kept = refl
pids-put_all s (x ∷ xs) kept =
    rw (pids-put_all s xs (put same_pid x kept), pids-put s x kept) (ground arith)

unseen : List Str → SearchResult → Bool
unseen seen r = not (mem_str r.pid seen)

pids-filter :
    (s : Str) (seen : List Str) (rs : List SearchResult)
    → mem_str s (pids (filter (λ r. not (mem_str r.pid seen)) rs))
      ≡ mem_str s (pids rs) && not (mem_str s seen)
pids-filter s seen [] = refl
pids-filter s seen (r ∷ rs) = elim (Bool-cases (mem_str r.pid seen)) [
  | inl e ↦ elim (Bool-cases (str_beq s r.pid)) [
    | inl t ↦ rw (e, pids-filter s seen rs, t, (str_beq_iff s r.pid).0 t, e) (ground arith)
    | inr t ↦ rw (e, pids-filter s seen rs, t) refl
  ]
  | inr e ↦ elim (Bool-cases (str_beq s r.pid)) [
    | inl t ↦ rw (e, t, (str_beq_iff s r.pid).0 t, e) refl
    | inr t ↦ rw (e, pids-filter s seen rs, t) refl
  ]
]

pub pids-fresh_results :
    (s : Str) (seen : List Str) (rs : List SearchResult)
    → mem_str s (pids (fresh_results seen rs)) ≡ mem_str s (pids rs) && not (mem_str s seen)
unfolding fresh_results
pids-fresh_results s seen rs =
    rw (pids-put_all s (filter (λ r. not (mem_str r.pid seen)) rs) [], pids-filter s seen rs)
      (ground arith)

length-put :
    (x : SearchResult) (ys : List SearchResult) → length (put same_pid x ys) ≤ suc (length ys)
unfolding put
length-put x [] = omega arith
length-put x (y ∷ ys) = elim (Bool-cases (str_beq x.pid y.pid)) [
  | inl e ↦ rw e (omega arith)
  | inr e ↦ rw e (omega (arith, length-put x ys))
]

length-put_all :
    (xs kept : List SearchResult) → length (put_all same_pid xs kept) ≤ length xs + length kept
unfolding put_all
length-put_all [] kept = omega arith
length-put_all (x ∷ xs) kept =
    omega (arith, length-put_all xs (put same_pid x kept), length-put x kept)

length-filter :
    (p : SearchResult → Bool) (rs : List SearchResult) → length (filter p rs) ≤ length rs
length-filter p [] = omega arith
length-filter p (r ∷ rs) = elim (Bool-cases (p r)) [
  | inl e ↦ rw e (omega (arith, length-filter p rs))
  | inr e ↦ rw e (omega (arith, length-filter p rs))
]

pub length-fresh_results :
    (seen : List Str) (rs : List SearchResult) → length (fresh_results seen rs) ≤ length rs
unfolding fresh_results
length-fresh_results seen rs = omega (
  arith,
  length-put_all (filter (λ r. not (mem_str r.pid seen)) rs) [],
  length-filter (λ r. not (mem_str r.pid seen)) rs,
)

mem_str-insert_sorted :
    (s t : Str) (ts : List Str)
    → mem_str s (insert_sorted str_leb t ts) ≡ str_beq s t || mem_str s ts
mem_str-insert_sorted s t [] = refl
mem_str-insert_sorted s t (u ∷ us) = elim (Bool-cases (str_leb t u)) [
  | inl e ↦ rw e refl
  | inr e ↦ rw (e, mem_str-insert_sorted s t us) (ground arith)
]

pub mem_str-sort : (s : Str) (ts : List Str) → mem_str s (sort str_leb ts) ≡ mem_str s ts
mem_str-sort s [] = refl
mem_str-sort s (t ∷ ts) = rw (mem_str-insert_sorted s t (sort str_leb ts), mem_str-sort s ts) refl

length-insert_sorted :
    (t : Str) (ts : List Str) → length (insert_sorted str_leb t ts) ≡ suc (length ts)
length-insert_sorted t [] = refl
length-insert_sorted t (u ∷ us) = elim (Bool-cases (str_leb t u)) [
  | inl e ↦ rw e refl
  | inr e ↦ rw e (omega (arith, length-insert_sorted t us))
]

pub length-sort : (ts : List Str) → length (sort str_leb ts) ≡ length ts
length-sort [] = refl
length-sort (t ∷ ts) = omega (arith, length-insert_sorted t (sort str_leb ts), length-sort ts)

pub length-pids : (rs : List SearchResult) → length (pids rs) ≡ length rs
length-pids [] = refl
length-pids (r ∷ rs) = omega (arith, length-pids rs)

module _ (get_p_category : Option Str → Str → Option Str)
    (detect_condition : Str → Option Str → Option Str) where
  save_one_count :
      (job : ScrapeJob) (hard_category : Option Str) (r : SearchResult) (t : Tally)
      → (save_one get_p_category detect_condition job hard_category r t).saved
          + (save_one get_p_category detect_condition job hard_category r t).dropped
        ≤ suc (t.saved + t.dropped)
  unfolding save_one
  save_one_count job hard_category r t = elim (Bool-cases (in_range r.price)) [
    | inr e ↦ rw e (omega arith)
    | inl e ↦
        let done =
          (save get_p_category detect_condition r job.target_id hard_category job.agent_id
            (some job.id) t.catalog).0 in
        rw e (elim (Bool-cases done) [ inl d ↦ rw d (omega arith) | inr d ↦ rw d (omega arith) ])
  ]

  pub save_fresh_count :
      (job : ScrapeJob) (hard_category : Option Str) (rs : List SearchResult) (t : Tally)
      → (save_fresh get_p_category detect_condition job hard_category rs t).saved
          + (save_fresh get_p_category detect_condition job hard_category rs t).dropped
        ≤ length rs + (t.saved + t.dropped)
  unfolding save_fresh
  save_fresh_count job hard_category [] t = omega arith
  save_fresh_count job hard_category (r ∷ rs) t = omega (
    arith,
    save_fresh_count job hard_category rs
        (save_one get_p_category detect_condition job hard_category r t),
    save_one_count job hard_category r t,
  )
