-- ===== src/ScrapeResults/Counts.antt =====
-- The outcome of a parsed listing page.
use mathlib.Core.Path.{subst}
use pc_builder.Shared.{
  ℕ, ◌+◌, ◌≤◌, ◌≡◌, refl, ◌∙◌, not, ◌&&◌, Option, some, List, [], ◌∷◌, arith, nat_eq, option_eq,
  length, Str, codes, str_eq, mem_str,
}
use pc_builder.Db.{ScrapeJob, Store, Db}
use pc_builder.JobQueue.Config.{ok, >>=-eq-ok}
use pc_builder.JobQueue.Complete.{Processed}
use pc_builder.ScrapeResults.Listing.{
  fresh_results, Tally, save_fresh, save_listing, listing_outcome, seen_pids, find_target,
  hard_category_of, queue_next, page_of, not_empty,
}
use pc_builder.ScrapeResults.Steps.{ok_inj}
use pc_builder.ScrapeResults.Fresh.{
  pids, pids-fresh_results, length-fresh_results, mem_str-sort, length-sort, length-pids,
  save_fresh_count,
}
use pc_builder.SearchService.{SearchResult}

-- What the outcome says of the products of the page and of those that earlier pages brought.
pub record IsCounted (results : List SearchResult) (seen : List Str) (p : Processed) : Type 0 where
  pub new : ℕ
  pub saved : ℕ
  pub dropped : ℕ
  pub is_done : p.status ≡ some (codes "done")
  pub counts :
      p.counts
      ≡ (codes "parsed", length results)
        ∷ (codes "new", new)
        ∷ (codes "saved", saved)
        ∷ (codes "dropped_prices", dropped)
        ∷ []
  pub new_pids : (s : Str) → mem_str s p.pids ≡ mem_str s (pids results) && not (mem_str s seen)
  pub one_pid_each : length p.pids ≡ new
  pub at_most : new ≤ length results
  pub accounted : saved + dropped ≤ new

module _ (get_p_category : Option Str → Str → Option Str)
    (detect_condition : Str → Option Str → Option Str) where
  listing_outcome-IsCounted :
      (job : ScrapeJob) (hard_category : Option Str) (results : List SearchResult) (seen : List Str)
      (t : Tally) (next : Option ℕ)
      → t.saved + t.dropped ≡ 0
      → IsCounted results seen (
          listing_outcome
            (length results)
            (fresh_results seen results)
            (save_fresh get_p_category detect_condition job hard_category
              (fresh_results seen results)
              t)
            next)
  unfolding listing_outcome
  listing_outcome-IsCounted job hard_category results seen t next e =
      let fresh = fresh_results seen results in
      let done = save_fresh get_p_category detect_condition job hard_category fresh t in
      record {
        new = length fresh;
        saved = done.saved;
        dropped = done.dropped;
        is_done = refl;
        counts = refl;
        new_pids = λ s. mem_str-sort s (pids fresh) ∙ pids-fresh_results s seen results;
        one_pid_each = length-sort (pids fresh) ∙ length-pids fresh;
        at_most = length-fresh_results seen results;
        accounted =
            omega (
              arith,
              save_fresh_count get_p_category detect_condition job hard_category fresh t,
              e,
            );
      }

  -- A listing page that is saved is done, and its outcome names exactly the product ids of the page
  -- that no earlier page of the listing brought, each once; new counts them, and saved and
  -- dropped_prices together are at most new, which is at most parsed.
  pub save_listing-IsCounted :
      (job : ScrapeJob) (store : Store) (results : List SearchResult) (now : ℕ) (db after : Db)
      (p : Processed)
      → save_listing get_p_category detect_condition job store results now db ≡ ok (p, after)
      → IsCounted results (seen_pids db.next_job_id db.jobs job.parent_job_id) p
  unfolding save_listing
  save_listing-IsCounted job store results now db after p h =
      let seen = seen_pids db.next_job_id db.jobs job.parent_job_id in
      let target = find_target job.target_id db.catalog.targets in
      let fresh = fresh_results seen results in
      let start : Tally = record { saved = 0; dropped = 0; catalog = db.catalog } in
      let t : Tally =
        save_fresh get_p_category detect_condition job (hard_category_of target) fresh start in
      let ((next, mid), _, done) =
        >>=-eq-ok
          (queue_next store target job (page_of job) (not_empty fresh) now
            (record db { catalog = t.catalog }))
          _ h in
      subst (λ (x : Processed × Db). IsCounted results seen x.0) (ok_inj done)
        (listing_outcome-IsCounted job (hard_category_of target) results seen start next refl)
