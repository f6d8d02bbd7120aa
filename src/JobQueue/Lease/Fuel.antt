-- ===== src/JobQueue/Lease/Fuel.antt =====
-- The round robin of `lease` ends by the test of its `while`: the fuel given is enough.
use pc_builder.Shared.{
  ◌∙◌, sym, ℕ, zero, suc, ◌+◌, ◌-◌, ◌≤◌, ◌<◌, ◌≡◌, refl, ap, inl, inr, true, false, Option, none,
  some, List, [], ◌∷◌, map, arith, leb, nat_eq, option_eq, Bool-cases, Option-cases, length,
  length-append, take, length-take-le, filter, sort, Str, str_eq, get_row, get_row-key,
}
use pc_builder.Db.{ScrapeJob, Store, Db}
use pc_builder.JobQueue.Config.{Locks}
use pc_builder.JobQueue.Lease.{
  Round, next_job, visit, give, hand_out, pass, rounds, goes_on, remove, batch, lease_fuel,
  start_round, heartbeat, pick_stores, store_order, can_fetch, horizon, slot_of, leased_job,
}
use pc_builder.JobQueue.Lease.Turns.{store_key}

-- Stores still waiting and jobs still wanted: each pass makes less of one of them.
abbrev measure : ℕ → Round → ℕ
measure max_jobs r = length r.waiting + (max_jobs - length r.leased_jobs)

length-remove-le : (k : ℕ) (xs : List ℕ) → length (remove k xs) ≤ length xs
unfolding remove
length-remove-le k [] = omega arith
length-remove-le k (x ∷ xs) = ground (arith, length-remove-le k xs)

length-remove_head : (k : ℕ) (xs : List ℕ) → length (remove k (k ∷ xs)) ≡ length xs
unfolding remove
length-remove_head k xs = ground arith

length-remove_at : (k : ℕ) (ks xs : List ℕ) → xs ≡ k ∷ ks → length (remove k xs) ≡ length ks
length-remove_at k ks xs w = rw w (length-remove_head k ks)

-- How the measure of a turn compares.
module _ (uuid4 : ℕ → Str) (locks : Locks) (agent_id now max_jobs : ℕ) where
  measure-hand_out :
      (store : Store) (r : Round) (job : ScrapeJob)
      → length r.leased_jobs < max_jobs
      → measure max_jobs (hand_out uuid4 agent_id now store r job) < measure max_jobs r
  unfolding hand_out
  measure-hand_out store r job room = omega (
    arith,
    length-append r.leased_jobs (leased_job (uuid4 r.uuids_drawn) (slot_of now store) job ∷ []),
  )

  measure-give-le :
      (store : Store) (r : Round) (o : Option ScrapeJob)
      → length r.leased_jobs < max_jobs
      → measure max_jobs (give uuid4 locks agent_id now store r o) ≤ measure max_jobs r
  unfolding give
  measure-give-le store r none room = omega (arith, length-remove-le store.id r.waiting)
  measure-give-le store r (some job) room = omega (arith, measure-hand_out store r job room)

  measure-visit-le :
      (k : ℕ) (r : Round)
      → measure max_jobs (visit uuid4 locks agent_id now max_jobs k r) ≤ measure max_jobs r
  unfolding visit
  measure-visit-le k r = elim (Bool-cases (leb max_jobs (length r.leased_jobs))) [
    | inl full ↦ rw full (omega arith)
    | inr free ↦ rw free (elim (Option-cases (get_row store_key k r.stores)) [
      | inl e ↦ rw e (omega (arith, length-remove-le k r.waiting))
      | inr (store, e) ↦
          rw e (measure-give-le store r (next_job locks now store r.jobs) (ground arith))
    ])
  ]

  measure-pass-le :
      (ks : List ℕ) (r : Round)
      → measure max_jobs (pass uuid4 locks agent_id now max_jobs ks r) ≤ measure max_jobs r
  unfolding pass
  measure-pass-le [] r = omega arith
  measure-pass-le (k ∷ ks) r = omega (
    arith,
    measure-visit-le k r,
    measure-pass-le ks (visit uuid4 locks agent_id now max_jobs k r),
  )

  measure-give_head :
      (k : ℕ) (ks : List ℕ) (store : Store) (r : Round) (o : Option ScrapeJob)
      → r.waiting ≡ k ∷ ks
      → store.id ≡ k
      → length r.leased_jobs < max_jobs
      → measure max_jobs (give uuid4 locks agent_id now store r o) < measure max_jobs r
  unfolding give
  measure-give_head k ks store r none w e room =
      omega
        (arith, length-remove_at store.id ks r.waiting (w ∙ ap (λ x. x ∷ ks) (sym e)), ap length w)
  measure-give_head k ks store r (some job) w e room =
      omega (arith, measure-hand_out store r job room)

  measure-visit_head :
      (k : ℕ) (ks : List ℕ) (r : Round)
      → r.waiting ≡ k ∷ ks
      → length r.leased_jobs < max_jobs
      → measure max_jobs (visit uuid4 locks agent_id now max_jobs k r) < measure max_jobs r
  unfolding visit
  measure-visit_head k ks r w room =
      let free : leb max_jobs (length r.leased_jobs) ≡ false = ground arith in
      rw free (elim (Option-cases (get_row store_key k r.stores)) [
        | inl e ↦ rw e (omega (arith, length-remove_at k ks r.waiting w, ap length w))
        | inr (store, e) ↦ rw e (
            measure-give_head k ks store r (next_job locks now store r.jobs) w
              (get_row-key store_key k r.stores e) room)
      ])

  measure-pass :
      (r : Round) (ks : List ℕ)
      → r.waiting ≡ ks
      → goes_on max_jobs r ≡ true
      → measure max_jobs (pass uuid4 locks agent_id now max_jobs ks r) < measure max_jobs r
  unfolding pass
  measure-pass r [] w g = absurd (ground arith)
  measure-pass r (k ∷ ks) w g = omega (
    arith,
    measure-visit_head k ks r w (ground arith),
    measure-pass-le ks (visit uuid4 locks agent_id now max_jobs k r),
  )

  rounds_end :
      (fuel : ℕ) (r : Round)
      → measure max_jobs r < fuel
      → goes_on max_jobs (rounds uuid4 locks agent_id now fuel max_jobs r) ≡ false
  unfolding rounds
  rounds_end zero r h = elim h [ ]
  rounds_end (suc fuel) r h = elim (Bool-cases (goes_on max_jobs r)) [
    | inl e ↦ rw (e, rounds) (rounds_end fuel _ (omega (arith, measure-pass r r.waiting refl e)))
    | inr e ↦ rw (e, rounds) e
  ]

length-map {ℓ κ} :
    {A : Type ℓ} {B : Type κ} (f : A → B) (xs : List A) → length (map f xs) ≡ length xs
length-map f [] = refl
length-map f (x ∷ xs) = ap suc (length-map f xs)

length-pick_stores-le :
    (locks : Locks) (now until max_jobs : ℕ) (db : Db)
    → length (pick_stores locks now until max_jobs db) ≤ max_jobs
unfolding pick_stores
length-pick_stores-le locks now until max_jobs db =
    let rows = sort store_order (filter (can_fetch locks now until db.jobs) db.stores) in
    rw (length-map (λ (s : Store). s.id) (take max_jobs rows)) (length-take-le max_jobs rows)

-- The loop of a lease call has ended because no store is left or the batch is full, not because the
-- fuel ran out, whatever the database.
pub lease_loop_ends :
    (uuid4 : ℕ → Str) (locks : Locks) (agent_id now max_jobs : ℕ) (db : Db)
    → goes_on (batch max_jobs) (
        rounds uuid4 locks agent_id now
          (lease_fuel max_jobs)
          (batch max_jobs)
          (start_round locks now (batch max_jobs) (heartbeat agent_id now db)))
      ≡ false
lease_loop_ends uuid4 locks agent_id now max_jobs db =
    rounds_end uuid4 locks agent_id now (batch max_jobs) (lease_fuel max_jobs) _ (
      unfold start_round in
      omega (
        arith,
        length-pick_stores-le locks now (horizon now) (batch max_jobs) (heartbeat agent_id now db),
      ))
