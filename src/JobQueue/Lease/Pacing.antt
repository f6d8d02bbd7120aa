-- ===== src/JobQueue/Lease/Pacing.antt =====
-- Pacing: two fetches of one store that a lease call hands out start at least the store's
-- `min_fetch_interval_s` apart, the first not before the store's next slot, which moves on behind
-- the last. So it holds across calls and agents, who share the store's row.
use mathlib.Core.Path.{subst}
use mathlib.Core.Option
use pc_builder.Shared.{
  ℕ, ◌+◌, ◌≤◌, ◌≡◌, refl, sym, ap, ◌∙◌, ◌⊎◌, inl, inr, true, Option, some, List, [], ◌∷◌, arith,
  nat_beq_iff, ◌==◌, nat_eq, option_eq, Bool-cases, get_or, some_inj, All, All-append, All-map, Str,
  str_eq, get_row, update_row, get_row-update_row_self, get_row-update_row_ne, Pointwise-get_row,
}
use pc_builder.Db.{ScrapeJob, Store, Db}
use pc_builder.JobQueue.Config.{Locks, LeasedJob}
use pc_builder.JobQueue.Lease.{
  Round, is_due, visit, skip, hand_out, slot_of, lease, heartbeat, start_round, batch, lease_fuel,
  leased_job, move_slot,
}
use pc_builder.JobQueue.Lease.Turns.{Turn, store_key, visit_cases, rounds_induction}
use pc_builder.JobQueue.Lease.Table.{
  Handed, Handed-Advance, Follows, Follows-Below, visit-Follows, start-Follows,
}
use pc_builder.JobQueue.Invariant.{job_id, WellFormed}
use pc_builder.JobQueue.Lease.Slots.{
  NotLater, StoreStep, StoreStep-refl, StoreStep-trans, store_of, gap, Behind, FromSlot, Follow,
  Spaced, Spaced-append, Paced,
}

next-le-slot : (now : ℕ) (s : Store) → get_or s.next_fetch_at 0 ≤ slot_of now s
unfolding slot_of
next-le-slot now s = ground arith

is_due-store : (now sid : ℕ) (job : ScrapeJob) → is_due now sid job ≡ true → job.store_id ≡ sid
unfolding is_due
is_due-store now sid job h = ground arith

module _ (uuid4 : ℕ → Str) (locks : Locks) (agent_id now max_jobs : ℕ) (db : Db) (r : Round)
    (store : Store) (job : ScrapeJob) (t : Turn locks now max_jobs r store job)
    (f : Follows agent_id db r) (p : Paced db r) where
  abbrev slot : ℕ
  slot = slot_of now store

  abbrev new_lease : LeasedJob
  new_lease = leased_job (uuid4 r.uuids_drawn) slot job

  store_of-new : store_of db new_lease ≡ some store.id
  unfolding leased_job
  store_of-new =
      let (x, found, rel) =
        Pointwise-get_row (Handed agent_id) job_id
          (λ a b s. (Handed-Advance agent_id a b s).same_id) job.id f.rows t.picked.row in
      ap (Option.map (λ (j : ScrapeJob). j.store_id)) found
      ∙ ap some (
          sym (Handed-Advance agent_id _ _ rel).same_store
          ∙ is_due-store now store.id job t.picked.due)

  move_slot-step : NotLater store.next_fetch_at (some (slot + gap store))
  move_slot-step = ground (arith, next-le-slot now store)

  moved_stores : List Store
  moved_stores = update_row store_key store.id (move_slot slot) r.stores

  moved_at :
      (sid : ℕ) (s : Store)
      → sid ≡ store.id
      → get_row store_key sid moved_stores ≡ some s
      → s ≡ move_slot slot store
  unfolding moved_stores move_slot
  moved_at sid s same e = some_inj (
      sym e
      ∙ ap (λ k. get_row store_key k moved_stores) same
      ∙ get_row-update_row_self store_key store.id (move_slot slot) r.stores (λ x. refl)
          t.store_row)

  moved :
      (sid : ℕ) (s : Store)
      → get_row store_key sid moved_stores ≡ some s
      → ((sid ≡ store.id) × (s ≡ move_slot slot store)) ⊎ (get_row store_key sid r.stores ≡ some s)
  unfolding moved_stores move_slot
  moved sid s e = elim (Bool-cases (sid == store.id)) [
    | inl same ↦
        let at_store = (nat_beq_iff sid store.id).0 same in
        inl (at_store, moved_at sid s at_store e)
    | inr other ↦ inr (
        sym (
          get_row-update_row_ne store_key store.id sid (move_slot slot) r.stores (λ x. refl)
            (λ q. ground (arith, q)))
        ∙ e)
  ]

  base_step :
      (sid : ℕ) (s : Store)
      → store_of db new_lease ≡ some sid
      → get_row store_key sid db.stores ≡ some s
      → StoreStep s store
  base_step sid s o e =
      let (x, found, step) = p.stores store.id store t.store_row in
      subst (λ (y : Store). StoreStep y store)
        (some_inj (
          sym found
          ∙ ap (λ k. get_row store_key k db.stores) (some_inj (sym store_of-new ∙ o))
          ∙ e))
        step

  Behind-store :
      (l : LeasedJob)
      → Behind db r.stores l
      → store_of db l ≡ some store.id
      → l.not_before + gap store ≤ slot
  Behind-store l b o =
      let (u, next, le) = b store.id store o t.store_row in
      omega (arith, le, next-le-slot now store, ap (λ (x : Option ℕ). get_or x 0) next)

  Behind-old : (l : LeasedJob) → Behind db r.stores l → Behind db moved_stores l
  unfolding move_slot
  Behind-old l b sid s o e = elim (moved sid s e) [
    | inl q ↦ (
      slot + gap store,
      ap (λ (x : Store). x.next_fetch_at) q.1,
      omega (arith, Behind-store l b (o ∙ ap some q.0), ap (λ (x : Store). gap x) q.1),
    )
    | inr q ↦ b sid s o q
  ]

  Behind-new : Behind db moved_stores new_lease
  unfolding move_slot leased_job
  Behind-new sid s o e =
      let s_moved = moved_at sid s (some_inj (sym o ∙ store_of-new)) e in
      (
        slot + gap store,
        ap (λ (x : Store). x.next_fetch_at) s_moved,
        omega (arith, ap (λ (x : Store). gap x) s_moved),
      )

  FromSlot-new : FromSlot db new_lease
  unfolding leased_job
  FromSlot-new sid s o e = ground (arith, (base_step sid s o e).later, next-le-slot now store)

  Follow-new : (l : LeasedJob) → Behind db r.stores l → Follow db new_lease l
  unfolding leased_job
  Follow-new l b sid s ol om e =
      omega (arith, Behind-store l b (ol ∙ sym om ∙ store_of-new), (base_step sid s om e).same_gap)

  moved_step :
      (k : ℕ) (s : Store)
      → get_row store_key k moved_stores ≡ some s
      → (x : Store) × (get_row store_key k db.stores ≡ some x) × StoreStep x s
  unfolding move_slot
  moved_step k s e = elim (moved k s e) [
    | inr q ↦ p.stores k s q
    | inl q ↦
        let (x, found, step) = p.stores store.id store t.store_row in
        (
          x,
          ap (λ k'. get_row store_key k' db.stores) q.0 ∙ found,
          StoreStep-trans x store s step (record {
            same_id = ap (λ (y : Store). y.id) q.1;
            same_gap = ap (λ (y : Store). y.min_fetch_interval_s) q.1;
            later =
                subst (λ (y : Store). NotLater store.next_fetch_at y.next_fetch_at) (sym q.1)
                  move_slot-step;
          }),
        )
  ]

  hand_out-Paced : Paced db (hand_out uuid4 agent_id now store r job)
  unfolding hand_out moved_stores
  hand_out-Paced = record {
    stores = moved_step;
    behind =
        All-append (Behind db moved_stores) r.leased_jobs (new_lease ∷ [])
          (All-map (Behind db r.stores) (Behind db moved_stores) r.leased_jobs Behind-old p.behind)
          (Behind-new, tt);
    from_slot =
        All-append (FromSlot db) r.leased_jobs (new_lease ∷ []) p.from_slot (FromSlot-new, tt);
    spaced =
        Spaced-append db r.leased_jobs new_lease p.spaced
          (All-map (Behind db r.stores) (Follow db new_lease) r.leased_jobs Follow-new p.behind);
  }

abbrev State : ℕ → Db → Round → Type 0
State agent_id db r = Follows agent_id db r × Paced db r

module _ (uuid4 : ℕ → Str) (locks : Locks) (agent_id now max_jobs : ℕ) {db : Db}
    (w : WellFormed db) where
  visit-Paced :
      (k : ℕ) (r : Round)
      → State agent_id db r
      → State agent_id db (visit uuid4 locks agent_id now max_jobs k r)
  visit-Paced k r s = (
    visit-Follows uuid4 locks agent_id now max_jobs w k r s.0,
    visit_cases uuid4 locks agent_id now max_jobs (Paced db) db.next_job_id k r
        (Follows-Below s.0 w) s.1
        (λ j.
          unfold skip in
          record {
            stores = s.1.stores;
            behind = s.1.behind;
            from_slot = s.1.from_slot;
            spaced = s.1.spaced;
          })
        (λ store job t. hand_out-Paced uuid4 locks agent_id now max_jobs db r store job t s.0 s.1),
  )

-- What a lease call promises of the times of its leases.
pub record IsPaced (db : Db) (res : List LeasedJob × Db) : Type 0 where
  pub spaced : Spaced db res.0
  pub from_slot : All (FromSlot db) res.0
  pub behind : All (Behind db res.1.stores) res.0

-- On a well-formed table: of two leases of one store in a call, the later starts at least the
-- store's interval after the earlier; none starts before the slot that the store's row had before
-- the call; and after it the row's slot is at least the interval behind each of them.
pub lease-IsPaced :
    (uuid4 : ℕ → Str) (locks : Locks) (agent_id now max_jobs : ℕ) (db : Db)
    → WellFormed db
    → IsPaced db (lease uuid4 locks agent_id now max_jobs db)
unfolding lease
lease-IsPaced uuid4 locks agent_id now max_jobs db w =
    let s =
      rounds_induction uuid4 locks agent_id now (batch max_jobs) (State agent_id db)
        (visit-Paced uuid4 locks agent_id now (batch max_jobs) w) (lease_fuel max_jobs)
        (start_round locks now (batch max_jobs) (heartbeat agent_id now db))
        (
          start-Follows locks agent_id now (batch max_jobs) db,
          unfold start_round heartbeat in
              record {
                stores = λ k s e. (s, e, StoreStep-refl s);
                behind = tt;
                from_slot = tt;
                spaced = tt;
              },
        ) in
    record { spaced = s.1.spaced; from_slot = s.1.from_slot; behind = s.1.behind }
