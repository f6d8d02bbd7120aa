-- ===== src/JobQueue/Lease/Slots.antt =====
-- What pacing means: how a lease stands to its store's slot and to the leases before it.
use mathlib.Core.Option
use pc_builder.Shared.{
  ℕ, ◌+◌, ◌≤◌, ◌≡◌, refl, ◌∙◌, Option, none, some, List, [], ◌∷◌, ◌++◌, arith, nat_eq, option_eq,
  get_or, All, All-append, str_eq, get_row,
}
use pc_builder.Db.{ScrapeJob, Store, Db, seconds}
use pc_builder.JobQueue.Config.{LeasedJob}
use pc_builder.JobQueue.Lease.{Round}
use pc_builder.JobQueue.Lease.Turns.{store_key}
use pc_builder.JobQueue.Invariant.{job_id}

abbrev pub NotLater : Option ℕ → Option ℕ → Type 0
NotLater none _ = Unit
NotLater (some a) none = ⊥
NotLater (some a) (some b) = a ≤ b

pub NotLater-refl : (o : Option ℕ) → NotLater o o
NotLater-refl none = tt
NotLater-refl (some a) = omega arith

pub NotLater-trans : (a b c : Option ℕ) → NotLater a b → NotLater b c → NotLater a c
NotLater-trans none b c p q = tt
NotLater-trans (some a) none c p q = absurd p
NotLater-trans (some a) (some b) none p q = absurd q
NotLater-trans (some a) (some b) (some c) p q = omega arith

-- A store keeps its interval, and its next slot does not move back.
pub record StoreStep (x y : Store) : Type 0 where
  pub same_id : y.id ≡ x.id
  pub same_gap : y.min_fetch_interval_s ≡ x.min_fetch_interval_s
  pub later : NotLater x.next_fetch_at y.next_fetch_at

pub StoreStep-refl : (x : Store) → StoreStep x x
StoreStep-refl x = record { same_id = refl; same_gap = refl; later = NotLater-refl x.next_fetch_at }

pub StoreStep-trans : (x y z : Store) → StoreStep x y → StoreStep y z → StoreStep x z
StoreStep-trans x y z p q = record {
  same_id = q.same_id ∙ p.same_id;
  same_gap = q.same_gap ∙ p.same_gap;
  later = NotLater-trans x.next_fetch_at y.next_fetch_at z.next_fetch_at p.later q.later;
}

-- The store whose job a lease is for.
abbrev pub store_of : Db → LeasedJob → Option ℕ
store_of db l = Option.map (λ (j : ScrapeJob). j.store_id) (get_row job_id l.job_id db.jobs)

abbrev pub gap : Store → ℕ
gap s = seconds s.min_fetch_interval_s

-- The store's next slot lies behind the lease.
abbrev pub Behind : Db → List Store → LeasedJob → Type 0
Behind db stores l =
    (sid : ℕ) (s : Store)
    → store_of db l ≡ some sid
    → get_row store_key sid stores ≡ some s
    → (t : ℕ) × (s.next_fetch_at ≡ some t) × (l.not_before + gap s ≤ t)

-- The lease does not start before the slot that its store had.
abbrev pub FromSlot : Db → LeasedJob → Type 0
FromSlot db l =
    (sid : ℕ) (s : Store)
    → store_of db l ≡ some sid
    → get_row store_key sid db.stores ≡ some s
    → get_or s.next_fetch_at 0 ≤ l.not_before

-- `m` starts at least the interval after `l`, if both are fetches of one store.
abbrev pub Follow : Db → LeasedJob → LeasedJob → Type 0
Follow db m l =
    (sid : ℕ) (s : Store)
    → store_of db l ≡ some sid
    → store_of db m ≡ some sid
    → get_row store_key sid db.stores ≡ some s
    → l.not_before + gap s ≤ m.not_before

abbrev pub Spaced : Db → List LeasedJob → Type 0
Spaced db [] = Unit
Spaced db (l ∷ ls) = All (λ m. Follow db m l) ls × Spaced db ls

pub Spaced-append :
    (db : Db) (ls : List LeasedJob) (m : LeasedJob)
    → Spaced db ls
    → All (Follow db m) ls
    → Spaced db (ls ++ m ∷ [])
Spaced-append db [] m s f = (tt, tt)
Spaced-append db (l ∷ ls) m s f =
    (All-append (λ x. Follow db x l) ls (m ∷ []) s.0 (f.0, tt), Spaced-append db ls m s.1 f.1)

pub record Paced (db : Db) (r : Round) : Type 0 where
  pub stores :
      (k : ℕ) (s : Store)
      → get_row store_key k r.stores ≡ some s
      → (x : Store) × (get_row store_key k db.stores ≡ some x) × StoreStep x s
  pub behind : All (Behind db r.stores) r.leased_jobs
  pub from_slot : All (FromSlot db) r.leased_jobs
  pub spaced : Spaced db r.leased_jobs
