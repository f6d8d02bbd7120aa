-- ===== src/JobQueue/Rows.antt =====
-- The writes that src/pipeline/job_queue.py makes to one job row, each along its arrow.
use pc_builder.Shared.{
  ℕ, ◌<◌, ◌≡◌, refl, inl, inr, true, false, arith, nat_eq, option_eq, Bool-cases, Str, str_eq,
}
use pc_builder.Db.{ScrapeJob, JobStatus, Outcome, OutcomeStatus}
use pc_builder.Db.Job.{is_active, is_queued, is_leased}
use pc_builder.JobQueue.Config.{max_attempts, Locks}
use pc_builder.JobQueue.Insert.{NewJob, new_row}
use pc_builder.JobQueue.Lease.{give_lease}
use pc_builder.JobQueue.Complete.{ProcessStatus, Processed, settle, make_outcome, final_status}
use pc_builder.JobQueue.Reap.{end_lease, is_expired, reap_row, out_of_attempts}
use pc_builder.JobQueue.Invariant.{JobOk, Advance, Advance-refl}

pub new_row-JobOk : (id now : ℕ) (new : NewJob) → JobOk (new_row id new now)
unfolding new_row
new_row-JobOk id now new = ground arith

-- A lease only hands out.
pub data LeaseMove : JobStatus → JobStatus → Type 0 where
  stay : (s : JobStatus) → LeaseMove s s
  hand_out : LeaseMove JobStatus.queued JobStatus.leased

pub LeaseMove-trans : (a b c : JobStatus) → LeaseMove a b → LeaseMove b c → LeaseMove a c
LeaseMove-trans a b c (LeaseMove.stay _) q = q
LeaseMove-trans a b c LeaseMove.hand_out (LeaseMove.stay _) = LeaseMove.hand_out

hand : (s : JobStatus) → is_queued s ≡ true → LeaseMove s JobStatus.leased
hand JobStatus.queued h = hand_out
hand JobStatus.leased h = cc
hand JobStatus.done h = cc
hand JobStatus.failed h = cc
hand JobStatus.blocked h = cc
hand JobStatus.rejected h = cc

give_lease-JobOk :
    (lease : Str) (agent slot : ℕ) (j : ScrapeJob)
    → is_queued j.status ≡ true
    → JobOk j
    → JobOk (give_lease lease agent slot j)
unfolding give_lease
give_lease-JobOk lease agent slot j q h = ground arith

pub give_lease-Advance :
    (lease : Str) (agent slot : ℕ) (j : ScrapeJob)
    → is_queued j.status ≡ true
    → Advance LeaseMove j (give_lease lease agent slot j)
unfolding give_lease
give_lease-Advance lease agent slot j q = record {
  same_id = refl;
  same_store = refl;
  same_url = refl;
  move = hand j.status q;
  alive = λ _. ground arith;
  keeps_ok = give_lease-JobOk lease agent slot j q;
}

-- An upload and the reaper end a lease: the job goes back or is finished.
pub data EndMove : JobStatus → JobStatus → Type 0 where
  stay : (s : JobStatus) → EndMove s s
  give_back : EndMove JobStatus.leased JobStatus.queued
  finish : (s : JobStatus) → is_active s ≡ false → EndMove JobStatus.leased s

from_leased : (s t : JobStatus) → is_leased s ≡ true → EndMove JobStatus.leased t → EndMove s t
from_leased JobStatus.leased t h m = m
from_leased JobStatus.queued t h m = cc
from_leased JobStatus.done t h m = cc
from_leased JobStatus.failed t h m = cc
from_leased JobStatus.blocked t h m = cc
from_leased JobStatus.rejected t h m = cc

settled_move :
    (lease : Str) (o : Outcome) (now : ℕ) (j : ScrapeJob)
    → (s : OutcomeStatus) → o.status ≡ s
    → EndMove JobStatus.leased (settle lease o now j).status
unfolding settle
settled_move lease o now j OutcomeStatus.done e = rw e (finish _ refl)
settled_move lease o now j OutcomeStatus.failed e = rw e (finish _ refl)
settled_move lease o now j OutcomeStatus.blocked e = rw e (finish _ refl)
settled_move lease o now j OutcomeStatus.rejected e = rw e (finish _ refl)
settled_move lease o now j OutcomeStatus.requeued e = rw e give_back

settle-JobOk :
    (lease : Str) (o : Outcome) (now : ℕ) (j : ScrapeJob)
    → is_leased j.status ≡ true
    → (o.status ≡ OutcomeStatus.requeued → j.attempts < max_attempts)
    → JobOk j
    → JobOk (settle lease o now j)
unfolding settle
settle-JobOk lease o now j l a h = ground arith

pub settle-Advance :
    (lease : Str) (p : Processed) (st : ProcessStatus) (now : ℕ) (j : ScrapeJob)
    → is_leased j.status ≡ true
    → Advance EndMove j (settle lease (make_outcome p (final_status j.attempts st)) now j)
settle-Advance lease p st now j l =
    let o = make_outcome p (final_status j.attempts st) in
    record {
      same_id = unfold settle in ground arith;
      same_store = unfold settle in ground arith;
      same_url = unfold settle in ground arith;
      move = from_leased j.status _ l (settled_move lease o now j o.status refl);
      alive = λ _. ground arith;
      keeps_ok = settle-JobOk lease o now j l (unfold make_outcome final_status in ground arith);
    }

end_lease-JobOk :
    (now : ℕ) (j : ScrapeJob) → is_leased j.status ≡ true → JobOk j → JobOk (end_lease now j)
unfolding end_lease
end_lease-JobOk now j l h = ground arith

end_lease_move : (now : ℕ) (j : ScrapeJob) → EndMove JobStatus.leased (end_lease now j).status
unfolding end_lease
end_lease_move now j = elim (Bool-cases (out_of_attempts j)) [
  | inl e ↦ rw e (finish _ refl)
  | inr e ↦ rw e give_back
]

pub end_lease-Advance :
    (now : ℕ) (j : ScrapeJob) → is_leased j.status ≡ true → Advance EndMove j (end_lease now j)
end_lease-Advance now j l = record {
  same_id = unfold end_lease in ground arith;
  same_store = unfold end_lease in ground arith;
  same_url = unfold end_lease in ground arith;
  move = from_leased j.status _ l (end_lease_move now j);
  alive = λ _. ground arith;
  keeps_ok = end_lease-JobOk now j l;
}

is_expired-leased :
    (locks : Locks) (now : ℕ) (j : ScrapeJob)
    → is_expired locks now j ≡ true
    → is_leased j.status ≡ true
unfolding is_expired
is_expired-leased locks now j h = ground arith

pub reap_row-Advance :
    (locks : Locks) (now : ℕ) (j : ScrapeJob) → Advance EndMove j (reap_row locks now j)
unfolding reap_row
reap_row-Advance locks now j = elim (Bool-cases (is_expired locks now j)) [
  | inl e ↦ rw e (end_lease-Advance now j (is_expired-leased locks now j e))
  | inr e ↦ rw e (Advance-refl EndMove EndMove.stay j)
]
