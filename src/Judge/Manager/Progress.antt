-- ===== src/Judge/Manager/Progress.antt =====
-- What no step of the manager changes, and when none of its threads can go on.
use vibe_coding.Prelude.{
  ℕ, zero, suc, ◌≤◌, ◌<◌, ◌≡◌, ◌≢◌, refl, ap, ◌∙◌, Bool, true, false, none, List, [], ◌∷◌, arith,
  length, length-append, sum_of, subst, All,
}
use vibe_coding.Prelude.Int.{ℤ, pos, negsuc}
use vibe_coding.Judge.Manager.{
  Item, Delivered, handler_threw, Worker, waiting, exited, running, completed, retired, Manager,
  assign_id, enqueue, count_accepted, reserve, commit, release, cancel_all, stop_workers,
  idle_workers, compute_worker_count,
}
use vibe_coding.Judge.Manager.Step.{
  leave, take_item, work, Step, numbers, submits, counts, reserves, commits, releases, cancels,
  stops, works, Reach, here, next,
}
use vibe_coding.Judge.Manager.Worked.{holds, is_running, has_exited, WorkedIf, work-Worked}

pub idle-length : (Out : Type 0) (n : ℕ) → length (idle_workers {Out = Out} n) ≡ n
unfolding idle_workers
idle-length Out zero = refl
idle-length Out (suc n) = ap suc (idle-length Out n)

pub compute_worker_count_bounds :
    (cpus : ℕ) (override : ℤ)
    → (0 < compute_worker_count cpus override) × (compute_worker_count cpus override ≤ 8)
unfolding compute_worker_count
compute_worker_count_bounds cpus (pos n) = ground arith
compute_worker_count_bounds cpus (negsuc n) = ground arith

module _ {Out : Type 0} where
  -- What no step changes.
  pub record Kept (m n : Manager Out) : Type 0 where
    pub capacity : n.queue_capacity ≡ m.queue_capacity
    pub threads : length n.workers ≡ length m.workers

  pub Step-Kept : {m n : Manager Out} → Step m n → Kept m n
  unfolding assign_id enqueue count_accepted reserve commit release cancel_all stop_workers
  Step-Kept (numbers task) = ground arith
  Step-Kept (submits task) = ground arith
  Step-Kept (counts h) = ground arith
  Step-Kept reserves = ground arith
  Step-Kept (commits task h) = ground arith
  Step-Kept (releases h) = ground arith
  Step-Kept cancels = ground arith
  Step-Kept (stops h) = ground arith
  Step-Kept {m} (works done before w after w' m' e k) =
      let worked = subst (WorkedIf m w) k (work-Worked done w m) in
      record {
        capacity = worked.frame.capacity;
        threads = omega (
          arith,
          ap length e,
          length-append before (w ∷ after),
          length-append before (w' ∷ after),
        );
      }

  pub Reach-Kept : {m n : Manager Out} → Reach m n → Kept m n
  Reach-Kept here = record { capacity = refl; threads = refl }
  Reach-Kept (next r s) =
      let k = Reach-Kept r in
      let l = Step-Kept s in
      record { capacity = l.capacity ∙ k.capacity; threads = l.threads ∙ k.threads }

  -- No thread can go on whatever its handler gives.
  abbrev pub IsBlocked : Manager Out → Type 0
  IsBlocked m = All (λ w. (done : Delivered Out) → work done w m ≡ none) m.workers

  take_item-goes_on :
      (q : List Item) (m : Manager Out) → m.workers_stop ≡ true → take_item q m ≢ none
  unfolding take_item
  take_item-goes_on [] m s h = leave-goes_on m.workers_stop s h
    where
      leave-goes_on : (b : Bool) → b ≡ true → leave b m ≢ none
      leave-goes_on true e h' = cc
      leave-goes_on false e h' = cc
  take_item-goes_on (item ∷ rest) m s h = cc

  pub blocked-exited :
      (m : Manager Out) (w : Worker Out)
      → m.workers_stop ≡ true
      → work handler_threw w m ≡ none
      → w ≡ exited
  unfolding work
  blocked-exited m exited s h = refl
  blocked-exited m waiting s h = absurd (take_item-goes_on m.queue m s h)
  blocked-exited m (running item) s h = cc
  blocked-exited m (completed item d) s h = cc
  blocked-exited m (retired item d) s h = cc

  pub blocked-sums :
      (m : Manager Out) (ws : List (Worker Out))
      → m.workers_stop ≡ true
      → All (λ w. (done : Delivered Out) → work done w m ≡ none) ws
      → (sum_of has_exited ws ≡ length ws)
        × (sum_of is_running ws ≡ 0)
        × ((a : ℕ) → sum_of (holds a) ws ≡ 0)
  blocked-sums m [] s h = (refl, refl, λ a. refl)
  blocked-sums m (w ∷ ws) s h =
      let e = blocked-exited m w s (h.0 handler_threw) in
      let rest = blocked-sums m ws s h.1 in
      (
        rw e (omega (arith, rest.0)),
        rw e (omega (arith, rest.1)),
        λ a. rw e (omega (arith, rest.2 a)),
      )
