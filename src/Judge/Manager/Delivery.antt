-- ===== src/Judge/Manager/Delivery.antt =====
-- What the callers of `JudgeManager` may rely on.
use vibe_coding.Prelude.{
  ℕ, ◌+◌, ◌≤◌, ◌<◌, ◌≡◌, ◌∙◌, true, none, [], ◌==◌, if◌then◌else◌, arith, length, count, sum_of,
  subst,
}
use vibe_coding.Prelude.Int.{ℤ}
use vibe_coding.Judge.Manager.{
  SubmissionTask, stopped, Manager, promises, enqueue, reserve, init, compute_worker_count,
  assign_id, count_accepted, commit, release, cancel_all, stop_workers,
}
use vibe_coding.Judge.Manager.Step.{
  Step, numbers, submits, counts, reserves, commits, releases, cancels, stops, works, Reach, here,
  next,
}
use vibe_coding.Judge.Manager.Worked.{lists, resolved, WorkedIf, work-Worked}
use vibe_coding.Judge.Manager.Invariant.{init-Inv}
use vibe_coding.Judge.Manager.Interleaving.{Reach-Inv}
use vibe_coding.Judge.Manager.Progress.{
  idle-length, compute_worker_count_bounds, Reach-Kept, IsBlocked, blocked-sums,
}

module _ {Out : Type 0} where
  Step-stopped : {m n : Manager Out} → Step m n → m.is_stopped ≡ true → n.is_stopped ≡ true
  unfolding assign_id enqueue count_accepted reserve commit release cancel_all stop_workers
  Step-stopped (numbers task) s = ground arith
  Step-stopped (submits task) s = ground arith
  Step-stopped (counts h) s = ground arith
  Step-stopped reserves s = ground arith
  Step-stopped (commits task h) s = ground arith
  Step-stopped (releases h) s = ground arith
  Step-stopped cancels s = ground arith
  Step-stopped (stops h) s = ground arith
  Step-stopped {m} (works done before w after w' m' e k) s =
      let worked = subst (WorkedIf m w) k (work-Worked done w m) in worked.frame.stopping ∙ s

  Reach-stopped : {m n : Manager Out} → Reach m n → m.is_stopped ≡ true → n.is_stopped ≡ true
  Reach-stopped here s = s
  Reach-stopped (next r k) s = Step-stopped k (Reach-stopped r s)

  -- A manager that was stopped accepts nothing ever after, whatever its threads and callers do: an
  -- attempt to submit or to reserve is answered by `stopped` and changes nothing.
  pub stop_refuses :
      (m n : Manager Out)
      → m.is_stopped ≡ true
      → Reach m n
      → (task : SubmissionTask)
      → (enqueue task n ≡ ((stopped, none), n)) × (reserve n ≡ (stopped, n))
  unfolding enqueue reserve
  stop_refuses m n s r task = let k = Reach-stopped r s in (ground arith, ground arith)

  -- The manager as the program constructs it.
  module _ (capacity cpus : ℕ) (worker_count : ℤ) where
    abbrev Reachable : Manager Out → Type 0
    Reachable m = Reach (init {Out = Out} capacity cpus worker_count) m

    -- In every reachable state the waiting tasks and the reservations together fit the capacity
    -- that the manager was made with (1 where that was 0), and there are `compute_worker_count`
    -- workers: at least one and at most eight.
    pub queue_bounded :
        (m : Manager Out)
        → Reachable m
        → (length m.queue + m.reserved ≤ (if capacity == 0 then 1 else capacity))
          × (length m.workers ≡ compute_worker_count cpus worker_count)
          × (0 < length m.workers)
          × (length m.workers ≤ 8)
    unfolding init
    queue_bounded m r =
        let v = Reach-Inv r (init-Inv capacity cpus worker_count) in
        let k = Reach-Kept r in
        let threads = k.threads ∙ idle-length Out (compute_worker_count cpus worker_count) in
        let bounds = compute_worker_count_bounds cpus worker_count in
        (
          subst (λ c. length m.queue + m.reserved ≤ c) k.capacity v.room,
          threads,
          omega (arith, threads, bounds),
          omega (arith, threads, bounds),
        )

    -- In a reachable state behind a stop, each task that waits or runs has its cancellation token
    -- set.
    pub stop_cancels :
        (m : Manager Out)
        → Reachable m
        → m.is_stopped ≡ true
        → (a : ℕ) → 0 < count a (promises m.queue) + sum_of (lists a) m.workers
        → 0 < count a m.cancelled
    stop_cancels m r s a h =
        let v = Reach-Inv r (init-Inv capacity cpus worker_count) in
        v.tokens a s (omega (arith, h, v.active a))

    -- In every reachable state each item has at most one result.
    pub results_once : (m : Manager Out) → Reachable m → (a : ℕ) → count a (resolved m.results) ≤ 1
    results_once m r a =
        let v = Reach-Inv r (init-Inv capacity cpus worker_count) in ground (arith, v.once a)

    -- In a reachable state in which the workers may end and no thread can go on, the queue is
    -- empty, each item that was ever made has exactly one result, and the counts of accepted and of
    -- completed tasks agree up to the callers that have still to count theirs.
    pub shutdown_delivers :
        (m : Manager Out)
        → Reachable m
        → m.workers_stop ≡ true
        → IsBlocked m
        → (a : ℕ) → a < m.next_promise
        → (m.queue ≡ [])
          × (count a (resolved m.results) ≡ 1)
          × (m.accepted_count + m.uncounted ≡ m.completed_count)
    shutdown_delivers m r s blocked a h =
        let v = Reach-Inv r (init-Inv capacity cpus worker_count) in
        let bound = queue_bounded m r in
        let sums = blocked-sums m m.workers s blocked in
        let drained = v.ended (omega (arith, sums.0, bound)) in
        (
          drained.0,
          ground (arith, v.once a, sums.2 a, drained.0, h),
          ground (arith, v.books, sums.1, drained.0),
        )
