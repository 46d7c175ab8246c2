-- ===== src/Judge/Manager/Invariant.antt =====
-- What holds of the manager in every reachable state.
use vibe_coding.Prelude.Int.{ℤ}
use vibe_coding.Prelude.{
  ℕ, zero, suc, ◌+◌, ◌-◌, ◌≤◌, ◌<◌, ◌≡◌, refl, true, false, Option, List, [], ◌∷◌, ◌++◌, ◌==◌,
  if◌then◌else◌, ltb, leb, arith, length, length-append, count, count-append, sum_of, if-cases,
}
use vibe_coding.Judge.Manager.{
  EnqueueStatus, SubmissionTask, Item, Delivered, Worker, waiting, Manager, promises, assign_id,
  push_item, enqueue, count_accepted, reserve, commit, release, cancel_all, stop_workers, not_run,
  init, idle_workers, compute_worker_count,
}
use vibe_coding.Judge.Manager.Worked.{same, holds, lists, is_running, has_exited, resolved}

promises-concat :
    (a : ℕ) (items : List Item) (item : Item)
    → count a (promises (items ++ item ∷ [])) ≡ count a (promises items) + same a item.promise
promises-concat a [] item = omega arith
promises-concat a (i ∷ items) item = omega (arith, promises-concat a items item)

module _ {Out : Type 0} where
  -- Where item `a` is: in the queue, with a worker, or resolved.
  abbrev pub places : ℕ → Manager Out → ℕ
  places a m =
      count a (promises m.queue) + sum_of (holds a) m.workers + count a (resolved m.results)

  pub record Inv (m : Manager Out) : Type 0 where
    -- each item that was made is in one place
    pub once : (a : ℕ) → places a m ≡ (if ltb a m.next_promise then 1 else 0)
    pub room : length m.queue + m.reserved ≤ m.queue_capacity
    pub books :
        m.accepted_count + m.uncounted
        ≡ m.completed_count + length m.queue + sum_of is_running m.workers
    pub order : m.workers_stop ≡ true → m.is_stopped ≡ true
    pub active : (a : ℕ) → count a (promises m.active_items) ≡ sum_of (lists a) m.workers
    -- behind a stop, the token of each item that waits or runs is set
    pub tokens :
        (a : ℕ)
        → m.is_stopped ≡ true
        → 0 < count a (promises m.queue) + count a (promises m.active_items)
        → 0 < count a m.cancelled
    pub ended : 0 < sum_of has_exited m.workers → (m.queue ≡ []) × (m.workers_stop ≡ true)

  idle-sum : (n : ℕ) (f : Worker Out → ℕ) → f waiting ≡ 0 → sum_of f (idle_workers n) ≡ 0
  unfolding idle_workers
  idle-sum zero f e = refl
  idle-sum (suc n) f e = omega (arith, idle-sum n f e)

  pub init-Inv :
      (capacity cpus : ℕ) (worker_count : ℤ) → Inv (init {Out = Out} capacity cpus worker_count)
  unfolding init
  init-Inv capacity cpus worker_count = record {
    once = λ a. ground (arith, idle-sum (compute_worker_count cpus worker_count) (holds a) refl);
    room = ground arith;
    books = ground (arith, idle-sum (compute_worker_count cpus worker_count) is_running refl);
    order = λ e. cc;
    active = λ a. ground (arith, idle-sum (compute_worker_count cpus worker_count) (lists a) refl);
    tokens = λ a e h. cc;
    ended = λ h.
        absurd
          (omega (arith, idle-sum (compute_worker_count cpus worker_count) has_exited refl, h));
  }

  -- Adding an item to the queue of a manager that is not ending.
  push_item-Inv :
      (task : SubmissionTask) (m : Manager Out)
      → Inv m
      → length m.queue + m.reserved < m.queue_capacity
      → m.workers_stop ≡ false
      → (m.is_stopped ≡ true → 0 < count m.next_promise m.cancelled)
      → Inv (push_item task m)
  unfolding push_item
  push_item-Inv task m v lt open_ set = record {
    once = λ a. ground (
      arith,
      v.once a,
      promises-concat a m.queue (record { task = task; promise = m.next_promise }),
    );
    room =
        ground
          (arith, length-append m.queue (record { task = task; promise = m.next_promise } ∷ []));
    books = ground (
      arith,
      v.books,
      length-append m.queue (record { task = task; promise = m.next_promise } ∷ []),
    );
    order = v.order;
    active = v.active;
    tokens = λ a e h. ground (
      arith,
      v.tokens a e,
      set e,
      promises-concat a m.queue (record { task = task; promise = m.next_promise }),
      h,
    );
    ended = λ h. ground (arith, v.ended h);
  }

  give_back-Inv : (m : Manager Out) → Inv m → Inv (record m { reserved = m.reserved - 1 })
  give_back-Inv m v = record {
    once = v.once;
    room = omega (arith, v.room);
    books = v.books;
    order = v.order;
    active = v.active;
    tokens = v.tokens;
    ended = v.ended;
  }

  add_token-Inv : (p : ℕ) (m : Manager Out) → Inv m → Inv (record m { cancelled = p ∷ m.cancelled })
  add_token-Inv p m v = record {
    once = v.once;
    room = v.room;
    books = v.books;
    order = v.order;
    active = v.active;
    tokens = λ a e h. ground (arith, v.tokens a e h);
    ended = v.ended;
  }

  resolve-Inv :
      (m : Manager Out) (d : Delivered Out)
      → Inv m
      → Inv (record m {
        next_promise = m.next_promise + 1;
        results = (m.next_promise, d) ∷ m.results;
      })
  resolve-Inv m d v = record {
    once = λ a. ground (arith, v.once a);
    room = v.room;
    books = v.books;
    order = v.order;
    active = v.active;
    tokens = v.tokens;
    ended = v.ended;
  }

  pub enqueue-Inv : (task : SubmissionTask) (m : Manager Out) → Inv m → Inv (enqueue task m).1
  unfolding enqueue
  enqueue-Inv task m v =
      if-cases (λ (r : (EnqueueStatus × Option ℕ) × Manager Out). Inv r.1) m.is_stopped _ _ (λ e. v)
        λ open_.
          if-cases (λ (r : (EnqueueStatus × Option ℕ) × Manager Out). Inv r.1)
            (leb m.queue_capacity (length m.queue + m.reserved)) _ _ (λ e. v)
            λ free. push_item-Inv task m v (ground arith) (ground (arith, v.order)) (λ e. cc)

  pub reserve-Inv : (m : Manager Out) → Inv m → Inv (reserve m).1
  unfolding reserve
  reserve-Inv m v =
      if-cases (λ (r : EnqueueStatus × Manager Out). Inv r.1) m.is_stopped _ _ (λ e. v)
        λ open_.
          if-cases (λ (r : EnqueueStatus × Manager Out). Inv r.1)
            (leb m.queue_capacity (length m.queue + m.reserved)) _ _ (λ e. v)
            λ free. record {
              once = v.once;
              room = ground (arith, v.room);
              books = v.books;
              order = v.order;
              active = v.active;
              tokens = v.tokens;
              ended = v.ended;
            }

  pub commit-Inv :
      (task : SubmissionTask) (m : Manager Out) → Inv m → 0 < m.reserved → Inv (commit task m)
  unfolding commit
  commit-Inv task m v h =
      if-cases Inv m.workers_stop _ _
        (λ e. add_token-Inv m.next_promise _ (resolve-Inv _ not_run (give_back-Inv m v)))
        λ open_.
          if-cases Inv m.is_stopped _ _
            (λ e.
              push_item-Inv task _ (add_token-Inv m.next_promise _ (give_back-Inv m v))
                (omega (arith, v.room)) open_ (λ e'. ground arith))
            λ e. push_item-Inv task _ (give_back-Inv m v) (omega (arith, v.room)) open_ (λ e'. cc)

  pub cancel_all-Inv : (m : Manager Out) → Inv m → Inv (cancel_all m)
  unfolding cancel_all
  cancel_all-Inv m v = record {
    once = v.once;
    room = v.room;
    books = v.books;
    order = λ e. refl;
    active = v.active;
    tokens = λ a e h. omega (
      arith,
      h,
      count-append a (promises m.queue ++ promises m.active_items) m.cancelled,
      count-append a (promises m.queue) (promises m.active_items),
    );
    ended = v.ended;
  }

  -- The steps that change the counters and the flags alone.
  pub assign_id-Inv : (task : SubmissionTask) (m : Manager Out) → Inv m → Inv (assign_id task m).1
  unfolding assign_id
  assign_id-Inv task m v =
      if-cases (λ (r : SubmissionTask × Manager Out). Inv r.1) (task.task_id == 0) _ _
        (λ e. record {
          once = v.once;
          room = v.room;
          books = v.books;
          order = v.order;
          active = v.active;
          tokens = v.tokens;
          ended = v.ended;
        })
        (λ e. v)

  pub count_accepted-Inv : (m : Manager Out) → 0 < m.uncounted → Inv m → Inv (count_accepted m)
  unfolding count_accepted
  count_accepted-Inv m h v = record {
    once = v.once;
    room = v.room;
    books = omega (arith, v.books);
    order = v.order;
    active = v.active;
    tokens = v.tokens;
    ended = v.ended;
  }

  pub stop_workers-Inv : (m : Manager Out) → m.is_stopped ≡ true → Inv m → Inv (stop_workers m)
  unfolding stop_workers
  stop_workers-Inv m h v = record {
    once = v.once;
    room = v.room;
    books = v.books;
    order = λ e. h;
    active = v.active;
    tokens = v.tokens;
    ended = λ k. ((v.ended k).0, refl);
  }

  pub release-Inv : (m : Manager Out) → Inv m → Inv (release m)
  unfolding release
  release-Inv m v = give_back-Inv m v
