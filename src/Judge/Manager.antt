-- ===== src/Judge/Manager.antt =====
-- src/judge/manager.h and manager.cpp: `JudgeManager`, the queue between the requests and the
-- judging threads. Here are its data and the operations of its callers, each the part that runs
-- under `mutex_`; `Manager.Step` has the worker threads and their interleavings.
pub mod Step
pub mod Worked
pub mod Invariant
pub mod Interleaving
pub mod Progress
pub mod Delivery
pub mod Ending
use vibe_coding.Prelude.{
  ℕ, zero, suc, ◌+◌, ◌-◌, ◌≤◌, ◌≡◌, refl, Bool, true, false, ◌||◌, Option, none, some, List, [],
  ◌∷◌, ◌++◌, ◌==◌, leb, ltb, if◌then◌else◌, length, map,
}
use vibe_coding.Prelude.Int.{ℤ, pos, negsuc}
use vibe_coding.Prelude.Text.{Bytes}

pub record SubmissionTask : Type 0 where
  pub task_id : ℕ
  pub user_id : ℕ
  pub problem_id : ℕ
  pub language : Bytes
  pub source_code : Bytes
  pub viewer_is_admin : Bool
  pub submitted_at : Bytes
  pub rejudge_submission_id : ℕ
  pub in_flight_task_id : Bytes

-- `Item`: a task with its promise and its cancellation token. Both are shared between threads, so
-- an item holds a number, under which the manager's state has the promise's result and the token.
pub record Item : Type 0 where
  pub task : SubmissionTask
  pub promise : ℕ

abbrev pub promises : List Item → List ℕ
promises = map λ item. item.promise

pub data EnqueueStatus : Type 0 where
  accepted queue_full stopped : EnqueueStatus

-- What `set_value` puts into a promise: the handler's outcome, or `make_internal_error`.
pub data Delivered (Out : Type 0) : Type 0 where
  outcome : Out → Delivered Out
  -- "判题任务异常", and "判题调度器已回收，任务未执行"
  handler_threw not_run : Delivered Out

-- A worker thread: at the head of its loop; inside the handler; behind `completed_.fetch_add`; with
-- its item out of `active_items_`; behind its `return`.
pub data Worker (Out : Type 0) : Type 0 where
  waiting exited : Worker Out
  running : Item → Worker Out
  completed retired : Item → Delivered Out → Worker Out

pub record Manager (Out : Type 0) : Type 0 where
  pub queue_capacity : ℕ
  pub queue : List Item
  pub reserved : ℕ
  pub active_items : List Item
  pub is_stopped : Bool
  pub workers_stop : Bool
  pub next_task_id : ℕ
  pub accepted_count : ℕ
  pub completed_count : ℕ
  pub workers : List (Worker Out)
  -- the number of the next item
  pub next_promise : ℕ
  -- the items whose token is set
  pub cancelled : List ℕ
  -- what the futures give
  pub results : List (ℕ × Delivered Out)
  -- the callers that were accepted and have not yet reached `accepted_.fetch_add`
  pub uncounted : ℕ

-- `compute_worker_count`, where `detect_cpu_count()` gives `cpus`.
unfoldable pub compute_worker_count : ℕ → ℤ → ℕ
compute_worker_count cpus cpu_count_override =
    let found : ℕ = elim cpu_count_override [ pos n ↦ n | negsuc _ ↦ cpus ] in
    let at_least : ℕ = if found == 0 then 1 else found in if ltb 8 at_least then 8 else at_least

unfoldable pub idle_workers : {Out : Type 0} → ℕ → List (Worker Out)
idle_workers zero = []
idle_workers (suc n) = waiting ∷ idle_workers n

-- The constructor.
unfoldable pub init : {Out : Type 0} → ℕ → ℕ → ℤ → Manager Out
unfolding compute_worker_count idle_workers
init capacity cpus worker_count = record {
  queue_capacity = if capacity == 0 then 1 else capacity;
  queue = [];
  reserved = 0;
  active_items = [];
  is_stopped = false;
  workers_stop = false;
  next_task_id = 1;
  accepted_count = 0;
  completed_count = 0;
  workers = idle_workers (compute_worker_count cpus worker_count);
  next_promise = 0;
  cancelled = [];
  results = [];
  uncounted = 0;
}

module _ {Out : Type 0} where
  -- `task.task_id = next_task_id_.fetch_add(1)`, where the caller gave no number
  unfoldable pub assign_id : SubmissionTask → Manager Out → SubmissionTask × Manager Out
  assign_id task m =
      if task.task_id == 0
      then (
        record task { task_id = m.next_task_id },
        record m { next_task_id = m.next_task_id + 1 },
      )
      else (task, m)

  -- `queue_.push_back(item)` with a new promise; the number is the caller's future.
  unfoldable pub push_item : SubmissionTask → Manager Out → Manager Out
  push_item task m = record m {
    queue = m.queue ++ record { task = task; promise = m.next_promise } ∷ [];
    next_promise = m.next_promise + 1;
    uncounted = m.uncounted + 1;
  }

  abbrev is_full : Manager Out → Bool
  is_full m = leb m.queue_capacity (length m.queue + m.reserved)

  -- The locked part of `submit`.
  unfoldable pub enqueue : SubmissionTask → Manager Out → (EnqueueStatus × Option ℕ) × Manager Out
  unfolding push_item
  enqueue task m =
      if m.is_stopped
      then ((stopped, none), m)
      else if is_full m
      then ((queue_full, none), m)
      else ((accepted, some m.next_promise), push_item task m)

  -- `accepted_.fetch_add(1)`
  unfoldable pub count_accepted : Manager Out → Manager Out
  count_accepted m = record m { accepted_count = m.accepted_count + 1; uncounted = m.uncounted - 1 }

  -- `submit`, where no other thread comes between its parts
  unfoldable pub submit : SubmissionTask → Manager Out → (EnqueueStatus × Option ℕ) × Manager Out
  unfolding assign_id enqueue count_accepted
  submit task m =
      let (task', m₁) = assign_id task m in
      let (r, m₂) = enqueue task' m₁ in
      elim r.0 [ accepted ↦ (r, count_accepted m₂) | queue_full ↦ (r, m₂) | stopped ↦ (r, m₂) ]

  -- `reserve`; the reservation is `ok` where the status is `accepted`.
  unfoldable pub reserve : Manager Out → EnqueueStatus × Manager Out
  reserve m =
      if m.is_stopped
      then (stopped, m)
      else if is_full m
      then (queue_full, m)
      else (accepted, record m { reserved = m.reserved + 1 })

  abbrev give_back : Manager Out → Manager Out
  give_back m = record m { reserved = m.reserved - 1 }

  -- The locked part of `commit` for a reservation that is `ok`. `m.reserved - 1` stops at 0, as the
  -- test in the source does.
  unfoldable pub commit : SubmissionTask → Manager Out → Manager Out
  unfolding push_item
  commit task m =
      if m.workers_stop
      then record (give_back m) {
        next_promise = m.next_promise + 1;
        cancelled = m.next_promise ∷ m.cancelled;
        results = (m.next_promise, not_run) ∷ m.results;
      }
      else if m.is_stopped
      then push_item task (record (give_back m) { cancelled = m.next_promise ∷ m.cancelled })
      else push_item task (give_back m)

  -- `release` of a reservation that is `ok`
  unfoldable pub release : Manager Out → Manager Out
  release m = give_back m

  -- The locked part of `cancel_all`. Setting a token twice changes nothing.
  unfoldable pub cancel_all : Manager Out → Manager Out
  cancel_all m = record m {
    is_stopped = true;
    cancelled = promises m.queue ++ promises m.active_items ++ m.cancelled;
  }

  -- `shutdown` up to the joins.
  unfoldable pub stop_workers : Manager Out → Manager Out
  stop_workers m = record m { workers_stop = true }
