-- ===== src/Judge/Manager/Step.antt =====
-- The worker threads of `JudgeManager` and every interleaving of them with its callers.
use vibe_coding.Prelude.{
  ℕ, ◌+◌, ◌<◌, ◌≡◌, Bool, true, false, Option, none, some, List, [], ◌∷◌, ◌++◌, ◌==◌, if◌then◌else◌,
}
use vibe_coding.Judge.Manager.{
  SubmissionTask, Item, Delivered, Worker, waiting, exited, running, completed, retired, Manager,
  assign_id, enqueue, count_accepted, reserve, commit, release, cancel_all, stop_workers,
}

-- `active_items_.erase(item)`: the set holds each item once.
unfoldable pub erase : ℕ → List Item → List Item
erase promise [] = []
erase promise (item ∷ items) =
    let rest = erase promise items in if item.promise == promise then items else item ∷ rest

module _ {Out : Type 0} where
  -- With the queue empty, the thread returns once it may, and waits before.
  unfoldable pub leave : Bool → Manager Out → Option (Worker Out × Manager Out)
  leave true m = some (exited, m)
  leave false m = none

  -- Behind `not_empty_.wait`, which the thread leaves only where this is not `none`.
  unfoldable pub take_item : List Item → Manager Out → Option (Worker Out × Manager Out)
  unfolding leave
  take_item [] m = leave m.workers_stop m
  take_item (item ∷ rest) m =
      some (running item, record m { queue = rest; active_items = item ∷ m.active_items })

  -- One worker goes on; `done` is what the handler gives, which only `running` looks at. `none`:
  -- the thread waits on the condition, or has ended.
  unfoldable pub work : Delivered Out → Worker Out → Manager Out → Option (Worker Out × Manager Out)
  unfolding take_item
  work done exited m = none
  work done waiting m = take_item m.queue m
  work done (running item) m =
      some (completed item done, record m { completed_count = m.completed_count + 1 })
  work done (completed item d) m =
      some (retired item d, record m { active_items = erase item.promise m.active_items })
  work done (retired item d) m =
      some (waiting, record m { results = (item.promise, d) ∷ m.results })

  -- A step of one thread. A reservation is used once, so `commits` and `releases` want one.
  pub data Step (m : Manager Out) : Manager Out → Type 0 where
    numbers : (task : SubmissionTask) → Step m (assign_id task m).1
    submits : (task : SubmissionTask) → Step m (enqueue task m).1
    counts : 0 < m.uncounted → Step m (count_accepted m)
    reserves : Step m (reserve m).1
    commits : (task : SubmissionTask) → 0 < m.reserved → Step m (commit task m)
    releases : 0 < m.reserved → Step m (release m)
    cancels : Step m (cancel_all m)
    -- `shutdown` sets this behind its own call of `cancel_all`
    stops : m.is_stopped ≡ true → Step m (stop_workers m)
    works :
        (done : Delivered Out) (before : List (Worker Out)) (w : Worker Out)
        (after : List (Worker Out)) (w' : Worker Out) (m' : Manager Out)
        → m.workers ≡ before ++ w ∷ after
        → work done w m ≡ some (w', m')
        → Step m (record m' { workers = before ++ w' ∷ after })

  pub data Reach (m : Manager Out) : Manager Out → Type 0 where
    here : Reach m m
    next : {n o : Manager Out} → Reach m n → Step n o → Reach m o
