-- ===== src/Judge/Manager/Ending.antt =====
-- The work that is left once the workers may end.
use vibe_coding.Prelude.{
  refl, ℕ, ◌+◌, ◌*◌, ◌<◌, ◌≡◌, true, false, Bool, Option, none, some, List, [], ◌∷◌, ◌++◌, arith,
  length, sum_of, sum_of-append, subst, ap,
}
use vibe_coding.Judge.Manager.{
  Manager, Worker, waiting, exited, running, completed, retired, Delivered, Item,
}
use vibe_coding.Judge.Manager.Step.{work, take_item, leave}

module _ {Out : Type 0} where
  -- The steps that a worker has still to make with what it holds, and the one that ends it.
  abbrev pub steps_left : Worker Out → ℕ
  steps_left waiting = 1
  steps_left exited = 0
  steps_left (running item) = 4
  steps_left (completed item d) = 3
  steps_left (retired item d) = 2

  -- Four steps for each task that waits: taking it, and three with it.
  abbrev pub work_left : Manager Out → ℕ
  work_left m = 4 * length m.queue + sum_of steps_left m.workers

  record Lessens (m : Manager Out) (w : Worker Out) (r : Worker Out × Manager Out) : Type 0 where
    less : 4 * length r.1.queue + steps_left r.0 < 4 * length m.queue + steps_left w

  LessensIf : Manager Out → Worker Out → Option (Worker Out × Manager Out) → Type 0
  LessensIf m w none = Unit {0}
  LessensIf m w (some r) = Lessens m w r

  leave-LessensIf : (b : Bool) (m : Manager Out) → LessensIf m waiting (leave b m)
  unfolding leave LessensIf
  leave-LessensIf true m = record { less = omega arith }
  leave-LessensIf false m = tt

  take_item-LessensIf :
      (q : List Item) (m : Manager Out) → m.queue ≡ q → LessensIf m waiting (take_item q m)
  unfolding take_item LessensIf
  take_item-LessensIf [] m e = leave-LessensIf m.workers_stop m
  take_item-LessensIf (item ∷ rest) m e = record { less = omega (arith, ap length e) }

  work-LessensIf :
      (done : Delivered Out) (w : Worker Out) (m : Manager Out) → LessensIf m w (work done w m)
  unfolding work LessensIf
  work-LessensIf done exited m = tt
  work-LessensIf done waiting m = take_item-LessensIf m.queue m refl
  work-LessensIf done (running item) m = record { less = omega arith }
  work-LessensIf done (completed item d) m = record { less = omega arith }
  work-LessensIf done (retired item d) m = record { less = omega arith }

  -- Each step of a worker leaves less work, whatever the task's handler gives: the work is the
  -- steps that the workers have still to make with what they hold, and four for each waiting task.
  pub work-work_left :
      (m m' : Manager Out) (done : Delivered Out) (before : List (Worker Out)) (w : Worker Out)
      (after : List (Worker Out)) (w' : Worker Out)
      → m.workers ≡ before ++ w ∷ after
      → work done w m ≡ some (w', m')
      → work_left (record m' { workers = before ++ w' ∷ after }) < work_left m
  unfolding LessensIf
  work-work_left m m' done before w after w' e k =
      let l : Lessens m w (w', m') = subst (LessensIf m w) k (work-LessensIf done w m) in
      omega (
        arith,
        l.less,
        ap (sum_of steps_left) e,
        sum_of-append steps_left before (w ∷ after),
        sum_of-append steps_left before (w' ∷ after),
      )
