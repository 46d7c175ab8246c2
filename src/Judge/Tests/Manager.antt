-- ===== src/Judge/Tests/Manager.antt =====
-- Runs of `JudgeManager`.
use vibe_coding.Prelude.{
  ℕ, ◌+◌, ◌≤◌, ◌<◌, ◌≡◌, refl, true, false, [], ◌∷◌, ◌==◌, length, arith, count, if◌then◌else◌,
}
use vibe_coding.Prelude.Int.{pos}
use vibe_coding.Prelude.Text.{codes}
use vibe_coding.Judge.Manager.{
  SubmissionTask, Item, Manager, waiting, running, completed, retired, exited, outcome, enqueue,
  init, compute_worker_count, cancel_all, stop_workers, count_accepted,
}
use vibe_coding.Judge.Manager.Step.{
  Reach, here, next, submits, cancels, stops, counts, works, work, take_item, leave, erase,
}
use vibe_coding.Judge.Manager.Worked.{resolved}
use vibe_coding.Judge.Manager.Progress.{IsBlocked}
use vibe_coding.Judge.Manager.Ending.{work_left, work-work_left}
use vibe_coding.Judge.Manager.Delivery.{queue_bounded, stop_cancels, shutdown_delivers}

abbrev echo_submission : SubmissionTask
echo_submission = record {
  task_id = 1;
  user_id = 3;
  problem_id = 4;
  language = codes "c11";
  source_code = codes "int main";
  viewer_is_admin = false;
  submitted_at = codes "2026-01-01 00:00:00";
  rejudge_submission_id = 0;
  in_flight_task_id = codes "t1";
}

-- One task submitted to a queue of two, then the service stops.
abbrev one_queued : Manager ℕ
one_queued = (enqueue echo_submission (init 2 4 (pos 1))).1

abbrev one_stopped : Manager ℕ
one_stopped = cancel_all one_queued

one_queued-Reach : Reach (init 2 4 (pos 1)) one_queued
one_queued-Reach = next here (submits echo_submission)

one_stopped-Reach : Reach (init 2 4 (pos 1)) one_stopped
one_stopped-Reach = next one_queued-Reach cancels

one_stopped-is_stopped : one_stopped.is_stopped ≡ true
unfolding cancel_all
one_stopped-is_stopped = refl

queue_bounded_example :
    (length one_queued.queue + one_queued.reserved ≤ (if 2 == 0 then 1 else 2))
    × (length one_queued.workers ≡ compute_worker_count 4 (pos 1))
    × (0 < length one_queued.workers)
    × (length one_queued.workers ≤ 8)
queue_bounded_example = queue_bounded 2 4 (pos 1) one_queued one_queued-Reach

stop_cancels_example : 0 < count 0 one_stopped.cancelled
unfolding enqueue cancel_all init
stop_cancels_example =
    stop_cancels 2 4 (pos 1) one_stopped one_stopped-Reach one_stopped-is_stopped 0 (omega arith)

-- The one worker takes the task, answers it and leaves.
abbrev sole : Item
sole = record { task = echo_submission; promise = 0 }

abbrev all_stopped : Manager ℕ
all_stopped = stop_workers (count_accepted one_stopped)

abbrev one_running : Manager ℕ
one_running = record all_stopped {
  queue = [];
  active_items = sole ∷ [];
  workers = running sole ∷ [];
}

abbrev one_completed : Manager ℕ
one_completed = record one_running {
  completed_count = 1;
  workers = completed sole (outcome 8) ∷ [];
}

abbrev one_retired : Manager ℕ
one_retired = record one_completed { active_items = []; workers = retired sole (outcome 8) ∷ [] }

abbrev one_answered : Manager ℕ
one_answered = record one_retired { results = (0, outcome 8) ∷ []; workers = waiting ∷ [] }

abbrev one_left : Manager ℕ
one_left = record one_answered { workers = exited ∷ [] }

one_left-Reach : Reach (init 2 4 (pos 1)) one_left
unfolding enqueue cancel_all count_accepted stop_workers init work take_item leave erase
one_left-Reach =
    next
      (next
        (next
          (next
            (next (next (next one_stopped-Reach (counts (omega arith))) (stops refl))
              (works (outcome 8) [] waiting [] _ _ refl refl))
            (works (outcome 8) [] (running sole) [] _ _ refl refl))
          (works (outcome 8) [] (completed sole (outcome 8)) [] _ _ refl refl))
        (works (outcome 8) [] (retired sole (outcome 8)) [] _ _ refl refl))
      (works (outcome 8) [] waiting [] _ _ refl refl)

one_left-stopped : one_left.workers_stop ≡ true
unfolding stop_workers
one_left-stopped = refl

one_left-IsBlocked : IsBlocked one_left
unfolding work
one_left-IsBlocked = (λ done. refl, tt)

shutdown_delivers_example :
    (one_left.queue ≡ [])
    × (count 0 (resolved one_left.results) ≡ 1)
    × (one_left.accepted_count + one_left.uncounted ≡ one_left.completed_count)
unfolding enqueue stop_workers count_accepted cancel_all init
shutdown_delivers_example =
    shutdown_delivers 2 4 (pos 1) one_left one_left-Reach one_left-stopped one_left-IsBlocked 0
      (omega arith)

work-work_left_example : work_left one_running < work_left all_stopped
unfolding enqueue stop_workers count_accepted cancel_all init work take_item
work-work_left_example =
    work-work_left all_stopped (record all_stopped { queue = []; active_items = sole ∷ [] })
      (outcome 8) [] waiting [] (running sole) refl refl
