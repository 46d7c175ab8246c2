-- ===== src/Db/InFlight.antt =====
-- `InFlightStore` of src/db/in_flight.h and in_flight.cpp: the tasks that are accepted and not yet
-- settled.
use vibe_coding.Prelude.{
  ℕ, zero, suc, ◌+◌, Bool, true, false, not, ◌&&◌, Option, none, some, List, map, [], ◌∷◌, ◌++◌,
  ◌==◌, ltb, if◌then◌else◌, is_empty,
}
use vibe_coding.Prelude.Text.{Bytes, text_eq}
use vibe_coding.Db.Tables.{
  Tables, InFlightTask, InFlightState, pending, claimed, interrupted, select_one, select_all,
  count_rows, update_where,
}
use vibe_coding.Db.Columns.{load_task, loaded}
use vibe_coding.Db.Connection.{Work, query, execute}
use vibe_coding.Db.Submissions.{has_parents}

unfoldable pub is_pending : InFlightState → Bool
is_pending pending = true
is_pending _ = false

unfoldable pub is_claimed : InFlightState → Bool
is_claimed claimed = true
is_claimed _ = false

unfoldable pub is_interrupted : InFlightState → Bool
is_interrupted interrupted = true
is_interrupted _ = false

abbrev pub has_task_id : Bytes → InFlightTask → Bool
has_task_id task_id task = text_eq task.task_id task_id

unfoldable pub has_task : Bytes → Tables → Bool
has_task task_id t = ltb 0 (count_rows (has_task_id task_id) t.in_flight)

unfoldable pub added_task : InFlightTask → Tables → Tables
added_task task t = record t {
  in_flight =
      t.in_flight
      ++ record task {
        id = t.next_in_flight;
        state = pending;
        owner = [];
        claimed_at = none;
        reason = [];
      }
        ∷ [];
  next_in_flight = t.next_in_flight + 1;
}

-- INSERT INTO in_flight_tasks … RETURNING id: the inner `none` is the conflict of the task's
-- identifier, the outer one a foreign key that is missing.
unfoldable pub add_task : InFlightTask → Tables → Option (Option ℕ × Tables)
unfolding has_task added_task
add_task task t =
    if has_task task.task_id t
    then some (none, t)
    else if has_parents task.user_id task.problem_id t
    then some (some t.next_in_flight, added_task task t)
    else none

-- What follows an attempt of `insert`: the conflict of an identifier is tried again.
unfoldable pub attempted :
    (Work → Option (ℕ × InFlightTask) × Work)
    → InFlightTask
    → Option (Option ℕ) × Work
    → Option (ℕ × InFlightTask) × Work
attempted again named (none, w) = (none, w)
attempted again named (some (some id), w) = (some (id, named), w)
attempted again named (some none, w) = again w

abbrev pub with_task_id : Bytes → InFlightTask → InFlightTask
with_task_id task_id task = record task { task_id = task_id }

abbrev pub named_task : Bytes → InFlightTask → InFlightTask
named_task generated task =
    with_task_id (if is_empty task.task_id then generated else task.task_id) task

-- The loop of `insert`, `attempts` of it being left; `generate` gives the identifier of an attempt.
unfoldable pub insert_attempts :
    (ℕ → Bytes) → ℕ → InFlightTask → Work → Option (ℕ × InFlightTask) × Work
unfolding add_task attempted
insert_attempts generate zero task w = (none, w)
insert_attempts generate (suc attempts) task w =
    let named = named_task (generate attempts) task in
    attempted (insert_attempts generate attempts (with_task_id [] named)) named
      (execute (add_task named) w)

-- `kMaxAttempts`
abbrev pub max_attempts : ℕ
max_attempts = 5

unfoldable pub insert_task : (ℕ → Bytes) → InFlightTask → Work → Option (ℕ × InFlightTask) × Work
unfolding insert_attempts
insert_task generate = insert_attempts generate max_attempts

unfoldable pub task_of : Bytes → Tables → Option InFlightTask
task_of task_id t = select_one (has_task_id task_id) t.in_flight

unfoldable pub find_task : Bytes → Work → Option (Option InFlightTask) × Work
unfolding task_of loaded load_task
find_task task_id = query λ t. loaded load_task (task_of task_id t)

-- DELETE … RETURNING id
unfoldable pub removed_task : Bytes → Tables → Tables
removed_task task_id t = record t {
  in_flight = select_all (λ task. not (has_task_id task_id task)) t.in_flight;
}

unfoldable pub remove_by_task_id : Bytes → Work → Option Bool × Work
unfolding has_task removed_task
remove_by_task_id task_id = execute λ t. some (has_task task_id t, removed_task task_id t)

-- UPDATE … SET state = 'interrupted' WHERE task_id = ? AND state != 'interrupted'
unfoldable pub marked_interrupted : Bytes → Bytes → Tables → Tables
unfolding is_interrupted
marked_interrupted task_id reason t = record t {
  in_flight =
      update_where (λ task. has_task_id task_id task && not (is_interrupted task.state))
        (λ task. record task { state = interrupted; reason = reason }) t.in_flight;
}

unfoldable pub mark_interrupted : Bytes → Bytes → Work → Option (Unit {0}) × Work
unfolding marked_interrupted
mark_interrupted task_id reason = execute λ t. some (tt, marked_interrupted task_id reason t)

-- SELECT … WHERE state = 'pending' ORDER BY id ASC LIMIT ?; the rows stand in the order of their keys.
unfoldable pub take_rows : ℕ → List InFlightTask → List InFlightTask
take_rows zero tasks = []
take_rows (suc n) [] = []
take_rows (suc n) (task ∷ tasks) = task ∷ take_rows n tasks

unfoldable pub pending_of : ℕ → Tables → List InFlightTask
unfolding is_pending take_rows
pending_of limit t = take_rows limit (select_all (λ task. is_pending task.state) t.in_flight)

unfoldable pub list_pending : ℕ → Work → Option (List InFlightTask) × Work
unfolding pending_of load_task
list_pending limit w =
    if limit == 0 then (some [], w) else query (λ t. map load_task (pending_of limit t)) w

-- UPDATE … SET state = 'claimed' … WHERE id = ? AND state = 'pending' RETURNING id
abbrev pub is_claimable : ℕ → InFlightTask → Bool
is_claimable id task = task.id == id && is_pending task.state

unfoldable pub claimed_task : ℕ → Bytes → Bytes → Tables → Tables
unfolding is_pending
claimed_task id owner now t = record t {
  in_flight =
      update_where (is_claimable id)
        (λ task. record task { state = claimed; owner = owner; claimed_at = some now }) t.in_flight;
}

unfoldable pub claim : ℕ → Bytes → Bytes → Work → Option Bool × Work
unfolding claimed_task is_pending
claim id owner now =
    execute
      λ t. some (ltb 0 (count_rows (is_claimable id) t.in_flight), claimed_task id owner now t)

unfoldable pub reset_tables : Tables → Tables
unfolding is_claimed
reset_tables t = record t {
  in_flight =
      update_where (λ task. is_claimed task.state)
        (λ task. record task { state = pending; owner = []; claimed_at = none }) t.in_flight;
}

unfoldable pub reset_stale_claims : Work → Option (Unit {0}) × Work
unfolding reset_tables
reset_stale_claims = execute λ t. some (tt, reset_tables t)

unfoldable pub unsettled_for : ℕ → Tables → ℕ
unfolding is_interrupted
unsettled_for problem_id t =
    count_rows (λ task. task.problem_id == problem_id && not (is_interrupted task.state))
      t.in_flight

unfoldable pub count_for_problem : ℕ → Work → Option ℕ × Work
unfolding unsettled_for
count_for_problem problem_id = query (unsettled_for problem_id)
