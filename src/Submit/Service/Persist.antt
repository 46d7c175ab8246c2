-- ===== src/Submit/Service/Persist.antt =====
-- `persist_in_flight` of src/submit/submit.cpp: a task is written down before it is queued.
use vibe_coding.Prelude.{ℕ, Option, none, some, ◌⊎◌, [], if◌then◌else◌, is_empty}
use vibe_coding.Prelude.Text.{Bytes}
use vibe_coding.Db.Tables.{ProblemRecord, InFlightTask, pending}
use vibe_coding.Db.Connection.{Conn, Body, ◌>>=◌, pass, give_up, or_fail, transaction}
use vibe_coding.Db.Problems.{find_problem}
use vibe_coding.Db.InFlight.{insert_task}

-- `PersistKind`, with the identifier where it is `Ok`.
pub data Refused : Type 0 where
  problem_missing persist_failed : Refused

unfoldable pub new_task : ℕ → ℕ → Bytes → Bytes → Bytes → InFlightTask
new_task user_id problem_id language source_code submitted_at = record {
  id = 0;
  task_id = [];
  user_id = user_id;
  problem_id = problem_id;
  language = language;
  source_code = source_code;
  submitted_at = submitted_at;
  state = pending;
  owner = [];
  claimed_at = none;
  reason = [];
}

unfoldable pub persist_found :
    (ℕ → Bytes) → InFlightTask → Option ProblemRecord → Body Refused Bytes
persist_found generate task none = give_up problem_missing
persist_found generate task (some _) = do
  (id, named) ← or_fail persist_failed (insert_task generate task)
  pass named.task_id

unfoldable pub persist_body : (ℕ → Bytes) → InFlightTask → Body Refused Bytes
unfolding persist_found
persist_body generate task =
    or_fail persist_failed (find_problem task.problem_id) >>= persist_found generate task

-- `now` is `utc_timestamp_now()`.
unfoldable pub persist_in_flight :
    (ℕ → Bytes) → Bytes → ℕ → ℕ → Bytes → Bytes → Bytes → Conn → (Refused ⊎ Bytes) × Conn
unfolding persist_body new_task
persist_in_flight generate now user_id problem_id language source_code submitted_at =
    transaction persist_failed (
      persist_body generate (
        new_task user_id problem_id language source_code
          (if is_empty submitted_at then now else submitted_at)))
