-- ===== src/Submit/Tests/Services.antt =====
-- Concrete runs of the services of src/submit that work on the database.
use vibe_coding.Prelude.{ℕ, ◌≤◌, ◌≡◌, inr, refl, true, false, List, [], ◌∷◌, ◌==◌, if◌then◌else◌}
use vibe_coding.Prelude.Text.{Bytes, codes, text_eq}
use vibe_coding.Judge.Engine.Result.{JudgeResult, initial_result}
use vibe_coding.Db.Tables.{count_rows, SubmissionRecord}
use vibe_coding.Db.Connection.{Conn, durable}
use vibe_coding.Db.Connection.Quiet.{quiet_conn}
use vibe_coding.Db.InFlight.{has_task}
use vibe_coding.Db.Submissions.{has_parents}
use vibe_coding.Db.Tests.{small_tables, small_conn, faulty_conn}
use vibe_coding.Submit.Service.{Submission, judge_task, judged, reading, record_of, submit_task}
use vibe_coding.Submit.Service.Settle.{done, settle_submission}
use vibe_coding.Submit.Service.Refined.{settle_submission-Refines}
use vibe_coding.Submit.Service.Done.{settle_submission-done}
use vibe_coding.Submit.Service.Once.{Attempt, times_settled, times_settled_once}
use vibe_coding.Submit.Service.Persist.{persist_in_flight}
use vibe_coding.Submit.Service.Persisted.{Persists, persist_in_flight-Persists}
use vibe_coding.Submit.Rejudge.{settle_rejudge}
use vibe_coding.Submit.Rejudge.Refined.{settle_rejudge-Refines}
use vibe_coding.Submit.Service
use vibe_coding.Submit.Rejudge

abbrev row : SubmissionRecord
row = record {
  id = 0;
  user_id = 1;
  problem_id = 1;
  language = codes "cpp17";
  source_code = codes "x";
  status = codes "AC";
  per_case = [];
  compile_msg = [];
  runtime_ms = 5;
  memory_kb = 100;
  created_at = codes "2026-01-02";
}

abbrev verdict : JudgeResult
verdict = initial_result 1

settle_submission-Refines_example :
    Service.Refined.Refines row true
      (codes "t1")
      (durable faulty_conn)
      (durable (settle_submission row true (codes "t1") verdict faulty_conn).1)
      (settle_submission row true (codes "t1") verdict faulty_conn).0
settle_submission-Refines_example =
    settle_submission-Refines row true (codes "t1") verdict faulty_conn

has-task : has_task (codes "t1") small_tables ≡ true
unfolding has_task count_rows text_eq
has-task = refl

has-parents : has_parents 1 1 small_tables ≡ true
unfolding has_parents count_rows
has-parents = refl

settle_submission-done_example :
    (settle_submission row true (codes "t1") verdict small_conn).0
    ≡ done (record row { id = 1 }) verdict
settle_submission-done_example =
    settle_submission-done row true (codes "t1") verdict small_tables has-parents (inr has-task)

-- Two workers that settle one task.
abbrev twice : List Attempt
twice =
    record {
      meanwhile = λ c. c;
      row = row;
      accepted = true;
      task_id = codes "t1";
      result = verdict;
    }
    ∷ record {
      meanwhile = λ c. c;
      row = row;
      accepted = false;
      task_id = codes "t1";
      result = verdict;
    }
    ∷ []

times_settled_once_example :
    times_settled (codes "t1") twice small_conn
    ≤ (if has_task (codes "t1") (durable small_conn) then 1 else 0)
times_settled_once_example =
    times_settled_once (codes "t1") twice small_conn refl (λ c h. h, (λ c h. h, tt))

-- The first identifier that is generated is taken.
abbrev generate : ℕ → Bytes
generate attempts = if attempts == 4 then codes "t1" else codes "t2"

persist_in_flight-Persists_example :
    Persists 1 1
      (codes "c11")
      (codes "y")
      (codes "now")
      (durable small_conn)
      (durable
        (persist_in_flight generate (codes "now") 1 1 (codes "c11") (codes "y") [] small_conn).1)
      (persist_in_flight generate (codes "now") 1 1 (codes "c11") (codes "y") [] small_conn).0
persist_in_flight-Persists_example =
    persist_in_flight-Persists generate (codes "now") 1 1 (codes "c11") (codes "y") [] small_conn

-- A submission with a wrong answer, which is judged again.
abbrev wrong_conn : Conn
wrong_conn = quiet_conn (record small_tables {
  submissions = record row { id = 1; status = codes "WA" } ∷ [];
  next_submission = 2;
})

abbrev judged_row : SubmissionRecord
judged_row = record row { id = 1 }

settle_rejudge-Refines_example :
    Rejudge.Refined.Refines judged_row verdict
      (durable wrong_conn)
      (durable (settle_rejudge judged_row verdict wrong_conn).1)
      (settle_rejudge judged_row verdict wrong_conn).0
settle_rejudge-Refines_example = settle_rejudge-Refines judged_row verdict wrong_conn
