-- ===== src/Submit/Tests/Judging.antt =====
-- A concrete run of `SubmitService::submit` with the judge engine.
use vibe_coding.Prelude.{ap, ◌<◌, ◌≡◌, refl, false, List, [], ◌∷◌, length}
use vibe_coding.Prelude.Int.{pos}
use vibe_coding.Prelude.Text.{Bytes, codes, text_eq}
use vibe_coding.Judge.Status.{judge_status_name}
use vibe_coding.Judge.Engine.Progress.{count_ac}
use vibe_coding.Judge.Engine.Result.{JudgeResult}
use vibe_coding.Db.Tables.{Tables, count_rows, select_one, select_all, order_by, SubmissionRecord}
use vibe_coding.Db.Columns.{column_text}
use vibe_coding.Db.Connection.{
  Conn, alone, query, execute, take_fault, next_fault, transaction, begin, begin_from, commit,
  commit_from, finish, or_fail, ◌>>=◌, ◌>>◌, pass, carry_on,
}
use vibe_coding.Db.Connection.Quiet.{quiet_conn}
use vibe_coding.Db.InFlight.{remove_by_task_id}
use vibe_coding.Db.Submissions.{insert_submission, find_status, upsert_status, status_row}
use vibe_coding.Db.Problems.{
  read_problem, read_testcases, find_problem, list_testcases, testcases_of,
}
use vibe_coding.Judge.Engine.{judge}
use vibe_coding.Judge.Engine.Tests.{echo_host, options, sure_task, sure_task-ac}
use vibe_coding.Submit.Service.Judged.{judge_engine, submit_task_accepts}
use vibe_coding.Db.Tests.{sum_problem, sum_case, small_tables}
use vibe_coding.Submit.PerCase.{CaseEntry}
use vibe_coding.Submit.Service.{Submission, judge_task, judged, reading, record_of, submit_task}
use vibe_coding.Submit.Service.Settle.{done, settle_submission}

abbrev dump : List CaseEntry → Bytes
dump entries = []

-- A submission that is judged on two test points, and passes both.
abbrev echo_tables : Tables
echo_tables = record small_tables {
  problems = record sum_problem { time_limit_ms = pos 2000 } ∷ [];
  testcases =
      record sum_case { id = 2; ord = pos 1; input = codes "2"; output = codes "2" }
      ∷ record sum_case { input = codes "1"; output = codes "1 " }
      ∷ [];
}

abbrev submission : Submission
submission = record {
  user_id = 1;
  problem_id = 1;
  language = codes "cpp17";
  source_code = codes "int main";
  viewer_is_admin = false;
  submitted_at = codes "2026-01-02";
  in_flight_task_id = codes "t1";
}

abbrev echo_result : JudgeResult
echo_result = (judge echo_host options sure_task 5).0

abbrev echo_row : SubmissionRecord
echo_row = record (record_of dump (codes "now") submission sure_task echo_result) { id = 1 }

abbrev echo_after : Conn
echo_after =
    (submit_task dump (codes "now") (judge_engine echo_host options (λ _. 5)) (λ c. c) (λ c. c)
      submission (quiet_conn echo_tables)).1

echo-done :
    submit_task dump
      (codes "now")
      (judge_engine echo_host options (λ _. 5))
      (λ c. c)
      (λ c. c)
      submission
      (quiet_conn echo_tables)
    ≡ (done echo_row echo_result, echo_after)
unfolding submit_task judge_task judged reading alone query execute take_fault next_fault
    find_problem list_testcases read_problem read_testcases column_text select_one count_rows
    text_eq order_by settle_submission transaction begin begin_from commit commit_from finish
    or_fail ◌>>=◌ ◌>>◌ pass carry_on record_of remove_by_task_id insert_submission find_status
    upsert_status status_row select_all
echo-done = refl

echo_row-ac : echo_row.status ≡ codes "AC"
unfolding record_of judge_status_name
echo_row-ac = ap judge_status_name sure_task-ac

submit_task_accepts_example :
    (0 < length (testcases_of 1 echo_tables))
    × (length echo_result.cases ≡ length (testcases_of 1 echo_tables))
    × (count_ac echo_result.cases ≡ length (testcases_of 1 echo_tables))
unfolding alone find_problem query take_fault next_fault
submit_task_accepts_example =
    submit_task_accepts echo_host options (λ _. 5) dump (codes "now") (λ c. c) (λ c. c) submission
      (quiet_conn echo_tables) echo_row echo_result echo_after echo-done echo_row-ac
