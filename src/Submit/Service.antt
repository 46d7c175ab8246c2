-- ===== src/Submit/Service.antt =====
-- `SubmitService` of src/submit/submit.h and submit.cpp. The text of a per-case report is `dump`, and
-- times and identifiers are what the clock and the random source gave. Other threads work on the
-- database between the read of a problem and that of its test points, `between`, and while the task
-- is judged, `meanwhile`. A judgement is `none` where it throws.
pub mod Persist
pub mod Settle
pub mod Statements
pub mod Interrupted
pub mod Refined
pub mod Persisted
pub mod Once
pub mod Done
pub mod Judged
use vibe_coding.Prelude.{
  ℕ, ◌+◌, Bool, true, false, not, ◌&&◌, Option, none, some, ◌⊎◌, inl, inr, List, [], ◌∷◌, map,
  if◌then◌else◌, ltb, length, is_empty,
}
use vibe_coding.Prelude.Int.{ℤ}
use vibe_coding.Prelude.Text.{Bytes, codes}
use vibe_coding.Judge.Status.{syserr, is_ac, judge_status_name}
use vibe_coding.Judge.Message.{judging_failed}
use vibe_coding.Judge.Engine.Result.{
  Testcase, JudgeTask, TestcaseResult, JudgeResult, initial_result, with_error,
}
use vibe_coding.Db.Tables.{Tables, ProblemRecord, TestcaseRow, SubmissionRecord}
use vibe_coding.Db.Connection.{Work, Conn, alone}
use vibe_coding.Db.Problems.{find_problem, list_testcases}
use vibe_coding.Submit.PerCase.{CaseEntry, build_per_case}
use Settle.{
  Outcome, done, problem_not_found, internal_error, problem_gone, settle_interrupted,
  settle_submission,
}

-- What a submission is: who, for what, and what. `in_flight_task_id` is empty where the task was not
-- persisted.
pub record Submission : Type 0 where
  pub user_id : ℕ
  pub problem_id : ℕ
  pub language : Bytes
  pub source_code : Bytes
  pub viewer_is_admin : Bool
  pub submitted_at : Bytes
  pub in_flight_task_id : Bytes

unfoldable pub judge_task : ProblemRecord → Bytes → Bytes → List TestcaseRow → JudgeTask
judge_task problem language source_code rows = record {
  language = language;
  source_code = source_code;
  testcases = map (λ row. record { input = row.input; output = row.output }) rows;
  time_limit_ms = problem.time_limit_ms;
  memory_limit_kb = problem.memory_limit_kb;
}

-- The result where the judgement threw.
unfoldable pub judged : JudgeTask → Option JudgeResult → JudgeResult
judged task none = with_error judging_failed (initial_result (length task.testcases))
judged task (some result) = result

unfoldable pub total_runtime : List TestcaseResult → ℕ
total_runtime [] = 0
total_runtime (item ∷ items) = item.time_ms + total_runtime items

-- The loop over the cases, from `peak` on.
unfoldable pub peak_memory : ℕ → List TestcaseResult → ℕ
peak_memory peak [] = peak
peak_memory peak (item ∷ items) =
    peak_memory (if ltb peak item.memory_kb then item.memory_kb else peak) items

unfoldable pub time_or_now : Bytes → Bytes → Bytes
time_or_now submitted_at now = if is_empty submitted_at then now else submitted_at

-- A read of its own, and the error where it fails.
unfoldable pub reading :
    {A : Type 0} → (Work → Option A × Work) → (A → Conn → Outcome × Conn) → Conn → Outcome × Conn
reading statement rest c =
    let (read, c') = alone statement c in
    elim read [ none ↦ (internal_error, c') | some a ↦ rest a c' ]

module _ (dump : List CaseEntry → Bytes) (now : Bytes) where
  unfoldable pub record_of : Submission → JudgeTask → JudgeResult → SubmissionRecord
  unfolding total_runtime peak_memory time_or_now
  record_of s task result = record {
    id = 0;
    user_id = s.user_id;
    problem_id = s.problem_id;
    language = s.language;
    source_code = s.source_code;
    status = judge_status_name result.status;
    per_case = dump (build_per_case task result);
    compile_msg = result.compile_output;
    runtime_ms = total_runtime result.cases;
    memory_kb = peak_memory 0 result.cases;
    created_at = time_or_now s.submitted_at now;
  }

  -- From the judgement on.
  unfoldable pub submit_judged : Submission → JudgeTask → JudgeResult → Conn → Outcome × Conn
  unfolding record_of
  submit_judged s task result c =
      settle_submission (record_of s task result) (is_ac result.status) s.in_flight_task_id result c

  module _ (engine : JudgeTask → Option JudgeResult) (between meanwhile : Conn → Conn) where
    -- From the testcases on.
    unfoldable pub submit_rows :
        Submission → ProblemRecord → List TestcaseRow → Conn → Outcome × Conn
    unfolding submit_judged judge_task judged
    submit_rows s problem rows c =
        let task = judge_task problem s.language s.source_code rows in
        submit_judged s task (judged task (engine task)) (meanwhile c)

    -- From the problem on.
    unfoldable pub submit_found : Submission → Option ProblemRecord → Conn → Outcome × Conn
    unfolding submit_rows reading
    submit_found s none c =
        (problem_not_found, settle_interrupted s.in_flight_task_id problem_gone c)
    submit_found s (some problem) c =
        if not problem.visible && not s.viewer_is_admin && is_empty s.in_flight_task_id
        then (problem_not_found, c)
        else reading (list_testcases s.problem_id) (submit_rows s problem) (between c)

    -- `SubmitService::submit`
    unfoldable pub submit_task : Submission → Conn → Outcome × Conn
    unfolding submit_found
    submit_task s c = reading (find_problem s.problem_id) (submit_found s) c
