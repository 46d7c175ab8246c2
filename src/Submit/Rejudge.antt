-- ===== src/Submit/Rejudge.antt =====
-- `RejudgeService` of src/submit/rejudge.h and rejudge.cpp: a submission is judged again, with the
-- problem and the testcases of now. The text of a per-case report is `dump`, a judgement is `none`
-- where it throws. Other threads work on the database behind the read of the submission,
-- `first_between`, behind that of the problem, `between`, and during the judgement, `meanwhile`.
pub mod Statements
pub mod Earliest
pub mod Refined
use vibe_coding.Prelude.{ℕ, Option, none, some, ◌⊎◌, inl, inr, List, if◌then◌else◌}
use vibe_coding.Prelude.Text.{Bytes}
use vibe_coding.Judge.Status.{is_syserr, judge_status_name}
use vibe_coding.Judge.Engine.Result.{JudgeTask, JudgeResult}
use vibe_coding.Db.Tables.{ProblemRecord, SubmissionRecord, TestcaseRow}
use vibe_coding.Db.Connection.{
  Work, Conn, Body, ◌>>=◌, ◌>>◌, pass, give_up, or_fail, transaction, alone,
}
use vibe_coding.Db.Problems.{find_problem, list_testcases}
use vibe_coding.Db.Submissions.{find_submission, update_submission, recompute}
use vibe_coding.Submit.PerCase.{CaseEntry, build_per_case}
use vibe_coding.Submit.Service.{judge_task, judged, total_runtime, peak_memory, reading}
use vibe_coding.Submit.Service.Settle.{Outcome, done, problem_not_found, internal_error}

-- Why the transaction is given up.
pub data Dropped : Type 0 where
  was_deleted rejudge_failed : Dropped

-- Step 4, behind the check that the submission is still there.
unfoldable pub rewrite_found : SubmissionRecord → Option SubmissionRecord → Body Dropped (Unit {0})
rewrite_found updated none = give_up was_deleted
rewrite_found updated (some _) =
    or_fail rejudge_failed (update_submission updated)
    >> or_fail rejudge_failed (recompute updated.user_id updated.problem_id)

unfoldable pub rejudge_body : SubmissionRecord → Body Dropped (Unit {0})
unfolding rewrite_found
rejudge_body updated = or_fail rejudge_failed (find_submission updated.id) >>= rewrite_found updated

unfoldable pub rejudge_outcome : SubmissionRecord → JudgeResult → Dropped ⊎ Unit {0} → Outcome
rejudge_outcome updated result (inl was_deleted) = problem_not_found
rejudge_outcome updated result (inl rejudge_failed) = internal_error
rejudge_outcome updated result (inr _) = done updated result

unfoldable pub settle_rejudge : SubmissionRecord → JudgeResult → Conn → Outcome × Conn
unfolding rejudge_body rejudge_outcome
settle_rejudge updated result c =
    let (r, c') = transaction rejudge_failed (rejudge_body updated) c in
    (rejudge_outcome updated result r, c')

module _ (dump : List CaseEntry → Bytes) where
  -- The submission with its new result; who, what and when stay.
  unfoldable pub updated_record : SubmissionRecord → JudgeTask → JudgeResult → SubmissionRecord
  updated_record original task result = record original {
    status = judge_status_name result.status;
    per_case = dump (build_per_case task result);
    compile_msg = result.compile_output;
    runtime_ms = total_runtime result.cases;
    memory_kb = peak_memory 0 result.cases;
  }

  -- From the judgement on.
  unfoldable pub rejudge_judged : SubmissionRecord → JudgeTask → JudgeResult → Conn → Outcome × Conn
  unfolding settle_rejudge updated_record
  rejudge_judged original task result c =
      if is_syserr result.status
      then (internal_error, c)
      else settle_rejudge (updated_record original task result) result c

  module _ (engine : JudgeTask → Option JudgeResult)
      (first_between between meanwhile : Conn → Conn) where
    -- From the testcases on.
    unfoldable pub rejudge_rows :
        SubmissionRecord → ProblemRecord → List TestcaseRow → Conn → Outcome × Conn
    unfolding rejudge_judged
    rejudge_rows original problem rows c =
        let task = judge_task problem original.language original.source_code rows in
        rejudge_judged original task (judged task (engine task)) (meanwhile c)

    -- From the problem on.
    unfoldable pub rejudge_found : SubmissionRecord → Option ProblemRecord → Conn → Outcome × Conn
    unfolding rejudge_rows
    rejudge_found original none c = (problem_not_found, c)
    rejudge_found original (some problem) c =
        reading (list_testcases original.problem_id) (rejudge_rows original problem) (between c)

    -- From the submission on.
    unfoldable pub rejudge_original : Option SubmissionRecord → Conn → Outcome × Conn
    unfolding rejudge_found
    rejudge_original none c = (problem_not_found, c)
    rejudge_original (some original) c =
        reading (find_problem original.problem_id) (rejudge_found original) (first_between c)

    -- `RejudgeService::rejudge`
    unfoldable pub rejudge : ℕ → Conn → Outcome × Conn
    unfolding rejudge_original
    rejudge submission_id c = reading (find_submission submission_id) rejudge_original c
