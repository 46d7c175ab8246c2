-- ===== src/Submit/PerCase.antt =====
-- `build_per_case_json` of src/submit/submit.cpp: what a submitter is told of each test point. An
-- entry has its JSON object's members, `none` for one that is left out.
use vibe_coding.Prelude.{
  ℕ, zero, suc, Bool, true, false, Option, none, some, List, [], ◌∷◌, map, if◌then◌else◌, ltb,
  is_empty,
}
use vibe_coding.Prelude.Text.{Bytes}
use vibe_coding.Judge.Status.{JudgeStatus, wa, is_ac, judge_status_name}
use vibe_coding.Judge.Message.{Message, no_message}
use vibe_coding.Judge.Executor.{termination_reason_name}
use vibe_coding.Judge.Engine.Result.{Testcase, JudgeTask, TestcaseResult, JudgeResult}

-- The members of a test point that was not accepted.
pub record Failure : Type 0 where
  pub reason : Bytes
  pub sanitizer_error : Bool
  pub exit_code : ℕ
  pub term_signal : ℕ
  pub message : Option Message
  pub actual_output : Bytes
  pub stderr_output : Option Bytes
  -- "input" and "expected_output"
  pub testcase : Option Testcase

pub record CaseEntry : Type 0 where
  pub index : ℕ
  pub status : Bytes
  pub time_ms : ℕ
  -- `none` is null
  pub memory_kb : Option ℕ
  pub global_deadline_hit : Bool
  pub output_truncated : Bool
  pub failure : Option Failure

-- `message.empty()`
unfoldable pub shown_message : Message → Option Message
shown_message no_message = none
shown_message m = some m

unfoldable pub is_wa : JudgeStatus → Bool
is_wa wa = true
is_wa _ = false

unfoldable pub testcase_at : List Testcase → ℕ → Option Testcase
testcase_at [] i = none
testcase_at (t ∷ ts) zero = some t
testcase_at (t ∷ ts) (suc i) = testcase_at ts i

unfoldable pub failure_of : JudgeTask → TestcaseResult → Failure
unfolding shown_message is_wa testcase_at
failure_of task item = record {
  reason = termination_reason_name item.termination;
  sanitizer_error = item.sanitizer_error;
  exit_code = item.exit_code;
  term_signal = item.term_signal;
  message = shown_message item.message;
  actual_output = item.actual_output;
  stderr_output = if is_empty item.stderr_output then none else some item.stderr_output;
  testcase = if is_wa item.status then testcase_at task.testcases item.index else none;
}

unfoldable pub case_entry : JudgeTask → TestcaseResult → CaseEntry
unfolding failure_of
case_entry task item = record {
  index = item.index;
  status = judge_status_name item.status;
  time_ms = item.time_ms;
  memory_kb = if ltb 0 item.memory_kb then some item.memory_kb else none;
  global_deadline_hit = item.global_deadline_hit;
  output_truncated = item.output_truncated;
  failure = if is_ac item.status then none else some (failure_of task item);
}

unfoldable pub build_per_case : JudgeTask → JudgeResult → List CaseEntry
unfolding case_entry
build_per_case task result = map (case_entry task) result.cases
