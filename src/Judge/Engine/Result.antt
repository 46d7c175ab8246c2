-- ===== src/Judge/Engine/Result.antt =====
-- The data of src/judge/judge.h, and the functions of judge.cpp on a result.
use vibe_coding.Prelude.{ℕ, Bool, true, false, List, [], ◌∷◌, ltb, if◌then◌else◌}
use vibe_coding.Prelude.Int.{ℤ}
use vibe_coding.Prelude.Text.{Bytes}
use vibe_coding.Judge.Status.{JudgeStatus, ac, wa, syserr, judge_status_severity}
use vibe_coding.Judge.Message.{
  Message, no_message, cancelled_by_stop, global_exhausted, all_passed, some_mismatch,
}
use vibe_coding.Judge.Executor.{TerminationReason}

pub record Testcase : Type 0 where
  pub input : Bytes
  pub output : Bytes

-- The compile gate of the options is behind `Host`.
pub record JudgeOptions : Type 0 where
  pub workspace_root : Bytes
  pub cpp_compiler : Bytes
  pub c_compiler : Bytes
  pub compile_time_limit_ms : ℤ
  pub max_time_limit_ms : ℤ
  pub global_time_limit_ms : ℤ
  pub stdout_limit_bytes : ℕ
  pub stderr_limit_bytes : ℕ
  pub compile_output_limit_bytes : ℕ
  pub sandbox_enabled : Bool
  pub compile_memory_limit_kb : ℤ
  pub default_memory_limit_kb : ℤ
  pub extra_compile_flags : List Bytes
  pub sanitizers_enabled : Bool

pub record JudgeTask : Type 0 where
  pub language : Bytes
  pub source_code : Bytes
  pub testcases : List Testcase
  pub time_limit_ms : ℤ
  pub memory_limit_kb : ℤ

pub record TestcaseResult : Type 0 where
  pub index : ℕ
  pub status : JudgeStatus
  pub time_ms : ℕ
  pub memory_kb : ℕ
  pub memory_exceeded : Bool
  pub timed_out : Bool
  pub output_truncated : Bool
  pub global_deadline_hit : Bool
  pub termination : TerminationReason
  pub sanitizer_error : Bool
  pub exit_code : ℕ
  pub term_signal : ℕ
  pub actual_output : Bytes
  pub stderr_output : Bytes
  pub message : Message

pub record JudgeResult : Type 0 where
  pub status : JudgeStatus
  pub compile_ok : Bool
  pub compile_output : Bytes
  pub compile_output_truncated : Bool
  pub compile_time_ms : ℕ
  pub cases : List TestcaseResult
  pub total : ℕ
  pub passed : ℕ
  pub message : Message
  pub global_deadline_hit : Bool
  pub cancelled : Bool

-- A fresh `JudgeResult` with its `total` set.
unfoldable pub initial_result : ℕ → JudgeResult
initial_result total = record {
  status = syserr;
  compile_ok = false;
  compile_output = [];
  compile_output_truncated = false;
  compile_time_ms = 0;
  cases = [];
  total = total;
  passed = 0;
  message = no_message;
  global_deadline_hit = false;
  cancelled = false;
}

-- `result.status = SYSERR; result.message = …;`
abbrev pub with_error : Message → JudgeResult → JudgeResult
with_error m r = record r { status = syserr; message = m }

unfoldable pub mark_cancelled : JudgeResult → JudgeResult
mark_cancelled r = record r { cancelled = true; status = syserr; message = cancelled_by_stop }

unfoldable pub mark_global_exhausted : JudgeOptions → JudgeResult → JudgeResult
mark_global_exhausted opts r = record r {
  global_deadline_hit = true;
  status = syserr;
  message = global_exhausted opts.global_time_limit_ms;
}

-- The loop of `summarize_cases`.
unfoldable pub worst_from : JudgeStatus → ℕ → List TestcaseResult → JudgeStatus
unfolding judge_status_severity
worst_from worst worst_severity [] = worst
worst_from worst worst_severity (result ∷ cases) =
    let severity = judge_status_severity result.status in
    let worse = ltb worst_severity severity in
    worst_from (if worse then result.status else worst) (if worse then severity else worst_severity)
      cases

unfoldable pub summarize_cases : List TestcaseResult → JudgeStatus
unfolding worst_from
summarize_cases [] = syserr
summarize_cases (c ∷ cases) = worst_from ac (judge_status_severity ac) (c ∷ cases)

-- Step 5 of `judge`: the status, and the message where the run was not ended from outside.
pub settle_status : JudgeStatus → JudgeResult → JudgeResult
settle_status ac r = record r { status = ac; message = all_passed }
settle_status wa r = record r { status = wa; message = some_mismatch }
settle_status s r = record r { status = s }

unfoldable pub conclude : JudgeResult → JudgeResult
unfolding settle_status
conclude r =
    if r.global_deadline_hit
    then record r { status = syserr }
    else if r.cancelled
    then record r { status = syserr }
    else settle_status (summarize_cases r.cases) r
