-- ===== src/Judge/Engine/Case.antt =====
-- One round of the loop over the test points in `JudgeEngine::judge` (src/judge/judge.cpp).
use vibe_coding.Prelude.{ℕ, ◌+◌, Bool, true, false, [], ◌∷◌, ◌++◌, ◌==◌, if◌then◌else◌}
use vibe_coding.Prelude.Int.{ℤ, pos, leb_ℤ, ltb_ℤ}
use vibe_coding.Prelude.Text.{Bytes}
use vibe_coding.Judge.Status.{is_ac}
use vibe_coding.Judge.Message.{Message, run_sandbox_error, run_launch_error, with_budget}
use vibe_coding.Judge.Comparator.{outputs_match}
use vibe_coding.Judge.Deadline.{remaining_ms, effective_time_limit_ms}
use vibe_coding.Judge.Classification.{CaseEvidence, CaseVerdict, classify_case}
use vibe_coding.Judge.Executor.{ProcessResult, RunRequest}
use vibe_coding.Judge.Host.{Host}
use vibe_coding.Judge.Engine.Result.{
  Testcase, JudgeOptions, JudgeTask, TestcaseResult, JudgeResult, mark_cancelled,
  mark_global_exhausted,
}

-- `task.memory_limit_kb > 0 ? task.memory_limit_kb : options_.default_memory_limit_kb`
pub effective_memory_limit_kb : JudgeOptions → JudgeTask → ℤ
effective_memory_limit_kb opts task =
    if ltb_ℤ (pos 0) task.memory_limit_kb
    then task.memory_limit_kb
    else opts.default_memory_limit_kb

unfoldable pub case_evidence :
    JudgeOptions → JudgeTask → ℤ → Bool → Testcase → ProcessResult → CaseEvidence
unfolding effective_memory_limit_kb
case_evidence opts task problem_limit_ms global_capped t p = record {
  launch_error = p.launch_error;
  sandbox_error = p.sandbox_error;
  cancelled = p.cancelled;
  timed_out = p.timed_out;
  global_capped = global_capped;
  memory_exceeded = p.memory_exceeded;
  exited = p.exited;
  exit_code = p.exit_code;
  term_signal = p.term_signal;
  output_truncated = p.stdout_truncated;
  sanitizer_error = p.sanitizer_error;
  output_matches = outputs_match t.output p.stdout_data;
  time_limit_ms = problem_limit_ms;
  memory_limit_kb = effective_memory_limit_kb opts task;
  peak_memory_kb = p.memory_kb;
  stdout_limit_bytes = opts.stdout_limit_bytes;
}

-- The message of a case: the verdict's, the executor's where nothing was launched, and the budget
-- behind it where that was hit.
case_message : JudgeOptions → ProcessResult → CaseVerdict → Message
case_message opts p verdict =
    let text =
      if p.launch_error
      then (if p.sandbox_error
          then run_sandbox_error p.launch_error_message
          else run_launch_error p.launch_error_message)
      else verdict.message in
    if verdict.global_deadline_hit then with_budget text opts.global_time_limit_ms else text

unfoldable pub case_result : JudgeOptions → ℕ → ProcessResult → CaseVerdict → TestcaseResult
unfolding case_message
case_result opts i p verdict = record {
  index = i;
  status = verdict.status;
  time_ms = p.time_ms;
  memory_kb = p.memory_kb;
  memory_exceeded = p.memory_exceeded;
  timed_out = p.timed_out;
  output_truncated = p.stdout_truncated;
  global_deadline_hit = verdict.global_deadline_hit;
  termination = p.termination;
  sanitizer_error = p.sanitizer_error;
  exit_code = p.exit_code;
  term_signal = p.term_signal;
  actual_output = if is_ac verdict.status then [] else p.stdout_data;
  stderr_output = p.stderr_data;
  message = case_message opts p verdict;
}

-- The count of passed test points, and `result.cases.push_back`.
unfoldable pub push_case :
    JudgeOptions → ℕ → ProcessResult → CaseVerdict → JudgeResult → JudgeResult
unfolding case_result
push_case opts i p verdict r = record r {
  passed = if is_ac verdict.status then r.passed + 1 else r.passed;
  cases = r.cases ++ case_result opts i p verdict ∷ [];
}

-- What the round does with the process's result; the flag is `break`.
unfoldable pub record_case :
    JudgeOptions → ℕ → ProcessResult → CaseVerdict → JudgeResult → JudgeResult × Bool
record_case opts i p verdict r =
    let r' = push_case opts i p verdict r in
    if verdict.abort_remaining
    then (if p.cancelled
        then (mark_cancelled r', true)
        else if p.launch_error
        then (r', true)
        else (mark_global_exhausted opts r', true))
    else (r', false)

module _ (H : Host) (opts : JudgeOptions) where
  open H use {State}

  unfoldable pub run_case :
      JudgeTask
      → ℤ
      → Bytes
      → Bytes
      → ℤ
      → ℕ
      → Testcase
      → JudgeResult
      → State
      → JudgeResult × Bool × State
  run_case task deadline workspace program problem_limit_ms i t r s =
      let (c, s₁) = H.cancelled s in
      if c
      then (mark_cancelled r, true, s₁)
      else let (time, s₂) = H.now s₁ in
        let remaining = remaining_ms time deadline in
        if remaining == 0
        then (mark_global_exhausted opts r, true, s₂)
        else let limit = effective_time_limit_ms problem_limit_ms (pos remaining) in
          if leb_ℤ limit (pos 0)
          then (mark_global_exhausted opts r, true, s₂)
          else let request : RunRequest = record {
            executable_path = program;
            working_directory = workspace;
            time_limit_ms = limit;
            stdout_limit_bytes = opts.stdout_limit_bytes;
            stderr_limit_bytes = opts.stderr_limit_bytes;
            sandbox = opts.sandbox_enabled;
            memory_limit_kb = effective_memory_limit_kb opts task;
          } in
            let (p, s₃) = H.run request t.input s₂ in
            let evidence =
              case_evidence opts task problem_limit_ms (ltb_ℤ limit problem_limit_ms) t p in
            let (r', broke) = record_case opts i p (classify_case evidence) r in (r', broke, s₃)
