-- ===== src/Judge/Engine/Tests.antt =====
-- `JudgeEngine::judge` on a machine whose program answers with its input.
use vibe_coding.Prelude.{ℕ, suc, ◌<◌, ◌≡◌, refl, true, false, [], ◌∷◌, length, drop_while_end}
use vibe_coding.Prelude.Int.{pos}
use vibe_coding.Prelude.Text.{Bytes, codes, text_eq}
use vibe_coding.Judge.Status.{is_ac, ac, wa}
use vibe_coding.Judge.Message.{no_message, mismatch}
use vibe_coding.Judge.Executor.{ProcessResult, parse_language, completed}
use vibe_coding.Judge.Host.{Host, ok}
use vibe_coding.Judge.Comparator.{outputs_match, is_trailing_whitespace}
use vibe_coding.Judge.Classification.{classify_case}
use vibe_coding.Judge.Deadline.{remaining_ms, effective_time_limit_ms, after_ms}
use vibe_coding.Judge.Engine.Case.{run_case, record_case, push_case, case_evidence}
use vibe_coding.Judge.Engine.{
  judge, judge_checked, judge_created, judge_written, judge_gated, judge_compiled, run_cases,
  compile_failure, with_compile,
}
use vibe_coding.Judge.Engine.Result.{
  JudgeOptions, JudgeTask, TestcaseResult, summarize_cases, conclude, initial_result,
}
use vibe_coding.Judge.Engine.Progress.{count_ac}
use vibe_coding.Judge.Engine.Summary.{IsWorst, summarize_cases-IsWorst}
use vibe_coding.Judge.Engine.Sound.{IsSound, judge-IsSound, judge_accepts}

-- A process that ended by itself and wrote `text`.
abbrev pub wrote : Bytes → ProcessResult
wrote text = record {
  launched = true;
  launch_error = false;
  launch_error_message = [];
  sandbox_error = false;
  termination = completed;
  timed_out = false;
  cancelled = false;
  exited = true;
  exit_code = 0;
  term_signal = 0;
  memory_exceeded = false;
  memory_kb = 0;
  stdout_truncated = false;
  stderr_truncated = false;
  sanitizer_error = false;
  stdout_data = text;
  stderr_data = [];
  time_ms = 1;
}

-- Its state is the clock, which goes on by a nanosecond at each look.
abbrev pub echo_host : Host
echo_host = record {
  State = ℕ;
  now = λ t. (t, suc t);
  cancelled = λ t. (false, t);
  create_workspace = λ root t. (ok (codes "/t/j1"), t);
  close_workspace = λ path t. t;
  write_file = λ name text t. (ok [], t);
  acquire_gate = λ deadline t. (true, t);
  release_gate = λ t. t;
  compile = λ request t. (wrote [], t);
  run = λ request input t. (wrote input, t);
  file_exists = λ path t. (true, t);
}

abbrev pub options : JudgeOptions
options = record {
  workspace_root = [];
  cpp_compiler = codes "g++";
  c_compiler = codes "gcc";
  compile_time_limit_ms = pos 10000;
  max_time_limit_ms = pos 60000;
  global_time_limit_ms = pos 60000;
  stdout_limit_bytes = 65536;
  stderr_limit_bytes = 16384;
  compile_output_limit_bytes = 65536;
  sandbox_enabled = true;
  compile_memory_limit_kb = pos 1048576;
  default_memory_limit_kb = pos 65536;
  extra_compile_flags = [];
  sanitizers_enabled = true;
}

-- Two test points, of which the program passes the first.
abbrev pub echo_task : JudgeTask
echo_task = record {
  language = codes "cpp17";
  source_code = codes "int main";
  testcases =
      record { input = codes "1"; output = codes "1 " }
      ∷ record { input = codes "2"; output = codes "3" }
      ∷ [];
  time_limit_ms = pos 2000;
  memory_limit_kb = pos 65536;
}

abbrev untimed_task : JudgeTask
untimed_task = record echo_task { time_limit_ms = pos 0 }

-- Both test points are passed.
abbrev pub sure_task : JudgeTask
sure_task = record echo_task {
  testcases =
      record { input = codes "1"; output = codes "1 " }
      ∷ record { input = codes "2"; output = codes "2" }
      ∷ [];
}

pub sure_task-ac : (judge echo_host options sure_task 5).0.status ≡ ac
unfolding judge parse_language judge_checked judge_created judge_written judge_gated judge_compiled
    run_cases run_case record_case push_case case_evidence classify_case outputs_match conclude
    summarize_cases initial_result compile_failure with_compile drop_while_end
    is_trailing_whitespace remaining_ms effective_time_limit_ms after_ms text_eq is_ac
sure_task-ac = refl

judge_accepts_example :
    (0 < 2)
    × ((judge echo_host options sure_task 5).0.compile_ok ≡ true)
    × (length (judge echo_host options sure_task 5).0.cases ≡ 2)
    × (count_ac (judge echo_host options sure_task 5).0.cases ≡ 2)
    × ((judge echo_host options sure_task 5).0.passed ≡ 2)
    × ((judge echo_host options sure_task 5).0.total ≡ 2)
judge_accepts_example = judge_accepts echo_host options sure_task 5 sure_task-ac

judge-IsSound_example : IsSound 2 (judge echo_host options echo_task 5).0
judge-IsSound_example = judge-IsSound echo_host options echo_task 5

abbrev passed_case : TestcaseResult
passed_case = record {
  index = 0;
  status = ac;
  time_ms = 1;
  memory_kb = 0;
  memory_exceeded = false;
  timed_out = false;
  output_truncated = false;
  global_deadline_hit = false;
  termination = completed;
  sanitizer_error = false;
  exit_code = 0;
  term_signal = 0;
  actual_output = [];
  stderr_output = [];
  message = no_message;
}

abbrev missed_case : TestcaseResult
missed_case = record passed_case { index = 1; status = wa; message = mismatch }

summarize_cases-IsWorst_example :
    IsWorst (summarize_cases (passed_case ∷ missed_case ∷ [])) (passed_case ∷ missed_case ∷ [])
summarize_cases-IsWorst_example = summarize_cases-IsWorst passed_case (missed_case ∷ [])
