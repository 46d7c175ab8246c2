-- ===== src/Judge/Engine.antt =====
-- src/judge/judge.h and judge.cpp. The data and the summary are in `Engine.Result`, one test point
-- in `Engine.Case`, and this file has `JudgeEngine::judge`.
pub mod Result
pub mod Case
pub mod Progress
pub mod Summary
pub mod Sound
pub mod Tests
use vibe_coding.Prelude.{
  ℕ, suc, ◌+◌, ◌≡◌, refl, Bool, true, false, not, ◌&&◌, Option, none, some, List, [], ◌∷◌, ◌++◌,
  ◌==◌, if◌then◌else◌, length, is_empty,
}
use vibe_coding.Prelude.Int.{ℤ, pos, leb_ℤ, ltb_ℤ}
use vibe_coding.Prelude.Text.{Bytes, codes}
use vibe_coding.Judge.Status.{JudgeStatus, ac, wa, ce, syserr}
use vibe_coding.Judge.Message.{
  Message, unsupported_language, workspace_failed, write_failed, no_testcases, bad_time_limit,
  compile_sandbox_unavailable, compile_not_started, compile_timed_out, compiler_not_ended,
  compiler_signalled, compile_error, no_executable,
}
use vibe_coding.Judge.Deadline.{after_ms, remaining_ms}
use vibe_coding.Judge.Diagnostics.{scrub_compile_diagnostics}
use vibe_coding.Judge.Executor.{Language, cpp17, c11, parse_language, ProcessResult, CompileRequest}
use vibe_coding.Judge.Host.{Host, Outcome, ok, failed}
use Result.{
  Testcase, JudgeOptions, JudgeTask, JudgeResult, initial_result, with_error, mark_cancelled,
  mark_global_exhausted, conclude,
}
use Case.{run_case}

ends_in_slash : Bytes → Bool
ends_in_slash [] = false
ends_in_slash (c ∷ rest) = if is_empty rest then c == b'/' else ends_in_slash rest

-- `std::filesystem::path(base) / name`
pub path_join : Bytes → Bytes → Bytes
unfolding ends_in_slash
path_join base name =
    if is_empty base then name else (if ends_in_slash base then base else base ++ codes "/") ++ name

source_name : Language → Bytes
source_name cpp17 = codes "main.cpp"
source_name c11 = codes "main.c"

compiler_for : JudgeOptions → Language → Bytes
compiler_for opts cpp17 = opts.cpp_compiler
compiler_for opts c11 = opts.c_compiler

-- The diagnostics of both streams, with the service's own paths removed.
compile_output_of : ProcessResult → Bytes → Bytes
compile_output_of p workspace =
    scrub_compile_diagnostics
      (if is_empty p.stderr_data
        then p.stdout_data
        else if is_empty p.stdout_data
        then p.stderr_data
        else p.stdout_data ++ b'\n' ∷ p.stderr_data)
      workspace

with_compile : ProcessResult → Bytes → JudgeResult → JudgeResult
with_compile p workspace r = record r {
  compile_time_ms = p.time_ms;
  compile_output_truncated = p.stdout_truncated;
  compile_output = compile_output_of p workspace;
}

-- The early returns after the compiler ran; `none` where the code goes on.
compile_failure : JudgeOptions → Bool → ProcessResult → JudgeResult → Option JudgeResult
compile_failure opts global_capped p r =
    if p.cancelled
    then some (mark_cancelled r)
    else if p.launch_error
    then some (
        with_error
          (if p.sandbox_error
            then compile_sandbox_unavailable p.launch_error_message
            else compile_not_started p.launch_error_message)
          r)
    else if p.timed_out
    then some (
        if global_capped
        then mark_global_exhausted opts r
        else record r { status = ce; message = compile_timed_out opts.compile_time_limit_ms })
    else if not p.exited
    then some (with_error compiler_not_ended r)
    else if not (p.term_signal == 0)
    then some (with_error (compiler_signalled p.term_signal) r)
    else if not (p.exit_code == 0)
    then some (record r { status = ce; message = compile_error })
    else none

module _ (H : Host) (opts : JudgeOptions) where
  open H use {State}

  -- Step 4: the loop over the test points.
  pub run_cases :
      JudgeTask → ℤ → Bytes → ℤ → ℕ → List Testcase → JudgeResult → State → JudgeResult × State
  run_cases task deadline workspace limit i [] r s = (r, s)
  run_cases task deadline workspace limit i (t ∷ ts) r s =
      let (r', broke, s') =
        run_case H opts task deadline workspace (path_join workspace (codes "program")) limit i t r
          s in
      let rest = run_cases task deadline workspace limit (suc i) ts r' s' in
      if broke then (r', s') else rest

  -- From the compiler's result on.
  pub judge_compiled :
      JudgeTask → ℤ → Bytes → ℤ → Bool → ProcessResult → JudgeResult → State → JudgeResult × State
  judge_compiled task deadline workspace limit capped p r s =
      elim (compile_failure opts capped p (with_compile p workspace r)) [
        | some r' ↦ (r', s)
        | none ↦
            let (found, s') = H.file_exists (path_join workspace (codes "program")) s in
            if found
            then (let (r', s'') =
                  run_cases task deadline workspace limit 0 task.testcases
                    (record (with_compile p workspace r) { compile_ok = true }) s' in
                (conclude r', s''))
            else (with_error no_executable (with_compile p workspace r), s')
      ]

  -- Step 3, from the compile gate on.
  pub judge_gated : JudgeTask → Language → ℤ → Bytes → ℤ → JudgeResult → State → JudgeResult × State
  judge_gated task language deadline workspace limit r s =
      let (got, s₁) = H.acquire_gate deadline s in
      if not got
      then (let (c, s₂) = H.cancelled s₁ in
          (if c then mark_cancelled r else mark_global_exhausted opts r, s₂))
      else let (t, s₂) = H.now s₁ in
        let remaining = remaining_ms t deadline in
        if remaining == 0
        then (mark_global_exhausted opts r, H.release_gate s₂)
        else let capped = ltb_ℤ (pos remaining) opts.compile_time_limit_ms in
          let request : CompileRequest = record {
            language = language;
            compiler = compiler_for opts language;
            source_path = path_join workspace (source_name language);
            output_path = path_join workspace (codes "program");
            working_directory = workspace;
            extra_flags = opts.extra_compile_flags;
            sanitizers = opts.sanitizers_enabled;
            time_limit_ms = if capped then pos remaining else opts.compile_time_limit_ms;
            output_limit_bytes = opts.compile_output_limit_bytes;
            sandbox = opts.sandbox_enabled;
            memory_limit_kb = opts.compile_memory_limit_kb;
          } in
          let (p, s₃) = H.compile request s₂ in
          judge_compiled task deadline workspace limit capped p r (H.release_gate s₃)

  -- Behind `workspace->write_file`.
  pub judge_written :
      JudgeTask → Language → ℤ → Bytes → ℤ → Outcome → JudgeResult → State → JudgeResult × State
  judge_written task language deadline workspace limit (failed e) r s =
      (with_error (write_failed e) r, s)
  judge_written task language deadline workspace limit (ok _) r s =
      judge_gated task language deadline workspace limit r s

  -- Behind `Workspace::create`; the workspace is removed on every way out.
  pub judge_created :
      JudgeTask → Language → ℤ → ℤ → Outcome → JudgeResult → State → JudgeResult × State
  judge_created task language deadline limit (failed e) r s = (with_error (workspace_failed e) r, s)
  judge_created task language deadline limit (ok workspace) r s =
      let (written, s₁) = H.write_file (source_name language) task.source_code s in
      let (r', s₂) = judge_written task language deadline workspace limit written r s₁ in
      (r', H.close_workspace workspace s₂)

  -- Step 2, for a task that passed the checks.
  pub judge_checked : JudgeTask → Language → JudgeResult → State → JudgeResult × State
  judge_checked task language r s =
      let limit =
        if ltb_ℤ opts.max_time_limit_ms task.time_limit_ms
        then opts.max_time_limit_ms
        else task.time_limit_ms in
      let (t, s₁) = H.now s in
      let deadline = after_ms t opts.global_time_limit_ms in
      let (c, s₂) = H.cancelled s₁ in
      if c
      then (mark_cancelled r, s₂)
      else let (created, s₃) = H.create_workspace opts.workspace_root s₂ in
        judge_created task language deadline limit created r s₃

  -- `JudgeEngine::judge`
  pub judge : JudgeTask → State → JudgeResult × State
  judge task s =
      let r = initial_result (length task.testcases) in
      elim (parse_language task.language) [
        | none ↦ (with_error (unsupported_language task.language) r, s)
        | some language ↦
            if is_empty task.testcases
            then (with_error no_testcases r, s)
            else if leb_ℤ task.time_limit_ms (pos 0)
            then (with_error (bad_time_limit task.time_limit_ms) r, s)
            else judge_checked task language r s
      ]
