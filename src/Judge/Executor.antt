-- ===== src/Judge/Executor.antt =====
-- src/judge/executor.h and executor.cpp: languages, requests and results of the executor. How it
-- starts and watches processes is behind `Host` (Judge/Host.antt).
use vibe_coding.Prelude.{ℕ, Bool, ◌||◌, Option, none, some, List, map, if◌then◌else◌}
use vibe_coding.Prelude.Int.{ℤ}
use vibe_coding.Prelude.Text.{Bytes, codes, text_eq, to_lower}

pub data Language : Type 0 where
  cpp17 c11 : Language

-- `parse_language`; `none` is its `false`.
unfoldable pub parse_language : Bytes → Option Language
unfolding text_eq to_lower
parse_language text =
    let lowered = map to_lower text in
    if text_eq lowered (codes "c++17")
      || text_eq lowered (codes "cpp17")
      || text_eq lowered (codes "c++")
      || text_eq lowered (codes "cpp")
    then some cpp17
    else if text_eq lowered (codes "c11") || text_eq lowered (codes "c")
    then some c11
    else none

unfoldable pub language_name : Language → Bytes
language_name cpp17 = codes "cpp17"
language_name c11 = codes "c11"

pub data TerminationReason : Type 0 where
  launch_failure cancelled memory_exceeded timed_out : TerminationReason
  signaled non_zero_exit completed : TerminationReason

unfoldable pub termination_reason_name : TerminationReason → Bytes
termination_reason_name completed = codes "completed"
termination_reason_name non_zero_exit = codes "non_zero_exit"
termination_reason_name signaled = codes "signaled"
termination_reason_name timed_out = codes "timed_out"
termination_reason_name memory_exceeded = codes "memory_exceeded"
termination_reason_name cancelled = codes "cancelled"
termination_reason_name launch_failure = codes "launch_failure"

-- Exit codes, signals, times and the sampled memory come from the kernel, and are numbers.
pub record ProcessResult : Type 0 where
  pub launched : Bool
  pub launch_error : Bool
  pub launch_error_message : Bytes
  pub sandbox_error : Bool
  pub termination : TerminationReason
  pub timed_out : Bool
  pub cancelled : Bool
  pub exited : Bool
  pub exit_code : ℕ
  pub term_signal : ℕ
  pub memory_exceeded : Bool
  pub memory_kb : ℕ
  pub stdout_truncated : Bool
  pub stderr_truncated : Bool
  pub sanitizer_error : Bool
  pub stdout_data : Bytes
  pub stderr_data : Bytes
  pub time_ms : ℕ

-- The cancellation token of a request is the one that the host polls.
pub record CompileRequest : Type 0 where
  pub language : Language
  pub compiler : Bytes
  pub source_path : Bytes
  pub output_path : Bytes
  pub working_directory : Bytes
  pub extra_flags : List Bytes
  pub sanitizers : Bool
  pub time_limit_ms : ℤ
  pub output_limit_bytes : ℕ
  pub sandbox : Bool
  pub memory_limit_kb : ℤ

pub record RunRequest : Type 0 where
  pub executable_path : Bytes
  pub working_directory : Bytes
  pub time_limit_ms : ℤ
  pub stdout_limit_bytes : ℕ
  pub stderr_limit_bytes : ℕ
  pub sandbox : Bool
  pub memory_limit_kb : ℤ
