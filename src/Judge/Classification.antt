-- ===== src/Judge/Classification.antt =====
-- src/judge/classification.h and classification.cpp: the verdict on one test point.
pub mod Verdict
use vibe_coding.Prelude.{ℕ, Bool, true, false, not, ◌&&◌, ◌||◌, ◌==◌, if◌then◌else◌}
use vibe_coding.Prelude.Int.{ℤ}
use vibe_coding.Judge.Status.{JudgeStatus, ac, wa, tle, re, mle, syserr}
use vibe_coding.Judge.Message.{
  Message, no_message, cancelled_by_stop, run_sandbox_unavailable, run_not_started, global_deadline,
  memory_over, time_over, signalled, signalled_by_sanitizer, exit_code, stdout_over, run_not_ended,
  mismatch,
}

-- Exit codes and signals are those that `waitpid` reports, so numbers.
pub record CaseEvidence : Type 0 where
  pub launch_error : Bool
  pub sandbox_error : Bool
  pub cancelled : Bool
  pub timed_out : Bool
  pub global_capped : Bool
  pub memory_exceeded : Bool
  pub exited : Bool
  pub exit_code : ℕ
  pub term_signal : ℕ
  pub output_truncated : Bool
  pub sanitizer_error : Bool
  pub output_matches : Bool
  pub time_limit_ms : ℤ
  pub memory_limit_kb : ℤ
  pub peak_memory_kb : ℕ
  pub stdout_limit_bytes : ℕ

pub record CaseVerdict : Type 0 where
  pub status : JudgeStatus
  pub message : Message
  pub global_deadline_hit : Bool
  pub abort_remaining : Bool

-- A verdict with neither flag set.
plain : JudgeStatus → Message → CaseVerdict
plain s m = record { status = s; message = m; global_deadline_hit = false; abort_remaining = false }

-- Rule 6 of `classify_case`: the message on a crash or an abnormal exit.
runtime_error_message : CaseEvidence → Message
runtime_error_message e =
    if not (e.term_signal == 0)
    then (if e.sanitizer_error
        then signalled_by_sanitizer e.term_signal
        else signalled e.term_signal)
    else if e.exited
    then exit_code e.exit_code
    else run_not_ended

unfoldable pub classify_case : CaseEvidence → CaseVerdict
unfolding plain runtime_error_message
classify_case e =
    if e.cancelled
    then record {
      status = syserr;
      message = cancelled_by_stop;
      global_deadline_hit = false;
      abort_remaining = true;
    }
    else if e.launch_error
    then record {
      status = syserr;
      message = if e.sandbox_error then run_sandbox_unavailable else run_not_started;
      global_deadline_hit = false;
      abort_remaining = true;
    }
    else if e.memory_exceeded
    then plain mle (memory_over e.memory_limit_kb e.peak_memory_kb)
    else if e.timed_out && e.global_capped
    then record {
      status = tle;
      message = global_deadline;
      global_deadline_hit = true;
      abort_remaining = true;
    }
    else if e.timed_out
    then plain tle (time_over e.time_limit_ms)
    else if not (e.term_signal == 0) || (e.exited && not (e.exit_code == 0)) || not e.exited
    then plain re (runtime_error_message e)
    else if e.output_truncated
    then plain re (stdout_over e.stdout_limit_bytes)
    else if e.output_matches
    then plain ac no_message
    else plain wa mismatch
