-- ===== src/Judge/Classification/Verdict.antt =====
-- When `classify_case` gives each verdict.
use vibe_coding.Prelude.{◌≡◌, ◌≢◌, ◌↔◌, ◌⊎◌, true, false, arith}
use vibe_coding.Judge.Status.{ac, ce, tle, mle, syserr}
use vibe_coding.Judge.Classification.{CaseEvidence, classify_case}

-- A run that nobody stopped and that ended by itself, with exit code 0 and complete output.
pub record IsClean (e : CaseEvidence) : Type 0 where
  pub launched : e.launch_error ≡ false
  pub not_cancelled : e.cancelled ≡ false
  pub in_memory : e.memory_exceeded ≡ false
  pub in_time : e.timed_out ≡ false
  pub exited : e.exited ≡ true
  pub no_signal : e.term_signal ≡ 0
  pub exit_zero : e.exit_code ≡ 0
  pub complete : e.output_truncated ≡ false

-- A test point is accepted exactly when its run was clean and its output matches.
pub classify_case-ac_iff :
    (e : CaseEvidence) → ((classify_case e).status ≡ ac) ↔ (IsClean e × (e.output_matches ≡ true))
unfolding classify_case
classify_case-ac_iff e = ground arith

-- The judge's own failures and the limits, by priority: SYSERR exactly on a cancelled run or one
-- that could not be started, MLE exactly on memory evidence otherwise, TLE exactly on a timeout
-- otherwise, and CE never.
pub classify_case-blame :
    (e : CaseEvidence)
    → (((classify_case e).status ≡ syserr) ↔ ((e.cancelled ≡ true) ⊎ (e.launch_error ≡ true)))
      × (((classify_case e).status ≡ mle)
          ↔ ((e.cancelled ≡ false) × (e.launch_error ≡ false) × (e.memory_exceeded ≡ true)))
      × (((classify_case e).status ≡ tle) ↔ (
          (e.cancelled ≡ false)
          × (e.launch_error ≡ false)
          × (e.memory_exceeded ≡ false)
          × (e.timed_out ≡ true)))
      × ((classify_case e).status ≢ ce)
unfolding classify_case
classify_case-blame e = ground arith

-- The remaining test points are given up exactly when the run was cancelled, could not be started,
-- or (within its memory) hit a limit that the global budget had cut down; and the verdict counts as
-- a hit of the global deadline only in the last case.
pub classify_case-abort_iff :
    (e : CaseEvidence)
    → (((classify_case e).abort_remaining ≡ true) ↔ (
        (e.cancelled ≡ true)
        ⊎ (e.launch_error ≡ true)
        ⊎ ((classify_case e).global_deadline_hit ≡ true)))
      × (((classify_case e).global_deadline_hit ≡ true) ↔ (
          (e.cancelled ≡ false)
          × (e.launch_error ≡ false)
          × (e.memory_exceeded ≡ false)
          × (e.timed_out ≡ true)
          × (e.global_capped ≡ true)))
unfolding classify_case
classify_case-abort_iff e = ground arith
