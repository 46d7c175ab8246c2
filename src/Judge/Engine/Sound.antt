-- ===== src/Judge/Engine/Sound.antt =====
-- What `JudgeEngine::judge` promises of its result, whatever the executor and the clock do.
use vibe_coding.Prelude.{
  ℕ, ◌≤◌, ◌<◌, ◌≡◌, ◌⊎◌, inl, inr, Bool, true, false, none, some, [], arith, if◌then◌else◌, length,
  Option-cases,
}
use vibe_coding.Prelude.Int.{ℤ, pos, ◌≤ℤ◌}
use vibe_coding.Prelude.Text.{Bytes}
use vibe_coding.Judge.Status.{ac, ce, syserr}
use vibe_coding.Judge.Message.{Message}
use vibe_coding.Judge.Executor.{parse_language, ProcessResult, Language}
use vibe_coding.Judge.Host.{Host, Outcome, ok, failed}
use vibe_coding.Judge.Engine.Result.{
  JudgeOptions, JudgeTask, JudgeResult, initial_result, mark_cancelled, mark_global_exhausted,
  with_error, conclude,
}
use vibe_coding.Judge.Engine.{
  compile_failure, with_compile, judge_compiled, judge_gated, judge_written, judge_created,
  judge_checked, judge,
}
use vibe_coding.Judge.Engine.Progress.{count_ac, Numbered, Running, Ended, run_cases-Ended}
use vibe_coding.Judge.Engine.Summary.{count_ac-summarize_cases, summarize_cases-ne-ce}

-- A result on which nothing was run: what an early return starts from.
pub record IsFresh (total : ℕ) (r : JudgeResult) : Type 0 where
  pub no_cases : r.cases ≡ []
  pub none_passed : r.passed ≡ 0
  pub whole : r.total ≡ total
  pub not_compiled : r.compile_ok ≡ false
  pub on_time : r.global_deadline_hit ≡ false
  pub wanted : r.cancelled ≡ false

-- The bookkeeping of a result, and when it may be AC or CE.
pub record IsSound (total : ℕ) (r : JudgeResult) : Type 0 where
  pub numbers : Numbered 0 r.cases
  pub within : length r.cases ≤ total
  pub passes : r.passed ≡ count_ac r.cases
  pub whole : r.total ≡ total
  pub stopped : (r.global_deadline_hit ≡ true) ⊎ (r.cancelled ≡ true) → r.status ≡ syserr
  pub accepted :
      r.status ≡ ac
      → (length r.cases ≡ total) × (r.passed ≡ total) × (0 < total) × (r.compile_ok ≡ true)
  pub compile_error : r.status ≡ ce → (r.cases ≡ []) × (r.compile_ok ≡ false)

Fresh-IsSound :
    {total : ℕ} (r r' : JudgeResult)
    → IsFresh total r
    → r'.cases ≡ r.cases
    → r'.passed ≡ r.passed
    → r'.total ≡ r.total
    → r'.compile_ok ≡ r.compile_ok
    → (r'.status ≡ syserr)
      ⊎ (r'.status ≡ ce) × (r'.global_deadline_hit ≡ false) × (r'.cancelled ≡ false)
    → IsSound total r'
Fresh-IsSound r r' h a b c d e = ground arith

conclude-IsSound : {total : ℕ} (r : JudgeResult) → Ended total r → IsSound total (conclude r)
unfolding conclude
conclude-IsSound r h =
    ground (arith, count_ac-summarize_cases r.cases, summarize_cases-ne-ce r.cases h.no_ce)

compile_failure-IsSound :
    {total : ℕ} (opts : JudgeOptions) (capped : Bool) (p : ProcessResult) (r r' : JudgeResult)
    → IsFresh total r
    → compile_failure opts capped p r ≡ some r'
    → IsSound total r'
unfolding compile_failure mark_cancelled mark_global_exhausted
compile_failure-IsSound opts capped p r r' h e = ground arith

record GoodResult {ℓ} {S : Type ℓ} (total : ℕ) (rs : JudgeResult × S) : Type 0 where
  sound : IsSound total rs.0

GoodResult-if {ℓ} :
    {S : Type ℓ} {total : ℕ} (b : Bool) {x y : JudgeResult × S}
    → GoodResult total x
    → GoodResult total y
    → GoodResult total (if b then x else y)
GoodResult-if true h k = h
GoodResult-if false h k = k

with_compile-IsFresh :
    {total : ℕ} (p : ProcessResult) (workspace : Bytes) (r : JudgeResult)
    → IsFresh total r
    → IsFresh total (with_compile p workspace r)
unfolding with_compile
with_compile-IsFresh p workspace r h = ground arith

compiled-Running :
    {total : ℕ} (r : JudgeResult)
    → IsFresh total r
    → Running total 0 (record r { compile_ok = true })
compiled-Running r h = ground arith

module _ (H : Host) (opts : JudgeOptions) (task : JudgeTask) where
  open H use {State}

  error-Good :
      {total : ℕ} (m : Message) (r : JudgeResult) (s : State)
      → IsFresh total r
      → GoodResult total (with_error m r, s)
  error-Good m r s h = record { sound = ground arith }

  cancelled-Good :
      {total : ℕ} (r : JudgeResult) (s : State)
      → IsFresh total r
      → GoodResult total (mark_cancelled r, s)
  unfolding mark_cancelled
  cancelled-Good r s h = record { sound = ground arith }

  exhausted-Good :
      {total : ℕ} (r : JudgeResult) (s : State)
      → IsFresh total r
      → GoodResult total (mark_global_exhausted opts r, s)
  unfolding mark_global_exhausted
  exhausted-Good r s h = record { sound = ground arith }

  halted-Good :
      {total : ℕ} (c : Bool) (r : JudgeResult) (s : State)
      → IsFresh total r
      → GoodResult total (if c then mark_cancelled r else mark_global_exhausted opts r, s)
  halted-Good true r s h = cancelled-Good r s h
  halted-Good false r s h = exhausted-Good r s h

  judge_compiled-Good :
      (deadline : ℤ) (workspace : Bytes) (limit : ℤ) (capped : Bool) (p : ProcessResult)
      (r : JudgeResult) (s : State)
      → IsFresh (length task.testcases) r
      → GoodResult
          (length task.testcases)
          (judge_compiled H opts task deadline workspace limit capped p r s)
  unfolding judge_compiled
  judge_compiled-Good deadline workspace limit capped p r s h =
      let fresh = with_compile-IsFresh p workspace r h in
      elim (Option-cases (compile_failure opts capped p (with_compile p workspace r))) [
        | inl e ↦
            rw (e, judge_compiled)
              (GoodResult-if _
                (record {
                  sound = conclude-IsSound _ (
                      run_cases-Ended H opts task deadline workspace limit _ 0 task.testcases _ _
                        (compiled-Running _ fresh) (omega arith));
                })
                (error-Good _ _ _ fresh))
        | inr (r', e) ↦
            rw (e, judge_compiled)
              (record { sound = compile_failure-IsSound opts capped p _ r' fresh e })
      ]

  judge_gated-Good :
      (language : Language) (deadline : ℤ) (workspace : Bytes) (limit : ℤ) (r : JudgeResult)
      (s : State)
      → IsFresh (length task.testcases) r
      → GoodResult
          (length task.testcases)
          (judge_gated H opts task language deadline workspace limit r s)
  unfolding judge_gated
  judge_gated-Good language deadline workspace limit r s h =
      search (GoodResult-if, halted-Good, exhausted-Good, judge_compiled-Good, h)

  closed-Good :
      {total : ℕ} (rs : JudgeResult × State) (s : State)
      → GoodResult total rs
      → GoodResult total (rs.0, s)
  closed-Good rs s g = record { sound = g.sound }

  written-Good :
      (language : Language) (deadline : ℤ) (workspace : Bytes) (limit : ℤ) (written : Outcome)
      (r : JudgeResult) (s : State)
      → IsFresh (length task.testcases) r
      → GoodResult
          (length task.testcases)
          (judge_written H opts task language deadline workspace limit written r s)
  unfolding judge_written
  written-Good language deadline workspace limit (failed e) r s h = error-Good _ r s h
  written-Good language deadline workspace limit (ok _) r s h =
      judge_gated-Good language deadline workspace limit r s h

  created-Good :
      (language : Language) (deadline : ℤ) (limit : ℤ) (created : Outcome) (r : JudgeResult)
      (s : State)
      → IsFresh (length task.testcases) r
      → GoodResult
          (length task.testcases)
          (judge_created H opts task language deadline limit created r s)
  unfolding judge_created
  created-Good language deadline limit (failed e) r s h = error-Good _ r s h
  created-Good language deadline limit (ok workspace) r s h =
      closed-Good _ _ (written-Good language deadline workspace limit _ r _ h)

  judge_checked-Good :
      (language : Language) (r : JudgeResult) (s : State)
      → IsFresh (length task.testcases) r
      → GoodResult (length task.testcases) (judge_checked H opts task language r s)
  unfolding judge_checked
  judge_checked-Good language r s h = search (GoodResult-if, cancelled-Good, created-Good, h)

  initial-IsFresh : IsFresh (length task.testcases) (initial_result (length task.testcases))
  unfolding initial_result
  initial-IsFresh = ground arith

  judge-Good : (s : State) → GoodResult (length task.testcases) (judge H opts task s)
  unfolding judge
  judge-Good s =
      let fresh = initial-IsFresh in
      elim (Option-cases (parse_language task.language)) [
        | inl e ↦ rw (e, judge) (error-Good _ _ s fresh)
        | inr (language, e) ↦
            rw (e, judge) (search (GoodResult-if, error-Good, judge_checked-Good, fresh))
      ]

  -- The result of every judgement, whatever the executor, the clock and the workspace do, is sound:
  -- its cases are numbered from 0 and are no more than the task's test points, `passed` counts the
  -- accepted ones, `total` is the number of test points, a run ended by the global deadline or by
  -- cancellation is SYSERR, the status AC means that there are test points and that all of them
  -- were run and accepted after a successful compilation, and CE that nothing was run.
  pub judge-IsSound : (s : State) → IsSound (length task.testcases) (judge H opts task s).0
  judge-IsSound s = (judge-Good s).sound

  -- Where the result is AC, the task has test points, the program compiled, there is a case for each
  -- test point, and `passed` and `total` are both their number.
  pub judge_accepts :
      (s : State)
      → (judge H opts task s).0.status ≡ ac
      → (0 < length task.testcases)
        × ((judge H opts task s).0.compile_ok ≡ true)
        × (length (judge H opts task s).0.cases ≡ length task.testcases)
        × (count_ac (judge H opts task s).0.cases ≡ length task.testcases)
        × ((judge H opts task s).0.passed ≡ length task.testcases)
        × ((judge H opts task s).0.total ≡ length task.testcases)
  judge_accepts s e =
      let sound = judge-IsSound s in
      let all_passed = sound.accepted e in ground (arith, sound.passes, sound.whole, all_passed)

  -- A task in an unknown language, without test points or with a time limit that is not positive is
  -- answered by SYSERR with no cases, and nothing is asked of the machine.
  pub judge_rejects :
      (s : State)
      → (parse_language task.language ≡ none)
        ⊎ (task.testcases ≡ [])
        ⊎ (task.time_limit_ms ≤ℤ pos 0)
      → ((judge H opts task s).0.status ≡ syserr)
        × ((judge H opts task s).0.cases ≡ [])
        × ((judge H opts task s).1 ≡ s)
  unfolding judge initial_result
  judge_rejects s h = ground arith
