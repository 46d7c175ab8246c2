-- ===== src/Submit/Service/Settle.antt =====
-- The transactions of `SubmitService`: the settlement of a judged submission, and the interruption of
-- a task that cannot be judged.
use vibe_coding.Prelude.{
  ℕ, Bool, true, false, Option, none, some, ◌⊎◌, inl, inr, if◌then◌else◌, is_empty,
}
use vibe_coding.Prelude.Text.{Bytes, codes}
use vibe_coding.Judge.Engine.Result.{JudgeResult}
use vibe_coding.Db.Tables.{ProblemRecord, SubmissionRecord}
use vibe_coding.Db.Connection.{Conn, Body, ◌>>=◌, ◌>>◌, pass, give_up, or_fail, transaction}
use vibe_coding.Db.Problems.{find_problem}
use vibe_coding.Db.Submissions.{insert_submission, find_status, state_of, status_row, upsert_status}
use vibe_coding.Db.InFlight.{remove_by_task_id, mark_interrupted}
use vibe_coding.Submit.Status.{compute_status_update}

-- The kinds of an outcome; `done` has the record as it was written.
pub data Outcome : Type 0 where
  done : SubmissionRecord → JudgeResult → Outcome
  problem_not_found already_settled internal_error : Outcome

-- Why a settlement is given up.
pub data Refusal : Type 0 where
  no_problem was_settled failed : Refusal

-- What a settlement commits: a submission under its key, or an interruption.
pub data Settlement : Type 0 where
  settled : ℕ → Settlement
  stopped_short : Settlement

-- A text in characters that stand for its bytes.
abbrev pub problem_gone : Bytes
problem_gone = codes "题目不存在，无法判题"

-- 4b: the task's row goes first.
unfoldable pub was_removed : Bool → Body Refusal (Unit {0})
was_removed true = pass tt
was_removed false = give_up was_settled

unfoldable pub remove_in_flight : Bytes → Body Refusal (Unit {0})
unfolding was_removed
remove_in_flight task_id =
    if is_empty task_id
    then pass tt
    else (or_fail failed (remove_by_task_id task_id) >>= was_removed)

-- The submission and the status of its user and problem.
unfoldable pub write_submission : SubmissionRecord → Bool → Body Refusal Settlement
write_submission row accepted = do
  id ← or_fail failed (insert_submission row)
  current ← or_fail failed (find_status row.user_id row.problem_id)
  or_fail failed (
      upsert_status (
        status_row row.user_id row.problem_id
          (compute_status_update (state_of current) accepted row.created_at)))
  pass (settled id)

-- 4a: the problem may be gone.
unfoldable pub settle_found :
    SubmissionRecord → Bool → Bytes → Option ProblemRecord → Body Refusal Settlement
unfolding remove_in_flight write_submission
settle_found row accepted task_id none =
    if is_empty task_id
    then give_up no_problem
    else (or_fail failed (mark_interrupted task_id problem_gone) >> pass stopped_short)
settle_found row accepted task_id (some _) =
    remove_in_flight task_id >> write_submission row accepted

unfoldable pub settle_body : SubmissionRecord → Bool → Bytes → Body Refusal Settlement
unfolding settle_found
settle_body row accepted task_id =
    or_fail failed (find_problem row.problem_id) >>= settle_found row accepted task_id

unfoldable pub outcome_of : SubmissionRecord → JudgeResult → Refusal ⊎ Settlement → Outcome
outcome_of row result (inl no_problem) = problem_not_found
outcome_of row result (inl was_settled) = already_settled
outcome_of row result (inl failed) = internal_error
outcome_of row result (inr (settled id)) = done (record row { id = id }) result
outcome_of row result (inr stopped_short) = problem_not_found

-- Step 4 of `submit`.
unfoldable pub settle_submission :
    SubmissionRecord → Bool → Bytes → JudgeResult → Conn → Outcome × Conn
unfolding settle_body outcome_of
settle_submission row accepted task_id result c =
    let (r, c') = transaction failed (settle_body row accepted task_id) c in
    (outcome_of row result r, c')

-- `settle_interrupted`, of which `discard_in_flight` is a case; its failures are only logged.
unfoldable pub settle_interrupted : Bytes → Bytes → Conn → Conn
settle_interrupted task_id reason c =
    if is_empty task_id
    then c
    else (transaction failed (or_fail failed (mark_interrupted task_id reason)) c).1
