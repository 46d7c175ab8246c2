-- ===== src/Submit/Service/Done.antt =====
-- A settlement of which no call fails comes to its end.
use vibe_coding.Prelude.{
  ℕ, ◌≡◌, ◌⊎◌, inl, inr, refl, Bool, true, false, none, some, arith, is_empty, ap, ◌∙◌, Bool-cases,
  Option, if-cases, ◌==◌,
}
use vibe_coding.Prelude.Text.{Bytes}
use vibe_coding.Judge.Engine.Result.{JudgeResult}
use vibe_coding.Db.Tables.{Tables, ProblemRecord, SubmissionRecord, StatusRow}
use vibe_coding.Db.Connection.{◌>>◌, or_fail}
use vibe_coding.Db.Connection.Bodies.{Gives}
use vibe_coding.Db.Connection.Quiet.{
  quiet, quiet_conn, then-Gives, pass-runs, query-runs, execute-runs, transaction-runs,
}
use vibe_coding.Db.Problems.{find_problem, problem_of, read_problem, read_problem-gone}
use vibe_coding.Db.Submissions.{
  has_parents, insert_submission, add_submission, added_submission, find_status, upsert_status,
  status_row, status_of, upserted,
}
use vibe_coding.Db.InFlight.{has_task, remove_by_task_id, removed_task}
use vibe_coding.Db.Rows.{select-found}
use vibe_coding.Submit.Service.Statements.{settled_tables, without_task, next-without}
use vibe_coding.Submit.Service.Settle.{
  done, failed, settled, remove_in_flight, was_removed, write_submission, settle_found, settle_body,
  settle_submission, outcome_of,
}

insert-runs :
    (row : SubmissionRecord) (t : Tables)
    → has_parents row.user_id row.problem_id t ≡ true
    → Gives
        (or_fail failed (insert_submission row))
        (quiet t)
        t.next_submission
        (quiet (added_submission row t))
unfolding insert_submission add_submission
insert-runs row t h =
    execute-runs failed (add_submission row) t t.next_submission (added_submission row t)
      (rw h refl)

upsert-runs :
    (new : StatusRow) (t : Tables)
    → has_parents new.user_id new.problem_id t ≡ true
    → Gives (or_fail failed (upsert_status new)) (quiet t) tt (quiet (upserted new t))
unfolding upsert_status
upsert-runs new t h = execute-runs failed _ t tt (upserted new t) (rw h refl)

write-runs :
    (row : SubmissionRecord) (accepted : Bool) (t : Tables)
    → has_parents row.user_id row.problem_id t ≡ true
    → Gives
        (write_submission row accepted)
        (quiet t)
        (settled t.next_submission)
        (quiet (settled_tables row accepted t))
unfolding write_submission ◌>>◌ find_status has_parents added_submission status_row status_of
write-runs row accepted t h =
    then-Gives _ _ (quiet t) t.next_submission (quiet (added_submission row t)) _ _
      (insert-runs row t h)
      (then-Gives _ _ (quiet (added_submission row t)) _ _ _ _
        (query-runs failed (status_of row.user_id row.problem_id) (added_submission row t))
        (then-Gives _ _ _ tt _ _ _ (upsert-runs _ (added_submission row t) h) (pass-runs _ _)))

without-parents :
    (task_id : Bytes) (user_id problem_id : ℕ) (t : Tables)
    → has_parents user_id problem_id (without_task task_id t) ≡ has_parents user_id problem_id t
unfolding removed_task has_parents
without-parents task_id user_id problem_id t =
    if-cases (λ (u : Tables). has_parents user_id problem_id u ≡ has_parents user_id problem_id t)
      (is_empty task_id) _ _ (λ _. refl) (λ _. refl)

remove-runs :
    (task_id : Bytes) (t : Tables)
    → (is_empty task_id ≡ true) ⊎ (has_task task_id t ≡ true)
    → Gives (remove_in_flight task_id) (quiet t) tt (quiet (without_task task_id t))
unfolding remove_in_flight remove_by_task_id
remove-runs task_id t there = elim (Bool-cases (is_empty task_id)) [
  | inl e ↦ rw e (pass-runs tt (quiet t))
  | inr e ↦ rw e (
      then-Gives _ was_removed (quiet t) true (quiet (removed_task task_id t)) tt _
        (execute-runs failed _ t true (removed_task task_id t) (rw (present e there) refl))
        (pass-runs tt (quiet (removed_task task_id t))))
]
  where
    present :
        is_empty task_id ≡ false
        → (is_empty task_id ≡ true) ⊎ (has_task task_id t ≡ true)
        → has_task task_id t ≡ true
    present e (inl d) = cc
    present e (inr d) = d

found-runs :
    (row : SubmissionRecord) (accepted : Bool) (task_id : Bytes) (found : Option ProblemRecord)
    (t : Tables)
    → ¬ (found ≡ none)
    → has_parents row.user_id row.problem_id t ≡ true
    → (is_empty task_id ≡ true) ⊎ (has_task task_id t ≡ true)
    → Gives
        (settle_found row accepted task_id found)
        (quiet t)
        (settled (without_task task_id t).next_submission)
        (quiet (settled_tables row accepted (without_task task_id t)))
unfolding settle_found ◌>>◌
found-runs row accepted task_id none t h parents there = absurd (h refl)
found-runs row accepted task_id (some problem) t h parents there =
    then-Gives _ _ (quiet t) tt (quiet (without_task task_id t)) _ _ (remove-runs task_id t there) (
      write-runs row accepted (without_task task_id t)
        (without-parents task_id row.user_id row.problem_id t ∙ parents))

problem-found :
    (user_id problem_id : ℕ) (t : Tables)
    → has_parents user_id problem_id t ≡ true
    → ¬ (read_problem problem_id t ≡ none)
unfolding has_parents problem_of
problem-found user_id problem_id t h gone =
    let found =
      select-found (λ (p : ProblemRecord). p.id == problem_id) t.problems (ground (arith, h)) in
    cc (read_problem-gone problem_id t gone, found.1)

-- Where no call of the database fails, the user and the problem are there, and so is the task if the
-- submission has one, the settlement is done: the answer is the record under the next key, and the
-- judgement.
pub settle_submission-done :
    (row : SubmissionRecord) (accepted : Bool) (task_id : Bytes) (result : JudgeResult) (t : Tables)
    → has_parents row.user_id row.problem_id t ≡ true
    → (is_empty task_id ≡ true) ⊎ (has_task task_id t ≡ true)
    → (settle_submission row accepted task_id result (quiet_conn t)).0
      ≡ done (record row { id = t.next_submission }) result
unfolding settle_submission settle_body find_problem outcome_of
settle_submission-done row accepted task_id result t parents there =
    ap (λ r. outcome_of row result r.0)
      (transaction-runs failed _ t _ _ (
        then-Gives _ (settle_found row accepted task_id) (quiet t) (read_problem row.problem_id t)
          (quiet t) _ _ (query-runs failed (read_problem row.problem_id) t)
          (found-runs row accepted task_id (read_problem row.problem_id t) t
            (problem-found row.user_id row.problem_id t parents) parents there)))
    ∙ ap (λ n. done (record row { id = n }) result) (next-without task_id t)
