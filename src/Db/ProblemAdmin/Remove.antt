-- ===== src/Db/ProblemAdmin/Remove.antt =====
-- `ProblemAdminStore::remove` of src/db/problem_admin.cpp.
use vibe_coding.Prelude.{ℕ, ◌+◌, not, ◌&&◌, Option, none, some, ◌⊎◌, ◌==◌, ltb, if◌then◌else◌}
use vibe_coding.Db.Tables.{
  Tables, ProblemRecord, SubmissionRecord, StatusRow, InFlightTask, select_all, count_rows,
}
use vibe_coding.Db.Connection.{
  Work, Conn, Body, query, execute, transaction, ◌>>=◌, ◌>>◌, pass, give_up, or_fail,
}
use vibe_coding.Db.InFlight.{count_for_problem}
use vibe_coding.Db.Problems.{find_problem}
use vibe_coding.Db.ProblemAdmin.{
  ProblemRefusal, not_found, has_submissions, admin_error, has_problem_id, is_testcase_of,
  problem_is_there,
}

-- SELECT COUNT(*) FROM submissions WHERE problem_id = ?
unfoldable pub submissions_for : ℕ → Tables → ℕ
submissions_for id t = count_rows (λ (s : SubmissionRecord). s.problem_id == id) t.submissions

unfoldable pub count_submissions : ℕ → Work → Option ℕ × Work
unfolding submissions_for
count_submissions id = query (submissions_for id)

-- `if (count > 0) { … return DeleteStatus::HasSubmissions; }`
unfoldable pub none_left : ℕ → Body ProblemRefusal (Unit {0})
none_left n = if ltb 0 n then give_up has_submissions else pass tt

-- The three statements that delete what refers to a problem.
unfoldable pub without_testcases : ℕ → Tables → Tables
without_testcases id t = record t {
  testcases = select_all (λ tc. not (is_testcase_of id tc)) t.testcases;
}

unfoldable pub without_statuses : ℕ → Tables → Tables
without_statuses id t = record t {
  statuses = select_all (λ (s : StatusRow). not (s.problem_id == id)) t.statuses;
}

unfoldable pub without_tasks : ℕ → Tables → Tables
without_tasks id t = record t {
  in_flight = select_all (λ (task : InFlightTask). not (task.problem_id == id)) t.in_flight;
}

unfoldable pub without_problem : ℕ → Tables → Tables
without_problem id t = record t {
  problems = select_all (λ p. not (has_problem_id id p)) t.problems;
}

-- The rows that refer to a problem, which the foreign keys protect.
unfoldable pub references : ℕ → Tables → ℕ
unfolding submissions_for
references id t =
    count_rows (is_testcase_of id) t.testcases
    + submissions_for id t
    + count_rows (λ (s : StatusRow). s.problem_id == id) t.statuses
    + count_rows (λ (task : InFlightTask). task.problem_id == id) t.in_flight

unfoldable pub delete_problem : ℕ → Work → Option (Unit {0}) × Work
unfolding references problem_is_there without_problem
delete_problem id = execute λ t.
    if problem_is_there id t && ltb 0 (references id t)
    then none
    else some (tt, without_problem id t)

-- The loop over the four statements.
unfoldable pub delete_all : ℕ → Body ProblemRefusal (Unit {0})
unfolding without_testcases without_statuses without_tasks delete_problem
delete_all id = do
  or_fail admin_error (execute λ t. some (tt, without_testcases id t))
  or_fail admin_error (execute λ t. some (tt, without_statuses id t))
  or_fail admin_error (execute λ t. some (tt, without_tasks id t))
  or_fail admin_error (delete_problem id)

unfoldable pub remove_found : ℕ → Option ProblemRecord → Body ProblemRefusal (Unit {0})
unfolding count_submissions none_left delete_all
remove_found id none = give_up not_found
remove_found id (some _) = do
  submission_count ← or_fail admin_error (count_submissions id)
  none_left submission_count
  in_flight_count ← or_fail admin_error (count_for_problem id)
  none_left in_flight_count
  delete_all id

unfoldable pub remove_body : ℕ → Body ProblemRefusal (Unit {0})
unfolding remove_found
remove_body id = or_fail admin_error (find_problem id) >>= remove_found id

-- `remove`
unfoldable pub remove_problem : ℕ → Conn → (ProblemRefusal ⊎ Unit {0}) × Conn
unfolding remove_body
remove_problem id = transaction admin_error (remove_body id)
