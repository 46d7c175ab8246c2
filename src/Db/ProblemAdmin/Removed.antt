-- ===== src/Db/ProblemAdmin/Removed.antt =====
-- What the removal of a problem promises, against what its transaction does.
use vibe_coding.Prelude.{
  ℕ, Bool, ◌≡◌, ◌∙◌, refl, sym, ap, subst, false, ◌==◌, Option, none, some, ◌⊎◌, inl, inr, arith,
}
use vibe_coding.Db.Tables.{Tables, ProblemRecord, StatusRow, InFlightTask, order_by, select_all}
use vibe_coding.Db.Rows.{count_rows-removed}
use vibe_coding.Db.Connection.{Work, Conn, durable, or_fail, pass, give_up, ◌>>◌}
use vibe_coding.Db.Connection.Atomic.{Atomic, transaction-Atomic}
use vibe_coding.Db.Connection.Bodies.{
  Gives, >>=-Chained, give_up-Gives, query-Gives, execute-Gives, write-Gives, Committed-Gives,
}
use vibe_coding.Db.Submissions.{status_of, is_of}
use vibe_coding.Db.InFlight.{unsettled_for, count_for_problem}
use vibe_coding.Db.Problems.{
  read_problem, read_problem-found, problem_of, find_problem, testcases_of, testcase_before,
}
use vibe_coding.Db.ProblemAdmin.{
  ProblemRefusal, not_found, admin_error, has_problem_id, is_testcase_of,
}
use vibe_coding.Db.ProblemAdmin.Remove.{
  submissions_for, count_submissions, none_left, without_testcases, without_statuses, without_tasks,
  without_problem, references, delete_problem, delete_all, remove_found, remove_body,
  remove_problem,
}
use vibe_coding.Db.ProblemAdmin.Rows.{select_one-removed, select_one-kept, select_all-kept}

abbrev deleted : ℕ → Tables → Tables
deleted id t = without_problem id (without_tasks id (without_statuses id (without_testcases id t)))

abbrev pub is_task_for : ℕ → InFlightTask → Bool
is_task_for problem_id task = task.problem_id == problem_id

-- A removal as its callers see it: of a problem that was there, for which nothing was submitted and
-- nothing is under way; it is gone, nothing refers to it any more, and every other problem, its test
-- points, its statuses and its tasks, the submissions and the users are as they were.
pub record IsRemoved (id : ℕ) (before after : Tables) : Type 0 where
  pub was_there : ¬ (problem_of id before ≡ none)
  pub no_submission : submissions_for id before ≡ 0
  pub no_task : unsettled_for id before ≡ 0
  pub gone : problem_of id after ≡ none
  pub unreferenced : references id after ≡ 0
  pub other_problems :
      (other : ℕ) → (other == id) ≡ false → problem_of other after ≡ problem_of other before
  pub other_testcases :
      (other : ℕ) → (other == id) ≡ false → testcases_of other after ≡ testcases_of other before
  pub other_statuses :
      (user_id other : ℕ)
      → (other == id) ≡ false
      → status_of user_id other after ≡ status_of user_id other before
  pub other_tasks :
      (other : ℕ)
      → (other == id) ≡ false
      → select_all (is_task_for other) after.in_flight
        ≡ select_all (is_task_for other) before.in_flight
  pub submissions : after.submissions ≡ before.submissions
  pub users : after.users ≡ before.users

deleted-gone : (id : ℕ) (t : Tables) → problem_of id (deleted id t) ≡ none
unfolding problem_of without_problem without_tasks without_statuses without_testcases
deleted-gone id t = select_one-removed (has_problem_id id) t.problems

deleted-unreferenced :
    (id : ℕ) (t : Tables) → submissions_for id t ≡ 0 → references id (deleted id t) ≡ 0
unfolding references submissions_for without_problem without_tasks without_statuses
    without_testcases
deleted-unreferenced id t h = omega (
  arith,
  h,
  count_rows-removed (is_testcase_of id) t.testcases,
  count_rows-removed (λ (s : StatusRow). s.problem_id == id) t.statuses,
  count_rows-removed (λ (task : InFlightTask). task.problem_id == id) t.in_flight,
)

deleted-problems :
    (id other : ℕ) (t : Tables)
    → (other == id) ≡ false
    → problem_of other (deleted id t) ≡ problem_of other t
unfolding problem_of without_problem without_tasks without_statuses without_testcases
deleted-problems id other t h =
    select_one-kept (has_problem_id id) (has_problem_id other) (λ p e. ground (arith, e, h))
      t.problems

deleted-testcases :
    (id other : ℕ) (t : Tables)
    → (other == id) ≡ false
    → testcases_of other (deleted id t) ≡ testcases_of other t
unfolding testcases_of without_problem without_tasks without_statuses without_testcases
deleted-testcases id other t h = ap (order_by testcase_before) (
    select_all-kept (is_testcase_of id) (is_testcase_of other) (λ tc e. ground (arith, e, h))
      t.testcases)

deleted-statuses :
    (id user_id other : ℕ) (t : Tables)
    → (other == id) ≡ false
    → status_of user_id other (deleted id t) ≡ status_of user_id other t
unfolding status_of without_problem without_tasks without_statuses without_testcases
deleted-statuses id user_id other t h =
    select_one-kept (λ (s : StatusRow). s.problem_id == id) (is_of user_id other)
      (λ s e. ground (arith, e, h)) t.statuses

deleted-tasks :
    (id other : ℕ) (t : Tables)
    → (other == id) ≡ false
    → select_all (is_task_for other) (deleted id t).in_flight
      ≡ select_all (is_task_for other) t.in_flight
unfolding without_problem without_tasks without_statuses without_testcases
deleted-tasks id other t h =
    select_all-kept (is_task_for id) (is_task_for other) (λ task e. ground (arith, e, h))
      t.in_flight

deleted-IsRemoved :
    (id : ℕ) (before after : Tables)
    → ¬ (problem_of id before ≡ none)
    → submissions_for id before ≡ 0
    → unsettled_for id before ≡ 0
    → after ≡ deleted id before
    → IsRemoved id before after
unfolding without_problem without_tasks without_statuses without_testcases
deleted-IsRemoved id before after there submitted waiting h =
    subst (IsRemoved id before) (sym h) (record {
      was_there = there;
      no_submission = submitted;
      no_task = waiting;
      gone = deleted-gone id before;
      unreferenced = deleted-unreferenced id before submitted;
      other_problems = λ other k. deleted-problems id other before k;
      other_testcases = λ other k. deleted-testcases id other before k;
      other_statuses = λ user_id other k. deleted-statuses id user_id other before k;
      other_tasks = λ other k. deleted-tasks id other before k;
      submissions = kept.0;
      users = kept.1;
    })
  where
    kept :
        ((deleted id before).submissions ≡ before.submissions)
        × ((deleted id before).users ≡ before.users)
    kept = (refl, refl)

none-Gives :
    (n : ℕ) (w : Work) (u : Unit {0}) (w' : Work) → Gives (none_left n) w u w' → (n ≡ 0) × (w' ≡ w)
unfolding none_left pass give_up
none-Gives n w u w' h = ground (arith, h.run)

gone-Gives :
    (id : ℕ) (w : Work) (u : Unit {0}) (w' : Work)
    → Gives (or_fail admin_error (delete_problem id)) w u w'
    → w'.tables ≡ without_problem id w.tables
unfolding delete_problem
gone-Gives id w u w' h = ground (arith, execute-Gives admin_error _ w u w' h)

delete-Gives :
    (id : ℕ) (w : Work) (u : Unit {0}) (w' : Work)
    → Gives (delete_all id) w u w'
    → w'.tables ≡ deleted id w.tables
unfolding delete_all ◌>>◌
delete-Gives id w u w' h =
    let c₁ = >>=-Chained _ _ w u w' h in
    let c₂ = >>=-Chained _ _ c₁.work u w' c₁.behind in
    let c₃ = >>=-Chained _ _ c₂.work u w' c₂.behind in
    gone-Gives id c₃.work u w' c₃.behind
    ∙ ap (without_problem id) (
        write-Gives admin_error (without_tasks id) c₂.work c₃.value c₃.work c₃.before
        ∙ ap (without_tasks id) (
            write-Gives admin_error (without_statuses id) c₁.work c₂.value c₂.work c₂.before
            ∙ ap (without_statuses id)
                (write-Gives admin_error (without_testcases id) w c₁.value c₁.work c₁.before)))

found-Gives :
    (id : ℕ) (found : Option ProblemRecord) (w : Work) (u : Unit {0}) (w' : Work)
    → read_problem id w.tables ≡ found
    → Gives (remove_found id found) w u w'
    → IsRemoved id w.tables w'.tables
unfolding remove_found count_submissions count_for_problem ◌>>◌
found-Gives id none w u w' e h = absurd (give_up-Gives not_found u w w' h)
found-Gives id (some p) w u w' e h =
    let c₁ = >>=-Chained _ _ w u w' h in
    let submitted = query-Gives admin_error (submissions_for id) w c₁.value c₁.work c₁.before in
    let c₂ = >>=-Chained _ _ c₁.work u w' c₁.behind in
    let none_submitted = none-Gives c₁.value c₁.work c₂.value c₂.work c₂.before in
    let c₃ = >>=-Chained _ _ c₂.work u w' c₂.behind in
    let waiting = query-Gives admin_error (unsettled_for id) c₂.work c₃.value c₃.work c₃.before in
    let c₄ = >>=-Chained _ _ c₃.work u w' c₃.behind in
    let none_waiting = none-Gives c₃.value c₃.work c₄.value c₄.work c₄.before in
    let same₂ = ap (λ v. v.tables) none_submitted.1 ∙ submitted.1 in
    let same₄ = ap (λ v. v.tables) none_waiting.1 ∙ waiting.1 ∙ same₂ in
    deleted-IsRemoved id w.tables w'.tables (read_problem-found id w.tables p e)
      (sym submitted.0 ∙ none_submitted.0)
      (ap (unsettled_for id) (sym same₂) ∙ sym waiting.0 ∙ none_waiting.0)
      (delete-Gives id c₄.work u w' c₄.behind ∙ ap (deleted id) same₄)

body-Gives :
    (id : ℕ) (w : Work) (u : Unit {0}) (w' : Work)
    → Gives (remove_body id) w u w'
    → IsRemoved id w.tables w'.tables
unfolding remove_body find_problem
body-Gives id w u w' h =
    let c = >>=-Chained _ (remove_found id) w u w' h in
    let found = query-Gives admin_error (read_problem id) w c.value c.work c.before in
    subst (λ t. IsRemoved id t w'.tables) found.1
      (found-Gives id c.value c.work u w' (ap (read_problem id) found.1 ∙ sym found.0) c.behind)

-- What an answer says of the database.
abbrev pub Removes : ℕ → Tables → Tables → ProblemRefusal ⊎ Unit {0} → Type 0
Removes id before after (inl _) = after ≡ before
Removes id before after (inr _) = IsRemoved id before after

removes :
    (id : ℕ) (before after : Tables) (r : ProblemRefusal ⊎ Unit {0})
    → Atomic (remove_body id) before after r
    → Removes id before after r
removes id before after (inl _) h = h
removes id before after (inr u) h =
    subst (IsRemoved id before) (sym h.kept)
      (body-Gives id _ u _ (Committed-Gives (remove_body id) before after u h))

-- Whichever calls of the database fail: a problem is removed only where it was there and had neither
-- submissions nor tasks that are not settled; then it is gone, nothing refers to it, and the other
-- problems, their test points, their statuses and their tasks, all submissions and all users are as
-- they were. A removal that is refused changes nothing durable.
pub remove_problem-Removes :
    (id : ℕ) (c : Conn)
    → Removes id (durable c) (durable (remove_problem id c).1) (remove_problem id c).0
unfolding remove_problem
remove_problem-Removes id c =
    removes id (durable c) _ _ (transaction-Atomic admin_error (remove_body id) c)
