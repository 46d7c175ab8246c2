-- ===== src/Submit/Service/Interrupted.antt =====
-- What the mark of a task whose problem is gone changes.
use vibe_coding.Prelude.{
  ◌≡◌, refl, ◌∙◌, sym, ap, Bool, true, false, not, ◌&&◌, some, List, arith, length, Bool-cases, inl,
  inr, [], ◌∷◌,
}
use vibe_coding.Prelude.Text.{Bytes, text_eq, text_eq_iff}
use vibe_coding.Db.Tables.{Tables, InFlightTask, interrupted, select_one, update_where}
use vibe_coding.Db.Rows.{length-update}
use vibe_coding.Db.ProblemAdmin.Rows.{select_one-update}
use vibe_coding.Db.InFlight.{has_task_id, is_interrupted, marked_interrupted}

-- The first task of the identifier, if any, is interrupted behind it; the tasks of every other
-- identifier and all other tables are as they were.
pub record IsInterrupted (task_id : Bytes) (before after : Tables) : Type 0 where
  pub interrupts :
      (task : InFlightTask)
      → select_one (has_task_id task_id) before.in_flight ≡ some task
      → (marked : InFlightTask) × (select_one (has_task_id task_id) after.in_flight ≡ some marked)
        × (marked.state ≡ interrupted)
        × (marked.source_code ≡ task.source_code)
        × (marked.id ≡ task.id)
  pub other_tasks :
      (other : Bytes)
      → text_eq other task_id ≡ false
      → select_one (has_task_id other) after.in_flight
        ≡ select_one (has_task_id other) before.in_flight
  pub as_many : length after.in_flight ≡ length before.in_flight
  pub submissions : after.submissions ≡ before.submissions
  pub statuses : after.statuses ≡ before.statuses
  pub users : after.users ≡ before.users
  pub problems : after.problems ≡ before.problems
  pub testcases : after.testcases ≡ before.testcases

abbrev mark : Bytes → InFlightTask → InFlightTask
mark reason task = record task { state = interrupted; reason = reason }

abbrev is_open : Bytes → InFlightTask → Bool
is_open task_id task = has_task_id task_id task && not (is_interrupted task.state)

is_interrupted_lem :
    (task : InFlightTask) → is_interrupted task.state ≡ true → task.state ≡ interrupted
unfolding is_interrupted
is_interrupted_lem task h = ground (arith, h)

marked-interrupts :
    (task_id reason : Bytes) (tasks : List InFlightTask) (task : InFlightTask)
    → select_one (has_task_id task_id) tasks ≡ some task
    → (marked : InFlightTask) × (select_one
          (has_task_id task_id)
          (update_where (is_open task_id) (mark reason) tasks)
        ≡ some marked)
      × (marked.state ≡ interrupted)
      × (marked.source_code ≡ task.source_code)
      × (marked.id ≡ task.id)
unfolding select_one update_where
marked-interrupts task_id reason [] task h = absurd (ground (arith, h))
marked-interrupts task_id reason (row ∷ tasks) task h =
    elim (Bool-cases (has_task_id task_id row)) [
      | inl e ↦
          let same : row ≡ task = ground (arith, e, h) in
          elim (Bool-cases (is_interrupted row.state)) [
            | inl d ↦ (
              row,
              ground (arith, e, d),
              is_interrupted_lem row d,
              ap (λ (t : InFlightTask). t.source_code) same,
              ap (λ (t : InFlightTask). t.id) same,
            )
            | inr d ↦ (
              mark reason row,
              ground (arith, e, d),
              refl,
              ap (λ (t : InFlightTask). t.source_code) same,
              ap (λ (t : InFlightTask). t.id) same,
            )
          ]
      | inr e ↦
          let later = marked-interrupts task_id reason tasks task (ground (arith, e, h)) in
          (later.0, ground (arith, e, later.1), later.2, later.3, later.4)
    ]

different :
    (other task_id : Bytes) (task : InFlightTask)
    → text_eq other task_id ≡ false
    → is_open task_id task ≡ true
    → has_task_id other task ≡ false
different other task_id task h e = elim (Bool-cases (has_task_id other task)) [
  | inl d ↦
      let is_other : task.task_id ≡ other = (text_eq_iff task.task_id other).0 d in
      let is_this : task.task_id ≡ task_id =
        (text_eq_iff task.task_id task_id).0 (ground (arith, e)) in
      let same : text_eq other task_id ≡ true =
        (text_eq_iff other task_id).1 (sym is_other ∙ is_this) in
      absurd (cc (h, same))
  | inr d ↦ d
]

pub marked-IsInterrupted :
    (task_id reason : Bytes) (t : Tables)
    → IsInterrupted task_id t (marked_interrupted task_id reason t)
unfolding marked_interrupted
marked-IsInterrupted task_id reason t = record {
  interrupts = marked-interrupts task_id reason t.in_flight;
  other_tasks = λ other h.
      select_one-update (has_task_id other) (is_open task_id) (mark reason)
        (λ task e. different other task_id task h e) (λ _. refl) t.in_flight;
  as_many = length-update (is_open task_id) (mark reason) t.in_flight;
  submissions = refl;
  statuses = refl;
  users = refl;
  problems = refl;
  testcases = refl;
}
