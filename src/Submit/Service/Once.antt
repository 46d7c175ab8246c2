-- ===== src/Submit/Service/Once.antt =====
-- A task is settled at most once, whoever settles it and however often.
use vibe_coding.Prelude.{
  ℕ, ◌+◌, ◌≤◌, ◌≡◌, refl, sym, subst, Bool, true, false, not, List, [], ◌∷◌, ◌⊎◌, inl, inr, arith,
  ◌&&◌, if-cases, All, if◌then◌else◌, is_empty, Bool-cases,
}
use vibe_coding.Prelude.Text.{Bytes, text_eq, text_eq_iff}
use vibe_coding.Judge.Engine.Result.{JudgeResult}
use vibe_coding.Db.Tables.{Tables, SubmissionRecord, interrupted, count_rows, select_all}
use vibe_coding.Db.Connection.{Conn, durable}
use vibe_coding.Db.Rows.{count_rows-update, count_rows-select}
use vibe_coding.Db.InFlight.{has_task, has_task_id, is_interrupted, marked_interrupted}
use vibe_coding.Submit.Service.Settle.{
  Outcome, done, problem_not_found, already_settled, internal_error, problem_gone,
  settle_submission,
}
use vibe_coding.Submit.Service.Refined.{Refines, settle_submission-Refines}

-- One call of the settlement, behind what other threads do to the database: the record, whether it
-- is accepted, the task and the judgement.
pub record Attempt : Type 0 where
  pub meanwhile : Conn → Conn
  pub row : SubmissionRecord
  pub accepted : Bool
  pub task_id : Bytes
  pub result : JudgeResult

abbrev pub is_done : Outcome → Bool
is_done (done _ _) = true
is_done _ = false

-- The settlements that came to their end for a task, in a sequence of calls of any threads. The
-- transaction mutex puts them one behind the other.
unfoldable pub times_settled : Bytes → List Attempt → Conn → ℕ
times_settled task_id [] c = 0
times_settled task_id (a ∷ attempts) c =
    let (outcome, c') = settle_submission a.row a.accepted a.task_id a.result (a.meanwhile c) in
    (if text_eq a.task_id task_id && is_done outcome then 1 else 0)
    + times_settled task_id attempts c'

-- Nobody writes the task down anew.
abbrev pub Quiet : Bytes → Attempt → Type 0
Quiet task_id a =
    (c : Conn)
    → has_task task_id (durable c) ≡ false
    → has_task task_id (durable (a.meanwhile c)) ≡ false

present : Bytes → Tables → ℕ
present task_id t = if has_task task_id t then 1 else 0

-- Tasks that are selected, or marked, are no new ones.
present-fewer :
    (task_id : Bytes) (before after : Tables)
    → count_rows (has_task_id task_id) after.in_flight
      ≤ count_rows (has_task_id task_id) before.in_flight
    → present task_id after ≤ present task_id before
unfolding present has_task
present-fewer task_id before after h = ground arith

removed-fewer :
    (task_id other : Bytes) (before after : Tables)
    → after.in_flight ≡ (
        if is_empty other
        then before.in_flight
        else select_all (λ task. not (has_task_id other task)) before.in_flight)
    → count_rows (has_task_id task_id) after.in_flight
      ≤ count_rows (has_task_id task_id) before.in_flight
removed-fewer task_id other before after h =
    subst
      (λ rows.
        count_rows (has_task_id task_id) rows ≤ count_rows (has_task_id task_id) before.in_flight)
      (sym h)
      (if-cases
        (λ rows.
          count_rows (has_task_id task_id) rows ≤ count_rows (has_task_id task_id) before.in_flight)
        (is_empty other) _ _ (λ _. omega arith)
        (λ _.
          count_rows-select (has_task_id task_id) (λ task. not (has_task_id other task))
            before.in_flight))

marked-fewer :
    (task_id other reason : Bytes) (t : Tables)
    → present task_id (marked_interrupted other reason t) ≤ present task_id t
unfolding marked_interrupted
marked-fewer task_id other reason t = present-fewer task_id t (marked_interrupted other reason t) (
    omega (
      arith,
      count_rows-update (has_task_id task_id)
          (λ task. has_task_id other task && not (is_interrupted task.state))
          (λ task. record task { state = interrupted; reason = reason }) (λ _. refl) t.in_flight,
    ))

-- What is not done, or of another task, uses nothing up.
unspent : (b d : Bool) (n m : ℕ) → b && d ≡ false → n ≤ m → (if b && d then 1 else 0) + n ≤ m
unspent b d n m e h = ground (arith, e, h)

not_done : (b : Bool) → b && false ≡ false
not_done true = refl
not_done false = refl

same :
    (task_id : Bytes) (before after : Tables)
    → after ≡ before
    → present task_id after ≤ present task_id before
same task_id before after h =
    subst (λ t. present task_id t ≤ present task_id before) (sym h) (omega arith)

-- A settlement that is done uses the task up.
used_up :
    (task_id : Bytes) (a : Attempt) (before after : Tables) (outcome : Outcome)
    → is_empty task_id ≡ false
    → Refines a.row a.accepted a.task_id before after outcome
    → (if text_eq a.task_id task_id && is_done outcome then 1 else 0) + present task_id after
      ≤ present task_id before
unfolding present
used_up task_id a before after (done row result) e h =
    elim (Bool-cases (text_eq a.task_id task_id)) [
      | inl named ↦
          let eq : a.task_id ≡ task_id = (text_eq_iff a.task_id task_id).0 named in
          rw named (
            gone (subst (λ i. (is_empty i ≡ true) ⊎ (has_task i before ≡ true)) eq h.1.was_there)
              (subst (λ i. (is_empty i ≡ true) ⊎ (has_task i after ≡ false)) eq h.1.is_gone))
      | inr other ↦ unspent (text_eq a.task_id task_id) true _ _ (rw other) (
          present-fewer task_id before after
            (removed-fewer task_id a.task_id before after h.1.tasks))
    ]
  where
    gone :
        (is_empty task_id ≡ true) ⊎ (has_task task_id before ≡ true)
        → (is_empty task_id ≡ true) ⊎ (has_task task_id after ≡ false)
        → 1 + present task_id after ≤ present task_id before
    gone (inl d) k = cc
    gone (inr d) (inl k) = cc
    gone (inr d) (inr k) = ground (arith, d, k)
used_up task_id a before after problem_not_found e (inl h) =
    unspent (text_eq a.task_id task_id) false _ _ (not_done _) (same task_id before after h)
used_up task_id a before after problem_not_found e (inr h) =
    unspent (text_eq a.task_id task_id) false _ _ (not_done _) (
      subst (λ t. present task_id t ≤ present task_id before) (sym h.1)
        (marked-fewer task_id a.task_id problem_gone before))
used_up task_id a before after already_settled e h =
    unspent (text_eq a.task_id task_id) false _ _ (not_done _) (same task_id before after h)
used_up task_id a before after internal_error e h =
    unspent (text_eq a.task_id task_id) false _ _ (not_done _) (same task_id before after h)

Quiet-fewer :
    (task_id : Bytes) (a : Attempt) (c : Conn)
    → Quiet task_id a
    → present task_id (durable (a.meanwhile c)) ≤ present task_id (durable c)
unfolding present
Quiet-fewer task_id a c q = ground (arith, q c)

-- A task is settled at most once, and only if it was written down: over every sequence of settlements
-- of whatever tasks, whichever calls of the database fail, and whatever other threads do in between
-- short of writing the task down anew.
pub times_settled_once :
    (task_id : Bytes) (attempts : List Attempt) (c : Conn)
    → is_empty task_id ≡ false
    → All (Quiet task_id) attempts
    → times_settled task_id attempts c ≤ (if has_task task_id (durable c) then 1 else 0)
unfolding times_settled present
times_settled_once task_id [] c e q = ground arith
times_settled_once task_id (a ∷ attempts) c e q = omega (
  arith,
  used_up task_id a _ _ _ e
      (settle_submission-Refines a.row a.accepted a.task_id a.result (a.meanwhile c)),
  Quiet-fewer task_id a c q.0,
  times_settled_once task_id attempts
      (settle_submission a.row a.accepted a.task_id a.result (a.meanwhile c)).1 e q.1,
)
