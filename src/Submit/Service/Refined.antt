-- ===== src/Submit/Service/Refined.antt =====
-- What a settlement promises, against what the transaction does.
use vibe_coding.Prelude.{
  if-cases, ℕ, ◌+◌, ◌≡◌, ◌⊎◌, inl, inr, refl, sym, ap, ◌∙◌, subst, Bool, true, false, not, some, [],
  ◌∷◌, ◌++◌, arith, if◌then◌else◌, is_empty, Bool-cases, ◌==◌, ◌&&◌,
}
use vibe_coding.Prelude.Text.{Bytes}
use vibe_coding.Judge.Engine.Result.{JudgeResult}
use vibe_coding.Db.Tables.{Tables, SubmissionRecord, select_one, select_all}
use vibe_coding.Db.Connection.{Conn, durable}
use vibe_coding.Db.Connection.Bodies.{Committed-Gives}
use vibe_coding.Db.Connection.Atomic.{Atomic, Committed, transaction-Atomic}
use vibe_coding.Db.Submissions.{added_submission, status_of, state_of, status_row, upserted, is_of}
use vibe_coding.Db.InFlight.{removed_task, has_task, has_task_id, marked_interrupted}
use vibe_coding.Db.Rows.{count_rows-removed, status-put, status-put_other}
use vibe_coding.Submit.Status.{StatusState, Settled, settle, compute_status_update, stored}
use vibe_coding.Submit.Service.Settle.{
  Outcome, done, problem_not_found, already_settled, internal_error, Refusal, no_problem,
  was_settled, failed, Settlement, settled, stopped_short, problem_gone, settle_body, outcome_of,
  settle_submission,
}
use vibe_coding.Submit.Service.Interrupted.{IsInterrupted, marked-IsInterrupted}
use vibe_coding.Submit.Service.Statements.{Did, body-Gives, settled_tables, without_task}

-- A settlement as its callers see it: the submission is there, under a new key; the task, where there
-- was one, is not; the status of the user's problem is settled once more, as `Submit.Status` has it;
-- and nothing else is changed.
pub record IsSettled (row : SubmissionRecord) (accepted : Bool) (task_id : Bytes)
    (before after : Tables) : Type 0 where
  pub was_there : (is_empty task_id ≡ true) ⊎ (has_task task_id before ≡ true)
  pub is_gone : (is_empty task_id ≡ true) ⊎ (has_task task_id after ≡ false)
  pub tasks : after.in_flight ≡ (
      if is_empty task_id
      then before.in_flight
      else select_all (λ task. not (has_task_id task_id task)) before.in_flight)
  pub submissions :
      after.submissions ≡ before.submissions ++ record row { id = before.next_submission } ∷ []
  pub next_key : after.next_submission ≡ before.next_submission + 1
  pub status :
      state_of (status_of row.user_id row.problem_id after)
      ≡ settle
          (state_of (status_of row.user_id row.problem_id before))
          (record { accepted = accepted; created_at = row.created_at })
  pub other_statuses :
      (user_id problem_id : ℕ)
      → (user_id == row.user_id) && (problem_id == row.problem_id) ≡ false
      → status_of user_id problem_id after ≡ status_of user_id problem_id before
  pub users : after.users ≡ before.users
  pub problems : after.problems ≡ before.problems
  pub testcases : after.testcases ≡ before.testcases

-- What an outcome says of the database.
abbrev pub Refines : SubmissionRecord → Bool → Bytes → Tables → Tables → Outcome → Type 0
Refines row accepted task_id before after (done written result) =
    (written ≡ record row { id = before.next_submission })
    × IsSettled row accepted task_id before after
Refines row accepted task_id before after problem_not_found =
    (after ≡ before)
    ⊎ (is_empty task_id ≡ false)
      × (after ≡ marked_interrupted task_id problem_gone before)
      × IsInterrupted task_id before after
Refines row accepted task_id before after already_settled = after ≡ before
Refines row accepted task_id before after internal_error = after ≡ before

state_of-stored :
    (user_id problem_id : ℕ) (state : StatusState) (s : Settled)
    → state_of
        (some (status_row user_id problem_id (compute_status_update state s.accepted s.created_at)))
      ≡ settle state s
unfolding state_of status_row settle stored
state_of-stored user_id problem_id state s = ground arith

-- What a settlement does to the tables, read as its callers read it.
record KeepsRest (t u : Tables) : Type 0 where
  submissions : u.submissions ≡ t.submissions
  next_key : u.next_submission ≡ t.next_submission
  statuses : u.statuses ≡ t.statuses
  users : u.users ≡ t.users
  problems : u.problems ≡ t.problems
  testcases : u.testcases ≡ t.testcases

without-KeepsRest : (task_id : Bytes) (t : Tables) → KeepsRest t (without_task task_id t)
unfolding removed_task
without-KeepsRest task_id t =
    if-cases (λ (u : Tables). KeepsRest t u) (is_empty task_id) _ _ (λ _. ground arith)
      (λ _. ground arith)

without-in_flight :
    (task_id : Bytes) (t : Tables)
    → (without_task task_id t).in_flight ≡ (
        if is_empty task_id
        then t.in_flight
        else select_all (λ task. not (has_task_id task_id task)) t.in_flight)
unfolding removed_task
without-in_flight task_id t = elim (Bool-cases (is_empty task_id)) [
  | inl e ↦ rw e refl
  | inr e ↦ rw e refl
]

without-has_task :
    (task_id : Bytes) (t : Tables)
    → is_empty task_id ≡ false
    → has_task task_id (without_task task_id t) ≡ false
unfolding has_task removed_task
without-has_task task_id t e =
    rw e ground (arith, count_rows-removed (has_task_id task_id) t.in_flight)

-- The statuses of a settlement, from those that it found.
settled-status :
    (row : SubmissionRecord) (accepted : Bool) (t : Tables)
    → state_of (status_of row.user_id row.problem_id (settled_tables row accepted t))
      ≡ settle
          (state_of (status_of row.user_id row.problem_id t))
          (record { accepted = accepted; created_at = row.created_at })
unfolding upserted added_submission status_of status_row
settled-status row accepted t =
    ap state_of (
      status-put
        (status_row row.user_id row.problem_id (
          compute_status_update (state_of (status_of row.user_id row.problem_id t)) accepted
            row.created_at))
        t.statuses)
    ∙ state_of-stored row.user_id row.problem_id (state_of (status_of row.user_id row.problem_id t))
        (record { accepted = accepted; created_at = row.created_at })

settled-other :
    (row : SubmissionRecord) (accepted : Bool) (t : Tables) (user_id problem_id : ℕ)
    → (user_id == row.user_id) && (problem_id == row.problem_id) ≡ false
    → status_of user_id problem_id (settled_tables row accepted t) ≡ status_of user_id problem_id t
unfolding upserted added_submission status_of status_row
settled-other row accepted t user_id problem_id h =
    status-put_other _ user_id problem_id t.statuses (ground (arith, h))

without-status :
    (task_id : Bytes) (t : Tables) (user_id problem_id : ℕ)
    → status_of user_id problem_id (without_task task_id t) ≡ status_of user_id problem_id t
unfolding status_of
without-status task_id t user_id problem_id =
    ap (select_one (is_of user_id problem_id)) (without-KeepsRest task_id t).statuses

settled-has_task :
    (row : SubmissionRecord) (accepted : Bool) (task_id : Bytes) (t : Tables)
    → has_task task_id (settled_tables row accepted (without_task task_id t))
      ≡ has_task task_id (without_task task_id t)
unfolding has_task upserted added_submission
settled-has_task row accepted task_id t = refl

Committed-Did :
    (row : SubmissionRecord) (accepted : Bool) (task_id : Bytes) (before after : Tables)
    (s : Settlement)
    → Committed (settle_body row accepted task_id) before after s
    → Did row accepted task_id before after s
Committed-Did row accepted task_id before after s h =
    subst (λ t. Did row accepted task_id before t s) (sym h.kept)
      (body-Gives row accepted task_id _ s _
        (Committed-Gives (settle_body row accepted task_id) before after s h))

settled_tables-IsSettled :
    (row : SubmissionRecord) (accepted : Bool) (task_id : Bytes) (t : Tables)
    → (is_empty task_id ≡ true) ⊎ (has_task task_id t ≡ true)
    → IsSettled row accepted task_id t (settled_tables row accepted (without_task task_id t))
unfolding upserted added_submission
settled_tables-IsSettled row accepted task_id t there =
    let k = without-KeepsRest task_id t in
    record {
      was_there = there;
      is_gone = elim (Bool-cases (is_empty task_id)) [ inl e ↦ inl e | inr e ↦ inr (gone e) ];
      tasks = without-in_flight task_id t;
      submissions = cc (k.submissions, k.next_key);
      next_key = cc k.next_key;
      status =
          settled-status row accepted (without_task task_id t)
          ∙ ap
              (λ o.
                settle (state_of o) (record { accepted = accepted; created_at = row.created_at }))
              (same row.user_id row.problem_id);
      other_statuses = λ user_id problem_id h.
          settled-other row accepted (without_task task_id t) user_id problem_id h
          ∙ same user_id problem_id;
      users = k.users;
      problems = k.problems;
      testcases = k.testcases;
    }
  where
    same :
        (user_id problem_id : ℕ)
        → status_of user_id problem_id (without_task task_id t) ≡ status_of user_id problem_id t
    same user_id problem_id = without-status task_id t user_id problem_id

    gone :
        is_empty task_id ≡ false
        → has_task task_id (settled_tables row accepted (without_task task_id t)) ≡ false
    gone e = settled-has_task row accepted task_id t ∙ without-has_task task_id t e

refines :
    (row : SubmissionRecord) (accepted : Bool) (task_id : Bytes) (result : JudgeResult)
    (before after : Tables) (r : Refusal ⊎ Settlement)
    → Atomic (settle_body row accepted task_id) before after r
    → Refines row accepted task_id before after (outcome_of row result r)
unfolding outcome_of
refines row accepted task_id result before after (inl no_problem) h = inl h
refines row accepted task_id result before after (inl was_settled) h = h
refines row accepted task_id result before after (inl failed) h = h
refines row accepted task_id result before after (inr (settled id)) h =
    let did = Committed-Did row accepted task_id before after (settled id) h in
    (
      ap (λ n. record row { id = n }) did.0,
      subst (IsSettled row accepted task_id before) (sym did.2)
          (settled_tables-IsSettled row accepted task_id before did.1),
    )
refines row accepted task_id result before after (inr stopped_short) h =
    let did = Committed-Did row accepted task_id before after stopped_short h in
    inr (
      did.0,
      did.1,
      subst (IsInterrupted task_id before) (sym did.1)
          (marked-IsInterrupted task_id problem_gone before),
    )

-- Every settlement refines its promise, whichever calls of the database fail: where it is done, what
-- is durable has been settled once and nothing else is changed, and the record is the one that was
-- written; where the problem is gone, at most the task is marked as interrupted, and no other task and
-- no other table is changed; and otherwise nothing durable is changed.
pub settle_submission-Refines :
    (row : SubmissionRecord) (accepted : Bool) (task_id : Bytes) (result : JudgeResult) (c : Conn)
    → Refines row accepted task_id
        (durable c)
        (durable (settle_submission row accepted task_id result c).1)
        (settle_submission row accepted task_id result c).0
unfolding settle_submission
settle_submission-Refines row accepted task_id result c =
    refines row accepted task_id result (durable c) _ _
      (transaction-Atomic failed (settle_body row accepted task_id) c)
