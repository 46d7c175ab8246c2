-- ===== src/Submit/Service/Persisted.antt =====
-- What `persist_in_flight` promises, against what the transaction does.
use vibe_coding.Prelude.{
  ℕ, zero, suc, ◌≡◌, ◌∙◌, refl, sym, ap, subst, false, Option, none, some, ◌⊎◌, inl, inr, [], ◌∷◌,
  ◌++◌, ◌+◌, arith, is_empty, if◌then◌else◌,
}
use vibe_coding.Prelude.Text.{Bytes, text_eq}
use vibe_coding.Db.Tables.{Tables, ProblemRecord, InFlightTask, pending, count_rows}
use vibe_coding.Db.Connection.{Work, Conn, durable, execute, or_fail}
use vibe_coding.Db.Connection.Atomic.{Atomic, transaction-Atomic}
use vibe_coding.Db.Connection.Bodies.{
  Gives, >>=-Chained, pass-Gives, give_up-Gives, query-Gives, Committed-Gives, execute-some,
}
use vibe_coding.Db.Problems.{read_problem, read_problem-found, find_problem, problem_of}
use vibe_coding.Db.InFlight.{
  has_task, add_task, added_task, insert_attempts, insert_task, max_attempts, attempted,
  with_task_id, named_task,
}
use vibe_coding.Submit.Service.Persist.{
  Refused, problem_missing, persist_failed, persist_found, persist_body, persist_in_flight,
  new_task,
}

-- What the transaction does where it gives an identifier.
pub record IsWritten (task : InFlightTask) (task_id : Bytes) (before after : Tables) : Type 0 where
  pub problem : ¬ (problem_of task.problem_id before ≡ none)
  pub fresh : has_task task_id before ≡ false
  pub tables : after ≡ added_task (with_task_id task_id task) before

attempt-none :
    (generate : ℕ → Bytes) (task : InFlightTask) (w : Work) (r : ℕ × InFlightTask) (w' : Work)
    → insert_attempts generate zero task w ≡ (some r, w')
    → ⊥
unfolding insert_attempts
attempt-none generate task w r w' h = ground (arith, h)

-- An attempt that wrote a row had an identifier of its own, and a conflict changed nothing.
added-Fresh :
    (task : InFlightTask) (t : Tables) (id : ℕ) (t' : Tables)
    → add_task task t ≡ some (some id, t')
    → (has_task task.task_id t ≡ false) × (t' ≡ added_task task t)
unfolding add_task
added-Fresh task t id t' h = ground (arith, h)

conflict_same : (task : InFlightTask) (t t' : Tables) → add_task task t ≡ some (none, t') → t' ≡ t
unfolding add_task
conflict_same task t t' h = ground (arith, h)

-- What an insertion did to the tables.
abbrev Inserted : InFlightTask → ℕ × InFlightTask → Tables → Tables → Type 0
Inserted task r before after =
    (r.1 ≡ with_task_id r.1.task_id task)
    × (has_task r.1.task_id before ≡ false)
    × (after ≡ added_task r.1 before)

attempted-Inserted :
    (again : Work → Option (ℕ × InFlightTask) × Work) (task : InFlightTask) (task_id : Bytes)
    (tried : Option (Option ℕ) × Work) (w : Work) (r : ℕ × InFlightTask) (w' : Work)
    → execute (add_task (with_task_id task_id task)) w ≡ tried
    → attempted again (with_task_id task_id task) tried ≡ (some r, w')
    → ((v : Work) → again v ≡ (some r, w') → Inserted task r v.tables w'.tables)
    → Inserted task r w.tables w'.tables
unfolding attempted
attempted-Inserted again task task_id (none, v) w r w' e h more = absurd (ground (arith, h))
attempted-Inserted again task task_id (some (some id), v) w r w' e h more =
    let fresh = added-Fresh _ w.tables id v.tables (execute-some _ w (some id) v e) in
    let same : ((id, with_task_id task_id task) ≡ r) × (v ≡ w') = ground (arith, h) in
    subst (λ s. Inserted task s w.tables w'.tables) same.0
      (refl, fresh.0, ap (λ x. x.tables) (sym same.1) ∙ fresh.1)
attempted-Inserted again task task_id (some none, v) w r w' e h more =
    subst (λ t. Inserted task r t w'.tables)
      (conflict_same _ w.tables v.tables (execute-some _ w none v e)) (more v h)

attempts-Gives :
    (generate : ℕ → Bytes) (attempts : ℕ) (task : InFlightTask) (w : Work) (r : ℕ × InFlightTask)
    (w' : Work)
    → insert_attempts generate attempts task w ≡ (some r, w')
    → Inserted task r w.tables w'.tables
unfolding insert_attempts
attempts-Gives generate zero task w r w' h = absurd (attempt-none generate task w r w' h)
attempts-Gives generate (suc attempts) task w r w' h =
    attempted-Inserted
      (insert_attempts generate attempts (with_task_id [] (named_task (generate attempts) task)))
      task _ (execute (add_task (named_task (generate attempts) task)) w) w r w' refl h
      (λ v e.
        attempts-Gives generate attempts (with_task_id [] (named_task (generate attempts) task)) v r
          w' e)

insert-Gives :
    (generate : ℕ → Bytes) (task : InFlightTask) (w : Work) (r : ℕ × InFlightTask) (w' : Work)
    → Gives (or_fail persist_failed (insert_task generate task)) w r w'
    → Inserted task r w.tables w'.tables
unfolding insert_task or_fail
insert-Gives generate task w r w' h =
    attempts-Gives generate max_attempts task w r w' (ground (arith, h.run))

found-Gives :
    (generate : ℕ → Bytes) (task : InFlightTask) (found : Option ProblemRecord) (w : Work)
    (task_id : Bytes) (w' : Work)
    → found ≡ read_problem task.problem_id w.tables
    → Gives (persist_found generate task found) w task_id w'
    → IsWritten task task_id w.tables w'.tables
unfolding persist_found
found-Gives generate task none w task_id w' e h =
    absurd (give_up-Gives problem_missing task_id w w' h)
found-Gives generate task (some problem) w task_id w' e h =
    let c = >>=-Chained _ _ w task_id w' h in
    let inserted = insert-Gives generate task w c.value c.work c.before in
    let passed = pass-Gives {E = Refused} c.value.1.task_id task_id c.work w' c.behind in
    subst (λ named. IsWritten task named w.tables w'.tables) (sym passed.0)
      (record {
        problem = read_problem-found task.problem_id w.tables problem (sym e);
        fresh = inserted.1;
        tables =
            ap (λ v. v.tables) passed.1
            ∙ inserted.2
            ∙ ap (λ named. added_task named w.tables) inserted.0;
      })

body-Gives :
    (generate : ℕ → Bytes) (task : InFlightTask) (w : Work) (task_id : Bytes) (w' : Work)
    → Gives (persist_body generate task) w task_id w'
    → IsWritten task task_id w.tables w'.tables
unfolding persist_body find_problem
body-Gives generate task w task_id w' h =
    let c = >>=-Chained _ (persist_found generate task) w task_id w' h in
    let found =
      query-Gives persist_failed (read_problem task.problem_id) w c.value c.work c.before in
    subst (λ t. IsWritten task task_id t w'.tables) found.1
      (found-Gives generate task c.value c.work task_id w'
        (found.0 ∙ ap (read_problem task.problem_id) (sym found.1)) c.behind)

-- What the transaction says of the database.
abbrev pub Writes : InFlightTask → Tables → Tables → Refused ⊎ Bytes → Type 0
Writes task before after (inl _) = after ≡ before
Writes task before after (inr task_id) = IsWritten task task_id before after

writes :
    (generate : ℕ → Bytes) (task : InFlightTask) (before after : Tables) (r : Refused ⊎ Bytes)
    → Atomic (persist_body generate task) before after r
    → Writes task before after r
writes generate task before after (inl refused) h = h
writes generate task before after (inr task_id) h =
    subst (IsWritten task task_id before) (sym h.kept) (
      body-Gives generate task _ task_id _
        (Committed-Gives (persist_body generate task) before after task_id h))

persist_in_flight-Writes :
    (generate : ℕ → Bytes) (now : Bytes) (user_id problem_id : ℕ)
    (language source_code submitted_at : Bytes) (c : Conn)
    → let task =
        new_task user_id problem_id language source_code
          (if is_empty submitted_at then now else submitted_at) in
      let r =
        persist_in_flight generate now user_id problem_id language source_code submitted_at c in
      Writes task (durable c) (durable r.1) r.0
unfolding persist_in_flight
persist_in_flight-Writes generate now user_id problem_id language source_code submitted_at c =
    let task =
      new_task user_id problem_id language source_code
        (if is_empty submitted_at then now else submitted_at) in
    writes generate task (durable c) _ _
      (transaction-Atomic persist_failed (persist_body generate task) c)

-- A task that is written down: under an identifier that no other task has, for a problem that is
-- there, pending and as the last of the tasks, which is all that is changed.
pub record IsPersisted (user_id problem_id : ℕ) (language source_code submitted_at task_id : Bytes)
    (before after : Tables) : Type 0 where
  pub problem : ¬ (problem_of problem_id before ≡ none)
  pub fresh : count_rows (λ task. text_eq task.task_id task_id) before.in_flight ≡ 0
  pub in_flight :
      after.in_flight
      ≡ before.in_flight
        ++ record {
          id = before.next_in_flight;
          task_id = task_id;
          user_id = user_id;
          problem_id = problem_id;
          language = language;
          source_code = source_code;
          submitted_at = submitted_at;
          state = pending;
          owner = [];
          claimed_at = none;
          reason = [];
        }
          ∷ []
  pub next_key : after.next_in_flight ≡ before.next_in_flight + 1
  pub users : after.users ≡ before.users
  pub problems : after.problems ≡ before.problems
  pub testcases : after.testcases ≡ before.testcases
  pub submissions : after.submissions ≡ before.submissions
  pub statuses : after.statuses ≡ before.statuses

-- What an answer says of the database.
abbrev pub Persists : ℕ → ℕ → Bytes → Bytes → Bytes → Tables → Tables → Refused ⊎ Bytes → Type 0
Persists user_id problem_id language source_code submitted_at before after (inl _) = after ≡ before
Persists user_id problem_id language source_code submitted_at before after (inr task_id) =
    IsPersisted user_id problem_id language source_code submitted_at task_id before after

written-IsPersisted :
    (user_id problem_id : ℕ) (language source_code submitted_at task_id : Bytes)
    (before after : Tables)
    → IsWritten (new_task user_id problem_id language source_code submitted_at) task_id before after
    → IsPersisted user_id problem_id language source_code submitted_at task_id before after
unfolding new_task added_task has_task
written-IsPersisted user_id problem_id language source_code submitted_at task_id before after h =
    subst (IsPersisted user_id problem_id language source_code submitted_at task_id before)
      (sym h.tables)
      (record {
        problem = h.problem;
        fresh = ground (arith, h.fresh);
        in_flight = refl;
        next_key = refl;
        users = refl;
        problems = refl;
        testcases = refl;
        submissions = refl;
        statuses = refl;
      })

Writes-Persists :
    (user_id problem_id : ℕ) (language source_code submitted_at : Bytes) (before after : Tables)
    (r : Refused ⊎ Bytes)
    → Writes (new_task user_id problem_id language source_code submitted_at) before after r
    → Persists user_id problem_id language source_code submitted_at before after r
Writes-Persists user_id problem_id language source_code submitted_at before after (inl _) h = h
Writes-Persists user_id problem_id language source_code submitted_at before after (inr task_id) h =
    written-IsPersisted user_id problem_id language source_code submitted_at task_id before after h

-- Whichever calls of the database fail, and whatever identifiers are generated, a task that is
-- accepted is written down as pending, last, under the next key and an identifier that no other task
-- has, for a problem that is there, with the time of now where none was given; nothing else is
-- changed. One that is refused leaves what is durable as it was.
pub persist_in_flight-Persists :
    (generate : ℕ → Bytes) (now : Bytes) (user_id problem_id : ℕ)
    (language source_code submitted_at : Bytes) (c : Conn)
    → let r =
        persist_in_flight generate now user_id problem_id language source_code submitted_at c in
      Persists user_id problem_id language source_code
        (if is_empty submitted_at then now else submitted_at)
        (durable c)
        (durable r.1)
        r.0
persist_in_flight-Persists generate now user_id problem_id language source_code submitted_at c =
    Writes-Persists user_id problem_id language source_code _ (durable c) _ _
      (persist_in_flight-Writes generate now user_id problem_id language source_code submitted_at c)
