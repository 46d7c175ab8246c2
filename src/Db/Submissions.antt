-- ===== src/Db/Submissions.antt =====
-- The stores of src/db/submissions.h and submissions.cpp, without the lists that are only shown.
use vibe_coding.Prelude.{
  ℕ, ◌+◌, Bool, true, false, ◌&&◌, Option, none, some, List, [], ◌∷◌, ◌++◌, ◌==◌, if◌then◌else◌,
  ltb,
}
use vibe_coding.Prelude.Text.{Bytes, codes, text_eq}
use vibe_coding.Db.Tables.{
  Tables, SubmissionRecord, StatusRow, select_one, select_all, count_rows, update_where,
}
use vibe_coding.Db.Columns.{load_submission, loaded}
use vibe_coding.Db.Connection.{Work, query, execute}
use vibe_coding.Submit.Status.{StatusState, StatusUpdate, text_lt}

-- The foreign keys of a row: the user and the problem are there.
unfoldable pub has_parents : ℕ → ℕ → Tables → Bool
has_parents user_id problem_id t =
    ltb 0 (count_rows (λ u. u.id == user_id) t.users)
    && ltb 0 (count_rows (λ p. p.id == problem_id) t.problems)

-- INSERT INTO submissions … RETURNING id. The CHECK on the status holds of every name of a verdict.
unfoldable pub added_submission : SubmissionRecord → Tables → Tables
added_submission row t = record t {
  submissions = t.submissions ++ record row { id = t.next_submission } ∷ [];
  next_submission = t.next_submission + 1;
}

unfoldable pub add_submission : SubmissionRecord → Tables → Option (ℕ × Tables)
unfolding has_parents added_submission
add_submission row t =
    if has_parents row.user_id row.problem_id t
    then some (t.next_submission, added_submission row t)
    else none

unfoldable pub insert_submission : SubmissionRecord → Work → Option ℕ × Work
unfolding add_submission
insert_submission row = execute (add_submission row)

unfoldable pub submission_of : ℕ → Tables → Option SubmissionRecord
submission_of id t = select_one (λ s. s.id == id) t.submissions

-- The row as it is read.
unfoldable pub read_submission : ℕ → Tables → Option SubmissionRecord
unfolding submission_of loaded load_submission
read_submission id t = loaded load_submission (submission_of id t)

unfoldable pub find_submission : ℕ → Work → Option (Option SubmissionRecord) × Work
unfolding read_submission
find_submission id = query (read_submission id)

-- UPDATE submissions SET … WHERE id = ?
unfoldable pub with_result : SubmissionRecord → SubmissionRecord → SubmissionRecord
with_result new row = record row {
  status = new.status;
  per_case = new.per_case;
  compile_msg = new.compile_msg;
  runtime_ms = new.runtime_ms;
  memory_kb = new.memory_kb;
}

unfoldable pub updated_submission : SubmissionRecord → Tables → Tables
unfolding with_result
updated_submission new t = record t {
  submissions = update_where (λ s. s.id == new.id) (with_result new) t.submissions;
}

unfoldable pub update_submission : SubmissionRecord → Work → Option (Unit {0}) × Work
unfolding updated_submission
update_submission new = execute (λ t. some (tt, updated_submission new t))

-- The key of a row of `user_problem_status`.
abbrev pub is_of : ℕ → ℕ → StatusRow → Bool
is_of user_id problem_id s = s.user_id == user_id && s.problem_id == problem_id

unfoldable pub status_of : ℕ → ℕ → Tables → Option StatusRow
status_of user_id problem_id t = select_one (is_of user_id problem_id) t.statuses

-- `UserProblemStatusStore::find`
unfoldable pub find_status : ℕ → ℕ → Work → Option (Option StatusRow) × Work
unfolding status_of
find_status user_id problem_id = query (status_of user_id problem_id)

-- What `SubmitService` makes of the row: a default one where there is none, NULL read as "".
unfoldable pub state_of : Option StatusRow → StatusState
state_of none = record { has_record = false; accepted = false; first_ac_at = []; submit_count = 0 }
state_of (some s) = record {
  has_record = true;
  accepted = s.accepted;
  first_ac_at = elim s.first_ac_at [ none ↦ [] | some time ↦ time ];
  submit_count = s.submit_count;
}

unfoldable pub status_row : ℕ → ℕ → StatusUpdate → StatusRow
status_row user_id problem_id u = record {
  user_id = user_id;
  problem_id = problem_id;
  accepted = u.accepted;
  first_ac_at = if u.has_first_ac_at then some u.first_ac_at else none;
  submit_count = u.submit_count;
}

-- INSERT … ON CONFLICT(user_id, problem_id) DO UPDATE
unfoldable pub put_status : StatusRow → List StatusRow → List StatusRow
put_status new [] = new ∷ []
put_status new (row ∷ rows) =
    let later = put_status new rows in
    if is_of new.user_id new.problem_id row then new ∷ rows else row ∷ later

unfoldable pub upserted : StatusRow → Tables → Tables
unfolding put_status
upserted new t = record t { statuses = put_status new t.statuses }

unfoldable pub upsert_status : StatusRow → Work → Option (Unit {0}) × Work
unfolding has_parents upserted
upsert_status new =
    execute
      λ t. if has_parents new.user_id new.problem_id t then some (tt, upserted new t) else none

-- The submissions of a user for a problem, and those with the status 'AC'.
abbrev pub is_submission_of : ℕ → ℕ → SubmissionRecord → Bool
is_submission_of user_id problem_id s = s.user_id == user_id && s.problem_id == problem_id

abbrev pub is_accepted_of : ℕ → ℕ → SubmissionRecord → Bool
is_accepted_of user_id problem_id s =
    is_submission_of user_id problem_id s && text_eq s.status (codes "AC")

-- SELECT MIN(created_at), `none` for NULL.
unfoldable pub earliest : List SubmissionRecord → Option Bytes
earliest [] = none
earliest (s ∷ rows) =
    let later = earliest rows in
    elim later [
      | none ↦ some s.created_at
      | some time ↦ some (if text_lt time s.created_at then time else s.created_at)
    ]

-- The row that `recompute` writes, from what its three reads found.
unfoldable pub recomputed : ℕ → ℕ → ℕ → Option Bytes → StatusRow
recomputed user_id problem_id submit_count first_ac_at = record {
  user_id = user_id;
  problem_id = problem_id;
  accepted = elim first_ac_at [ none ↦ false | some _ ↦ true ];
  first_ac_at = first_ac_at;
  submit_count = submit_count;
}

unfoldable pub submissions_of : ℕ → ℕ → Tables → ℕ
submissions_of user_id problem_id t = count_rows (is_submission_of user_id problem_id) t.submissions

unfoldable pub first_accepted : ℕ → ℕ → Tables → Option Bytes
unfolding earliest
first_accepted user_id problem_id t =
    earliest (select_all (is_accepted_of user_id problem_id) t.submissions)

-- `recompute` from its third statement on.
unfoldable pub recompute_with : ℕ → ℕ → ℕ → Work → Option (Unit {0}) × Work
unfolding first_accepted recomputed upsert_status
recompute_with user_id problem_id submit_count w =
    let (first_ac_at, w') = query (first_accepted user_id problem_id) w in
    elim first_ac_at [
      | none ↦ (none, w')
      | some time ↦ upsert_status (recomputed user_id problem_id submit_count time) w'
    ]

-- `UserProblemStatusStore::recompute`
unfoldable pub recompute : ℕ → ℕ → Work → Option (Unit {0}) × Work
unfolding find_status recompute_with submissions_of
recompute user_id problem_id w =
    let (found, w₁) = find_status user_id problem_id w in
    elim found [
      | none ↦ (none, w₁)
      | some (some s) ↦ recompute_with user_id problem_id s.submit_count w₁
      | some none ↦
          let (counted, w₂) = query (submissions_of user_id problem_id) w₁ in
          elim counted [
            | none ↦ (none, w₂)
            | some submit_count ↦ recompute_with user_id problem_id submit_count w₂
          ]
    ]
