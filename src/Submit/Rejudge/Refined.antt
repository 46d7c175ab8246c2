-- ===== src/Submit/Rejudge/Refined.antt =====
-- What a rejudgement promises, against what the transaction does.
use vibe_coding.Prelude.{
  ℕ, ◌≡◌, Option, List, not, is_empty, length, refl, sym, subst, false, ◌&&◌, ◌==◌, none, some, ◌⊎◌,
  inl, inr, arith,
}
use vibe_coding.Judge.Engine.Result.{JudgeResult}
use vibe_coding.Db.Tables.{Tables, SubmissionRecord, StatusRow, select_all, count_rows}
use vibe_coding.Db.Connection.{Conn, durable}
use vibe_coding.Db.Connection.Atomic.{Atomic, transaction-Atomic}
use vibe_coding.Db.Connection.Bodies.{Committed-Gives}
use vibe_coding.Db.Submissions.{
  submission_of, updated_submission, with_result, status_of, submissions_of, first_accepted,
  recomputed, upserted, is_accepted_of, is_submission_of,
}
use vibe_coding.Db.Rows.{status-put, status-put_other, select-update, select-holds, length-update}
use vibe_coding.Db.ProblemAdmin.Rows.{select_one-update}
use vibe_coding.Submit.Rejudge.Earliest.{IsFirst, earliest-IsFirst, earliest-there}
use vibe_coding.Submit.Service.Settle.{
  Outcome, done, problem_not_found, already_settled, internal_error,
}
use vibe_coding.Submit.Rejudge.{
  Dropped, was_deleted, rejudge_failed, rejudge_body, rejudge_outcome, settle_rejudge,
}
use vibe_coding.Submit.Rejudge.Statements.{Did, body-Gives, recomputed_tables, kept_count}

-- The row of a submission behind its rejudgement.
pub record IsRewritten (updated old new : SubmissionRecord) : Type 0 where
  pub status : new.status ≡ updated.status
  pub per_case : new.per_case ≡ updated.per_case
  pub compile_msg : new.compile_msg ≡ updated.compile_msg
  pub runtime_ms : new.runtime_ms ≡ updated.runtime_ms
  pub memory_kb : new.memory_kb ≡ updated.memory_kb
  pub same_keys :
      (new.id ≡ old.id) × (new.user_id ≡ old.user_id) × (new.problem_id ≡ old.problem_id)
  pub same_source : (new.language ≡ old.language) × (new.source_code ≡ old.source_code)
  pub same_time : new.created_at ≡ old.created_at

-- The row of a status behind it, from the accepted submissions that there are then: accepted if there
-- is one, since the first of them; with the count of before, or that of the submissions if the row is
-- new.
pub record IsRecomputed (user_id problem_id : ℕ) (before after : Tables) (new : StatusRow)
    : Type 0 where
  pub key : (new.user_id ≡ user_id) × (new.problem_id ≡ problem_id)
  pub accepted :
      new.accepted
      ≡ not (is_empty (select_all (is_accepted_of user_id problem_id) after.submissions))
  pub first_ac_at :
      IsFirst new.first_ac_at (select_all (is_accepted_of user_id problem_id) after.submissions)
  pub kept_count :
      (old : StatusRow)
      → status_of user_id problem_id before ≡ some old
      → new.submit_count ≡ old.submit_count
  pub new_count :
      status_of user_id problem_id before ≡ none
      → new.submit_count ≡ count_rows (is_submission_of user_id problem_id) after.submissions

-- A rejudgement as its callers see it: the row of the submission, which was there, has the new result;
-- the status of its user and problem is computed anew; and nothing else is changed.
pub record IsRejudged (updated : SubmissionRecord) (before after : Tables) : Type 0 where
  pub old : SubmissionRecord
  pub found : submission_of updated.id before ≡ some old
  pub new : SubmissionRecord
  pub rejudged : submission_of updated.id after ≡ some new
  pub rewritten : IsRewritten updated old new
  pub other_submissions :
      (other : ℕ)
      → (other == updated.id) ≡ false
      → submission_of other after ≡ submission_of other before
  pub as_many : length after.submissions ≡ length before.submissions
  pub status : StatusRow
  pub status_found : status_of updated.user_id updated.problem_id after ≡ some status
  pub recomputes : IsRecomputed updated.user_id updated.problem_id before after status
  pub other_statuses :
      (user_id problem_id : ℕ)
      → (user_id == updated.user_id) && (problem_id == updated.problem_id) ≡ false
      → status_of user_id problem_id after ≡ status_of user_id problem_id before
  pub next_key : after.next_submission ≡ before.next_submission
  pub in_flight : after.in_flight ≡ before.in_flight
  pub users : after.users ≡ before.users
  pub problems : after.problems ≡ before.problems
  pub testcases : after.testcases ≡ before.testcases

-- What an outcome says of the database.
abbrev pub Refines : SubmissionRecord → JudgeResult → Tables → Tables → Outcome → Type 0
Refines updated result before after (done written judged) =
    (written ≡ updated) × (judged ≡ result) × IsRejudged updated before after
Refines updated result before after problem_not_found = after ≡ before
Refines updated result before after already_settled = after ≡ before
Refines updated result before after internal_error = after ≡ before

new-IsRecomputed :
    (user_id problem_id : ℕ) (t : Tables) (rows : List SubmissionRecord)
    → let t' = record t { submissions = rows } in
      IsRecomputed user_id problem_id t (recomputed_tables user_id problem_id t') (
        recomputed user_id problem_id
          (kept_count user_id problem_id t')
          (first_accepted user_id problem_id t'))
unfolding upserted status_of recomputed submissions_of first_accepted
new-IsRecomputed user_id problem_id t rows = record {
  key = (refl, refl);
  accepted = earliest-there (select_all (is_accepted_of user_id problem_id) rows);
  first_ac_at = earliest-IsFirst (select_all (is_accepted_of user_id problem_id) rows);
  kept_count = λ old e. rw (kept_count, e) refl;
  new_count = λ e. rw (kept_count, e) refl;
}

recomputed_tables-IsRejudged :
    (updated old : SubmissionRecord) (t : Tables)
    → submission_of updated.id t ≡ some old
    → IsRejudged updated t
        (recomputed_tables updated.user_id updated.problem_id (updated_submission updated t))
unfolding upserted updated_submission status_of submission_of with_result recomputed
recomputed_tables-IsRejudged updated old t found = record {
  old = old;
  found = found;
  new = with_result updated old;
  rejudged =
      select-update (λ s. s.id == updated.id) (λ s. s.id == updated.id) (with_result updated)
        (λ _. refl) t.submissions old found
        (select-holds (λ s. s.id == updated.id) t.submissions old found);
  rewritten = record {
    status = refl;
    per_case = refl;
    compile_msg = refl;
    runtime_ms = refl;
    memory_kb = refl;
    same_keys = (refl, refl, refl);
    same_source = (refl, refl);
    same_time = refl;
  };
  other_submissions = λ other e.
      select_one-update (λ s. s.id == other) (λ s. s.id == updated.id) (with_result updated)
        (λ s d. ground (arith, d, e)) (λ _. refl) t.submissions;
  as_many = length-update (λ s. s.id == updated.id) (with_result updated) t.submissions;
  status =
      recomputed updated.user_id updated.problem_id
        (kept_count updated.user_id updated.problem_id (updated_submission updated t))
        (first_accepted updated.user_id updated.problem_id (updated_submission updated t));
  status_found = status-put (recomputed _ _ _ _) t.statuses;
  recomputes = new-IsRecomputed updated.user_id updated.problem_id t _;
  other_statuses =
      λ user_id problem_id h. status-put_other _ user_id problem_id t.statuses (ground (arith, h));
  next_key = refl;
  in_flight = refl;
  users = refl;
  problems = refl;
  testcases = refl;
}

recomputed-IsRejudged :
    (updated : SubmissionRecord) (before : Tables) (o : Option SubmissionRecord)
    → submission_of updated.id before ≡ o
    → ¬ (o ≡ none)
    → IsRejudged updated before
        (recomputed_tables updated.user_id updated.problem_id (updated_submission updated before))
recomputed-IsRejudged updated before none e there = absurd (there refl)
recomputed-IsRejudged updated before (some old) e there =
    recomputed_tables-IsRejudged updated old before e

refines :
    (updated : SubmissionRecord) (result : JudgeResult) (before after : Tables)
    (r : Dropped ⊎ Unit {0})
    → Atomic (rejudge_body updated) before after r
    → Refines updated result before after (rejudge_outcome updated result r)
unfolding rejudge_outcome
refines updated result before after (inl was_deleted) h = h
refines updated result before after (inl rejudge_failed) h = h
refines updated result before after (inr u) h =
    let did : Did updated before after =
      subst (Did updated before) (sym h.kept)
        (body-Gives updated _ u _ (Committed-Gives (rejudge_body updated) before after u h)) in
    (
      refl,
      refl,
      subst (IsRejudged updated before) (sym did.1)
          (recomputed-IsRejudged updated before _ refl did.0),
    )

-- Every rejudgement refines its promise, whichever calls of the database fail. Where it is done, the
-- submission, which was there, has the new result, and the rest of its row and every other submission
-- are as they were; its user and problem have a status that is accepted if they have an accepted
-- submission then, since the first of these, with the count of before, or that of their submissions if
-- there was no status; and nothing else is changed.
-- Otherwise nothing durable is changed.
pub settle_rejudge-Refines :
    (updated : SubmissionRecord) (result : JudgeResult) (c : Conn)
    → Refines updated result
        (durable c)
        (durable (settle_rejudge updated result c).1)
        (settle_rejudge updated result c).0
unfolding settle_rejudge
settle_rejudge-Refines updated result c =
    refines updated result (durable c) _ _
      (transaction-Atomic rejudge_failed (rejudge_body updated) c)
