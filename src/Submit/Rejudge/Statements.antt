-- ===== src/Submit/Rejudge/Statements.antt =====
-- The transaction of a rejudgement, statement by statement: what it did where it gave a result.
use vibe_coding.Prelude.{
  ℕ, ◌≡◌, none, some, inl, inr, Option-cases, arith, ap, ◌∙◌, sym, subst, Option,
}
use vibe_coding.Db.Tables.{Tables, SubmissionRecord}
use vibe_coding.Db.Columns.{load_submission, loaded-there}
use vibe_coding.Db.Connection.{Work, query, execute, take_fault, or_fail, ◌>>◌}
use vibe_coding.Db.Connection.Bodies.{Gives, >>=-Chained, give_up-Gives, query-Gives, execute-Gives}
use vibe_coding.Db.Submissions.{
  status_of, submissions_of, first_accepted, recomputed, upserted, upsert_status, recompute_with,
  recompute, find_status, submission_of, read_submission, find_submission, updated_submission,
  update_submission,
}
use vibe_coding.Submit.Rejudge.{rejudge_failed, was_deleted, rewrite_found, rejudge_body}

-- The number of submissions that a status keeps, or that it starts with.
abbrev pub kept_count : ℕ → ℕ → Tables → ℕ
kept_count user_id problem_id t = elim (status_of user_id problem_id t) [
  | none ↦ submissions_of user_id problem_id t
  | some s ↦ s.submit_count
]

abbrev pub recomputed_tables : ℕ → ℕ → Tables → Tables
recomputed_tables user_id problem_id t =
    upserted
      (recomputed user_id problem_id (kept_count user_id problem_id t)
        (first_accepted user_id problem_id t))
      t

-- `recompute` that gave a result.
recompute_with-Gives :
    (user_id problem_id submit_count : ℕ) (w : Work) (u : Unit {0}) (w' : Work)
    → recompute_with user_id problem_id submit_count w ≡ (some u, w')
    → w'.tables
      ≡ upserted
          (recomputed user_id problem_id submit_count (first_accepted user_id problem_id w.tables))
          w.tables
unfolding recompute_with upsert_status query execute take_fault
recompute_with-Gives user_id problem_id submit_count w u w' h = ground (arith, h)

recompute-Gives :
    (user_id problem_id : ℕ) (w : Work) (u : Unit {0}) (w' : Work)
    → recompute user_id problem_id w ≡ (some u, w')
    → w'.tables ≡ recomputed_tables user_id problem_id w.tables
unfolding recompute find_status query take_fault recompute_with upsert_status execute
recompute-Gives user_id problem_id w u w' h =
    elim (Option-cases (status_of user_id problem_id w.tables)) [
      | inl e ↦ ground (arith, h, e)
      | inr (s, e) ↦ ground (arith, h, e)
    ]

-- What a rejudgement that gave a result did.
abbrev pub Did : SubmissionRecord → Tables → Tables → Type 0
Did updated before after =
    (¬ (submission_of updated.id before ≡ none))
    × (after
        ≡ recomputed_tables updated.user_id updated.problem_id (updated_submission updated before))

recomputed-Gives :
    (user_id problem_id : ℕ) (w : Work) (u : Unit {0}) (w' : Work)
    → Gives (or_fail rejudge_failed (recompute user_id problem_id)) w u w'
    → w'.tables ≡ recomputed_tables user_id problem_id w.tables
unfolding or_fail
recomputed-Gives user_id problem_id w u w' h =
    recompute-Gives user_id problem_id w u w' (ground (arith, h.run))

updated-Gives :
    (updated : SubmissionRecord) (w : Work) (u : Unit {0}) (w' : Work)
    → Gives (or_fail rejudge_failed (update_submission updated)) w u w'
    → w'.tables ≡ updated_submission updated w.tables
unfolding update_submission
updated-Gives updated w u w' h =
    ground
      (arith, execute-Gives rejudge_failed (λ t. some (tt, updated_submission updated t)) w u w' h)

read-stored :
    (id : ℕ) (t : Tables) (row : SubmissionRecord)
    → read_submission id t ≡ some row
    → submission_of id t ≡ none
    → ⊥
unfolding read_submission
read-stored id t row h gone =
    let there = loaded-there load_submission (submission_of id t) row h in cc (gone, there.1)

rewrite-Gives :
    (updated : SubmissionRecord) (found : Option SubmissionRecord) (w : Work) (u : Unit {0})
    (w' : Work)
    → found ≡ read_submission updated.id w.tables
    → Gives (rewrite_found updated found) w u w'
    → Did updated w.tables w'.tables
unfolding rewrite_found ◌>>◌
rewrite-Gives updated none w u w' e h = absurd (give_up-Gives was_deleted u w w' h)
rewrite-Gives updated (some row) w u w' e h =
    let c = >>=-Chained _ (λ _. or_fail rejudge_failed _) w u w' h in
    let written = updated-Gives updated w c.value c.work c.before in
    let counted = recomputed-Gives _ _ c.work u w' c.behind in
    (
      λ gone. read-stored updated.id w.tables row (sym e) gone,
      counted ∙ ap (recomputed_tables updated.user_id updated.problem_id) written,
    )

pub body-Gives :
    (updated : SubmissionRecord) (w : Work) (u : Unit {0}) (w' : Work)
    → Gives (rejudge_body updated) w u w'
    → Did updated w.tables w'.tables
unfolding rejudge_body find_submission
body-Gives updated w u w' h =
    let c = >>=-Chained _ (rewrite_found updated) w u w' h in
    let found = query-Gives rejudge_failed (read_submission updated.id) w c.value c.work c.before in
    subst (λ t. Did updated t w'.tables) found.1
      (rewrite-Gives updated c.value c.work u w'
        (found.0 ∙ ap (read_submission updated.id) (sym found.1)) c.behind)
