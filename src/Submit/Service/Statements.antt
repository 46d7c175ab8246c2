-- ===== src/Submit/Service/Statements.antt =====
-- The settlement transaction, statement by statement: what it did where it gave a result.
use vibe_coding.Prelude.{
  if-cases, ℕ, ◌≡◌, ◌⊎◌, inl, inr, refl, sym, ap, ◌∙◌, subst, Bool, true, false, Option, none, some,
  arith, if◌then◌else◌, is_empty, Bool-cases,
}
use vibe_coding.Prelude.Text.{Bytes}
use vibe_coding.Db.Tables.{Tables, ProblemRecord, SubmissionRecord, StatusRow}
use vibe_coding.Db.Connection.{Work, ◌>>◌, pass, or_fail}
use vibe_coding.Db.Connection.Bodies.{
  Gives, >>=-Chained, pass-Gives, give_up-Gives, query-Gives, execute-Gives,
}
use vibe_coding.Db.Problems.{read_problem, find_problem}
use vibe_coding.Db.Submissions.{
  insert_submission, add_submission, added_submission, has_parents, find_status, status_of,
  state_of, status_row, upsert_status, upserted,
}
use vibe_coding.Db.InFlight.{
  remove_by_task_id, removed_task, has_task, mark_interrupted, marked_interrupted,
}
use vibe_coding.Submit.Status.{compute_status_update}
use vibe_coding.Submit.Service.Settle.{
  Refusal, no_problem, was_settled, failed, Settlement, settled, stopped_short, problem_gone,
  was_removed, remove_in_flight, write_submission, settle_found, settle_body,
}

-- The statements of a settlement, put together.
abbrev pub without_task : Bytes → Tables → Tables
without_task task_id t = if is_empty task_id then t else removed_task task_id t

abbrev pub settled_tables : SubmissionRecord → Bool → Tables → Tables
settled_tables row accepted t =
    upserted
      (status_row row.user_id row.problem_id (
        compute_status_update (state_of (status_of row.user_id row.problem_id t)) accepted
          row.created_at))
      (added_submission row t)

insert-Gives :
    (row : SubmissionRecord) (w : Work) (id : ℕ) (w' : Work)
    → Gives (or_fail failed (insert_submission row)) w id w'
    → (id ≡ w.tables.next_submission) × (w'.tables ≡ added_submission row w.tables)
unfolding insert_submission add_submission
insert-Gives row w id w' h = ground (arith, execute-Gives failed (add_submission row) w id w' h)

upsert-Gives :
    (new : StatusRow) (w : Work) (u : Unit {0}) (w' : Work)
    → Gives (or_fail failed (upsert_status new)) w u w'
    → w'.tables ≡ upserted new w.tables
unfolding upsert_status
upsert-Gives new w u w' h = ground (
  arith,
  execute-Gives failed
      (λ t. if has_parents new.user_id new.problem_id t then some (tt, upserted new t) else none) w
      u w' h,
)

status-added :
    (user_id problem_id : ℕ) (row : SubmissionRecord) (t : Tables)
    → status_of user_id problem_id (added_submission row t) ≡ status_of user_id problem_id t
unfolding status_of added_submission
status-added user_id problem_id row t = refl

assembled :
    (row : SubmissionRecord) (accepted : Bool) (t₀ t₁ t₂ t₃ : Tables) (found : Option StatusRow)
    → t₁ ≡ added_submission row t₀
    → found ≡ status_of row.user_id row.problem_id t₁
    → t₂ ≡ t₁
    → t₃
      ≡ upserted
          (status_row row.user_id row.problem_id
            (compute_status_update (state_of found) accepted row.created_at))
          t₂
    → t₃ ≡ settled_tables row accepted t₀
assembled row accepted t₀ t₁ t₂ t₃ found a b c d =
    cc (a, b, c, d, status-added row.user_id row.problem_id row t₀)

write-Gives :
    (row : SubmissionRecord) (accepted : Bool) (w : Work) (s : Settlement) (w' : Work)
    → Gives (write_submission row accepted) w s w'
    → (s ≡ settled w.tables.next_submission) × (w'.tables ≡ settled_tables row accepted w.tables)
unfolding write_submission ◌>>◌ find_status
write-Gives row accepted w s w' h =
    let c₁ = >>=-Chained _ _ w s w' h in
    let inserted = insert-Gives row w c₁.value c₁.work c₁.before in
    let c₂ = >>=-Chained _ _ c₁.work s w' c₁.behind in
    let found =
      query-Gives failed (status_of row.user_id row.problem_id) c₁.work c₂.value c₂.work
        c₂.before in
    let c₃ = >>=-Chained _ _ c₂.work s w' c₂.behind in
    let put = upsert-Gives _ c₂.work c₃.value c₃.work c₃.before in
    let passed = pass-Gives (settled c₁.value) s c₃.work w' c₃.behind in
    (
      passed.0 ∙ ap settled inserted.0,
      ap (λ v. v.tables) passed.1
          ∙ assembled row accepted w.tables c₁.work.tables c₂.work.tables c₃.work.tables c₂.value
              inserted.1 found.0 found.1 put,
    )

was_removed-Gives :
    (removed : Bool) (w : Work) (u : Unit {0}) (w' : Work)
    → Gives (was_removed removed) w u w'
    → (removed ≡ true) × (w' ≡ w)
unfolding was_removed
was_removed-Gives true w u w' h = (refl, (pass-Gives {E = Refusal} tt u w w' h).1)
was_removed-Gives false w u w' h = absurd (give_up-Gives was_settled u w w' h)

deleted-Gives :
    (task_id : Bytes) (w : Work) (removed : Bool) (w' : Work)
    → Gives (or_fail failed (remove_by_task_id task_id)) w removed w'
    → (removed ≡ has_task task_id w.tables) × (w'.tables ≡ removed_task task_id w.tables)
unfolding remove_by_task_id
deleted-Gives task_id w removed w' h = ground (
  arith,
  execute-Gives failed (λ t. some (has_task task_id t, removed_task task_id t)) w removed w' h,
)

-- A task that was removed was there.
remove-Gives :
    (task_id : Bytes) (w : Work) (u : Unit {0}) (w' : Work)
    → Gives (remove_in_flight task_id) w u w'
    → ((is_empty task_id ≡ true) ⊎ (has_task task_id w.tables ≡ true))
      × (w'.tables ≡ without_task task_id w.tables)
unfolding remove_in_flight
remove-Gives task_id w u w' h = elim (Bool-cases (is_empty task_id)) [
  | inl e ↦
      let passed = pass-Gives {E = Refusal} tt u w w' (record { run = ground (arith, e, h.run) }) in
      (inl e, rw e (ap (λ v. v.tables) passed.1))
  | inr e ↦
      let c =
        >>=-Chained (or_fail failed (remove_by_task_id task_id)) was_removed w u w'
          (record { run = ground (arith, e, h.run) }) in
      let deleted = deleted-Gives task_id w c.value c.work c.before in
      let was = was_removed-Gives c.value c.work u w' c.behind in
      (inr (sym deleted.0 ∙ was.0), rw e (ap (λ v. v.tables) was.1 ∙ deleted.1))
]

-- What a settlement that gave a result did.
abbrev pub Did : SubmissionRecord → Bool → Bytes → Tables → Tables → Settlement → Type 0
Did row accepted task_id before after (settled id) =
    (id ≡ before.next_submission)
    × ((is_empty task_id ≡ true) ⊎ (has_task task_id before ≡ true))
    × (after ≡ settled_tables row accepted (without_task task_id before))
Did row accepted task_id before after stopped_short =
    (is_empty task_id ≡ false) × (after ≡ marked_interrupted task_id problem_gone before)

pub next-without :
    (task_id : Bytes) (t : Tables) → (without_task task_id t).next_submission ≡ t.next_submission
unfolding removed_task
next-without task_id t =
    if-cases (λ (u : Tables). u.next_submission ≡ t.next_submission) (is_empty task_id) _ _
      (λ _. refl) (λ _. refl)

marked-Gives :
    (task_id : Bytes) (w : Work) (u : Unit {0}) (w' : Work)
    → Gives (or_fail failed (mark_interrupted task_id problem_gone)) w u w'
    → w'.tables ≡ marked_interrupted task_id problem_gone w.tables
unfolding mark_interrupted
marked-Gives task_id w u w' h = ground (
  arith,
  execute-Gives failed (λ t. some (tt, marked_interrupted task_id problem_gone t)) w u w' h,
)

found-Gives :
    (row : SubmissionRecord) (accepted : Bool) (task_id : Bytes) (found : Option ProblemRecord)
    (w : Work) (s : Settlement) (w' : Work)
    → Gives (settle_found row accepted task_id found) w s w'
    → Did row accepted task_id w.tables w'.tables s
unfolding settle_found ◌>>◌
found-Gives row accepted task_id none w s w' h = elim (Bool-cases (is_empty task_id)) [
  | inl e ↦ absurd (give_up-Gives no_problem s w w' (record { run = ground (arith, e, h.run) }))
  | inr e ↦
      let c =
        >>=-Chained (or_fail failed (mark_interrupted task_id problem_gone))
          (λ _. pass stopped_short) w s w' (record { run = ground (arith, e, h.run) }) in
      let marked = marked-Gives task_id w c.value c.work c.before in
      let passed = pass-Gives stopped_short s c.work w' c.behind in
      subst (Did row accepted task_id w.tables w'.tables) (sym passed.0)
        (e, ap (λ v. v.tables) passed.1 ∙ marked)
]
found-Gives row accepted task_id (some problem) w s w' h =
    let c = >>=-Chained (remove_in_flight task_id) (λ _. write_submission row accepted) w s w' h in
    let removed = remove-Gives task_id w c.value c.work c.before in
    let written = write-Gives row accepted c.work s w' c.behind in
    subst (Did row accepted task_id w.tables w'.tables) (sym written.0) (
      ap (λ t. t.next_submission) removed.1 ∙ next-without task_id w.tables,
      removed.0,
      written.1 ∙ ap (settled_tables row accepted) removed.1,
    )

pub body-Gives :
    (row : SubmissionRecord) (accepted : Bool) (task_id : Bytes) (w : Work) (s : Settlement)
    (w' : Work)
    → Gives (settle_body row accepted task_id) w s w'
    → Did row accepted task_id w.tables w'.tables s
unfolding settle_body find_problem
body-Gives row accepted task_id w s w' h =
    let c = >>=-Chained _ (settle_found row accepted task_id) w s w' h in
    let found = query-Gives failed (read_problem row.problem_id) w c.value c.work c.before in
    subst (λ t. Did row accepted task_id t w'.tables s) found.1
      (found-Gives row accepted task_id c.value c.work s w' c.behind)
