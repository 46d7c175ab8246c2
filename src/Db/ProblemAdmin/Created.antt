-- ===== src/Db/ProblemAdmin/Created.antt =====
-- What the creation of a problem promises, against what its transaction does; and that a problem of
-- an accepted request can be read back.
use vibe_coding.Prelude.{
  ℕ, Bool-cases, List, All, true, ◌≡◌, ◌∙◌, refl, sym, ap, subst, some, ◌⊎◌, inl, inr, [], ◌∷◌,
  ◌++◌, arith,
}
use vibe_coding.Prelude.Text.{Bytes, codes, text_eq, text_eq_iff}
use vibe_coding.Db.Tables.{Tables, ProblemRecord, select_one, count_rows}
use vibe_coding.Db.Rows.{select-append}
use vibe_coding.Db.Columns.{column_text, load_problem, loaded, column_text-append}
use vibe_coding.Db.Connection.{Work, Conn, durable, or_fail, ◌>>◌}
use vibe_coding.Db.Connection.Atomic.{Atomic, transaction-Atomic}
use vibe_coding.Db.Connection.Bodies.{
  Gives, >>=-Chained, pass-Gives, execute-Gives, Committed-Gives,
}
use vibe_coding.Db.Problems.{problem_of, read_problem}
use vibe_coding.Db.ProblemAdmin.{
  ProblemRefusal, admin_error, has_problem_id, problem_row, added_problem, insert_problem,
  create_body, create_problem,
}
use vibe_coding.Db.ProblemAdmin.Samples.{added_samples, samples-Gives}
use vibe_coding.Problem.Json.{Json}
use vibe_coding.Problem.Tags.{join_tags, split_tags}
use vibe_coding.Problem.Tags.RoundTrip.{split_tags-join_tags}
use vibe_coding.Problem.Validation.{ProblemData, parse_create_problem, is_valid_difficulty}
use vibe_coding.Problem.Validation.Accepted.{IsDifficulty, parse_create_problem-IsProblem}

-- A creation as its callers see it: one row under the next key, and behind the other test points the
-- samples in their order.
abbrev pub IsCreated : Bytes → ProblemData → ℕ → Tables → Tables → Type 0
IsCreated now problem id before after =
    (id ≡ before.next_problem)
    × (after ≡ added_samples id 0 problem.samples (added_problem (problem_row now problem) before))

insert-Gives :
    (now : Bytes) (problem : ProblemData) (w : Work) (id : ℕ) (w' : Work)
    → Gives (or_fail admin_error (insert_problem now problem)) w id w'
    → (id ≡ w.tables.next_problem) × (w'.tables ≡ added_problem (problem_row now problem) w.tables)
unfolding insert_problem
insert-Gives now problem w id w' h = ground (arith, execute-Gives admin_error _ w id w' h)

body-Gives :
    (now : Bytes) (problem : ProblemData) (w : Work) (id : ℕ) (w' : Work)
    → Gives (create_body now problem) w id w'
    → IsCreated now problem id w.tables w'.tables
unfolding create_body ◌>>◌
body-Gives now problem w id w' h =
    let c₁ = >>=-Chained _ _ w id w' h in
    let inserted = insert-Gives now problem w c₁.value c₁.work c₁.before in
    let c₂ = >>=-Chained _ _ c₁.work id w' c₁.behind in
    let samples = samples-Gives c₁.value 0 problem.samples c₁.work c₂.value c₂.work c₂.before in
    let passed = pass-Gives {E = ProblemRefusal} c₁.value id c₂.work w' c₂.behind in
    (
      passed.0 ∙ inserted.0,
      ap (λ v. v.tables) passed.1
          ∙ samples
          ∙ ap (added_samples c₁.value 0 problem.samples) inserted.1
          ∙ ap
              (λ key.
                added_samples key 0 problem.samples
                  (added_problem (problem_row now problem) w.tables))
              (sym passed.0),
    )

-- What an answer says of the database.
abbrev pub Creates : Bytes → ProblemData → Tables → Tables → ProblemRefusal ⊎ ℕ → Type 0
Creates now problem before after (inl _) = after ≡ before
Creates now problem before after (inr id) = IsCreated now problem id before after

creates :
    (now : Bytes) (problem : ProblemData) (before after : Tables) (r : ProblemRefusal ⊎ ℕ)
    → Atomic (create_body now problem) before after r
    → Creates now problem before after r
creates now problem before after (inl _) h = h
creates now problem before after (inr id) h =
    subst (IsCreated now problem id before) (sym h.kept)
      (body-Gives now problem _ id _ (Committed-Gives (create_body now problem) before after id h))

-- Whichever calls of the database fail: a creation adds one row under the next key and its samples in
-- their order, and nothing else; or it changes nothing durable.
pub create_problem-Creates :
    (now : Bytes) (problem : ProblemData) (c : Conn)
    → Creates now problem
        (durable c)
        (durable (create_problem now problem c).1)
        (create_problem now problem c).0
unfolding create_problem
create_problem-Creates now problem c =
    creates now problem (durable c) _ _ (transaction-Atomic admin_error (create_body now problem) c)

created-found :
    (now : Bytes) (problem : ProblemData) (id : ℕ) (before after : Tables)
    → count_rows (has_problem_id before.next_problem) before.problems ≡ 0
    → IsCreated now problem id before after
    → problem_of id after ≡ some (problem_row now problem id)
unfolding problem_of added_problem problem_row
created-found now problem id before after fresh h =
    ap (λ t. select_one (has_problem_id id) t.problems) h.1
    ∙ ap
        (λ key.
          select_one (has_problem_id key)
            (before.problems ++ problem_row now problem before.next_problem ∷ []))
        h.0
    ∙ select-append (has_problem_id before.next_problem) before.problems
        (problem_row now problem before.next_problem) fresh (ground arith)
    ∙ ap (λ key. some (problem_row now problem key)) (sym h.0)

-- The row of a problem shows what the problem is, its tags read from their column.
pub record Shows (problem : ProblemData) (row : ProblemRecord) : Type 0 where
  pub title : row.title ≡ problem.title
  pub description : row.description ≡ problem.description
  pub difficulty : row.difficulty ≡ problem.difficulty
  pub tags : split_tags row.tags ≡ problem.tags
  pub time_limit_ms : row.time_limit_ms ≡ problem.time_limit_ms
  pub memory_limit_kb : row.memory_limit_kb ≡ problem.memory_limit_kb
  pub visible : row.visible ≡ problem.visible

difficulty-whole :
    (difficulty : Bytes) → IsDifficulty difficulty → column_text difficulty ≡ difficulty
unfolding is_valid_difficulty column_text
difficulty-whole difficulty h = elim (Bool-cases (text_eq difficulty (codes "easy"))) [
  | inl e ↦ whole (codes "easy") refl e
  | inr e ↦ elim (Bool-cases (text_eq difficulty (codes "medium"))) [
    | inl d ↦ whole (codes "medium") refl d
    | inr d ↦ whole (codes "hard") refl (ground (arith, e, d, h))
  ]
]
  where
    whole :
        (word : Bytes)
        → column_text word ≡ word
        → text_eq difficulty word ≡ true
        → column_text difficulty ≡ difficulty
    whole word w e =
        let same = (text_eq_iff difficulty word).0 e in ap column_text same ∙ w ∙ sym same

-- Tags without a NUL make a text without one.
column_text-join_tags :
    (tags : List Bytes)
    → All (λ tag. column_text tag ≡ tag) tags
    → column_text (join_tags tags) ≡ join_tags tags
unfolding join_tags column_text
column_text-join_tags [] h = refl
column_text-join_tags (tag ∷ []) h = h.0
column_text-join_tags (tag ∷ next ∷ tags) h =
    column_text-append tag (b',' ∷ join_tags (next ∷ tags)) h.0
      (ap (λ rest. b',' ∷ rest) (column_text-join_tags (next ∷ tags) h.1))

-- Where the next key is new and neither the title nor the description nor a tag has a NUL, a problem
-- that was created from an accepted request is read under the key that was given back, and shows what
-- was asked for, with the tags in their order; whichever calls of the database fail.
pub create_problem-Shows :
    (J : Json) (body : J.Value) (problem : ProblemData) (now : Bytes) (c : Conn) (id : ℕ)
    → parse_create_problem J body ≡ inr problem
    → column_text problem.title ≡ problem.title
    → column_text problem.description ≡ problem.description
    → All (λ tag. column_text tag ≡ tag) problem.tags
    → count_rows (has_problem_id (durable c).next_problem) (durable c).problems ≡ 0
    → (create_problem now problem c).0 ≡ inr id
    → (row : ProblemRecord) × (read_problem id (durable (create_problem now problem c).1)
        ≡ some row)
      × Shows problem row
unfolding problem_row load_problem read_problem loaded
create_problem-Shows J body problem now c id parsed title description tags fresh made =
    let created =
      subst (Creates now problem (durable c) (durable (create_problem now problem c).1)) made
        (create_problem-Creates now problem c) in
    let valid = parse_create_problem-IsProblem J body problem parsed in
    (
      load_problem (problem_row now problem id),
      ap (loaded load_problem) (
          created-found now problem id (durable c) (durable (create_problem now problem c).1) fresh
            created),
      record {
        title = title;
        description = description;
        difficulty = difficulty-whole problem.difficulty valid.difficulty;
        tags =
            ap split_tags (column_text-join_tags problem.tags tags)
            ∙ split_tags-join_tags problem.tags valid.tags.0.shapes;
        time_limit_ms = refl;
        memory_limit_kb = refl;
        visible = refl;
      },
    )
