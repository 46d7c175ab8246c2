-- ===== src/Db/TestcaseAdmin/Changed.antt =====
-- What the administration of test points keeps, and where it puts a new one.
use vibe_coding.Prelude.{
  ℕ, ◌≡◌, ◌∙◌, sym, ap, subst, Option, none, some, ◌⊎◌, inl, inr, arith, All, [], ◌∷◌, ◌++◌, false,
}
use vibe_coding.Prelude.Int.{ℤ, pos, ◌≤ℤ◌, ◌<ℤ◌}
use vibe_coding.Db.Tables.{Tables, ProblemRecord, TestcaseRow, select_all}
use vibe_coding.Db.Connection.{Work, Conn, durable, or_fail, pass, give_up}
use vibe_coding.Db.Connection.Atomic.{Atomic, transaction-Atomic}
use vibe_coding.Db.Connection.Bodies.{
  Gives, >>=-Chained, pass-Gives, give_up-Gives, query-Gives, execute-Gives, Committed-Gives,
}
use vibe_coding.Db.Problems.{read_problem, read_problem-found, problem_of, find_problem}
use vibe_coding.Db.ProblemAdmin.{is_testcase_of, added_testcase}
use vibe_coding.Db.TestcaseAdmin.{
  TestcaseRefusal, parent_not_found, testcase_error, next_ord, last_ord, checked_ord, chosen_ord,
  hidden_row, insert_hidden, create_hidden, create_testcase_body, create_testcase,
}
use vibe_coding.Db.TestcaseAdmin.Orders.{next_ord-max_ord}
use vibe_coding.Problem.TestcaseValidation.{TestcaseData, max_testcase_ord}

-- A creation: behind its problem's check, one hidden test point with the place that was given, or with
-- the one behind all others.
pub record IsHiddenAdded (problem_id : ℕ) (testcase : TestcaseData) (id : ℕ) (ord : ℤ)
    (before after : Tables) : Type 0 where
  pub parent : ¬ (problem_of problem_id before ≡ none)
  pub key : id ≡ before.next_testcase
  pub given : (place : ℤ) → testcase.ord ≡ some place → ord ≡ place
  pub chosen :
      testcase.ord ≡ none
      → (ord ≡ next_ord (last_ord problem_id before)) × (ord ≤ℤ pos max_testcase_ord)
  pub tables : after ≡ added_testcase (hidden_row problem_id ord testcase) before

checked-Gives :
    (ord : ℤ) (w : Work) (given : ℤ) (w' : Work)
    → Gives (checked_ord ord) w given w'
    → (given ≡ ord) × (ord ≤ℤ pos max_testcase_ord) × (w' ≡ w)
unfolding checked_ord pass give_up
checked-Gives ord w given w' h = ground (arith, h.run)

-- What was chosen as the place of a test point.
abbrev Chosen : ℕ → Option ℤ → ℤ → Tables → Type 0
Chosen problem_id asked ord t =
    ((place : ℤ) → asked ≡ some place → ord ≡ place)
    × (asked ≡ none → (ord ≡ next_ord (last_ord problem_id t)) × (ord ≤ℤ pos max_testcase_ord))

chosen_ord-Gives :
    (problem_id : ℕ) (asked : Option ℤ) (w : Work) (ord : ℤ) (w' : Work)
    → Gives (chosen_ord problem_id asked) w ord w'
    → Chosen problem_id asked ord w.tables × (w'.tables ≡ w.tables)
unfolding chosen_ord
chosen_ord-Gives problem_id (some place) w ord w' h =
    let passed = pass-Gives {E = TestcaseRefusal} place ord w w' h in
    ((λ other e. ground (arith, passed.0, e), λ e. absurd (cc e)), ap (λ v. v.tables) passed.1)
chosen_ord-Gives problem_id none w ord w' h =
    let c = >>=-Chained _ _ w ord w' h in
    let last = query-Gives testcase_error (last_ord problem_id) w c.value c.work c.before in
    let checked = checked-Gives (next_ord c.value) c.work ord w' c.behind in
    (
      (
        λ other e. absurd (cc e),
        λ _. (
          checked.0 ∙ ap next_ord last.0,
          subst (λ i. i ≤ℤ pos max_testcase_ord) (sym checked.0) checked.1,
        ),
      ),
      ap (λ v. v.tables) checked.2 ∙ last.1,
    )

inserted-Gives :
    (problem_id : ℕ) (ord : ℤ) (testcase : TestcaseData) (w : Work) (id : ℕ) (w' : Work)
    → Gives (or_fail testcase_error (insert_hidden problem_id ord testcase)) w id w'
    → (id ≡ w.tables.next_testcase)
      × (w'.tables ≡ added_testcase (hidden_row problem_id ord testcase) w.tables)
unfolding insert_hidden
inserted-Gives problem_id ord testcase w id w' h =
    ground (arith, execute-Gives testcase_error _ w id w' h)

added-Gives :
    (problem_id : ℕ) (testcase : TestcaseData) (found : Option ProblemRecord) (w : Work) (r : ℕ × ℤ)
    (w' : Work)
    → read_problem problem_id w.tables ≡ found
    → Gives (create_hidden problem_id testcase found) w r w'
    → IsHiddenAdded problem_id testcase r.0 r.1 w.tables w'.tables
unfolding create_hidden
added-Gives problem_id testcase none w r w' e h = absurd (give_up-Gives parent_not_found r w w' h)
added-Gives problem_id testcase (some p) w r w' e h =
    let c₁ = >>=-Chained _ _ w r w' h in
    let chosen = chosen_ord-Gives problem_id testcase.ord w c₁.value c₁.work c₁.before in
    let c₂ = >>=-Chained _ _ c₁.work r w' c₁.behind in
    let inserted = inserted-Gives problem_id c₁.value testcase c₁.work c₂.value c₂.work c₂.before in
    let passed = pass-Gives {E = TestcaseRefusal} (c₂.value, c₁.value) r c₂.work w' c₂.behind in
    subst (λ s. IsHiddenAdded problem_id testcase s.0 s.1 w.tables w'.tables) (sym passed.0)
      (record {
        parent = read_problem-found problem_id w.tables p e;
        key = inserted.0 ∙ ap (λ t. t.next_testcase) chosen.1;
        given = chosen.0.0;
        chosen = chosen.0.1;
        tables =
            ap (λ v. v.tables) passed.1
            ∙ inserted.1
            ∙ ap (added_testcase (hidden_row problem_id c₁.value testcase)) chosen.1;
      })

pub create-Gives :
    (problem_id : ℕ) (testcase : TestcaseData) (w : Work) (r : ℕ × ℤ) (w' : Work)
    → Gives (create_testcase_body problem_id testcase) w r w'
    → IsHiddenAdded problem_id testcase r.0 r.1 w.tables w'.tables
unfolding create_testcase_body find_problem
create-Gives problem_id testcase w r w' h =
    let c = >>=-Chained _ (create_hidden problem_id testcase) w r w' h in
    let found = query-Gives testcase_error (read_problem problem_id) w c.value c.work c.before in
    subst (λ t. IsHiddenAdded problem_id testcase r.0 r.1 t w'.tables) found.1
      (added-Gives problem_id testcase c.value c.work r w'
        (ap (read_problem problem_id) found.1 ∙ sym found.0) c.behind)

-- What an answer to a creation says of the database.
abbrev pub AddsHidden : ℕ → TestcaseData → Tables → Tables → TestcaseRefusal ⊎ (ℕ × ℤ) → Type 0
AddsHidden problem_id testcase before after (inl _) = after ≡ before
AddsHidden problem_id testcase before after (inr (id, ord)) =
    IsHiddenAdded problem_id testcase id ord before after

adds :
    (problem_id : ℕ) (testcase : TestcaseData) (before after : Tables)
    (r : TestcaseRefusal ⊎ (ℕ × ℤ))
    → Atomic (create_testcase_body problem_id testcase) before after r
    → AddsHidden problem_id testcase before after r
adds problem_id testcase before after (inl _) h = h
adds problem_id testcase before after (inr (id, ord)) h =
    subst (IsHiddenAdded problem_id testcase id ord before) (sym h.kept) (
      create-Gives problem_id testcase _ (id, ord) _
        (Committed-Gives (create_testcase_body problem_id testcase) before after (id, ord) h))

pub create_testcase-AddsHidden :
    (problem_id : ℕ) (testcase : TestcaseData) (c : Conn)
    → AddsHidden problem_id testcase
        (durable c)
        (durable (create_testcase problem_id testcase c).1)
        (create_testcase problem_id testcase c).0
unfolding create_testcase
create_testcase-AddsHidden problem_id testcase c =
    adds problem_id testcase (durable c) _ _
      (transaction-Atomic testcase_error (create_testcase_body problem_id testcase) c)

-- A test point that was created without a place is a row behind all rows, hidden, with the next key and
-- the texts that were given; its place, which is answered with the key, is behind that of every other
-- test point of its problem and at most 1000000; whichever calls of the database fail.
pub create_testcase-last :
    (problem_id : ℕ) (testcase : TestcaseData) (c : Conn) (id : ℕ) (ord : ℤ)
    → testcase.ord ≡ none
    → (create_testcase problem_id testcase c).0 ≡ inr (id, ord)
    → All
        (λ (tc : TestcaseRow). tc.ord <ℤ ord)
        (select_all (is_testcase_of problem_id) (durable c).testcases)
      × (ord ≤ℤ pos max_testcase_ord)
      × (id ≡ (durable c).next_testcase)
      × ((durable (create_testcase problem_id testcase c).1).testcases
          ≡ (durable c).testcases
            ++ record {
              id = id;
              problem_id = problem_id;
              ord = ord;
              input = testcase.input;
              output = testcase.output;
              is_sample = false;
            }
              ∷ [])
unfolding last_ord hidden_row added_testcase
create_testcase-last problem_id testcase c id ord asked made =
    let added =
      subst
        (AddsHidden problem_id testcase (durable c)
          (durable (create_testcase problem_id testcase c).1))
        made (create_testcase-AddsHidden problem_id testcase c) in
    let chosen = added.chosen asked in
    let rows = select_all (is_testcase_of problem_id) (durable c).testcases in
    (
      subst (λ place. All (λ (tc : TestcaseRow). tc.ord <ℤ place) rows) (sym chosen.0)
          (next_ord-max_ord rows),
      chosen.1,
      added.key,
      ap (λ (t : Tables). t.testcases) added.tables
          ∙ ap (λ key. (durable c).testcases ++ hidden_row problem_id ord testcase key ∷ [])
              (sym added.key),
    )
