-- ===== src/Db/TestcaseAdmin/Edited.antt =====
-- The other two operations of the administration of test points, and all three.
use vibe_coding.Prelude.{
  ℕ, ◌≡◌, ◌∙◌, sym, ap, subst, Bool, Option, none, some, inl, inr, List, [], ◌∷◌, arith, All,
  Bool-cases,
}
use vibe_coding.Prelude.Int.{ℤ}
use vibe_coding.Db.Tables.{Tables, TestcaseRow, select_one}
use vibe_coding.Db.Columns.{load_testcase, loaded-there}
use vibe_coding.Db.Connection.{Work, Conn, durable, ◌>>◌}
use vibe_coding.Db.Connection.Bodies.{
  Gives, >>=-Chained, pass-Gives, give_up-Gives, query-Gives, write-Gives, transaction-keeps,
}
use vibe_coding.Db.ProblemAdmin.{value_or}
use vibe_coding.Db.ProblemAdmin.Rows.{select_all-kept}
use vibe_coding.Db.TestcaseAdmin.{
  TestcaseRefusal, testcase_not_found, testcase_error, is_hidden_testcase, hidden_of, read_hidden,
  find_hidden, create_testcase, patched_testcase, updated_testcase, update_hidden,
  update_testcase_body, update_testcase, without_testcase, remove_hidden, remove_testcase_body,
  remove_testcase,
}
use vibe_coding.Db.TestcaseAdmin.Kept.{
  Keeps, Keeps-same, updated-samples, updated-ords, select-All, create_testcase-Keeps,
}
use vibe_coding.Problem.Fields.Range.{IfSome}
use vibe_coding.Problem.TestcaseValidation.{
  TestcaseData, TestcasePatch, IsTestcase, IsTestcasePatch, IsOrd,
}

select_one-All :
    {A : Type 0} (P : A → Type 0) (q : A → Bool) (rows : List A) (a : A)
    → All P rows
    → select_one q rows ≡ some a
    → P a
unfolding select_one
select_one-All P q [] a h e = absurd (cc e)
select_one-All P q (row ∷ rows) a h e = elim (Bool-cases (q row)) [
  | inl d ↦ let same : row ≡ a = ground (arith, d, e) in subst P same h.0
  | inr d ↦ select_one-All P q rows a h.1 (ground (arith, d, e))
]

value_or-holds :
    {A : Type 0} (P : A → Type 0) (o : Option A) (a : A) → IfSome P o → P a → P (value_or o a)
unfolding value_or
value_or-holds P none a h k = k
value_or-holds P (some b) a h k = h

updated-Keeps :
    (problem_id id : ℕ) (patch : TestcasePatch) (tc : TestcaseRow) (before : Tables)
    → IsTestcasePatch patch
    → hidden_of problem_id id before ≡ some tc
    → Keeps before
        (updated_testcase problem_id id (patched_testcase patch (load_testcase tc)) before)
unfolding updated_testcase hidden_of patched_testcase load_testcase
updated-Keeps problem_id id patch tc before valid e = record {
  samples =
      updated-samples problem_id id (patched_testcase patch (load_testcase tc)) before.testcases;
  ords = λ h.
      updated-ords problem_id id (patched_testcase patch (load_testcase tc)) before.testcases
        (value_or-holds IsOrd patch.ord tc.ord valid.ord (
          select_one-All (λ row. IsOrd row.ord) (is_hidden_testcase problem_id id) before.testcases
            tc h e))
        h;
}

removed-Keeps :
    (problem_id id : ℕ) (before : Tables) → Keeps before (without_testcase problem_id id before)
unfolding without_testcase
removed-Keeps problem_id id before = record {
  samples =
      select_all-kept (is_hidden_testcase problem_id id) (λ tc. tc.is_sample)
        (λ tc e. ground (arith, e)) before.testcases;
  ords = λ h. select-All _ _ before.testcases h;
}

update-Gives :
    (problem_id id : ℕ) (patch : TestcasePatch) (found : Option TestcaseRow) (w : Work) (ord : ℤ)
    (w' : Work)
    → IsTestcasePatch patch
    → read_hidden problem_id id w.tables ≡ found
    → Gives (update_hidden problem_id id patch found) w ord w'
    → Keeps w.tables w'.tables
unfolding update_hidden ◌>>◌ read_hidden
update-Gives problem_id id patch none w ord w' valid e h =
    absurd (give_up-Gives testcase_not_found ord w w' h)
update-Gives problem_id id patch (some tc) w ord w' valid e h =
    let there = loaded-there load_testcase (hidden_of problem_id id w.tables) tc e in
    let c = >>=-Chained _ _ w ord w' h in
    let passed = pass-Gives {E = TestcaseRefusal} _ ord c.work w' c.behind in
    let written =
      write-Gives testcase_error (updated_testcase problem_id id (patched_testcase patch tc)) w
        c.value c.work c.before
      ∙ ap (λ row. updated_testcase problem_id id (patched_testcase patch row) w.tables)
          (sym there.2) in
    subst (Keeps w.tables) (sym (ap (λ v. v.tables) passed.1 ∙ written))
      (updated-Keeps problem_id id patch there.0 w.tables valid there.1)

remove-Gives :
    (problem_id id : ℕ) (found : Option TestcaseRow) (w : Work) (u : Unit {0}) (w' : Work)
    → Gives (remove_hidden problem_id id found) w u w'
    → Keeps w.tables w'.tables
unfolding remove_hidden
remove-Gives problem_id id none w u w' h = absurd (give_up-Gives testcase_not_found u w w' h)
remove-Gives problem_id id (some tc) w u w' h =
    subst (Keeps w.tables)
      (sym (write-Gives testcase_error (without_testcase problem_id id) w u w' h))
      (removed-Keeps problem_id id w.tables)

update_testcase-Keeps :
    (problem_id id : ℕ) (patch : TestcasePatch) (c : Conn)
    → IsTestcasePatch patch
    → Keeps (durable c) (durable (update_testcase problem_id id patch c).1)
unfolding update_testcase update_testcase_body find_hidden
update_testcase-Keeps problem_id id patch c valid =
    transaction-keeps (update_testcase_body problem_id id patch) Keeps testcase_error Keeps-same
      (λ w ord w' h.
        let e = >>=-Chained _ (update_hidden problem_id id patch) w ord w' h in
        let found =
          query-Gives testcase_error (read_hidden problem_id id) w e.value e.work e.before in
        subst (λ t. Keeps t w'.tables) found.1
          (update-Gives problem_id id patch e.value e.work ord w' valid
            (ap (read_hidden problem_id id) found.1 ∙ sym found.0) e.behind))
      c

remove_testcase-Keeps :
    (problem_id id : ℕ) (c : Conn) → Keeps (durable c) (durable (remove_testcase problem_id id c).1)
unfolding remove_testcase remove_testcase_body find_hidden
remove_testcase-Keeps problem_id id c =
    transaction-keeps (remove_testcase_body problem_id id) Keeps testcase_error Keeps-same
      (λ w u w' h.
        let e = >>=-Chained _ (remove_hidden problem_id id) w u w' h in
        let found =
          query-Gives testcase_error (read_hidden problem_id id) w e.value e.work e.before in
        subst (λ t. Keeps t w'.tables) found.1
          (remove-Gives problem_id id e.value e.work u w' e.behind))
      c

-- Whichever calls of the database fail, no creation, change or removal of a test point changes a
-- sample, and each keeps every place in the order within 0 and 1000000, where what was asked for was
-- accepted.
pub administration-Keeps :
    (problem_id id : ℕ) (testcase : TestcaseData) (patch : TestcasePatch) (c : Conn)
    → IsTestcase testcase
    → IsTestcasePatch patch
    → Keeps (durable c) (durable (create_testcase problem_id testcase c).1)
      × Keeps (durable c) (durable (update_testcase problem_id id patch c).1)
      × Keeps (durable c) (durable (remove_testcase problem_id id c).1)
administration-Keeps problem_id id testcase patch c valid valid_patch = (
  create_testcase-Keeps problem_id testcase c valid,
  update_testcase-Keeps problem_id id patch c valid_patch,
  remove_testcase-Keeps problem_id id c,
)
