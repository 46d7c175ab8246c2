-- ===== src/Db/TestcaseAdmin.antt =====
-- `TestcaseAdminStore` of src/db/testcase_admin.h and testcase_admin.cpp: an administrator creates,
-- changes and removes hidden test points. `TestcaseRefusal` has the constructors of `CreateStatus`,
-- `UpdateStatus` and `DeleteStatus` that are no success.
pub mod Orders
pub mod Changed
pub mod Kept
pub mod Edited
use vibe_coding.Prelude.{
  ℕ, zero, suc, ◌+◌, Bool, false, not, ◌&&◌, Option, none, some, ◌⊎◌, inl, inr, List, [], ◌∷◌, ◌==◌,
  if◌then◌else◌,
}
use vibe_coding.Prelude.Int.{ℤ, pos, negsuc, ltb_ℤ}
use vibe_coding.Prelude.Text.{Bytes}
use vibe_coding.Db.Tables.{Tables, ProblemRecord, TestcaseRow, select_one, select_all, update_where}
use vibe_coding.Db.Columns.{load_testcase, loaded}
use vibe_coding.Db.Connection.{
  Work, Conn, Body, query, execute, transaction, ◌>>=◌, ◌>>◌, pass, give_up, or_fail,
}
use vibe_coding.Db.Problems.{find_problem}
use vibe_coding.Db.ProblemAdmin.{is_testcase_of, added_testcase, problem_is_there, value_or}
use vibe_coding.Problem.TestcaseValidation.{TestcaseData, TestcasePatch, max_testcase_ord}

pub data TestcaseRefusal : Type 0 where
  parent_not_found ord_exhausted testcase_not_found testcase_error : TestcaseRefusal

-- WHERE problem_id = ? AND id = ? AND is_sample = 0
abbrev pub is_hidden_testcase : ℕ → ℕ → TestcaseRow → Bool
is_hidden_testcase problem_id id tc =
    is_testcase_of problem_id tc && tc.id == id && not tc.is_sample

unfoldable pub hidden_of : ℕ → ℕ → Tables → Option TestcaseRow
hidden_of problem_id id t = select_one (is_hidden_testcase problem_id id) t.testcases

-- The row as it is read.
unfoldable pub read_hidden : ℕ → ℕ → Tables → Option TestcaseRow
unfolding hidden_of loaded load_testcase
read_hidden problem_id id t = loaded load_testcase (hidden_of problem_id id t)

-- `find_hidden`
unfoldable pub find_hidden : ℕ → ℕ → Work → Option (Option TestcaseRow) × Work
unfolding read_hidden
find_hidden problem_id id = query (read_hidden problem_id id)

-- MAX(ord), `none` for NULL.
unfoldable pub larger : ℤ → Option ℤ → Option ℤ
larger ord none = some ord
larger ord (some max) = some (if ltb_ℤ max ord then ord else max)

unfoldable pub max_ord : List TestcaseRow → Option ℤ
unfolding larger
max_ord [] = none
max_ord (tc ∷ rows) = larger tc.ord (max_ord rows)

-- COALESCE(…, -1), and one more.
unfoldable pub next_ord : Option ℤ → ℤ
next_ord none = pos 0
next_ord (some (pos n)) = pos (n + 1)
next_ord (some (negsuc zero)) = pos 0
next_ord (some (negsuc (suc n))) = negsuc n

unfoldable pub last_ord : ℕ → Tables → Option ℤ
unfolding max_ord
last_ord problem_id t = max_ord (select_all (is_testcase_of problem_id) t.testcases)

unfoldable pub checked_ord : ℤ → Body TestcaseRefusal ℤ
checked_ord ord = if ltb_ℤ (pos max_testcase_ord) ord then give_up ord_exhausted else pass ord

unfoldable pub chosen_ord : ℕ → Option ℤ → Body TestcaseRefusal ℤ
unfolding last_ord next_ord checked_ord
chosen_ord problem_id (some ord) = pass ord
chosen_ord problem_id none =
    or_fail testcase_error (query (last_ord problem_id)) >>= λ last. checked_ord (next_ord last)

unfoldable pub hidden_row : ℕ → ℤ → TestcaseData → ℕ → TestcaseRow
hidden_row problem_id ord testcase id = record {
  id = id;
  problem_id = problem_id;
  ord = ord;
  input = testcase.input;
  output = testcase.output;
  is_sample = false;
}

-- INSERT INTO testcases … RETURNING id
unfoldable pub insert_hidden : ℕ → ℤ → TestcaseData → Work → Option ℕ × Work
unfolding hidden_row added_testcase problem_is_there
insert_hidden problem_id ord testcase = execute λ t.
    if problem_is_there problem_id t
    then some (t.next_testcase, added_testcase (hidden_row problem_id ord testcase) t)
    else none

-- From the problem on; the key and the order are given back.
unfoldable pub create_hidden :
    ℕ → TestcaseData → Option ProblemRecord → Body TestcaseRefusal (ℕ × ℤ)
unfolding chosen_ord insert_hidden
create_hidden problem_id testcase none = give_up parent_not_found
create_hidden problem_id testcase (some _) = do
  ord ← chosen_ord problem_id testcase.ord
  id ← or_fail testcase_error (insert_hidden problem_id ord testcase)
  pass (id, ord)

unfoldable pub create_testcase_body : ℕ → TestcaseData → Body TestcaseRefusal (ℕ × ℤ)
unfolding create_hidden
create_testcase_body problem_id testcase =
    or_fail testcase_error (find_problem problem_id) >>= create_hidden problem_id testcase

-- `create`
unfoldable pub create_testcase : ℕ → TestcaseData → Conn → (TestcaseRefusal ⊎ (ℕ × ℤ)) × Conn
unfolding create_testcase_body
create_testcase problem_id testcase =
    transaction testcase_error (create_testcase_body problem_id testcase)

-- The row behind a change of it.
unfoldable pub patched_testcase : TestcasePatch → TestcaseRow → TestcaseRow
unfolding value_or
patched_testcase patch tc = record tc {
  input = value_or patch.input tc.input;
  output = value_or patch.output tc.output;
  ord = value_or patch.ord tc.ord;
}

-- UPDATE testcases SET input = ?, output = ?, ord = ? …, from the row `new`.
unfoldable pub updated_testcase : ℕ → ℕ → TestcaseRow → Tables → Tables
updated_testcase problem_id id new t = record t {
  testcases =
      update_where (is_hidden_testcase problem_id id)
        (λ tc. record tc { input = new.input; output = new.output; ord = new.ord }) t.testcases;
}

-- From the test point on; the order is given back.
unfoldable pub update_hidden : ℕ → ℕ → TestcasePatch → Option TestcaseRow → Body TestcaseRefusal ℤ
unfolding patched_testcase updated_testcase
update_hidden problem_id id patch none = give_up testcase_not_found
update_hidden problem_id id patch (some tc) =
    or_fail testcase_error
      (execute λ t. some (tt, updated_testcase problem_id id (patched_testcase patch tc) t))
    >> pass (value_or patch.ord tc.ord)

unfoldable pub update_testcase_body : ℕ → ℕ → TestcasePatch → Body TestcaseRefusal ℤ
unfolding update_hidden
update_testcase_body problem_id id patch =
    or_fail testcase_error (find_hidden problem_id id) >>= update_hidden problem_id id patch

-- `update`
unfoldable pub update_testcase : ℕ → ℕ → TestcasePatch → Conn → (TestcaseRefusal ⊎ ℤ) × Conn
unfolding update_testcase_body
update_testcase problem_id id patch =
    transaction testcase_error (update_testcase_body problem_id id patch)

-- DELETE FROM testcases …
unfoldable pub without_testcase : ℕ → ℕ → Tables → Tables
without_testcase problem_id id t = record t {
  testcases = select_all (λ tc. not (is_hidden_testcase problem_id id tc)) t.testcases;
}

unfoldable pub remove_hidden : ℕ → ℕ → Option TestcaseRow → Body TestcaseRefusal (Unit {0})
unfolding without_testcase
remove_hidden problem_id id none = give_up testcase_not_found
remove_hidden problem_id id (some _) =
    or_fail testcase_error (execute λ t. some (tt, without_testcase problem_id id t))

unfoldable pub remove_testcase_body : ℕ → ℕ → Body TestcaseRefusal (Unit {0})
unfolding remove_hidden
remove_testcase_body problem_id id =
    or_fail testcase_error (find_hidden problem_id id) >>= remove_hidden problem_id id

-- `remove`
unfoldable pub remove_testcase : ℕ → ℕ → Conn → (TestcaseRefusal ⊎ Unit {0}) × Conn
unfolding remove_testcase_body
remove_testcase problem_id id = transaction testcase_error (remove_testcase_body problem_id id)
