-- ===== src/Db/ProblemAdmin.antt =====
-- `ProblemAdminStore` of src/db/problem_admin.h and problem_admin.cpp: an administrator creates,
-- changes and removes problems. Behind an answer the caller sees one of `ProblemRefusal`, which has
-- the constructors of `UpdateStatus` and `DeleteStatus` that are no success.
pub mod Rows
pub mod Samples
pub mod Remove
pub mod Removed
pub mod Kept
pub mod Updated
pub mod Created
use vibe_coding.Prelude.{
  ℕ, ◌+◌, Bool, true, false, not, ◌&&◌, Option, none, some, ◌⊎◌, inl, inr, List, [], ◌∷◌, ◌++◌,
  ◌==◌, ltb, if◌then◌else◌,
}
use vibe_coding.Prelude.Int.{pos}
use vibe_coding.Prelude.Text.{Bytes}
use vibe_coding.Db.Tables.{
  Tables, ProblemRecord, TestcaseRow, SubmissionRecord, StatusRow, InFlightTask, select_all,
  count_rows, update_where,
}
use vibe_coding.Db.Connection.{
  Work, Conn, Body, query, execute, transaction, ◌>>=◌, ◌>>◌, pass, give_up, or_fail,
}
use vibe_coding.Db.InFlight.{count_for_problem}
use vibe_coding.Db.Problems.{find_problem}
use vibe_coding.Problem.Tags.{join_tags, split_tags}
use vibe_coding.Problem.Validation.{SampleInput, ProblemData, is_valid_difficulty}
use vibe_coding.Problem.Validation.Patch.{ProblemPatch}

pub data ProblemRefusal : Type 0 where
  not_found has_submissions admin_error : ProblemRefusal

abbrev pub has_problem_id : ℕ → ProblemRecord → Bool
has_problem_id id p = p.id == id

abbrev pub is_testcase_of : ℕ → TestcaseRow → Bool
is_testcase_of problem_id tc = tc.problem_id == problem_id

unfoldable pub sample_row : ℕ → ℕ → SampleInput → ℕ → TestcaseRow
sample_row problem_id ord sample id = record {
  id = id;
  problem_id = problem_id;
  ord = pos ord;
  input = sample.input;
  output = sample.output;
  is_sample = true;
}

unfoldable pub added_testcase : (ℕ → TestcaseRow) → Tables → Tables
added_testcase row t = record t {
  testcases = t.testcases ++ row t.next_testcase ∷ [];
  next_testcase = t.next_testcase + 1;
}

unfoldable pub problem_is_there : ℕ → Tables → Bool
problem_is_there id t = ltb 0 (count_rows (has_problem_id id) t.problems)

-- INSERT INTO testcases …, whose problem has to be there.
unfoldable pub insert_sample : ℕ → ℕ → SampleInput → Work → Option (Unit {0}) × Work
unfolding added_testcase sample_row problem_is_there
insert_sample problem_id ord sample = execute λ t.
    if problem_is_there problem_id t
    then some (tt, added_testcase (sample_row problem_id ord sample) t)
    else none

-- `insert_samples`, from the index `i` on.
unfoldable pub insert_samples : ℕ → ℕ → List SampleInput → Body ProblemRefusal (Unit {0})
unfolding insert_sample
insert_samples problem_id i [] = pass tt
insert_samples problem_id i (sample ∷ samples) =
    or_fail admin_error (insert_sample problem_id i sample)
    >> insert_samples problem_id (i + 1) samples

-- `now` is `datetime('now')`.
unfoldable pub problem_row : Bytes → ProblemData → ℕ → ProblemRecord
problem_row now problem id = record {
  id = id;
  title = problem.title;
  description = problem.description;
  difficulty = problem.difficulty;
  tags = join_tags problem.tags;
  time_limit_ms = problem.time_limit_ms;
  memory_limit_kb = problem.memory_limit_kb;
  visible = problem.visible;
  created_at = now;
  updated_at = now;
}

unfoldable pub added_problem : (ℕ → ProblemRecord) → Tables → Tables
added_problem row t = record t {
  problems = t.problems ++ row t.next_problem ∷ [];
  next_problem = t.next_problem + 1;
}

-- INSERT INTO problems … RETURNING id, with the table's CHECK on the difficulty.
unfoldable pub insert_problem : Bytes → ProblemData → Work → Option ℕ × Work
unfolding added_problem problem_row
insert_problem now problem = execute λ t.
    if is_valid_difficulty problem.difficulty
    then some (t.next_problem, added_problem (problem_row now problem) t)
    else none

unfoldable pub create_body : Bytes → ProblemData → Body ProblemRefusal ℕ
unfolding insert_problem insert_samples
create_body now problem = do
  id ← or_fail admin_error (insert_problem now problem)
  insert_samples id 0 problem.samples
  pass id

-- `create`
unfoldable pub create_problem : Bytes → ProblemData → Conn → (ProblemRefusal ⊎ ℕ) × Conn
unfolding create_body
create_problem now problem = transaction admin_error (create_body now problem)

unfoldable pub value_or : {A : Type 0} → Option A → A → A
value_or none default = default
value_or (some a) default = a

-- The row behind a change of it. Its tags are read as a list and written as a text again.
unfoldable pub patched : Bytes → ProblemPatch → ProblemRecord → ProblemRecord
unfolding value_or
patched now patch p = record p {
  title = value_or patch.title p.title;
  description = value_or patch.description p.description;
  difficulty = value_or patch.difficulty p.difficulty;
  tags = join_tags (value_or patch.tags (split_tags p.tags));
  time_limit_ms = value_or patch.time_limit_ms p.time_limit_ms;
  memory_limit_kb = value_or patch.memory_limit_kb p.memory_limit_kb;
  visible = value_or patch.visible p.visible;
  updated_at = now;
}

-- The columns that UPDATE sets, from the row `new`.
unfoldable pub with_columns : ProblemRecord → ProblemRecord → ProblemRecord
with_columns new p = record new { id = p.id; created_at = p.created_at }

unfoldable pub updated_problem : ℕ → ProblemRecord → Tables → Tables
unfolding with_columns
updated_problem id new t = record t {
  problems = update_where (has_problem_id id) (with_columns new) t.problems;
}

-- UPDATE problems SET … WHERE id = ?
unfoldable pub update_row : ℕ → ProblemRecord → Work → Option (Unit {0}) × Work
unfolding updated_problem problem_is_there
update_row id new = execute λ t.
    if problem_is_there id t && not (is_valid_difficulty new.difficulty)
    then none
    else some (tt, updated_problem id new t)

-- DELETE FROM testcases WHERE problem_id = ? AND is_sample = 1
unfoldable pub without_samples : ℕ → Tables → Tables
without_samples id t = record t {
  testcases = select_all (λ tc. not (is_testcase_of id tc && tc.is_sample)) t.testcases;
}

unfoldable pub delete_samples : ℕ → Work → Option (Unit {0}) × Work
unfolding without_samples
delete_samples id = execute λ t. some (tt, without_samples id t)

unfoldable pub replace_samples : ℕ → Option (List SampleInput) → Body ProblemRefusal (Unit {0})
unfolding delete_samples insert_samples
replace_samples id none = pass tt
replace_samples id (some samples) =
    or_fail admin_error (delete_samples id) >> insert_samples id 0 samples

unfoldable pub update_found :
    Bytes → ℕ → ProblemPatch → Option ProblemRecord → Body ProblemRefusal (Unit {0})
unfolding patched update_row replace_samples
update_found now id patch none = give_up not_found
update_found now id patch (some p) =
    or_fail admin_error (update_row id (patched now patch p)) >> replace_samples id patch.samples

unfoldable pub update_body : Bytes → ℕ → ProblemPatch → Body ProblemRefusal (Unit {0})
unfolding update_found
update_body now id patch = or_fail admin_error (find_problem id) >>= update_found now id patch

-- `update`
unfoldable pub update_problem : Bytes → ℕ → ProblemPatch → Conn → (ProblemRefusal ⊎ Unit {0}) × Conn
unfolding update_body
update_problem now id patch = transaction admin_error (update_body now id patch)
