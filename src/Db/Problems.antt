-- ===== src/Db/Problems.antt =====
-- `find_by_id` and `list_testcases` of src/db/problems.cpp.
use vibe_coding.Prelude.{ℕ, ◌≡◌, none, some, Bool, not, ◌&&◌, ◌||◌, Option, List, map, ◌==◌, ltb}
use vibe_coding.Prelude.Int.{ltb_ℤ}
use vibe_coding.Db.Tables.{Tables, ProblemRecord, TestcaseRow, select_one, select_all, order_by}
use vibe_coding.Db.Columns.{load_problem, load_testcase, loaded, loaded-there, loaded-gone}
use vibe_coding.Db.Connection.{Work, query}

unfoldable pub problem_of : ℕ → Tables → Option ProblemRecord
problem_of id t = select_one (λ p. p.id == id) t.problems

-- The row as it is read.
unfoldable pub read_problem : ℕ → Tables → Option ProblemRecord
unfolding problem_of loaded load_problem
read_problem id t = loaded load_problem (problem_of id t)

unfoldable pub find_problem : ℕ → Work → Option (Option ProblemRecord) × Work
unfolding read_problem
find_problem id = query (read_problem id)

-- ORDER BY ord ASC, id ASC
abbrev pub testcase_before : TestcaseRow → TestcaseRow → Bool
testcase_before a b = ltb_ℤ a.ord b.ord || not (ltb_ℤ b.ord a.ord) && ltb a.id b.id

unfoldable pub testcases_of : ℕ → Tables → List TestcaseRow
testcases_of problem_id t =
    order_by testcase_before (select_all (λ tc. tc.problem_id == problem_id) t.testcases)

unfoldable pub read_testcases : ℕ → Tables → List TestcaseRow
unfolding testcases_of load_testcase
read_testcases problem_id t = map load_testcase (testcases_of problem_id t)

unfoldable pub list_testcases : ℕ → Work → Option (List TestcaseRow) × Work
unfolding read_testcases
list_testcases problem_id = query (read_testcases problem_id)

-- What is read is there, and what is there is read.
pub read_problem-there :
    (id : ℕ) (t : Tables) (p : ProblemRecord)
    → read_problem id t ≡ some p
    → (row : ProblemRecord) × (problem_of id t ≡ some row) × (load_problem row ≡ p)
unfolding read_problem
read_problem-there id t p h = loaded-there load_problem (problem_of id t) p h

pub read_problem-found :
    (id : ℕ) (t : Tables) (p : ProblemRecord)
    → read_problem id t ≡ some p
    → ¬ (problem_of id t ≡ none)
read_problem-found id t p h gone = let there = read_problem-there id t p h in cc (gone, there.1)

pub read_problem-gone : (id : ℕ) (t : Tables) → read_problem id t ≡ none → problem_of id t ≡ none
unfolding read_problem
read_problem-gone id t h = loaded-gone load_problem (problem_of id t) h
