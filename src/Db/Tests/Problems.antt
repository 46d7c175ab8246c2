-- ===== src/Db/Tests/Problems.antt =====
-- Concrete runs of src/db/problem_admin.cpp.
use vibe_coding.Prelude.{◌≤◌, ◌+◌, arith, All, ◌≡◌, refl, none, some, inr, [], ◌∷◌, ◌++◌, false}
use vibe_coding.Prelude.Text.{codes, text_eq}
use vibe_coding.Db.Tables.{ProblemRecord, TestcaseRow, count_rows, select_all, select_one}
use vibe_coding.Db.Connection.{
  Conn, durable, transaction, ◌>>=◌, ◌>>◌, or_fail, execute, pass, query,
}
use vibe_coding.Db.Connection.Quiet.{quiet_conn}
use vibe_coding.Db.Columns.{column_text}
use vibe_coding.Db.Problems.{problem_of, read_problem, find_problem}
use vibe_coding.Db.ProblemAdmin.{is_testcase_of, has_problem_id, create_problem}
use vibe_coding.Db.ProblemAdmin.Remove.{submissions_for, remove_problem}
use vibe_coding.Db.InFlight.{unsettled_for}
use vibe_coding.Db.ProblemAdmin.Kept.{remove_problem-keeps_used}
use vibe_coding.Db.ProblemAdmin.Created.{Shows, create_problem-Shows}
use vibe_coding.Db.ProblemAdmin.Removed.{Removes, remove_problem-Removes}
use vibe_coding.Problem.Validation.{is_valid_difficulty}
use vibe_coding.Problem.Validation.Patch.{has_value, ProblemPatch}
use vibe_coding.Prelude.Int.{pos, ◌≤ℤ◌, ◌<ℤ◌}
use vibe_coding.Db.TestcaseAdmin.{create_testcase, update_testcase, remove_testcase}
use vibe_coding.Db.TestcaseAdmin.Changed.{create_testcase-last}
use vibe_coding.Db.TestcaseAdmin.Kept.{Keeps}
use vibe_coding.Db.TestcaseAdmin.Edited.{administration-Keeps}
use vibe_coding.Problem.TestcaseValidation.{
  TestcaseData, TestcasePatch, IsTestcasePatch, testcase_patch_is_empty, max_testcase_ord,
}
use vibe_coding.Problem.Tests.Documents.{documents, new_problem}
use vibe_coding.Problem.Tests.Requests.{
  max_problem, max_problem-parsed, seventh, seventh-IsTestcase,
}
use vibe_coding.Db.Tests.{small_tables, small_conn}

second-new :
    count_rows (has_problem_id (durable small_conn).next_problem) (durable small_conn).problems ≡ 0
unfolding count_rows durable
second-new = refl

second-made : (create_problem (codes "now") max_problem small_conn).0 ≡ inr 2
unfolding create_problem transaction ◌>>=◌ or_fail execute is_valid_difficulty text_eq ◌>>◌
    count_rows pass
second-made = refl

title-whole : column_text max_problem.title ≡ max_problem.title
unfolding column_text
title-whole = refl

description-whole : column_text max_problem.description ≡ max_problem.description
unfolding column_text
description-whole = refl

tags-whole : All (λ tag. column_text tag ≡ tag) max_problem.tags
unfolding column_text
tags-whole = (refl, (refl, tt))

create_problem-Shows_example :
    (row : ProblemRecord) × (read_problem 2
        (durable (create_problem (codes "now") max_problem small_conn).1)
      ≡ some row)
    × Shows max_problem row
create_problem-Shows_example =
    create_problem-Shows documents new_problem max_problem (codes "now") small_conn 2
      max_problem-parsed title-whole description-whole tags-whole second-new second-made

-- No task is under way.
abbrev idle_conn : Conn
idle_conn = quiet_conn (record small_tables { in_flight = [] })

remove_problem-Removes_example :
    Removes 1
      (durable idle_conn)
      (durable (remove_problem 1 idle_conn).1)
      (remove_problem 1 idle_conn).0
remove_problem-Removes_example = remove_problem-Removes 1 idle_conn

abbrev new_samples : ProblemPatch
new_samples = record {
  title = some (codes "Sum 2");
  description = none;
  difficulty = none;
  tags = none;
  time_limit_ms = none;
  memory_limit_kb = none;
  visible = none;
  samples = some (record { input = codes "1"; output = codes "2" } ∷ []);
}

-- A hidden test point without a place.
abbrev unplaced : TestcaseData
unplaced = record { input = codes "5"; output = codes "6"; ord = none }

unplaced-made : (create_testcase 1 unplaced small_conn).0 ≡ inr (2, pos 1)
unfolding create_testcase transaction ◌>>=◌ or_fail find_problem query select_one select_all pass
    execute count_rows
unplaced-made = refl

create_testcase-last_example :
    All
      (λ (tc : TestcaseRow). tc.ord <ℤ pos 1)
      (select_all (is_testcase_of 1) (durable small_conn).testcases)
    × (pos 1 ≤ℤ pos max_testcase_ord)
    × (2 ≡ (durable small_conn).next_testcase)
    × ((durable (create_testcase 1 unplaced small_conn).1).testcases
        ≡ (durable small_conn).testcases
          ++ record {
            id = 2;
            problem_id = 1;
            ord = pos 1;
            input = codes "5";
            output = codes "6";
            is_sample = false;
          }
            ∷ [])
create_testcase-last_example =
    create_testcase-last 1 unplaced small_conn 2 (pos 1) refl unplaced-made

abbrev moved : TestcasePatch
moved = record { input = none; output = none; ord = some (pos 3) }

moved-IsTestcasePatch : IsTestcasePatch moved
unfolding testcase_patch_is_empty has_value
moved-IsTestcasePatch = record {
  input = tt;
  output = tt;
  ord = (omega arith, omega arith);
  something = refl;
}

administration-Keeps_example :
    Keeps (durable small_conn) (durable (create_testcase 1 seventh small_conn).1)
    × Keeps (durable small_conn) (durable (update_testcase 1 1 moved small_conn).1)
    × Keeps (durable small_conn) (durable (remove_testcase 1 1 small_conn).1)
administration-Keeps_example =
    administration-Keeps 1 1 seventh moved small_conn seventh-IsTestcase moved-IsTestcasePatch

-- A task waits for the problem.
first-used : 1 ≤ submissions_for 1 (durable small_conn) + unsettled_for 1 (durable small_conn)
unfolding submissions_for unsettled_for count_rows durable
first-used = omega arith

remove_problem-keeps_used_example :
    problem_of 1 (durable (remove_problem 1 small_conn).1) ≡ problem_of 1 (durable small_conn)
remove_problem-keeps_used_example = remove_problem-keeps_used 1 1 small_conn first-used
