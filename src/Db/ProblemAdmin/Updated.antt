-- ===== src/Db/ProblemAdmin/Updated.antt =====
-- What a change of a problem promises, against what its transaction does.
use vibe_coding.Prelude.{
  ℕ, ◌≡◌, false, not, ◌&&◌, ◌==◌, Option, none, some, ◌⊎◌, inl, inr, List, ◌++◌,
}
use vibe_coding.Prelude.Text.{Bytes}
use vibe_coding.Db.Tables.{Tables, ProblemRecord, TestcaseRow, select_all}
use vibe_coding.Db.Connection.Atomic.{Atomic}
use vibe_coding.Db.Columns.{column_text, load_problem}
use vibe_coding.Db.Problems.{problem_of}
use vibe_coding.Db.ProblemAdmin.{
  ProblemRefusal, is_testcase_of, patched, with_columns, without_samples,
}
use vibe_coding.Db.ProblemAdmin.Samples.{sample_rows, added_samples, is_hidden_of}
use vibe_coding.Problem.Tags.{join_tags, split_tags}
use vibe_coding.Problem.Validation.{SampleInput}
use vibe_coding.Problem.Validation.Patch.{ProblemPatch}

abbrev with_samples : ℕ → Option (List SampleInput) → Tables → Tables
with_samples id none t = t
with_samples id (some samples) t = added_samples id 0 samples (without_samples id t)

-- The test points of before, and the samples in the place of its own where there are new ones.
abbrev pub new_testcases : ℕ → Option (List SampleInput) → Tables → List TestcaseRow
new_testcases id none t = t.testcases
new_testcases id (some samples) t =
    select_all (λ tc. not (is_testcase_of id tc && tc.is_sample)) t.testcases
    ++ sample_rows t.next_testcase id 0 samples

-- A column behind a change of it: what was given, and otherwise what it keeps.
abbrev pub IsGiven : {A : Type 0} → Option A → A → A → Type 0
IsGiven none kept new = new ≡ kept
IsGiven (some a) kept new = new ≡ a

-- The row behind a change of the row `old`: a text that was not given has been read and written again.
pub record IsPatched (now : Bytes) (patch : ProblemPatch) (old new : ProblemRecord) : Type 0 where
  pub id : new.id ≡ old.id
  pub title : IsGiven patch.title (column_text old.title) new.title
  pub description : IsGiven patch.description (column_text old.description) new.description
  pub difficulty : IsGiven patch.difficulty (column_text old.difficulty) new.difficulty
  pub tag_list : List Bytes
  pub given_tags : IsGiven patch.tags (split_tags (column_text old.tags)) tag_list
  pub tags : new.tags ≡ join_tags tag_list
  pub time_limit_ms : IsGiven patch.time_limit_ms old.time_limit_ms new.time_limit_ms
  pub memory_limit_kb : IsGiven patch.memory_limit_kb old.memory_limit_kb new.memory_limit_kb
  pub visible : IsGiven patch.visible old.visible new.visible
  pub created_at : new.created_at ≡ old.created_at
  pub updated_at : new.updated_at ≡ now

-- What UPDATE makes of a row, from the row that was read.
abbrev written : Bytes → ProblemPatch → ProblemRecord → ProblemRecord
written now patch old = with_columns (patched now patch (load_problem old)) old

-- A change as its callers see it: the row of the problem, which was there, has what was given, the
-- samples are replaced if they were given, and nothing else is changed: not the other problems, and no
-- hidden test point of any problem.
pub record IsUpdated (now : Bytes) (id : ℕ) (patch : ProblemPatch) (before after : Tables)
    : Type 0 where
  pub old : ProblemRecord
  pub found : problem_of id before ≡ some old
  pub new : ProblemRecord
  pub changed : problem_of id after ≡ some new
  pub columns : IsPatched now patch old new
  pub other_problems :
      (other : ℕ) → (other == id) ≡ false → problem_of other after ≡ problem_of other before
  pub testcases : after.testcases ≡ new_testcases id patch.samples before
  pub hidden :
      (other : ℕ)
      → select_all (is_hidden_of other) after.testcases
        ≡ select_all (is_hidden_of other) before.testcases
  pub submissions : after.submissions ≡ before.submissions
  pub statuses : after.statuses ≡ before.statuses
  pub in_flight : after.in_flight ≡ before.in_flight
  pub users : after.users ≡ before.users

-- What an answer says of the database.
abbrev pub Updates : Bytes → ℕ → ProblemPatch → Tables → Tables → ProblemRefusal ⊎ Unit {0} → Type 0
Updates now id patch before after (inl _) = after ≡ before
Updates now id patch before after (inr _) = IsUpdated now id patch before after
