-- ===== src/Db/ProblemAdmin/Samples.antt =====
-- The loop that writes the samples of a problem, all at once.
use vibe_coding.Prelude.{
  ℕ, ◌+◌, ◌≡◌, ◌∙◌, refl, sym, ap, Bool, not, ◌&&◌, List, [], ◌∷◌, ◌++◌, arith, length, append-nil,
  append_assoc,
}
use vibe_coding.Db.Tables.{Tables, TestcaseRow, select_all}
use vibe_coding.Db.Connection.{Work, or_fail, ◌>>◌}
use vibe_coding.Db.Connection.Bodies.{Gives, >>=-Chained, pass-Gives, execute-Gives}
use vibe_coding.Db.ProblemAdmin.{
  ProblemRefusal, admin_error, is_testcase_of, sample_row, added_testcase, insert_sample,
  insert_samples,
}
use vibe_coding.Problem.Validation.{SampleInput}

-- The rows from the key `key` and the index `i` on.
abbrev pub sample_rows : ℕ → ℕ → ℕ → List SampleInput → List TestcaseRow
sample_rows key id i [] = []
sample_rows key id i (sample ∷ samples) =
    sample_row id i sample key ∷ sample_rows (key + 1) id (i + 1) samples

abbrev pub added_samples : ℕ → ℕ → List SampleInput → Tables → Tables
added_samples id i samples t = record t {
  testcases = t.testcases ++ sample_rows t.next_testcase id i samples;
  next_testcase = t.next_testcase + length samples;
}

abbrev with_testcases : Tables → List TestcaseRow → ℕ → Tables
with_testcases t rows key = record t { testcases = rows; next_testcase = key }

added-nil : (id i : ℕ) (t : Tables) → added_samples id i [] t ≡ t
added-nil id i t =
    ap (λ rows. with_testcases t rows (t.next_testcase + 0)) (append-nil t.testcases)
    ∙ ap (with_testcases t t.testcases) (omega arith)

added-cons :
    (id i : ℕ) (sample : SampleInput) (samples : List SampleInput) (t : Tables)
    → added_samples id (i + 1) samples (added_testcase (sample_row id i sample) t)
      ≡ added_samples id i (sample ∷ samples) t
unfolding added_testcase
added-cons id i sample samples t =
    let row = sample_row id i sample t.next_testcase in
    let rows = sample_rows (t.next_testcase + 1) id (i + 1) samples in
    ap (λ all_rows. with_testcases t all_rows (t.next_testcase + 1 + length samples))
      (append_assoc t.testcases (row ∷ []) rows)
    ∙ ap (with_testcases t (t.testcases ++ row ∷ rows)) (omega arith)

sample-Gives :
    (id i : ℕ) (sample : SampleInput) (w : Work) (u : Unit {0}) (w' : Work)
    → Gives (or_fail admin_error (insert_sample id i sample)) w u w'
    → w'.tables ≡ added_testcase (sample_row id i sample) w.tables
unfolding insert_sample
sample-Gives id i sample w u w' h = ground (arith, execute-Gives admin_error _ w u w' h)

pub samples-Gives :
    (id i : ℕ) (samples : List SampleInput) (w : Work) (u : Unit {0}) (w' : Work)
    → Gives (insert_samples id i samples) w u w'
    → w'.tables ≡ added_samples id i samples w.tables
unfolding insert_samples ◌>>◌
samples-Gives id i [] w u w' h =
    ap (λ v. v.tables) (pass-Gives {E = ProblemRefusal} tt u w w' h).1
    ∙ sym (added-nil id i w.tables)
samples-Gives id i (sample ∷ samples) w u w' h =
    let c = >>=-Chained _ _ w u w' h in
    samples-Gives id (i + 1) samples c.work u w' c.behind
    ∙ ap (added_samples id (i + 1) samples) (sample-Gives id i sample w c.value c.work c.before)
    ∙ added-cons id i sample samples w.tables

-- None of them is hidden.
abbrev pub is_hidden_of : ℕ → TestcaseRow → Bool
is_hidden_of id tc = is_testcase_of id tc && not tc.is_sample

pub rows-shown :
    (other key id i : ℕ) (samples : List SampleInput)
    → select_all (is_hidden_of other) (sample_rows key id i samples) ≡ []
unfolding select_all sample_row
rows-shown other key id i [] = refl
rows-shown other key id i (sample ∷ samples) =
    ground (arith, rows-shown other (key + 1) id (i + 1) samples)
