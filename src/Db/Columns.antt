-- ===== src/Db/Columns.antt =====
-- What a read of a row makes of its columns: `Statement::column_text` of src/db/database.cpp, and the
-- `load_` functions of the stores. A text is bound with its length and stored whole, and read back up
-- to its first NUL.
use vibe_coding.Prelude.{
  ◌≡◌, refl, ap, Option, none, some, [], ◌∷◌, ◌++◌, ◌==◌, if◌then◌else◌, arith, Bool-cases, inl,
  inr,
}
use vibe_coding.Prelude.Text.{Bytes}
use vibe_coding.Db.Tables.{UserRecord, ProblemRecord, TestcaseRow, SubmissionRecord, InFlightTask}

unfoldable pub column_text : Bytes → Bytes
column_text [] = []
column_text (c ∷ text) = let rest = column_text text in if c == 0 then [] else c ∷ rest

-- `load_row` of src/db/users.cpp
unfoldable pub load_user : UserRecord → UserRecord
unfolding column_text
load_user row = record row {
  account = column_text row.account;
  nickname = column_text row.nickname;
  password_hash = column_text row.password_hash;
  role = column_text row.role;
  created_at = column_text row.created_at;
}

-- `load_record` of src/db/problems.cpp
unfoldable pub load_problem : ProblemRecord → ProblemRecord
unfolding column_text
load_problem row = record row {
  title = column_text row.title;
  description = column_text row.description;
  difficulty = column_text row.difficulty;
  tags = column_text row.tags;
  created_at = column_text row.created_at;
  updated_at = column_text row.updated_at;
}

unfoldable pub load_testcase : TestcaseRow → TestcaseRow
unfolding column_text
load_testcase row = record row { input = column_text row.input; output = column_text row.output }

-- `load_record` of src/db/submissions.cpp
unfoldable pub load_submission : SubmissionRecord → SubmissionRecord
unfolding column_text
load_submission row = record row {
  language = column_text row.language;
  source_code = column_text row.source_code;
  status = column_text row.status;
  per_case = column_text row.per_case;
  compile_msg = column_text row.compile_msg;
  created_at = column_text row.created_at;
}

-- `load_in_flight` of src/db/in_flight.cpp
unfoldable pub load_task : InFlightTask → InFlightTask
unfolding column_text
load_task row = record row {
  task_id = column_text row.task_id;
  language = column_text row.language;
  source_code = column_text row.source_code;
  submitted_at = column_text row.submitted_at;
  reason = column_text row.reason;
}

-- The row that a SELECT gave, if any.
unfoldable pub loaded : {A : Type 0} → (A → A) → Option A → Option A
loaded load none = none
loaded load (some row) = some (load row)

pub loaded-there :
    {A : Type 0} (load : A → A) (o : Option A) (a : A)
    → loaded load o ≡ some a
    → (row : A) × (o ≡ some row) × (load row ≡ a)
unfolding loaded
loaded-there load none a h = absurd (ground (arith, h))
loaded-there load (some row) a h = (row, refl, ground (arith, h))

pub loaded-gone : {A : Type 0} (load : A → A) (o : Option A) → loaded load o ≡ none → o ≡ none
unfolding loaded
loaded-gone load none h = refl
loaded-gone load (some row) h = absurd (ground (arith, h))

-- A text without a NUL is read back as it is.
pub column_text-append :
    (s t : Bytes) → column_text s ≡ s → column_text t ≡ t → column_text (s ++ t) ≡ s ++ t
unfolding column_text
column_text-append [] t hs ht = ht
column_text-append (c ∷ s) t hs ht = elim (Bool-cases (c == 0)) [
  | inl e ↦ absurd (ground (arith, e, hs))
  | inr e ↦
      let rest : column_text s ≡ s = ground (arith, e, hs) in
      rw e (ap (λ later. c ∷ later) (column_text-append s t rest ht))
]
