-- ===== src/Db/Tables.antt =====
-- The rows of the tables of src/db/schema.cpp, as the records of src/db carry them. Keys are positive
-- numbers. A table is the list of its rows, oldest first, with the key of its next row.
use vibe_coding.Prelude.{ℕ, ◌+◌, Bool, Option, none, some, List, [], ◌∷◌, if◌then◌else◌}
use vibe_coding.Prelude.Int.{ℤ}
use vibe_coding.Prelude.Text.{Bytes}

pub record UserRecord : Type 0 where
  pub id : ℕ
  pub account : Bytes
  pub nickname : Bytes
  pub password_hash : Bytes
  pub role : Bytes
  pub reset_pwd_flag : ℕ
  pub created_at : Bytes

-- `tags` is the column's text, which the stores split at commas.
pub record ProblemRecord : Type 0 where
  pub id : ℕ
  pub title : Bytes
  pub description : Bytes
  pub difficulty : Bytes
  pub tags : Bytes
  pub time_limit_ms : ℤ
  pub memory_limit_kb : ℤ
  pub visible : Bool
  pub created_at : Bytes
  pub updated_at : Bytes

pub record TestcaseRow : Type 0 where
  pub id : ℕ
  pub problem_id : ℕ
  pub ord : ℤ
  pub input : Bytes
  pub output : Bytes
  pub is_sample : Bool

pub record SubmissionRecord : Type 0 where
  pub id : ℕ
  pub user_id : ℕ
  pub problem_id : ℕ
  pub language : Bytes
  pub source_code : Bytes
  pub status : Bytes
  pub per_case : Bytes
  pub compile_msg : Bytes
  pub runtime_ms : ℕ
  pub memory_kb : ℕ
  pub created_at : Bytes

-- `accepted` is the status 'accepted', and `first_ac_at` may be NULL.
pub record StatusRow : Type 0 where
  pub user_id : ℕ
  pub problem_id : ℕ
  pub accepted : Bool
  pub first_ac_at : Option Bytes
  pub submit_count : ℕ

-- The states 'pending', 'claimed' and 'interrupted'.
pub data InFlightState : Type 0 where
  pending claimed interrupted : InFlightState

pub record InFlightTask : Type 0 where
  pub id : ℕ
  pub task_id : Bytes
  pub user_id : ℕ
  pub problem_id : ℕ
  pub language : Bytes
  pub source_code : Bytes
  pub submitted_at : Bytes
  pub state : InFlightState
  pub owner : Bytes
  pub claimed_at : Option Bytes
  pub reason : Bytes

pub record Tables : Type 0 where
  pub users : List UserRecord
  pub problems : List ProblemRecord
  pub testcases : List TestcaseRow
  pub submissions : List SubmissionRecord
  pub statuses : List StatusRow
  pub in_flight : List InFlightTask
  pub next_user : ℕ
  pub next_problem : ℕ
  pub next_testcase : ℕ
  pub next_submission : ℕ
  pub next_in_flight : ℕ

-- SELECT … WHERE, for at most one row; SELECT … WHERE; SELECT COUNT(*) … WHERE; UPDATE … WHERE.
module _ {ℓ} {A : Type ℓ} (p : A → Bool) where
  unfoldable pub select_one : List A → Option A
  select_one [] = none
  select_one (row ∷ rows) = let later = select_one rows in if p row then some row else later

  unfoldable pub select_all : List A → List A
  select_all [] = []
  select_all (row ∷ rows) = let later = select_all rows in if p row then row ∷ later else later

  unfoldable pub count_rows : List A → ℕ
  count_rows [] = 0
  count_rows (row ∷ rows) = (if p row then 1 else 0) + count_rows rows

  unfoldable pub update_where : (A → A) → List A → List A
  update_where f [] = []
  update_where f (row ∷ rows) = (if p row then f row else row) ∷ update_where f rows

-- ORDER BY, where `before` is the order of two rows.
module _ {ℓ} {A : Type ℓ} (before : A → A → Bool) where
  unfoldable pub insert_ordered : A → List A → List A
  insert_ordered row [] = row ∷ []
  insert_ordered row (other ∷ rows) =
      let later = insert_ordered row rows in
      if before other row then other ∷ later else row ∷ other ∷ rows

  unfoldable pub order_by : List A → List A
  unfolding insert_ordered
  order_by [] = []
  order_by (row ∷ rows) = insert_ordered row (order_by rows)
