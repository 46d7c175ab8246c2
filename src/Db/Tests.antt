-- ===== src/Db/Tests.antt =====
-- A small database, and concrete runs of src/db.
pub mod Problems
use vibe_coding.Prelude.{◌≤◌, true, false, none, [], ◌∷◌, arith}
use vibe_coding.Prelude.Int.{pos}
use vibe_coding.Prelude.Text.{codes, text_eq}
use vibe_coding.Db.Tables.{
  Tables, UserRecord, ProblemRecord, TestcaseRow, InFlightTask, pending, count_rows,
}
use vibe_coding.Db.Connection.{Conn, durable, transaction}
use vibe_coding.Db.Connection.Atomic.{Atomic, transaction-Atomic}
use vibe_coding.Db.Connection.Quiet.{quiet_conn}
use vibe_coding.Db.Users.{admins, role_error, change_role, change_role_body}
use vibe_coding.Db.Users.Valid.{UsersValid}
use vibe_coding.Db.Users.Roles.{change_role-keeps_admin}

abbrev pub root : UserRecord
root = record {
  id = 1;
  account = codes "root";
  nickname = codes "Root";
  password_hash = codes "#pw";
  role = codes "admin";
  reset_pwd_flag = 1;
  created_at = codes "2026-01-01";
}

abbrev pub sum_problem : ProblemRecord
sum_problem = record {
  id = 1;
  title = codes "Sum";
  description = [];
  difficulty = codes "easy";
  tags = codes "math";
  time_limit_ms = pos 1000;
  memory_limit_kb = pos 65536;
  visible = true;
  created_at = codes "2026-01-01";
  updated_at = codes "2026-01-01";
}

abbrev pub sum_case : TestcaseRow
sum_case = record {
  id = 1;
  problem_id = 1;
  ord = pos 0;
  input = codes "1 2";
  output = codes "3";
  is_sample = false;
}

abbrev pub waiting_task : InFlightTask
waiting_task = record {
  id = 1;
  task_id = codes "t1";
  user_id = 1;
  problem_id = 1;
  language = codes "cpp17";
  source_code = codes "x";
  submitted_at = codes "2026-01-02";
  state = pending;
  owner = [];
  claimed_at = none;
  reason = [];
}

abbrev pub small_tables : Tables
small_tables = record {
  users = root ∷ [];
  problems = sum_problem ∷ [];
  testcases = sum_case ∷ [];
  submissions = [];
  statuses = [];
  in_flight = waiting_task ∷ [];
  next_user = 2;
  next_problem = 2;
  next_testcase = 2;
  next_submission = 1;
  next_in_flight = 2;
}

abbrev pub small_conn : Conn
small_conn = quiet_conn small_tables

-- The same, on which the third call fails.
abbrev pub faulty_conn : Conn
faulty_conn = record small_conn {
  work = record { tables = small_tables; faults = false ∷ false ∷ true ∷ [] };
}

pub small-UsersValid : UsersValid small_tables
unfolding count_rows
small-UsersValid = record {
  ids = λ id. ground arith;
  fresh = λ id h. ground (arith, h);
  accounts = λ account. ground arith;
  nicknames = λ nickname. ground arith;
}

transaction-Atomic_example :
    Atomic
      (change_role_body 1 (codes "admin"))
      (durable faulty_conn)
      (durable (transaction role_error (change_role_body 1 (codes "admin")) faulty_conn).1)
      (transaction role_error (change_role_body 1 (codes "admin")) faulty_conn).0
transaction-Atomic_example =
    transaction-Atomic role_error (change_role_body 1 (codes "admin")) faulty_conn

some-admin : 1 ≤ admins small_tables
unfolding admins count_rows text_eq
some-admin = omega arith

change_role-keeps_admin_example : 1 ≤ admins (durable (change_role 1 (codes "user") small_conn).1)
unfolding durable
change_role-keeps_admin_example =
    change_role-keeps_admin 1 (codes "user") small_conn small-UsersValid some-admin
