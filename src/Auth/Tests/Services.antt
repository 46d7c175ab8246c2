-- ===== src/Auth/Tests/Services.antt =====
-- Concrete runs of the services of src/auth that work on the database.
use vibe_coding.Prelude.{
  ℕ, zero, suc, ◌≡◌, refl, Bool, true, Option, none, some, inr, [], ◌∷◌, ◌++◌, arith, drop_while,
  drop_while_end,
}
use vibe_coding.Prelude.Text.{Bytes, codes, text_eq, text_eq_refl}
use vibe_coding.Db.Tables.{UserRecord, select_one, count_rows, update_where}
use vibe_coding.Db.Columns.{column_text, load_user}
use vibe_coding.Db.Connection.{
  Conn, durable, alone, query, execute, take_fault, next_fault, transaction, begin, begin_from,
  commit, commit_from, rollback, or_fail, ◌>>=◌, ◌>>◌, pass,
}
use vibe_coding.Db.Connection.Quiet.{quiet_conn}
use vibe_coding.Db.Tests.{root, small_tables, small_conn, small-UsersValid}
use vibe_coding.Db.Users.{
  find_user, update_password, find_by_nickname, create_user, user_of, has_account,
}
use vibe_coding.Db.Users.Valid.{UsersValid}
use vibe_coding.Auth.Validation.{is_ws, validate_nickname, validate_password}
use vibe_coding.Auth.Login.{logged_in, login}
use vibe_coding.Auth.PasswordChange.{change_password}
use vibe_coding.Auth.PasswordChange.Changed.{
  Changes, change_password-Changes, change_password-login,
}
use vibe_coding.Auth.Register.{registered, register_user}
use vibe_coding.Auth.Register.Registered.{Outcomes, register_user-Outcomes}
use vibe_coding.Auth.Register.Lost.{without_faults, register_user-lost}
use vibe_coding.Auth.Register.Usable.{register_user-UsersValid, register_user-login}

-- Stand-ins for argon2, jwt and the random source.
abbrev hash : Bytes → Option Bytes
hash password = some (b'#' ∷ password)

abbrev verify : Bytes → Bytes → Option Bool
verify hashed password = some (text_eq hashed (column_text (b'#' ∷ password)))

abbrev sign : ℕ → Option Bytes
sign id = some (id ∷ [])

abbrev verify_token : Bytes → Option ℕ
verify_token [] = none
verify_token (id ∷ _) = some id

-- The first account of an attempt is taken.
abbrev generate : ℕ → Bytes
generate attempts = elim attempts [ zero ↦ codes "ada" | suc _ ↦ codes "root" ]

verify-hash :
    (password hashed : Bytes)
    → hash password ≡ some hashed
    → verify (column_text hashed) password ≡ some true
unfolding column_text
verify-hash password hashed h = ground (arith, h, text_eq_refl (b'#' ∷ column_text password))

generate-whole : (n : ℕ) → column_text (generate n) ≡ generate n
unfolding column_text
generate-whole zero = refl
generate-whole (suc n) = refl

abbrev now : Bytes
now = codes "2026-01-03"

abbrev ada : UserRecord
ada = record {
  id = 2;
  account = codes "ada";
  nickname = codes "Ada";
  password_hash = codes "#secret";
  role = codes "user";
  reset_pwd_flag = 0;
  created_at = now;
}

abbrev with_ada : Conn
with_ada = quiet_conn (record small_tables { users = root ∷ ada ∷ []; next_user = 3 })

ada-registered :
    register_user true now generate hash 2 (codes " Ada") (codes "secret") small_conn
    ≡ (registered ada, with_ada)
unfolding register_user is_ws drop_while drop_while_end validate_nickname validate_password alone
    find_by_nickname query take_fault next_fault select_one text_eq create_user execute count_rows
    column_text
ada-registered = refl

register_user-Outcomes_example :
    Outcomes hash now
      (codes " Ada")
      (codes "secret")
      small_conn.work.tables
      (register_user true now generate hash 2
        (codes " Ada")
        (codes "secret")
        small_conn).1.work.tables
      (register_user true now generate hash 2 (codes " Ada") (codes "secret") small_conn).0
register_user-Outcomes_example =
    register_user-Outcomes true now generate hash 2 (codes " Ada") (codes "secret") small_conn

register_user-UsersValid_example :
    UsersValid
      (register_user true now generate hash 2
        (codes " Ada")
        (codes "secret")
        small_conn).1.work.tables
register_user-UsersValid_example =
    register_user-UsersValid true now generate hash 2 (codes " Ada") (codes "secret") small_conn
      small-UsersValid

register_user-login_example :
    (login verify sign 60 (codes "ada") (codes "secret") with_ada).0 ≡ logged_in (2 ∷ []) 60 ada
register_user-login_example =
    register_user-login true now generate hash 2 verify sign 60 generate-whole verify-hash
      (codes " Ada") (codes "secret") (2 ∷ []) ada small_conn with_ada ada-registered refl refl

change_password-Changes_example :
    Changes verify hash 1
      (codes "pw")
      (codes "new")
      (durable small_conn)
      (durable (change_password hash verify 1 (codes "pw") (codes "new") small_conn).1)
      (change_password hash verify 1 (codes "pw") (codes "new") small_conn).0
change_password-Changes_example =
    change_password-Changes hash verify 1 (codes "pw") (codes "new") small_conn

abbrev root_changed : Conn
root_changed = quiet_conn (record small_tables {
  users = record root { password_hash = codes "#new"; reset_pwd_flag = 0 } ∷ [];
})

root-changed :
    change_password hash verify 1 (codes "pw") (codes "new") small_conn ≡ (inr tt, root_changed)
unfolding change_password transaction begin begin_from commit commit_from or_fail query execute
    take_fault next_fault select_one count_rows update_where text_eq ◌>>=◌ ◌>>◌ pass find_user
    update_password column_text
root-changed = refl

change_password-login_example :
    (user : UserRecord) × (user_of 1 (durable small_conn) ≡ some user)
    × ((new_hash : Bytes) × ((login verify sign 60 user.account
            (codes "new")
            (quiet_conn (durable root_changed))).0
          ≡ logged_in
              (1 ∷ [])
              60
              (load_user (record user { password_hash = new_hash; reset_pwd_flag = 0 }))))
unfolding durable
change_password-login_example =
    change_password-login hash verify sign 60 verify-hash 1 (codes "pw") (codes "new") (1 ∷ [])
      small_conn root_changed small-UsersValid refl root-changed

abbrev ada_promoted : Conn
ada_promoted =
    quiet_conn (record small_tables {
      users = root ∷ record ada { role = codes "admin" } ∷ [];
      next_user = 3;
    })

-- A connection in a transaction of another thread.
abbrev busy_conn : Conn
busy_conn = record small_conn { snapshot = some small_tables }

abbrev busy_after : Conn
busy_after = record with_ada { snapshot = some small_tables }

busy-registered :
    register_user true now generate hash 2 (codes " Ada") (codes "secret") busy_conn
    ≡ (registered ada, busy_after)
unfolding register_user is_ws drop_while drop_while_end validate_nickname validate_password alone
    find_by_nickname query take_fault next_fault select_one text_eq create_user execute count_rows
    column_text
busy-registered = refl

register_user-lost_example :
    (row : UserRecord) × (ada ≡ load_user row)
    × (busy_after.work.tables.users ≡ busy_conn.work.tables.users ++ row ∷ [])
    × (durable busy_after ≡ small_tables)
    × ((rollback (without_faults busy_after)).1.work.tables ≡ small_tables)
    × (count_rows
          (has_account row.account)
          (rollback (without_faults busy_after)).1.work.tables.users
        ≡ 0)
register_user-lost_example =
    register_user-lost true now generate hash 2 (codes " Ada") (codes "secret") ada busy_conn
      busy_after small_tables refl refl busy-registered
