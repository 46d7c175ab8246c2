-- ===== src/Db/Users.antt =====
-- `UserStore` of src/db/users.h and users.cpp, and `UserAdminStore` of src/db/user_admin.h and
-- user_admin.cpp without its list. Where a new row is in conflict with an account and with a nickname,
-- `account_first` is which of the two SQLite names.
pub mod Valid
pub mod Roles
pub mod Read
use vibe_coding.Prelude.{
  ℕ, ◌+◌, Bool, true, false, not, ◌&&◌, ◌||◌, Option, none, some, ◌⊎◌, inl, inr, List, [], ◌∷◌,
  ◌++◌, ◌==◌, ltb, if◌then◌else◌,
}
use vibe_coding.Prelude.Text.{Bytes, codes, text_eq}
use vibe_coding.Db.Tables.{Tables, UserRecord, select_one, count_rows, update_where}
use vibe_coding.Db.Columns.{load_user, loaded}
use vibe_coding.Db.Connection.{
  Work, Conn, Body, query, execute, transaction, ◌>>=◌, ◌>>◌, pass, give_up, or_fail,
}

abbrev pub has_id : ℕ → UserRecord → Bool
has_id id user = user.id == id

abbrev pub has_account : Bytes → UserRecord → Bool
has_account account user = text_eq user.account account

abbrev pub has_nickname : Bytes → UserRecord → Bool
has_nickname nickname user = text_eq user.nickname nickname

unfoldable pub user_of : ℕ → Tables → Option UserRecord
user_of id t = select_one (has_id id) t.users

-- The row as it is read.
unfoldable pub read_user : ℕ → Tables → Option UserRecord
unfolding user_of loaded load_user
read_user id t = loaded load_user (user_of id t)

unfoldable pub find_user : ℕ → Work → Option (Option UserRecord) × Work
unfolding read_user
find_user id = query (read_user id)

unfoldable pub user_by_account : Bytes → Tables → Option UserRecord
user_by_account account t = select_one (has_account account) t.users

unfoldable pub read_by_account : Bytes → Tables → Option UserRecord
unfolding user_by_account loaded load_user
read_by_account account t = loaded load_user (user_by_account account t)

unfoldable pub find_by_account : Bytes → Work → Option (Option UserRecord) × Work
unfolding read_by_account
find_by_account account = query (read_by_account account)

unfoldable pub user_by_nickname : Bytes → Tables → Option UserRecord
user_by_nickname nickname t = select_one (has_nickname nickname) t.users

unfoldable pub read_by_nickname : Bytes → Tables → Option UserRecord
unfolding user_by_nickname loaded load_user
read_by_nickname nickname t = loaded load_user (user_by_nickname nickname t)

unfoldable pub find_by_nickname : Bytes → Work → Option (Option UserRecord) × Work
unfolding read_by_nickname
find_by_nickname nickname = query (read_by_nickname nickname)

-- `CreateStatus`, with the row that is read back where it is `Success`.
pub data CreateStatus : Type 0 where
  created : UserRecord → CreateStatus
  account_taken nickname_taken create_error : CreateStatus

unfoldable pub account_is_taken : Bytes → Tables → Bool
account_is_taken account t = ltb 0 (count_rows (has_account account) t.users)

unfoldable pub nickname_is_taken : Bytes → Tables → Bool
nickname_is_taken nickname t = ltb 0 (count_rows (has_nickname nickname) t.users)

unfoldable pub new_user : Bytes → Bytes → Bytes → Bytes → ℕ → UserRecord
new_user now account nickname password_hash id = record {
  id = id;
  account = account;
  nickname = nickname;
  password_hash = password_hash;
  role = codes "user";
  reset_pwd_flag = 0;
  created_at = now;
}

unfoldable pub with_user : UserRecord → Tables → Tables
with_user user t = record t { users = t.users ++ user ∷ []; next_user = t.next_user + 1 }

-- INSERT INTO users … RETURNING …
unfoldable pub add_user : Bool → Bytes → Bytes → Bytes → Bytes → Tables → CreateStatus × Tables
unfolding account_is_taken nickname_is_taken new_user with_user load_user
add_user account_first now account nickname password_hash t =
    if account_is_taken account t && (account_first || not (nickname_is_taken nickname t))
    then (account_taken, t)
    else if nickname_is_taken nickname t
    then (nickname_taken, t)
    else let user = new_user now account nickname password_hash t.next_user in
      (created (load_user user), with_user user t)

-- `create`; `now` is `datetime('now')`.
unfoldable pub create_user : Bool → Bytes → Bytes → Bytes → Bytes → Work → CreateStatus × Work
unfolding add_user
create_user account_first now account nickname password_hash w =
    let (status, w') =
      execute (λ t. some (add_user account_first now account nickname password_hash t)) w in
    (elim status [ none ↦ create_error | some s ↦ s ], w')

-- UPDATE users SET password_hash = ?, reset_pwd_flag = … WHERE id = ? RETURNING id
unfoldable pub password_set : ℕ → Bytes → ℕ → Tables → Tables
password_set id new_hash flag t = record t {
  users =
      update_where (has_id id)
        (λ user. record user { password_hash = new_hash; reset_pwd_flag = flag }) t.users;
}

unfoldable pub set_password : ℕ → Bytes → ℕ → Work → Option Bool × Work
unfolding password_set
set_password id new_hash flag =
    execute λ t. some (ltb 0 (count_rows (has_id id) t.users), password_set id new_hash flag t)

-- `update_password`, which says whether there was such a user.
unfoldable pub update_password : ℕ → Bytes → Work → Option Bool × Work
unfolding set_password
update_password id new_hash = set_password id new_hash 0

-- `reset_password`
unfoldable pub reset_password : ℕ → Bytes → Work → Option Bool × Work
unfolding set_password
reset_password id new_hash = set_password id new_hash 1

-- `RoleStatus`: what is not `Updated`.
pub data RoleRefusal : Type 0 where
  role_not_found last_admin role_error : RoleRefusal

abbrev pub is_admin_role : Bytes → Bool
is_admin_role role = text_eq role (codes "admin")

abbrev pub is_admin : UserRecord → Bool
is_admin user = is_admin_role user.role

unfoldable pub admins : Tables → ℕ
admins t = count_rows is_admin t.users

unfoldable pub count_admins : Work → Option ℕ × Work
unfolding admins
count_admins = query admins

-- UPDATE users SET role = ? WHERE id = ?, of a table that admits two roles.
unfoldable pub role_set : ℕ → Bytes → Tables → Tables
role_set id role t = record t {
  users = update_where (has_id id) (λ user. record user { role = role }) t.users;
}

unfoldable pub set_role : ℕ → Bytes → Work → Option (Unit {0}) × Work
unfolding role_set
set_role id role = execute λ t.
    if is_admin_role role || text_eq role (codes "user") || count_rows (has_id id) t.users == 0
    then some (tt, role_set id role t)
    else none

-- The last administrator stays.
unfoldable pub more_than_one : ℕ → Body RoleRefusal (Unit {0})
more_than_one admin_count = if ltb 1 admin_count then pass tt else give_up last_admin

unfoldable pub keep_admin : UserRecord → Bytes → Body RoleRefusal (Unit {0})
unfolding more_than_one
keep_admin user new_role =
    if is_admin user && not (is_admin_role new_role)
    then (or_fail role_error count_admins >>= more_than_one)
    else pass tt

unfoldable pub change_found : ℕ → Bytes → Option UserRecord → Body RoleRefusal (Unit {0})
unfolding keep_admin
change_found id new_role none = give_up role_not_found
change_found id new_role (some user) =
    keep_admin user new_role >> or_fail role_error (set_role id new_role)

unfoldable pub change_role_body : ℕ → Bytes → Body RoleRefusal (Unit {0})
unfolding change_found
change_role_body id new_role = or_fail role_error (find_user id) >>= change_found id new_role

unfoldable pub change_role : ℕ → Bytes → Conn → (RoleRefusal ⊎ Unit {0}) × Conn
unfolding change_role_body
change_role id new_role = transaction role_error (change_role_body id new_role)
