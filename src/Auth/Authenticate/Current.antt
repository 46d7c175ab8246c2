-- ===== src/Auth/Authenticate/Current.antt =====
-- A request has the rights that the user has at that time, not those at the time of the login.
use vibe_coding.Prelude.{ℕ, ◌≡◌, some}
use vibe_coding.Prelude.Text.{Bytes}
use vibe_coding.Db.Tables.{Tables, UserRecord}
use vibe_coding.Db.Users.{user_of}
use vibe_coding.Db.Columns.{load_user}
use vibe_coding.Auth.Authenticate.{AuthResult, authenticated, auth_user}

-- What a request is that comes with an older token of the user.
IsOf : ℕ → Bytes → AuthResult → Tables → Type 0
IsOf id new_role r before =
    (row : UserRecord) × (user_of id before ≡ some row)
    × (r ≡ authenticated (auth_user (load_user (record row { role = new_role }))))
