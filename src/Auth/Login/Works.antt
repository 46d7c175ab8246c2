-- ===== src/Auth/Login/Works.antt =====
-- A login that goes through.
use vibe_coding.Prelude.{ℕ, ◌≡◌, true, Bool, Option, some, [], arith}
use vibe_coding.Prelude.Text.{Bytes}
use vibe_coding.Db.Tables.{UserRecord}
use vibe_coding.Db.Columns.{column_text, load_user, loaded}
use vibe_coding.Db.Connection.{Conn, alone, query, take_fault}
use vibe_coding.Db.Users.{user_by_account, read_by_account, find_by_account}
use vibe_coding.Auth.Login.{logged_in, login, login_found, verified, signed}

-- A login on a connection of which no call fails.
pub found-login :
    (verify : Bytes → Bytes → Option Bool) (sign : ℕ → Option Bytes) (expires : ℕ)
    (account password token : Bytes) (row : UserRecord) (c : Conn)
    → c.work.faults ≡ []
    → user_by_account account c.work.tables ≡ some row
    → verify (column_text row.password_hash) password ≡ some true
    → sign row.id ≡ some token
    → (login verify sign expires account password c).0 ≡ logged_in token expires (load_user row)
unfolding login login_found verified signed alone find_by_account query take_fault read_by_account
    loaded load_user
found-login verify sign expires account password token row c quiet found matches signs =
    ground (arith, quiet, found, matches, signs)
