-- ===== src/Auth/Login.antt =====
-- `LoginService` of src/auth/login.h and login.cpp, with what it uses of argon2 (`verify`, which is
-- `none` where it fails otherwise than by a mismatch) and of jwt-cpp (`sign`, under `expires`).
pub mod Works
use vibe_coding.Prelude.{ℕ, Bool, true, false, Option, none, some}
use vibe_coding.Prelude.Text.{Bytes}
use vibe_coding.Db.Tables.{UserRecord}
use vibe_coding.Db.Connection.{Conn, alone}
use vibe_coding.Db.Users.{find_by_account}

-- `LoginOutcome`: the token, the seconds that it lives, and the user; or the kind.
pub data LoginOutcome : Type 0 where
  logged_in : Bytes → ℕ → UserRecord → LoginOutcome
  invalid_credentials login_error : LoginOutcome

module _ (verify : Bytes → Bytes → Option Bool) (sign : ℕ → Option Bytes) (expires : ℕ) where
  unfoldable pub signed : UserRecord → Option Bytes → LoginOutcome
  signed user none = login_error
  signed user (some token) = logged_in token expires user

  unfoldable pub verified : UserRecord → Option Bool → LoginOutcome
  unfolding signed
  verified user none = login_error
  verified user (some false) = invalid_credentials
  verified user (some true) = signed user (sign user.id)

  unfoldable pub login_found : Bytes → Option (Option UserRecord) → LoginOutcome
  unfolding verified
  login_found password none = login_error
  login_found password (some none) = invalid_credentials
  login_found password (some (some user)) = verified user (verify user.password_hash password)

  -- `LoginService::login`
  unfoldable pub login : Bytes → Bytes → Conn → LoginOutcome × Conn
  unfolding login_found
  login account password c =
      let (found, c') = alone (find_by_account account) c in (login_found password found, c')
