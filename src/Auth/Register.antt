-- ===== src/Auth/Register.antt =====
-- `RegisterService` of src/auth/register.h and register.cpp, with what it uses of argon2 (`hash`), of
-- the random source (`generate` gives the account of an attempt, of which so many are left behind it)
-- and of the clock.
pub mod Answered
pub mod Registered
pub mod Lost
pub mod Usable
use vibe_coding.Prelude.{ℕ, zero, suc, Bool, Option, none, some, ◌⊎◌, inl, inr}
use vibe_coding.Prelude.Text.{Bytes}
use vibe_coding.Db.Tables.{UserRecord}
use vibe_coding.Db.Connection.{Work, Conn, alone}
use vibe_coding.Db.Users.{
  CreateStatus, created, account_taken, nickname_taken, create_error, create_user, find_by_nickname,
}
use vibe_coding.Auth.Validation.{ValidationError, validate_nickname, validate_password}

-- `RegisterOutcome`
pub data RegisterOutcome : Type 0 where
  registered : UserRecord → RegisterOutcome
  invalid_nickname invalid_password : ValidationError → RegisterOutcome
  nickname_in_use register_error : RegisterOutcome

-- What follows an attempt: an account that is taken is tried again.
unfoldable pub register_attempted :
    (Conn → RegisterOutcome × Conn) → CreateStatus × Conn → RegisterOutcome × Conn
register_attempted again (created user, c) = (registered user, c)
register_attempted again (nickname_taken, c) = (nickname_in_use, c)
register_attempted again (account_taken, c) = again c
register_attempted again (create_error, c) = (register_error, c)

module _ (account_first : Bool) (now : Bytes) (generate : ℕ → Bytes) (hash : Bytes → Option Bytes)
    (max_account_attempts : ℕ) where
  -- The loop, `attempts` of it being left.
  unfoldable pub register_attempts : ℕ → Bytes → Bytes → Conn → RegisterOutcome × Conn
  unfolding register_attempted
  register_attempts zero nickname hashed c = (register_error, c)
  register_attempts (suc attempts) nickname hashed c =
      register_attempted (register_attempts attempts nickname hashed)
        (alone (create_user account_first now (generate attempts) nickname hashed) c)

  unfoldable pub register_hashed : Bytes → Option Bytes → Conn → RegisterOutcome × Conn
  unfolding register_attempts
  register_hashed nickname none c = (register_error, c)
  register_hashed nickname (some hashed) c =
      register_attempts max_account_attempts nickname hashed c

  -- Behind the query for the nickname.
  unfoldable pub register_found :
      Bytes → Bytes → Option (Option UserRecord) → Conn → RegisterOutcome × Conn
  unfolding register_hashed
  register_found nickname password none c = (register_error, c)
  register_found nickname password (some (some _)) c = (nickname_in_use, c)
  register_found nickname password (some none) c = register_hashed nickname (hash password) c

  -- Behind the checks of the nickname and of the password.
  unfoldable pub register_checked :
      Bytes → ValidationError ⊎ Bytes → ValidationError ⊎ Bytes → Conn → RegisterOutcome × Conn
  unfolding register_found
  register_checked password (inl error) _ c = (invalid_nickname error, c)
  register_checked password (inr _) (inl error) c = (invalid_password error, c)
  register_checked password (inr nickname) (inr _) c =
      let (found, c') = alone (find_by_nickname nickname) c in
      register_found nickname password found c'

  -- `RegisterService::register_user`
  unfoldable pub register_user : Bytes → Bytes → Conn → RegisterOutcome × Conn
  unfolding register_checked
  register_user nickname password c =
      register_checked password (validate_nickname nickname) (validate_password password) c
