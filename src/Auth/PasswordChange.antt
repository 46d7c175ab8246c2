-- ===== src/Auth/PasswordChange.antt =====
-- `ChangePasswordService` of src/auth/password_change.h and password_change.cpp, with what it uses of
-- argon2: `hash`, and `verify`, which is `none` where it fails otherwise than by a mismatch.
pub mod Set
pub mod Changed
use vibe_coding.Prelude.{ℕ, Bool, true, false, Option, none, some, ◌⊎◌, inl, inr}
use vibe_coding.Prelude.Text.{Bytes}
use vibe_coding.Db.Tables.{UserRecord}
use vibe_coding.Db.Connection.{Conn, Body, ◌>>=◌, ◌>>◌, pass, give_up, or_fail, transaction}
use vibe_coding.Db.Users.{find_user, update_password}

-- `Outcome`: what is not `Success`.
pub data ChangeRefusal : Type 0 where
  invalid_old_password user_not_found change_error : ChangeRefusal

-- What the check of the old password says.
unfoldable pub old_verified : Option Bool → Body ChangeRefusal (Unit {0})
old_verified none = give_up change_error
old_verified (some false) = give_up invalid_old_password
old_verified (some true) = pass tt

-- Was there a row to update?
unfoldable pub was_updated : Bool → Body ChangeRefusal (Unit {0})
was_updated false = give_up user_not_found
was_updated true = pass tt

module _ (hash : Bytes → Option Bytes) (verify : Bytes → Bytes → Option Bool) where
  unfoldable pub change_of : ℕ → Bytes → Bytes → Option UserRecord → Body ChangeRefusal (Unit {0})
  unfolding old_verified was_updated
  change_of id old_password new_hash none = give_up user_not_found
  change_of id old_password new_hash (some user) =
      old_verified (verify user.password_hash old_password)
      >> (or_fail change_error (update_password id new_hash) >>= was_updated)

  unfoldable pub change_body : ℕ → Bytes → Bytes → Body ChangeRefusal (Unit {0})
  unfolding change_of
  change_body id old_password new_hash =
      or_fail change_error (find_user id) >>= change_of id old_password new_hash

  unfoldable pub change_hashed : ℕ → Bytes → Option Bytes → Conn → (ChangeRefusal ⊎ Unit {0}) × Conn
  unfolding change_body
  change_hashed id old_password none c = (inl change_error, c)
  change_hashed id old_password (some new_hash) c =
      transaction change_error (change_body id old_password new_hash) c

  -- `ChangePasswordService::change_password`
  unfoldable pub change_password : ℕ → Bytes → Bytes → Conn → (ChangeRefusal ⊎ Unit {0}) × Conn
  unfolding change_hashed
  change_password id old_password new_password c =
      change_hashed id old_password (hash new_password) c
