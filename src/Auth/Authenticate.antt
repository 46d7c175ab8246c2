-- ===== src/Auth/Authenticate.antt =====
-- `authenticate_request` of src/auth/context.cpp: whose request it is, by the row of the user at that
-- time. `verify_token` is what `JwtService::verify` makes of a token: the user that it names.
pub mod Current
use vibe_coding.Prelude.{ℕ, Option, none, some}
use vibe_coding.Prelude.Text.{Bytes}
use vibe_coding.Db.Tables.{UserRecord}
use vibe_coding.Db.Connection.{Conn, alone}
use vibe_coding.Db.Users.{find_user}
use vibe_coding.Auth.Context.{AuthUser}

-- `AuthResult`
pub data AuthResult : Type 0 where
  authenticated : AuthUser → AuthResult
  unauthorized auth_error : AuthResult

unfoldable pub auth_user : UserRecord → AuthUser
auth_user row = record {
  id = row.id;
  account = row.account;
  nickname = row.nickname;
  role = row.role;
  reset_pwd_flag = row.reset_pwd_flag;
}

-- Behind the query.
unfoldable pub authenticated_row : Option (Option UserRecord) → AuthResult
unfolding auth_user
authenticated_row none = auth_error
authenticated_row (some none) = unauthorized
authenticated_row (some (some row)) = authenticated (auth_user row)

-- Behind the token.
unfoldable pub authenticate_id : Option ℕ → Conn → AuthResult × Conn
unfolding authenticated_row
authenticate_id none c = (unauthorized, c)
authenticate_id (some id) c =
    let (found, c') = alone (find_user id) c in (authenticated_row found, c')

unfoldable pub authenticate_request : (Bytes → Option ℕ) → Bytes → Conn → AuthResult × Conn
unfolding authenticate_id
authenticate_request verify_token token = authenticate_id (verify_token token)
