-- ===== src/Auth/Validation.antt =====
-- src/auth/validation.cpp: the rules for nicknames and passwords. A check gives its error, or the
-- value that the caller goes on with.
pub mod Rules
use vibe_coding.Prelude.{
  ℕ, Bool, ◌||◌, ◌⊎◌, inl, inr, ◌==◌, drop_while, drop_while_end, if◌then◌else◌, is_empty, ltb,
  length,
}
use vibe_coding.Prelude.Text.{Bytes, text_eq}

-- The texts "昵称不能为空", "昵称过长", "密码不能为空", "密码过长", "新密码不能与旧密码相同".
pub data ValidationError : Type 0 where
  nickname_empty nickname_too_long password_empty password_too_long : ValidationError
  password_unchanged : ValidationError

abbrev pub nickname_max_len : ℕ
nickname_max_len = 30

abbrev pub password_max_len : ℕ
password_max_len = 128

-- The bytes 11, 12 and 13 are '\v', '\f' and '\r'.
unfoldable pub is_ws : ℕ → Bool
is_ws c = c == b' ' || c == b'\t' || c == b'\n' || c == 13 || c == 12 || c == 11

abbrev pub trim_ascii : Bytes → Bytes
trim_ascii s = drop_while_end is_ws (drop_while is_ws s)

unfoldable pub validate_nickname : Bytes → ValidationError ⊎ Bytes
validate_nickname input =
    let normalized = trim_ascii input in
    if is_empty normalized
    then inl nickname_empty
    else if ltb nickname_max_len (length normalized)
    then inl nickname_too_long
    else inr normalized

unfoldable pub validate_password : Bytes → ValidationError ⊎ Bytes
validate_password password =
    if is_empty password
    then inl password_empty
    else if ltb password_max_len (length password)
    then inl password_too_long
    else inr password

unfoldable pub validate_password_change : Bytes → Bytes → ValidationError ⊎ Bytes
unfolding validate_password
validate_password_change old_password new_password = elim (validate_password new_password) [
  | inl error ↦ inl error
  | inr password ↦
      if text_eq new_password old_password then inl password_unchanged else inr password
]
