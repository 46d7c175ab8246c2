-- ===== src/Auth/Context.antt =====
-- src/auth/context.h and context.cpp without the look-up of the user, and authorize.cpp.
pub mod Bearer
use vibe_coding.Prelude.{
  ℕ, Bool, Option, none, some, List, [], ◌∷◌, ◌==◌, drop_while, if◌then◌else◌, not, all, is_empty,
}
use vibe_coding.Prelude.Text.{Bytes, codes, text_eq, is_space, to_upper}

-- The flag is an `int`, of which the code asks only whether it is 0.
pub record AuthUser : Type 0 where
  pub id : ℕ
  pub account : Bytes
  pub nickname : Bytes
  pub role : Bytes
  pub reset_pwd_flag : ℕ

-- What follows the scheme; `none` where the text is another one.
unfoldable pub match_scheme : Bytes → Bytes → Option Bytes
match_scheme [] text = some text
match_scheme (e ∷ scheme) [] = none
match_scheme (e ∷ scheme) (c ∷ text) =
    let rest = match_scheme scheme text in if to_upper c == to_upper e then rest else none

-- The bytes up to the next blank, and those from there on.
unfoldable pub word : Bytes → Bytes
word [] = []
word (c ∷ text) = let rest = word text in if is_space c then [] else c ∷ rest

unfoldable pub after_word : Bytes → Bytes
after_word [] = []
after_word (c ∷ text) = let rest = after_word text in if is_space c then c ∷ text else rest

-- From `begin` on.
unfoldable pub token_of : Bytes → Option Bytes
unfolding word after_word
token_of [] = none
token_of (c ∷ text) =
    if all is_space (after_word (c ∷ text))
    then (if is_empty (word (c ∷ text)) then none else some (word (c ∷ text)))
    else none

-- From `pos` on.
unfoldable pub separated : Bytes → Option Bytes
unfolding token_of
separated [] = none
separated (c ∷ text) = if is_space c then token_of (drop_while is_space (c ∷ text)) else none

unfoldable pub extract_bearer_token : Bytes → Option Bytes
unfolding match_scheme separated
extract_bearer_token authorization =
    elim (match_scheme (codes "Bearer") (drop_while is_space authorization)) [
      | none ↦ none
      | some rest ↦ separated rest
    ]

pub data AdminCheck : Type 0 where
  admin_ok not_admin password_change_required : AdminCheck

unfoldable pub requires_password_change : AuthUser → Bool
requires_password_change user = not (user.reset_pwd_flag == 0)

unfoldable pub check_admin : AuthUser → AdminCheck
unfolding requires_password_change
check_admin user =
    if not (text_eq user.role (codes "admin"))
    then not_admin
    else if requires_password_change user
    then password_change_required
    else admin_ok
