-- ===== src/Auth/Validation/Rules.antt =====
-- What passes the rules for nicknames and passwords.
use vibe_coding.Prelude.{◌≤◌, ◌<◌, ◌≡◌, ◌≢◌, ◌↔◌, inr, length, arith}
use vibe_coding.Prelude.Text.{Bytes, text_eq_iff}
use vibe_coding.Auth.Validation.{
  trim_ascii, validate_nickname, validate_password_change, nickname_max_len, password_max_len,
  is_ws,
}
use vibe_coding.Prelude.{trim_idem, is_empty-length, sym, ap, ◌∙◌}

-- A nickname passes exactly when, without the blanks at its ends, it has between 1 and 30 bytes; and
-- that is the name that goes on.
pub validate_nickname_iff :
    (input name : Bytes)
    → (validate_nickname input ≡ inr name)
      ↔ ((name ≡ trim_ascii input) × (0 < length name) × (length name ≤ nickname_max_len))
unfolding validate_nickname
validate_nickname_iff input name = ground (arith, is_empty-length (trim_ascii input))

-- A name that passed passes again, unchanged.
pub validate_nickname_stable :
    (input name : Bytes) → validate_nickname input ≡ inr name → validate_nickname name ≡ inr name
validate_nickname_stable input name h =
    let passed = (validate_nickname_iff input name).0 h in
    (validate_nickname_iff name name).1
      (passed.0 ∙ sym (trim_idem is_ws input) ∙ ap trim_ascii (sym passed.0), passed.1, passed.2)

-- A new password passes exactly when it has between 1 and 128 bytes and is not the old one; it goes
-- on as it is.
pub validate_password_change_iff :
    (old_password new_password password : Bytes)
    → (validate_password_change old_password new_password ≡ inr password) ↔ (
        (password ≡ new_password)
        × (0 < length new_password)
        × (length new_password ≤ password_max_len)
        × (new_password ≢ old_password))
unfolding validate_password_change
validate_password_change_iff old_password new_password password =
    ground (arith, is_empty-length new_password, text_eq_iff new_password old_password)
