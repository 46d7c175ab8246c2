-- ===== src/Auth/Register/Usable.antt =====
-- Behind a registration: the constraints of the table hold, and the user can log in.
use vibe_coding.Prelude.{ℕ, ◌≡◌, sym, ap, subst, ◌∙◌, Bool, true, Option, some, [], arith}
use vibe_coding.Prelude.Text.{Bytes, text_eq_refl}
use vibe_coding.Db.Tables.{Tables, UserRecord, select_one}
use vibe_coding.Db.Columns.{column_text, load_user}
use vibe_coding.Db.Connection.{Conn}
use vibe_coding.Db.Rows.{select-append}
use vibe_coding.Db.Users.{has_account, account_is_taken, with_user, new_user, user_by_account}
use vibe_coding.Db.Users.Valid.{UsersValid, with_user-UsersValid}
use vibe_coding.Auth.Login.{logged_in, login}
use vibe_coding.Auth.Login.Works.{found-login}
use vibe_coding.Auth.Register.{
  RegisterOutcome, registered, invalid_nickname, invalid_password, nickname_in_use, register_error,
  register_user,
}
use vibe_coding.Auth.Register.Answered.{IsCreated, IsMade, Answers, register_user-Answers}

created-UsersValid :
    (generate : ℕ → Bytes) (now nickname hashed : Bytes) (before after : Tables) (user : UserRecord)
    → IsCreated generate now nickname hashed before after user
    → UsersValid before
    → UsersValid after
created-UsersValid generate now nickname hashed before after user h v =
    subst UsersValid (ap (λ u. with_user u before) (sym h.stored) ∙ sym h.tables)
      (with_user-UsersValid now h.row.account nickname hashed before h.new_account h.new_nickname v)

answer-UsersValid :
    (generate : ℕ → Bytes) (hash : Bytes → Option Bytes) (now nickname password : Bytes)
    (before after : Tables) (r : RegisterOutcome)
    → Answers generate hash now nickname password before after r
    → UsersValid before
    → UsersValid after
answer-UsersValid generate hash now nickname password before after (registered user) h v =
    created-UsersValid generate now h.name h.hashed before after user h.creates v
answer-UsersValid generate hash now nickname password before after (invalid_nickname _) h v =
    subst UsersValid (sym h.1) v
answer-UsersValid generate hash now nickname password before after (invalid_password _) h v =
    subst UsersValid (sym h.1) v
answer-UsersValid generate hash now nickname password before after nickname_in_use h v =
    subst UsersValid (sym h) v
answer-UsersValid generate hash now nickname password before after register_error h v =
    subst UsersValid (sym h) v

-- The row of a new account.
found-account :
    (generate : ℕ → Bytes) (now nickname hashed : Bytes) (before after : Tables) (user : UserRecord)
    (h : IsCreated generate now nickname hashed before after user)
    → user_by_account h.row.account after ≡ some h.row
unfolding user_by_account with_user account_is_taken
found-account generate now nickname hashed before after user h =
    ap (λ (t : Tables). select_one (has_account h.row.account) t.users) h.tables
    ∙ select-append (has_account h.row.account) before.users h.row (ground (arith, h.new_account))
        (text_eq_refl h.row.account)

-- The login of a user who has just been made.
made-login :
    (generate : ℕ → Bytes) (hash : Bytes → Option Bytes) (now nickname password token : Bytes)
    (before : Tables) (user : UserRecord) (c' : Conn) (verify : Bytes → Bytes → Option Bool)
    (sign : ℕ → Option Bytes) (expires : ℕ)
    → ((n : ℕ) → column_text (generate n) ≡ generate n)
    → ((password hashed : Bytes)
        → hash password ≡ some hashed
        → verify (column_text hashed) password ≡ some true)
    → IsMade generate hash now nickname password before c'.work.tables user
    → c'.work.faults ≡ []
    → sign user.id ≡ some token
    → (login verify sign expires user.account password c').0 ≡ logged_in token expires user
unfolding load_user new_user
made-login generate hash now nickname password token before user c' verify sign expires whole
      verify-hash h quiet signs =
    let made = h.creates in
    let row = made.row in
    let account : user.account ≡ row.account =
      ap (λ (u : UserRecord). u.account) made.answered
      ∙ ap column_text made.drawn
      ∙ whole made.drawn_at
      ∙ sym made.drawn in
    let stored_hash : row.password_hash ≡ h.hashed =
      ap (λ (u : UserRecord). u.password_hash) made.stored in
    ap (λ name. (login verify sign expires name password c').0) account
    ∙ found-login verify sign expires row.account password token row c' quiet
        (found-account generate now h.name h.hashed before c'.work.tables user made)
        (ap (λ stored. verify (column_text stored) password) stored_hash
          ∙ verify-hash password h.hashed h.hashes)
        (ap sign (ap (λ (u : UserRecord). u.id) (sym made.answered)) ∙ signs)
    ∙ ap (logged_in token expires) (sym made.answered)

module _ (account_first : Bool) (now : Bytes) (generate : ℕ → Bytes) (hash : Bytes → Option Bytes)
    (max_account_attempts : ℕ) where
  -- A registration keeps the constraints of the table of users, whichever calls fail.
  pub register_user-UsersValid :
      (nickname password : Bytes) (c : Conn)
      → UsersValid c.work.tables
      → UsersValid
          (register_user account_first now generate hash max_account_attempts nickname password
            c).1.work.tables
  register_user-UsersValid nickname password c v =
      answer-UsersValid generate hash now nickname password c.work.tables _ _
        (register_user-Answers account_first now generate hash max_account_attempts nickname
          password c)
        v

  -- Where a hash verifies against its password as it is read, accounts are drawn without a NUL and
  -- tokens are signed, a user who has registered can log in, with the account that was given and the
  -- password, if no call of the login fails.
  pub register_user-login :
      (verify : Bytes → Bytes → Option Bool) (sign : ℕ → Option Bytes) (expires : ℕ)
      → ((n : ℕ) → column_text (generate n) ≡ generate n)
      → ((password hashed : Bytes)
          → hash password ≡ some hashed
          → verify (column_text hashed) password ≡ some true)
      → (nickname password token : Bytes) (user : UserRecord) (c c' : Conn)
      → register_user account_first now generate hash max_account_attempts nickname password c
        ≡ (registered user, c')
      → c'.work.faults ≡ []
      → sign user.id ≡ some token
      → (login verify sign expires user.account password c').0 ≡ logged_in token expires user
  register_user-login verify sign expires whole verify-hash nickname password token user c c' h
        quiet signs =
      made-login generate hash now nickname password token c.work.tables user c' verify sign expires
        whole verify-hash
        (subst
          (λ (r : RegisterOutcome × Conn).
            Answers generate hash now nickname password c.work.tables r.1.work.tables r.0)
          h
          (register_user-Answers account_first now generate hash max_account_attempts nickname
            password c))
        quiet signs
