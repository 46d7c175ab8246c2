-- ===== src/Auth/Register/Registered.antt =====
-- A registration, and what it leaves in the database.
use vibe_coding.Prelude.{ℕ, ◌+◌, ◌≡◌, ◌∙◌, ap, Bool, Option, some, inl, inr, [], ◌∷◌, ◌++◌, arith}
use vibe_coding.Prelude.Text.{Bytes, codes}
use vibe_coding.Db.Tables.{Tables, UserRecord, count_rows}
use vibe_coding.Db.Columns.{column_text, load_user}
use vibe_coding.Db.Connection.{Conn}
use vibe_coding.Db.Users.{
  has_account, has_nickname, account_is_taken, nickname_is_taken, new_user, with_user,
}
use vibe_coding.Auth.Validation.{validate_nickname, validate_password}
use vibe_coding.Auth.Register.{
  RegisterOutcome, registered, invalid_nickname, invalid_password, nickname_in_use, register_error,
  register_user,
}
use vibe_coding.Auth.Register.Answered.{IsMade, Answers, register_user-Answers}

-- A registration that succeeds: the nickname and the password pass their checks, and one row is added,
-- last, with the first, trimmed, a hash of the second, and an account; nobody has had this account or
-- this nickname. The answer is this row as it is read.
pub record IsRegistered (hash : Bytes → Option Bytes) (now nickname password : Bytes)
    (before after : Tables) (user : UserRecord) : Type 0 where
  pub name : Bytes
  pub valid : validate_nickname nickname ≡ inr name
  pub secret : validate_password password ≡ inr password
  pub hashed : Bytes
  pub hashes : hash password ≡ some hashed
  pub account : Bytes
  pub new_account : count_rows (has_account account) before.users ≡ 0
  pub new_nickname : count_rows (has_nickname name) before.users ≡ 0
  pub users :
      after.users
      ≡ before.users
        ++ record {
          id = before.next_user;
          account = account;
          nickname = name;
          password_hash = hashed;
          role = codes "user";
          reset_pwd_flag = 0;
          created_at = now;
        }
          ∷ []
  pub next_user : after.next_user ≡ before.next_user + 1
  pub answered_id : user.id ≡ before.next_user
  pub answered_account : user.account ≡ column_text account
  pub answered_nickname : user.nickname ≡ column_text name
  pub answered_role : user.role ≡ codes "user"
  pub answered_flag : user.reset_pwd_flag ≡ 0
  pub problems : after.problems ≡ before.problems
  pub testcases : after.testcases ≡ before.testcases
  pub submissions : after.submissions ≡ before.submissions
  pub statuses : after.statuses ≡ before.statuses
  pub in_flight : after.in_flight ≡ before.in_flight

abbrev pub Outcomes :
    (Bytes → Option Bytes) → Bytes → Bytes → Bytes → Tables → Tables → RegisterOutcome → Type 0
Outcomes hash now nickname password before after (registered user) =
    IsRegistered hash now nickname password before after user
Outcomes hash now nickname password before after (invalid_nickname error) =
    (validate_nickname nickname ≡ inl error) × (after ≡ before)
Outcomes hash now nickname password before after (invalid_password error) =
    (validate_password password ≡ inl error) × (after ≡ before)
Outcomes hash now nickname password before after nickname_in_use = after ≡ before
Outcomes hash now nickname password before after register_error = after ≡ before

made-IsRegistered :
    (generate : ℕ → Bytes) (hash : Bytes → Option Bytes) (now nickname password : Bytes)
    (before after : Tables) (user : UserRecord)
    → IsMade generate hash now nickname password before after user
    → IsRegistered hash now nickname password before after user
unfolding account_is_taken nickname_is_taken new_user with_user load_user column_text
made-IsRegistered generate hash now nickname password before after user h =
    let made = h.creates in
    let row = new_user now made.row.account h.name h.hashed before.next_user in
    let tables : after ≡ with_user row before =
      made.tables ∙ ap (λ r. with_user r before) made.stored in
    let answered : user ≡ load_user row = made.answered ∙ ap load_user made.stored in
    record {
      name = h.name;
      valid = h.valid;
      secret = h.secret;
      hashed = h.hashed;
      hashes = h.hashes;
      account = made.row.account;
      new_account = ground (arith, made.new_account);
      new_nickname = ground (arith, made.new_nickname);
      users = ap (λ (t : Tables). t.users) tables;
      next_user = ap (λ (t : Tables). t.next_user) tables;
      answered_id = ap (λ (u : UserRecord). u.id) answered;
      answered_account = ap (λ (u : UserRecord). u.account) answered;
      answered_nickname = ap (λ (u : UserRecord). u.nickname) answered;
      answered_role = ap (λ (u : UserRecord). u.role) answered;
      answered_flag = ap (λ (u : UserRecord). u.reset_pwd_flag) answered;
      problems = ap (λ (t : Tables). t.problems) tables;
      testcases = ap (λ (t : Tables). t.testcases) tables;
      submissions = ap (λ (t : Tables). t.submissions) tables;
      statuses = ap (λ (t : Tables). t.statuses) tables;
      in_flight = ap (λ (t : Tables). t.in_flight) tables;
    }

outcomes :
    (generate : ℕ → Bytes) (hash : Bytes → Option Bytes) (now nickname password : Bytes)
    (before after : Tables) (r : RegisterOutcome)
    → Answers generate hash now nickname password before after r
    → Outcomes hash now nickname password before after r
outcomes generate hash now nickname password before after (registered user) h =
    made-IsRegistered generate hash now nickname password before after user h
outcomes generate hash now nickname password before after (invalid_nickname _) h = h
outcomes generate hash now nickname password before after (invalid_password _) h = h
outcomes generate hash now nickname password before after nickname_in_use h = h
outcomes generate hash now nickname password before after register_error h = h

module _ (account_first : Bool) (now : Bytes) (generate : ℕ → Bytes) (hash : Bytes → Option Bytes)
    (max_account_attempts : ℕ) where
  -- A registration that succeeds has a nickname and a password that pass their checks, hashes the
  -- second, and adds one row to the tables that the connection sees, of a user with an account and a
  -- nickname that nobody has; the answer shows this row, a text up to its first NUL. Every other
  -- outcome leaves these tables as they were, and an input that is refused has the error of its check.
  pub register_user-Outcomes :
      (nickname password : Bytes) (c : Conn)
      → let r =
          register_user account_first now generate hash max_account_attempts nickname password c in
        Outcomes hash now nickname password c.work.tables r.1.work.tables r.0
  register_user-Outcomes nickname password c =
      outcomes generate hash now nickname password c.work.tables _ _ (
        register_user-Answers account_first now generate hash max_account_attempts nickname password
          c)
