-- ===== src/Auth/Register/Lost.antt =====
-- A registration beside the transaction of another thread. `register_user` does not take the
-- transaction mutex, and all threads share one connection.
use vibe_coding.Prelude.{
  ℕ, zero, suc, ◌≡◌, refl, ◌∙◌, Bool, [], ◌∷◌, ◌++◌, sym, ap, subst, Option, none, some, ◌⊎◌, inl,
  inr, arith,
}
use vibe_coding.Prelude.Text.{Bytes}
use vibe_coding.Db.Tables.{Tables, UserRecord, count_rows}
use vibe_coding.Db.Columns.{load_user}
use vibe_coding.Auth.Register.Answered.{IsMade, Answers, register_user-Answers}
use vibe_coding.Db.Connection.{Conn, alone, durable, rollback, rollback_from, take_fault}
use vibe_coding.Db.Connection.Atomic.{durable-open}
use vibe_coding.Db.Users.{
  CreateStatus, created, account_taken, nickname_taken, create_error, create_user, find_by_nickname,
  has_account, account_is_taken, with_user,
}
use vibe_coding.Auth.Validation.{ValidationError, validate_nickname, validate_password}
use vibe_coding.Auth.Register.{
  RegisterOutcome, registered, register_attempted, register_attempts, register_hashed,
  register_found, register_checked, register_user,
}

attempted-snapshot :
    (again : Conn → RegisterOutcome × Conn) (status : CreateStatus) (c : Conn)
    → (again c).1.snapshot ≡ c.snapshot
    → (register_attempted again (status, c)).1.snapshot ≡ c.snapshot
unfolding register_attempted
attempted-snapshot again (created user) c h = refl
attempted-snapshot again account_taken c h = h
attempted-snapshot again nickname_taken c h = refl
attempted-snapshot again create_error c h = refl

-- The same connection, of which no later call fails.
abbrev pub without_faults : Conn → Conn
without_faults c = record c { work = record c.work { faults = [] } }

rolled-back :
    (c : Conn) (before : Tables)
    → c.snapshot ≡ some before
    → (rollback (without_faults c)).1.work.tables ≡ before
unfolding rollback rollback_from take_fault
rolled-back c before h = ground (arith, h)

module _ (account_first : Bool) (now : Bytes) (generate : ℕ → Bytes) (hash : Bytes → Option Bytes)
    (max_account_attempts : ℕ) where
  attempts-snapshot :
      (attempts : ℕ) (nickname hashed : Bytes) (c : Conn)
      → (register_attempts account_first now generate hash max_account_attempts attempts nickname
          hashed c).1.snapshot
        ≡ c.snapshot
  unfolding register_attempts alone
  attempts-snapshot zero nickname hashed c = refl
  attempts-snapshot (suc attempts) nickname hashed c =
      let made = alone (create_user account_first now (generate attempts) nickname hashed) c in
      attempted-snapshot
        (register_attempts account_first now generate hash max_account_attempts attempts nickname
          hashed)
        made.0 made.1 (attempts-snapshot attempts nickname hashed made.1)

  found-snapshot :
      (nickname password : Bytes) (found : Option (Option UserRecord)) (c : Conn)
      → (register_found account_first now generate hash max_account_attempts nickname password found
          c).1.snapshot
        ≡ c.snapshot
  unfolding register_found
  found-snapshot nickname password none c = refl
  found-snapshot nickname password (some (some user)) c = refl
  found-snapshot nickname password (some none) c = hashed (hash password)
    where
      hashed :
          (o : Option Bytes)
          → (register_hashed account_first now generate hash max_account_attempts nickname o
              c).1.snapshot
            ≡ c.snapshot
      hashed none = refl
      hashed (some h) = attempts-snapshot max_account_attempts nickname h c

  checked-snapshot :
      (password : Bytes) (n p : ValidationError ⊎ Bytes) (c : Conn)
      → (register_checked account_first now generate hash max_account_attempts password n p
          c).1.snapshot
        ≡ c.snapshot
  unfolding register_checked alone
  checked-snapshot password (inl error) p c = refl
  checked-snapshot password (inr nickname) (inl error) c = refl
  checked-snapshot password (inr nickname) (inr _) c =
      let found = alone (find_by_nickname nickname) c in
      found-snapshot nickname password found.0 found.1

  -- A registration that succeeds while a transaction is open that has not changed the users: the row
  -- of the answer, with a new account, is behind the users that the connection sees; but what is
  -- durable is as before, and a ROLLBACK of that transaction that does not fail takes the row away, so
  -- that nobody has the account.
  pub register_user-lost :
      (nickname password : Bytes) (user : UserRecord) (c c' : Conn) (before : Tables)
      → c.snapshot ≡ some before
      → c.work.tables.users ≡ before.users
      → register_user account_first now generate hash max_account_attempts nickname password c
        ≡ (registered user, c')
      → (row : UserRecord) × (user ≡ load_user row)
        × (c'.work.tables.users ≡ c.work.tables.users ++ row ∷ [])
        × (durable c' ≡ before)
        × ((rollback (without_faults c')).1.work.tables ≡ before)
        × (count_rows (has_account row.account) (rollback (without_faults c')).1.work.tables.users
            ≡ 0)
  unfolding register_user account_is_taken with_user
  register_user-lost nickname password user c c' before h same made =
      let is_made : IsMade generate hash now nickname password c.work.tables c'.work.tables user =
        subst
          (λ (r : RegisterOutcome × Conn).
            Answers generate hash now nickname password c.work.tables r.1.work.tables r.0)
          made
          (register_user-Answers account_first now generate hash max_account_attempts nickname
            password c) in
      let new = is_made.creates in
      let still_open : c'.snapshot ≡ some before =
        ap (λ (r : RegisterOutcome × Conn). r.1.snapshot) (sym made)
        ∙ checked-snapshot password (validate_nickname nickname) (validate_password password) c
        ∙ h in
      let back = rolled-back c' before still_open in
      let nobody : count_rows (has_account new.row.account) c.work.tables.users ≡ 0 =
        ground (arith, new.new_account) in
      (
        new.row,
        new.answered,
        ap (λ (t : Tables). t.users) new.tables,
        durable-open c' before still_open,
        back,
        ap (λ (t : Tables). count_rows (has_account new.row.account) t.users) back
            ∙ ap (count_rows (has_account new.row.account)) (sym same)
            ∙ nobody,
      )
