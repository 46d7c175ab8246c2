-- ===== src/Auth/Register/Answered.antt =====
-- A registration, statement by statement: what it did to the tables.
use vibe_coding.Prelude.{
  ℕ, zero, suc, ◌≡◌, refl, subst, Bool, false, Option, none, some, arith, if-cases, ◌&&◌, ◌||◌, not,
  inl, inr, ap, ◌⊎◌, ◌∙◌,
}
use vibe_coding.Prelude.Text.{Bytes}
use vibe_coding.Db.Tables.{Tables, UserRecord}
use vibe_coding.Db.Connection.{Work, Conn, alone, query, execute, take_fault}
use vibe_coding.Db.Columns.{load_user}
use vibe_coding.Db.Users.{
  CreateStatus, created, account_taken, nickname_taken, create_error, create_user, find_by_nickname,
  add_user, new_user, with_user, account_is_taken, nickname_is_taken,
}
use vibe_coding.Auth.Validation.{ValidationError, validate_nickname, validate_password}
use vibe_coding.Auth.Register.{
  RegisterOutcome, registered, invalid_nickname, invalid_password, nickname_in_use, register_error,
  register_attempted, register_attempts, register_hashed, register_found, register_checked,
  register_user,
}

-- What an insertion says of the tables: the row of the new user, whose account and nickname nobody
-- has, or nothing.
pub record IsCreated (generate : ℕ → Bytes) (now nickname hashed : Bytes) (before after : Tables)
    (user : UserRecord) : Type 0 where
  pub row : UserRecord
  pub stored : row ≡ new_user now row.account nickname hashed before.next_user
  pub answered : user ≡ load_user row
  pub drawn_at : ℕ
  pub drawn : row.account ≡ generate drawn_at
  pub new_account : account_is_taken row.account before ≡ false
  pub new_nickname : nickname_is_taken nickname before ≡ false
  pub tables : after ≡ with_user row before

abbrev pub Creates : (ℕ → Bytes) → Bytes → Bytes → Bytes → Tables → Tables → CreateStatus → Type 0
Creates generate now nickname hashed before after (created user) =
    IsCreated generate now nickname hashed before after user
Creates generate now nickname hashed before after account_taken = after ≡ before
Creates generate now nickname hashed before after nickname_taken = after ≡ before
Creates generate now nickname hashed before after create_error = after ≡ before

add_user-Creates :
    (account_first : Bool) (generate : ℕ → Bytes) (n : ℕ) (now nickname hashed : Bytes) (t : Tables)
    → let r = add_user account_first now (generate n) nickname hashed t in
      Creates generate now nickname hashed t r.1 r.0
unfolding add_user new_user load_user
add_user-Creates account_first generate n now nickname hashed t =
    if-cases (λ (r : CreateStatus × Tables). Creates generate now nickname hashed t r.1 r.0)
      (account_is_taken (generate n) t && (account_first || not (nickname_is_taken nickname t))) _ _
      (λ _. refl)
      (λ d.
        if-cases (λ (r : CreateStatus × Tables). Creates generate now nickname hashed t r.1 r.0)
          (nickname_is_taken nickname t) _ _ (λ _. refl)
          (λ e. record {
            row = new_user now (generate n) nickname hashed t.next_user;
            stored = refl;
            answered = refl;
            drawn_at = n;
            drawn = refl;
            new_account = ground (arith, d, e);
            new_nickname = e;
            tables = refl;
          }))

create_user-Creates :
    (account_first : Bool) (generate : ℕ → Bytes) (n : ℕ) (now nickname hashed : Bytes) (w : Work)
    → let r = create_user account_first now (generate n) nickname hashed w in
      Creates generate now nickname hashed w.tables r.1.tables r.0
unfolding create_user execute take_fault
create_user-Creates account_first generate n now nickname hashed w =
    if-cases
      (λ (r : Option CreateStatus × Work).
        Creates generate now nickname hashed w.tables r.1.tables
          (elim r.0 [ none ↦ create_error | some s ↦ s ]))
      (take_fault w).0 _ _ (λ _. refl)
      (λ _. add_user-Creates account_first generate n now nickname hashed w.tables)

-- What the attempts say of the tables.
abbrev pub Registers :
    (ℕ → Bytes) → Bytes → Bytes → Bytes → Tables → Tables → RegisterOutcome → Type 0
Registers generate now nickname hashed before after (registered user) =
    IsCreated generate now nickname hashed before after user
Registers generate now nickname hashed before after (invalid_nickname _) = ⊥
Registers generate now nickname hashed before after (invalid_password _) = ⊥
Registers generate now nickname hashed before after nickname_in_use = after ≡ before
Registers generate now nickname hashed before after register_error = after ≡ before

-- What a registration that succeeds says of the tables.
pub record IsMade (generate : ℕ → Bytes) (hash : Bytes → Option Bytes)
    (now nickname password : Bytes) (before after : Tables) (user : UserRecord) : Type 0 where
  pub name : Bytes
  pub valid : validate_nickname nickname ≡ inr name
  pub secret : validate_password password ≡ inr password
  pub hashed : Bytes
  pub hashes : hash password ≡ some hashed
  pub creates : IsCreated generate now name hashed before after user

abbrev pub Answers :
    (ℕ → Bytes)
    → (Bytes → Option Bytes)
    → Bytes
    → Bytes
    → Bytes
    → Tables
    → Tables
    → RegisterOutcome
    → Type 0
Answers generate hash now nickname password before after (registered user) =
    IsMade generate hash now nickname password before after user
Answers generate hash now nickname password before after (invalid_nickname error) =
    (validate_nickname nickname ≡ inl error) × (after ≡ before)
Answers generate hash now nickname password before after (invalid_password error) =
    (validate_password password ≡ inl error) × (after ≡ before)
Answers generate hash now nickname password before after nickname_in_use = after ≡ before
Answers generate hash now nickname password before after register_error = after ≡ before

answers :
    (generate : ℕ → Bytes) (hash : Bytes → Option Bytes) (now nickname password name hashed : Bytes)
    (before after : Tables) (r : RegisterOutcome)
    → validate_nickname nickname ≡ inr name
    → validate_password password ≡ inr password
    → hash password ≡ some hashed
    → Registers generate now name hashed before after r
    → Answers generate hash now nickname password before after r
answers generate hash now nickname password name hashed before after (registered user) n p e h =
    record { name = name; valid = n; secret = p; hashed = hashed; hashes = e; creates = h }
answers generate hash now nickname password name hashed before after (invalid_nickname _) n p e h =
    absurd h
answers generate hash now nickname password name hashed before after (invalid_password _) n p e h =
    absurd h
answers generate hash now nickname password name hashed before after nickname_in_use n p e h = h
answers generate hash now nickname password name hashed before after register_error n p e h = h

query-tables :
    (name : Bytes) (c : Conn) → (alone (find_by_nickname name) c).1.work.tables ≡ c.work.tables
unfolding alone find_by_nickname query take_fault
query-tables name c = ground arith

validate_password-same :
    (password secret : Bytes) → validate_password password ≡ inr secret → secret ≡ password
unfolding validate_password
validate_password-same password secret h = ground (arith, h)

module _ (account_first : Bool) (now : Bytes) (generate : ℕ → Bytes) (hash : Bytes → Option Bytes)
    (max_account_attempts : ℕ) where
  attempted-Registers :
      (again : Conn → RegisterOutcome × Conn) (nickname hashed : Bytes) (before : Tables)
      (r : CreateStatus × Conn)
      → ((c : Conn)
          → Registers generate now nickname hashed c.work.tables
              (again c).1.work.tables
              (again c).0)
      → Creates generate now nickname hashed before r.1.work.tables r.0
      → let rs = register_attempted again r in
        Registers generate now nickname hashed before rs.1.work.tables rs.0
  unfolding register_attempted
  attempted-Registers again nickname hashed before (created user, c) more h = h
  attempted-Registers again nickname hashed before (nickname_taken, c) more h = h
  attempted-Registers again nickname hashed before (account_taken, c) more h =
      subst (λ t. Registers generate now nickname hashed t (again c).1.work.tables (again c).0) h
        (more c)
  attempted-Registers again nickname hashed before (create_error, c) more h = h

  attempts-Registers :
      (attempts : ℕ) (nickname hashed : Bytes) (c : Conn)
      → let r =
          register_attempts account_first now generate hash max_account_attempts attempts nickname
            hashed c in
        Registers generate now nickname hashed c.work.tables r.1.work.tables r.0
  unfolding register_attempts alone
  attempts-Registers zero nickname hashed c = refl
  attempts-Registers (suc attempts) nickname hashed c =
      attempted-Registers
        (register_attempts account_first now generate hash max_account_attempts attempts nickname
          hashed)
        nickname hashed c.work.tables
        (alone (create_user account_first now (generate attempts) nickname hashed) c)
        (attempts-Registers attempts nickname hashed)
        (create_user-Creates account_first generate attempts now nickname hashed c.work)

  hashed-Answers :
      (nickname password name : Bytes) (hashed : Option Bytes) (c : Conn)
      → validate_nickname nickname ≡ inr name
      → validate_password password ≡ inr password
      → hash password ≡ hashed
      → let r =
          register_hashed account_first now generate hash max_account_attempts name hashed c in
        Answers generate hash now nickname password c.work.tables r.1.work.tables r.0
  unfolding register_hashed
  hashed-Answers nickname password name none c n p e = refl
  hashed-Answers nickname password name (some hashed) c n p e =
      answers generate hash now nickname password name hashed c.work.tables _ _ n p e
        (attempts-Registers max_account_attempts name hashed c)

  found-Answers :
      (nickname password name : Bytes) (found : Option (Option UserRecord)) (c : Conn)
      → validate_nickname nickname ≡ inr name
      → validate_password password ≡ inr password
      → let r =
          register_found account_first now generate hash max_account_attempts name password found
            c in
        Answers generate hash now nickname password c.work.tables r.1.work.tables r.0
  unfolding register_found
  found-Answers nickname password name none c n p = refl
  found-Answers nickname password name (some (some _)) c n p = refl
  found-Answers nickname password name (some none) c n p =
      hashed-Answers nickname password name (hash password) c n p refl

  checked-Answers :
      (nickname password : Bytes) (name secret : ValidationError ⊎ Bytes) (c : Conn)
      → validate_nickname nickname ≡ name
      → validate_password password ≡ secret
      → let r =
          register_checked account_first now generate hash max_account_attempts password name secret
            c in
        Answers generate hash now nickname password c.work.tables r.1.work.tables r.0
  unfolding register_checked
  checked-Answers nickname password (inl error) secret c n p = (n, refl)
  checked-Answers nickname password (inr name) (inl error) c n p = (p, refl)
  checked-Answers nickname password (inr name) (inr secret) c n p =
      subst
        (λ t.
          let found = alone (find_by_nickname name) c in
          let r =
            register_found account_first now generate hash max_account_attempts name password
              found.0 found.1 in
          Answers generate hash now nickname password t r.1.work.tables r.0)
        (query-tables name c)
        (found-Answers nickname password name _ _ n
          (p ∙ ap inr (validate_password-same password secret p)))

  -- What a registration says of the tables that the connection sees.
  pub register_user-Answers :
      (nickname password : Bytes) (c : Conn)
      → let r =
          register_user account_first now generate hash max_account_attempts nickname password c in
        Answers generate hash now nickname password c.work.tables r.1.work.tables r.0
  unfolding register_user
  register_user-Answers nickname password c = checked-Answers nickname password _ _ c refl refl
