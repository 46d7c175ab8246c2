-- ===== src/Auth/PasswordChange/Changed.antt =====
-- A change of the password: what it leaves in the database, and the login behind it.
use vibe_coding.Prelude.{
  ℕ, ◌≡◌, ◌⊎◌, inl, inr, refl, sym, ap, length, ◌==◌, ◌∙◌, subst, Bool, true, false, Option, some,
  arith, ==_iff,
}
use vibe_coding.Prelude.Text.{Bytes, text_eq_refl}
use vibe_coding.Db.Tables.{Tables, UserRecord, select_one}
use vibe_coding.Db.Connection.{Conn, durable}
use vibe_coding.Db.Connection.Quiet.{quiet_conn}
use vibe_coding.Db.Rows.{select-holds, select-other, select-update, length-update}
use vibe_coding.Db.Users.{has_id, has_account, user_of, user_by_account, password_set}
use vibe_coding.Db.Columns.{column_text, load_user}
use vibe_coding.Db.Users.Valid.{UsersValid}
use vibe_coding.Auth.Login.{logged_in, login}
use vibe_coding.Auth.Login.Works.{found-login}
use vibe_coding.Auth.PasswordChange.{ChangeRefusal, change_password}
use vibe_coding.Auth.PasswordChange.Set.{IsPasswordSet, Sets, change_password-Sets}
use vibe_coding.Db.ProblemAdmin.Rows.{select_one-update}

module _ (verify : Bytes → Bytes → Option Bool) where
  -- A password that is changed: of a user who is there and gave the old one. The row has the new hash,
  -- the flag for the first change is taken away with it, and nothing else of the row, no other row and
  -- no other table is changed.
  pub record IsChanged (id : ℕ) (old_password new_hash : Bytes) (before after : Tables)
      : Type 0 where
    pub old : UserRecord
    pub found : user_of id before ≡ some old
    pub proved : verify (column_text old.password_hash) old_password ≡ some true
    pub new : UserRecord
    pub changed : user_of id after ≡ some new
    pub new_password : (new.password_hash ≡ new_hash) × (new.reset_pwd_flag ≡ 0)
    pub same_id : new.id ≡ old.id
    pub same_names : (new.account ≡ old.account) × (new.nickname ≡ old.nickname)
    pub same_role : new.role ≡ old.role
    pub same_creation : new.created_at ≡ old.created_at
    pub other_users :
        (other : ℕ) → (other == id) ≡ false → user_of other after ≡ user_of other before
    pub as_many : length after.users ≡ length before.users
    pub next_user : after.next_user ≡ before.next_user
    pub problems : after.problems ≡ before.problems
    pub testcases : after.testcases ≡ before.testcases
    pub submissions : after.submissions ≡ before.submissions
    pub statuses : after.statuses ≡ before.statuses
    pub in_flight : after.in_flight ≡ before.in_flight

  module _ (hash : Bytes → Option Bytes) where
    -- What an answer says of the database.
    abbrev pub Changes : ℕ → Bytes → Bytes → Tables → Tables → ChangeRefusal ⊎ Unit {0} → Type 0
    Changes id old_password new_password before after (inl _) = after ≡ before
    Changes id old_password new_password before after (inr _) =
        (new_hash : Bytes) × (hash new_password ≡ some new_hash)
        × IsChanged id old_password new_hash before after

set-IsChanged :
    (verify : Bytes → Bytes → Option Bool) (id : ℕ) (old_password new_hash : Bytes)
    (before after : Tables)
    → IsPasswordSet verify id old_password new_hash before after
    → IsChanged verify id old_password new_hash before after
unfolding user_of password_set
set-IsChanged verify id old_password new_hash before after h =
    let set = λ (user : UserRecord). record user { password_hash = new_hash; reset_pwd_flag = 0 } in
    subst (IsChanged verify id old_password new_hash before) (sym h.tables) (record {
      old = h.user;
      found = h.found;
      proved = h.proved;
      new = set h.user;
      changed =
          select-update (has_id id) (has_id id) set (λ _. refl) before.users h.user h.found
            (select-holds (has_id id) before.users h.user h.found);
      new_password = (refl, refl);
      same_id = refl;
      same_names = (refl, refl);
      same_role = refl;
      same_creation = refl;
      other_users = λ other e.
          select_one-update (has_id other) (has_id id) set (λ user d. ground (arith, d, e))
            (λ _. refl) before.users;
      as_many = length-update (has_id id) set before.users;
      next_user = refl;
      problems = refl;
      testcases = refl;
      submissions = refl;
      statuses = refl;
      in_flight = refl;
    })

Sets-Changes :
    (verify : Bytes → Bytes → Option Bool) (hash : Bytes → Option Bytes) (id : ℕ)
    (old_password new_password : Bytes) (before after : Tables) (r : ChangeRefusal ⊎ Unit {0})
    → Sets verify hash id old_password new_password before after r
    → Changes verify hash id old_password new_password before after r
Sets-Changes verify hash id old_password new_password before after (inl _) h = h
Sets-Changes verify hash id old_password new_password before after (inr _) (new_hash, hashes, h) =
    (new_hash, hashes, set-IsChanged verify id old_password new_hash before after h)

-- Whichever calls of the database fail: a password is changed only of a user who is there and whose
-- old password was given. The row of this user then has a hash of the new password, and no flag for
-- the first change; the rest of the row, every other row and all other tables are as they were. A
-- change that is refused changes nothing durable.
pub change_password-Changes :
    (hash : Bytes → Option Bytes) (verify : Bytes → Bytes → Option Bool) (id : ℕ)
    (old_password new_password : Bytes) (c : Conn)
    → let r = change_password hash verify id old_password new_password c in
      Changes verify hash id old_password new_password (durable c) (durable r.1) r.0
change_password-Changes hash verify id old_password new_password c =
    Sets-Changes verify hash id old_password new_password (durable c) _ _
      (change_password-Sets hash verify id old_password new_password c)

-- The row behind a change.
set-account :
    (verify : Bytes → Bytes → Option Bool) (id : ℕ) (old_password new_hash : Bytes)
    (before after : Tables) (h : IsPasswordSet verify id old_password new_hash before after)
    → UsersValid before
    → user_by_account h.user.account after
      ≡ some (record h.user { password_hash = new_hash; reset_pwd_flag = 0 })
unfolding user_by_account user_of password_set
set-account verify id old_password new_hash before after h v =
    ap (λ (t : Tables). select_one (has_account h.user.account) t.users) h.tables
    ∙ select-update (has_account h.user.account) (has_id id)
        (λ user. record user { password_hash = new_hash; reset_pwd_flag = 0 }) (λ _. refl)
        before.users h.user
        (select-other (has_account h.user.account) (has_id id) before.users h.user h.found
          (text_eq_refl h.user.account) (v.accounts h.user.account))
        (select-holds (has_id id) before.users h.user h.found)

-- What a login answers to a user who has changed the password.
set-login :
    (hash : Bytes → Option Bytes) (verify : Bytes → Bytes → Option Bool) (sign : ℕ → Option Bytes)
    (expires : ℕ)
    → ((password hashed : Bytes)
        → hash password ≡ some hashed
        → verify (column_text hashed) password ≡ some true)
    → (id : ℕ) (old_password new_password token : Bytes) (before after : Tables) → UsersValid before
    → sign id ≡ some token
    → Sets verify hash id old_password new_password before after (inr tt)
    → (user : UserRecord) × (user_of id before ≡ some user)
      × ((new_hash : Bytes) × ((login verify sign expires user.account new_password
              (quiet_conn after)).0
            ≡ logged_in token expires
                (load_user (record user { password_hash = new_hash; reset_pwd_flag = 0 }))))
unfolding user_of
set-login hash verify sign expires verify-hash id old_password new_password token before after v
      signs (new_hash, hashes, h) =
    (
      h.user,
      h.found,
      (
        new_hash,
        found-login verify sign expires h.user.account new_password token
            (record h.user { password_hash = new_hash; reset_pwd_flag = 0 }) (quiet_conn after) refl
            (set-account verify id old_password new_hash before after h v)
            (verify-hash new_password new_hash hashes)
            (ap sign
                ((==_iff h.user.id id).0 (select-holds (has_id id) before.users h.user h.found))
              ∙ signs),
      ),
    )

-- Behind a change of the password, where keys and accounts are unique, a hash verifies against its
-- password as it is read, tokens are signed and no call of the login fails, the user can log in with
-- the new password, as the user of before, with the flag for the first change taken away.
pub change_password-login :
    (hash : Bytes → Option Bytes) (verify : Bytes → Bytes → Option Bool) (sign : ℕ → Option Bytes)
    (expires : ℕ)
    → ((password hashed : Bytes)
        → hash password ≡ some hashed
        → verify (column_text hashed) password ≡ some true)
    → (id : ℕ) (old_password new_password token : Bytes) (c c' : Conn) → UsersValid (durable c)
    → sign id ≡ some token
    → change_password hash verify id old_password new_password c ≡ (inr tt, c')
    → (user : UserRecord) × (user_of id (durable c) ≡ some user)
      × ((new_hash : Bytes) × ((login verify sign expires user.account new_password
              (quiet_conn (durable c'))).0
            ≡ logged_in token expires
                (load_user (record user { password_hash = new_hash; reset_pwd_flag = 0 }))))
change_password-login hash verify sign expires verify-hash id old_password new_password token c c' v
      signs h =
    set-login hash verify sign expires verify-hash id old_password new_password token (durable c)
      (durable c') v signs
      (subst
        (λ (r : (ChangeRefusal ⊎ Unit {0}) × Conn).
          Sets verify hash id old_password new_password (durable c) (durable r.1) r.0)
        h (change_password-Sets hash verify id old_password new_password c))
