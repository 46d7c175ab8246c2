-- ===== src/Auth/PasswordChange/Set.antt =====
-- A change of the password, statement by statement: what it did where it gave a result.
use vibe_coding.Prelude.{
  ℕ, ◌≡◌, ◌⊎◌, inl, inr, refl, sym, ap, ◌∙◌, subst, Bool, true, false, Option, none, some, arith,
}
use vibe_coding.Prelude.Text.{Bytes}
use vibe_coding.Db.Tables.{Tables, UserRecord}
use vibe_coding.Db.Connection.{Work, Conn, durable, ◌>>◌, or_fail}
use vibe_coding.Db.Connection.Atomic.{Atomic, transaction-Atomic}
use vibe_coding.Db.Connection.Bodies.{
  Gives, >>=-Chained, pass-Gives, give_up-Gives, query-Gives, execute-Gives, Committed-Gives,
}
use vibe_coding.Db.Users.{
  user_of, read_user, find_user, password_set, set_password, update_password,
}
use vibe_coding.Db.Columns.{column_text, load_user}
use vibe_coding.Db.Users.Read.{read_user-there}
use vibe_coding.Auth.PasswordChange.{
  ChangeRefusal, invalid_old_password, user_not_found, change_error, old_verified, was_updated,
  change_of, change_body, change_hashed, change_password,
}

module _ (verify : Bytes → Bytes → Option Bool) where
  -- A password that is changed: of a user who is there and gave the old one; the flag for the first
  -- change is taken away with it.
  pub record IsPasswordSet (id : ℕ) (old_password new_hash : Bytes) (before after : Tables)
      : Type 0 where
    pub user : UserRecord
    pub found : user_of id before ≡ some user
    pub proved : verify (column_text user.password_hash) old_password ≡ some true
    pub tables : after ≡ password_set id new_hash 0 before

  module _ (hash : Bytes → Option Bytes) where
    -- What an answer says of the database.
    abbrev pub Sets : ℕ → Bytes → Bytes → Tables → Tables → ChangeRefusal ⊎ Unit {0} → Type 0
    Sets id old_password new_password before after (inl _) = after ≡ before
    Sets id old_password new_password before after (inr _) =
        (new_hash : Bytes) × (hash new_password ≡ some new_hash)
        × IsPasswordSet id old_password new_hash before after

old-Gives :
    (r : Option Bool) (w : Work) (u : Unit {0}) (w' : Work)
    → Gives (old_verified r) w u w'
    → (r ≡ some true) × (w' ≡ w)
unfolding old_verified
old-Gives none w u w' h = absurd (give_up-Gives change_error u w w' h)
old-Gives (some false) w u w' h = absurd (give_up-Gives invalid_old_password u w w' h)
old-Gives (some true) w u w' h = (refl, (pass-Gives {E = ChangeRefusal} tt u w w' h).1)

updated-Gives :
    (r : Bool) (w : Work) (u : Unit {0}) (w' : Work) → Gives (was_updated r) w u w' → w' ≡ w
unfolding was_updated
updated-Gives true w u w' h = (pass-Gives {E = ChangeRefusal} tt u w w' h).1
updated-Gives false w u w' h = absurd (give_up-Gives user_not_found u w w' h)

set-Gives :
    (id : ℕ) (new_hash : Bytes) (w : Work) (u : Bool) (w' : Work)
    → Gives (or_fail change_error (update_password id new_hash)) w u w'
    → w'.tables ≡ password_set id new_hash 0 w.tables
unfolding update_password set_password
set-Gives id new_hash w u w' h = ground (arith, execute-Gives change_error _ w u w' h)

module _ (hash : Bytes → Option Bytes) (verify : Bytes → Bytes → Option Bool) where
  found-Gives :
      (id : ℕ) (old_password new_hash : Bytes) (found : Option UserRecord) (w : Work) (u : Unit {0})
      (w' : Work)
      → read_user id w.tables ≡ found
      → Gives (change_of hash verify id old_password new_hash found) w u w'
      → IsPasswordSet verify id old_password new_hash w.tables w'.tables
  unfolding change_of ◌>>◌ load_user
  found-Gives id old_password new_hash none w u w' e h =
      absurd (give_up-Gives user_not_found u w w' h)
  found-Gives id old_password new_hash (some user) w u w' e h =
      let there = read_user-there id w.tables user e in
      let c₁ = >>=-Chained (old_verified (verify user.password_hash old_password)) _ w u w' h in
      let old = old-Gives _ w c₁.value c₁.work c₁.before in
      let c₂ = >>=-Chained (or_fail change_error _) was_updated c₁.work u w' c₁.behind in
      let set = set-Gives id new_hash c₁.work c₂.value c₂.work c₂.before in
      let same = updated-Gives c₂.value c₂.work u w' c₂.behind in
      record {
        user = there.0;
        found = there.1;
        proved = ap (λ (u : UserRecord). verify u.password_hash old_password) there.2 ∙ old.0;
        tables =
            ap (λ v. v.tables) same ∙ set ∙ ap (λ v. password_set id new_hash 0 v.tables) old.1;
      }

  body-Gives :
      (id : ℕ) (old_password new_hash : Bytes) (w : Work) (u : Unit {0}) (w' : Work)
      → Gives (change_body hash verify id old_password new_hash) w u w'
      → IsPasswordSet verify id old_password new_hash w.tables w'.tables
  unfolding change_body find_user
  body-Gives id old_password new_hash w u w' h =
      let c = >>=-Chained _ (change_of hash verify id old_password new_hash) w u w' h in
      let found = query-Gives change_error (read_user id) w c.value c.work c.before in
      subst (λ t. IsPasswordSet verify id old_password new_hash t w'.tables) found.1
        (found-Gives id old_password new_hash c.value c.work u w'
          (ap (read_user id) found.1 ∙ sym found.0) c.behind)

  changes :
      (id : ℕ) (old_password new_password new_hash : Bytes) (before after : Tables)
      (r : ChangeRefusal ⊎ Unit {0})
      → hash new_password ≡ some new_hash
      → Atomic (change_body hash verify id old_password new_hash) before after r
      → Sets verify hash id old_password new_password before after r
  changes id old_password new_password new_hash before after (inl _) e h = h
  changes id old_password new_password new_hash before after (inr u) e h = (
    new_hash,
    e,
    subst (IsPasswordSet verify id old_password new_hash before) (sym h.kept) (
        body-Gives id old_password new_hash _ u _
          (Committed-Gives (change_body hash verify id old_password new_hash) before after u h)),
  )

  hashed-Sets :
      (id : ℕ) (old_password new_password : Bytes) (hashed : Option Bytes) (c : Conn)
      → hash new_password ≡ hashed
      → let r = change_hashed hash verify id old_password hashed c in
        Sets verify hash id old_password new_password (durable c) (durable r.1) r.0
  unfolding change_hashed
  hashed-Sets id old_password new_password none c e = refl
  hashed-Sets id old_password new_password (some new_hash) c e =
      changes id old_password new_password new_hash (durable c) _ _ e
        (transaction-Atomic change_error (change_body hash verify id old_password new_hash) c)

  -- What a change of the password says of what is durable.
  pub change_password-Sets :
      (id : ℕ) (old_password new_password : Bytes) (c : Conn)
      → let r = change_password hash verify id old_password new_password c in
        Sets verify hash id old_password new_password (durable c) (durable r.1) r.0
  unfolding change_password
  change_password-Sets id old_password new_password c =
      hashed-Sets id old_password new_password (hash new_password) c refl
