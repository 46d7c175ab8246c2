-- ===== src/Db/Users/Valid.antt =====
-- The constraints of the table of users, and the operations that keep them.
use vibe_coding.Prelude.{
  refl, inl, inr, ◌++◌, ◌+◌, ℕ, ◌≤◌, ◌≡◌, ◌==◌, arith, ap, ◌∙◌, Bool-cases, if-cases, subst, ◌∷◌,
  ◌&&◌, Bool, [], false, ltb, List, ◌||◌, not, true,
}
use vibe_coding.Prelude.Text.{Bytes, text_eq_iff, text_eq}
use vibe_coding.Db.Tables.{Tables, UserRecord, count_rows, update_where}
use vibe_coding.Db.Rows.{count_rows-update, count_rows-append}
use vibe_coding.Db.Users.{
  CreateStatus, has_id, has_account, has_nickname, add_user, password_set, role_set, with_user,
  account_is_taken, nickname_is_taken, new_user,
}

-- No key, account or nickname is there twice, and a new key is new.
pub record UsersValid (t : Tables) : Type 0 where
  pub ids : (id : ℕ) → count_rows (has_id id) t.users ≤ 1
  pub fresh : (id : ℕ) → t.next_user ≤ id → count_rows (has_id id) t.users ≡ 0
  pub accounts : (account : Bytes) → count_rows (has_account account) t.users ≤ 1
  pub nicknames : (nickname : Bytes) → count_rows (has_nickname nickname) t.users ≤ 1

-- An update that leaves keys, accounts and nicknames as they are.
pub update-UsersValid :
    (id : ℕ) (f : UserRecord → UserRecord) (t : Tables)
    → ((user : UserRecord) → (f user).id ≡ user.id)
    → ((user : UserRecord) → (f user).account ≡ user.account)
    → ((user : UserRecord) → (f user).nickname ≡ user.nickname)
    → UsersValid t
    → UsersValid (record t { users = update_where (has_id id) f t.users })
update-UsersValid id f t same_id same_account same_nickname v = record {
  ids = λ i. omega (arith, v.ids i, by_id i);
  fresh = λ i h. by_id i ∙ v.fresh i h;
  accounts = λ a. omega (
    arith,
    v.accounts a,
    count_rows-update (has_account a) (has_id id) f
        (λ user. ap (λ b. text_eq b a) (same_account user)) t.users,
  );
  nicknames = λ n. omega (
    arith,
    v.nicknames n,
    count_rows-update (has_nickname n) (has_id id) f
        (λ user. ap (λ b. text_eq b n) (same_nickname user)) t.users,
  );
}
  where
    by_id :
        (i : ℕ)
        → count_rows (has_id i) (update_where (has_id id) f t.users) ≡ count_rows (has_id i) t.users
    by_id i =
        count_rows-update (has_id i) (has_id id) f (λ user. ap (λ b. b == i) (same_id user)) t.users

pub password_set-UsersValid :
    (id : ℕ) (new_hash : Bytes) (flag : ℕ) (t : Tables)
    → UsersValid t
    → UsersValid (password_set id new_hash flag t)
unfolding password_set
password_set-UsersValid id new_hash flag t =
    update-UsersValid id (λ user. record user { password_hash = new_hash; reset_pwd_flag = flag }) t
      (λ _. refl) (λ _. refl) (λ _. refl)

pub role_set-UsersValid :
    (id : ℕ) (role : Bytes) (t : Tables) → UsersValid t → UsersValid (role_set id role t)
unfolding role_set
role_set-UsersValid id role t =
    update-UsersValid id (λ user. record user { role = role }) t (λ _. refl) (λ _. refl) (λ _. refl)

-- One row more: what it has in common with another is not counted twice.
append-count :
    (p : UserRecord → Bool) (rows : List UserRecord) (user : UserRecord)
    → count_rows p rows ≤ 1
    → (p user ≡ true → count_rows p rows ≡ 0)
    → count_rows p (rows ++ user ∷ []) ≤ 1
unfolding count_rows
append-count p rows user least absent = elim (Bool-cases (p user)) [
  | inl e ↦ ground (arith, e, absent e, count_rows-append p rows (user ∷ []))
  | inr e ↦ ground (arith, e, least, count_rows-append p rows (user ∷ []))
]

other-id : (i : ℕ) (user : UserRecord) → user.id + 1 ≤ i → count_rows (has_id i) (user ∷ []) ≡ 0
unfolding count_rows
other-id i user h = ground (arith, h)

none-taken : (n : ℕ) → ltb 0 n ≡ false → n ≡ 0
none-taken n h = ground (arith, h)

-- A user whose account and nickname are not taken.
pub with_user-UsersValid :
    (now account nickname password_hash : Bytes) (t : Tables)
    → account_is_taken account t ≡ false
    → nickname_is_taken nickname t ≡ false
    → UsersValid t
    → UsersValid (with_user (new_user now account nickname password_hash t.next_user) t)
unfolding with_user account_is_taken nickname_is_taken new_user
with_user-UsersValid now account nickname password_hash t new_account new_nickname v = record {
  ids = λ i. append-count (has_id i) t.users user (v.ids i) (λ e. v.fresh i (ground (arith, e)));
  fresh = λ i h. unseen i h;
  accounts = λ a. append-count (has_account a) t.users user (v.accounts a) (λ e.
      subst (λ s. count_rows (has_account s) t.users ≡ 0) ((text_eq_iff account a).0 e)
        (none-taken _ new_account));
  nicknames = λ n. append-count (has_nickname n) t.users user (v.nicknames n) (λ e.
      subst (λ s. count_rows (has_nickname s) t.users ≡ 0) ((text_eq_iff nickname n).0 e)
        (none-taken _ new_nickname));
}
  where
    user : UserRecord
    user = new_user now account nickname password_hash t.next_user

    unseen : (i : ℕ) → t.next_user + 1 ≤ i → count_rows (has_id i) (t.users ++ user ∷ []) ≡ 0
    unseen i h =
        count_rows-append (has_id i) t.users (user ∷ [])
        ∙ omega (arith, v.fresh i (omega (arith, h)), other-id i user (omega (arith, h)))

-- An insertion keeps the constraints, whichever of its answers it gives.
pub add_user-UsersValid :
    (account_first : Bool) (now account nickname password_hash : Bytes) (t : Tables)
    → UsersValid t
    → UsersValid (add_user account_first now account nickname password_hash t).1
unfolding add_user
add_user-UsersValid account_first now account nickname password_hash t v =
    if-cases (λ (r : CreateStatus × Tables). UsersValid r.1)
      (account_is_taken account t && (account_first || not (nickname_is_taken nickname t))) _ _
      (λ _. v)
      (λ d.
        if-cases (λ (r : CreateStatus × Tables). UsersValid r.1) (nickname_is_taken nickname t) _ _
          (λ _. v)
          (λ e.
            with_user-UsersValid now account nickname password_hash t (ground (arith, d, e)) e v))
