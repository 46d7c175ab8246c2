-- ===== src/Db/Users/Roles.antt =====
-- `change_role` of src/db/user_admin.cpp: what it did, and that an administrator is left.
use vibe_coding.Prelude.{
  none, some, [], ◌∷◌, Bool-cases, inl, inr, true, false, arith, ℕ, ◌==◌, ◌||◌, ◌+◌, ◌≤◌, ◌≡◌, refl,
  List, Option, arith, some, subst, true, ◌&&◌, ◌⊎◌, ap, false, not, ◌∙◌, ◌∷◌, Bool-cases, sym,
}
use vibe_coding.Prelude.Text.{Bytes, codes, text_eq}
use vibe_coding.Db.Tables.{Tables, UserRecord, select_one, count_rows, update_where}
use vibe_coding.Db.Connection.{Work, Conn, durable, query, or_fail, pass, give_up, ◌>>◌}
use vibe_coding.Db.Connection.Atomic.{Atomic, transaction-Atomic}
use vibe_coding.Db.Connection.Bodies.{
  Gives, >>=-Chained, pass-Gives, give_up-Gives, query-Gives, execute-Gives, Committed-Gives,
}
use vibe_coding.Db.Users.{
  RoleRefusal, role_not_found, role_error, has_id, user_of, read_user, find_user, is_admin_role,
  is_admin, admins, count_admins, role_set, set_role, more_than_one, keep_admin, change_found,
  change_role_body, change_role, inl, inr,
}
use vibe_coding.Db.Columns.{load_user}
use vibe_coding.Db.Rows.{select-counted, select-holds}
use vibe_coding.Db.Users.Read.{read_user-there, is_admin-load_user}
use vibe_coding.Db.Users.Valid.{UsersValid}

-- A role that is changed: of a user who is there, and who was not the only administrator if no
-- administrator any more.
pub record IsRoleChanged (id : ℕ) (new_role : Bytes) (before after : Tables) : Type 0 where
  pub user : UserRecord
  pub found : user_of id before ≡ some user
  pub kept : ((is_admin user && not (is_admin_role new_role)) ≡ true) → 2 ≤ admins before
  pub valid : (is_admin_role new_role || text_eq new_role (codes "user")) ≡ true
  pub tables : after ≡ role_set id new_role before

more-Gives :
    (admin_count : ℕ) (w : Work) (u : Unit {0}) (w' : Work)
    → Gives (more_than_one admin_count) w u w'
    → (2 ≤ admin_count) × (w' ≡ w)
unfolding more_than_one pass give_up
more-Gives admin_count w u w' h = ground (arith, h.run)

keep-Gives :
    (user : UserRecord) (new_role : Bytes) (w : Work) (u : Unit {0}) (w' : Work)
    → Gives (keep_admin user new_role) w u w'
    → (((is_admin user && not (is_admin_role new_role)) ≡ true) → 2 ≤ admins w.tables)
      × (w'.tables ≡ w.tables)
unfolding keep_admin count_admins
keep-Gives user new_role w u w' h =
    elim (Bool-cases (is_admin user && not (is_admin_role new_role))) [
      | inl e ↦
          let c =
            >>=-Chained (or_fail role_error (query admins)) more_than_one w u w'
              (record { run = ground (arith, e, h.run) }) in
          let counted = query-Gives role_error admins w c.value c.work c.before in
          let more = more-Gives c.value c.work u w' c.behind in
          (λ _. subst (λ n. 2 ≤ n) counted.0 more.0, ap (λ v. v.tables) more.1 ∙ counted.1)
      | inr e ↦
          let passed =
            pass-Gives {E = RoleRefusal} tt u w w' (record { run = ground (arith, e, h.run) }) in
          (λ d. absurd (cc (d, e)), ap (λ v. v.tables) passed.1)
    ]

set-Gives :
    (id : ℕ) (new_role : Bytes) (w : Work) (u : Unit {0}) (w' : Work)
    → Gives (or_fail role_error (set_role id new_role)) w u w'
    → (w'.tables ≡ role_set id new_role w.tables)
      × ((is_admin_role new_role
            || text_eq new_role (codes "user")
            || count_rows (has_id id) w.tables.users == 0)
          ≡ true)
unfolding set_role
set-Gives id new_role w u w' h = ground (arith, execute-Gives role_error _ w u w' h)

still-admin :
    (row : UserRecord) (new_role : Bytes)
    → (is_admin row && not (is_admin_role new_role)) ≡ true
    → (is_admin (load_user row) && not (is_admin_role new_role)) ≡ true
still-admin row new_role d = rw (is_admin-load_user row (ground (arith, d))) (ground (arith, d))

admitted-role :
    (id : ℕ) (new_role : Bytes) (users : List UserRecord) (row : UserRecord)
    → select_one (has_id id) users ≡ some row
    → (is_admin_role new_role
        || text_eq new_role (codes "user")
        || count_rows (has_id id) users == 0)
      ≡ true
    → (is_admin_role new_role || text_eq new_role (codes "user")) ≡ true
admitted-role id new_role users row found h = ground (
  arith,
  h,
  select-counted (has_id id) (has_id id) users row found (select-holds (has_id id) users row found),
)

found-Gives :
    (id : ℕ) (new_role : Bytes) (found : Option UserRecord) (w : Work) (u : Unit {0}) (w' : Work)
    → read_user id w.tables ≡ found
    → Gives (change_found id new_role found) w u w'
    → IsRoleChanged id new_role w.tables w'.tables
unfolding change_found ◌>>◌ user_of
found-Gives id new_role none w u w' e h = absurd (give_up-Gives role_not_found u w w' h)
found-Gives id new_role (some user) w u w' e h =
    let c =
      >>=-Chained (keep_admin user new_role) (λ _. or_fail role_error (set_role id new_role)) w u w'
        h in
    let there = read_user-there id w.tables user e in
    let kept = keep-Gives user new_role w c.value c.work c.before in
    let set = set-Gives id new_role c.work u w' c.behind in
    record {
      user = there.0;
      found = there.1;
      kept = λ d. kept.0 (
          subst (λ u. (is_admin u && not (is_admin_role new_role)) ≡ true) there.2
            (still-admin there.0 new_role d));
      valid = admitted-role id new_role w.tables.users there.0 there.1 (
          subst
            (λ t.
              (is_admin_role new_role
                || text_eq new_role (codes "user")
                || count_rows (has_id id) t.users == 0)
              ≡ true)
            kept.1 set.1);
      tables = set.0 ∙ ap (role_set id new_role) kept.1;
    }

body-Gives :
    (id : ℕ) (new_role : Bytes) (w : Work) (u : Unit {0}) (w' : Work)
    → Gives (change_role_body id new_role) w u w'
    → IsRoleChanged id new_role w.tables w'.tables
unfolding change_role_body find_user
body-Gives id new_role w u w' h =
    let c = >>=-Chained _ (change_found id new_role) w u w' h in
    let found = query-Gives role_error (read_user id) w c.value c.work c.before in
    subst (λ t. IsRoleChanged id new_role t w'.tables) found.1
      (found-Gives id new_role c.value c.work u w' (ap (read_user id) found.1 ∙ sym found.0)
        c.behind)

-- What an answer says of the database.
abbrev pub ChangesRole : ℕ → Bytes → Tables → Tables → RoleRefusal ⊎ Unit {0} → Type 0
ChangesRole id new_role before after (inl _) = after ≡ before
ChangesRole id new_role before after (inr _) = IsRoleChanged id new_role before after

changes :
    (id : ℕ) (new_role : Bytes) (before after : Tables) (r : RoleRefusal ⊎ Unit {0})
    → Atomic (change_role_body id new_role) before after r
    → ChangesRole id new_role before after r
changes id new_role before after (inl _) h = h
changes id new_role before after (inr u) h =
    subst (IsRoleChanged id new_role before) (sym h.kept) (
      body-Gives id new_role _ u _
        (Committed-Gives (change_role_body id new_role) before after u h))

-- Whichever calls of the database fail, a role is changed of a user who is there, and who was not
-- the only administrator if no administrator any more; or nothing durable is changed.
pub change_role-ChangesRole :
    (id : ℕ) (new_role : Bytes) (c : Conn)
    → ChangesRole id new_role
        (durable c)
        (durable (change_role id new_role c).1)
        (change_role id new_role c).0
unfolding change_role
change_role-ChangesRole id new_role c =
    changes id new_role (durable c) _ _
      (transaction-Atomic role_error (change_role_body id new_role) c)

-- An update of the rows of a key loses as many administrators as there are such rows, and none if
-- no such row is one.
module _ (id : ℕ) (f : UserRecord → UserRecord) where
  lost-admins :
      (users : List UserRecord)
      → count_rows is_admin users
        ≤ count_rows is_admin (update_where (has_id id) f users) + count_rows (has_id id) users
  unfolding count_rows update_where
  lost-admins [] = ground arith
  lost-admins (user ∷ users) = ground (arith, lost-admins users)

  none-lost :
      ((user : UserRecord) → is_admin (f user) ≡ true)
      → (users : List UserRecord)
      → count_rows is_admin users ≤ count_rows is_admin (update_where (has_id id) f users)
  unfolding count_rows update_where
  none-lost promoted [] = ground arith
  none-lost promoted (user ∷ users) = ground (arith, promoted user, none-lost promoted users)

  untouched :
      (users : List UserRecord)
      → count_rows (has_id id) users ≡ 0
      → count_rows is_admin (update_where (has_id id) f users) ≡ count_rows is_admin users
  unfolding count_rows update_where
  untouched [] h = refl
  untouched (user ∷ users) h = ground (arith, h, untouched users (ground (arith, h)))

  not-lost :
      (users : List UserRecord) (user : UserRecord)
      → count_rows (has_id id) users ≤ 1
      → select_one (has_id id) users ≡ some user
      → is_admin user ≡ false
      → count_rows is_admin users ≤ count_rows is_admin (update_where (has_id id) f users)
  unfolding count_rows update_where select_one
  not-lost [] user least found plain = ground arith
  not-lost (first ∷ users) user least found plain = elim (Bool-cases (has_id id first)) [
    | inl e ↦ ground (arith, e, plain, found, least, untouched users (rest e), first-plain e)
    | inr e ↦
        ground (
          arith,
          e,
          not-lost users user (ground (arith, e, least)) (ground (arith, e, found)) plain,
        )
  ]
    where
      rest : has_id id first ≡ true → count_rows (has_id id) users ≡ 0
      rest e = ground (arith, e, least)

      first-plain : has_id id first ≡ true → is_admin first ≡ false
      first-plain e = let same : first ≡ user = ground (arith, e, found) in ap is_admin same ∙ plain

-- An administrator is left.
left :
    (id : ℕ) (new_role : Bytes) (before after : Tables) (r : RoleRefusal ⊎ Unit {0})
    → UsersValid before
    → 1 ≤ admins before
    → ChangesRole id new_role before after r
    → 1 ≤ admins after
unfolding admins role_set user_of
left id new_role before after (inl _) v some_admin h = subst (λ t. 1 ≤ admins t) (sym h) some_admin
left id new_role before after (inr _) v some_admin h =
    subst (λ t. 1 ≤ admins t) (sym h.tables)
      (elim (Bool-cases (is_admin h.user)) [
        | inr plain ↦
            omega (arith, some_admin, not-lost id set before.users h.user (v.ids id) h.found plain)
        | inl admin ↦ elim (Bool-cases (is_admin_role new_role)) [
          | inl promoted ↦ omega (arith, some_admin, none-lost id set (λ _. promoted) before.users)
          | inr demoted ↦ omega (
            arith,
            h.kept (ground (arith, admin, demoted)),
            lost-admins id set before.users,
            v.ids id,
          )
        ]
      ])
  where
    set : UserRecord → UserRecord
    set user = record user { role = new_role }

-- Where keys are unique and there is an administrator, there is one behind every change of a role,
-- whichever calls of the database fail.
pub change_role-keeps_admin :
    (id : ℕ) (new_role : Bytes) (c : Conn)
    → UsersValid (durable c)
    → 1 ≤ admins (durable c)
    → 1 ≤ admins (durable (change_role id new_role c).1)
change_role-keeps_admin id new_role c v some_admin =
    left id new_role (durable c) _ (change_role id new_role c).0 v some_admin
      (change_role-ChangesRole id new_role c)
