-- ===== src/Db/Users/Read.antt =====
-- What the finders of src/db/users.cpp read, against what is stored.
use vibe_coding.Prelude.{
  ℕ, ◌≡◌, ◌∙◌, sym, ap, subst, true, ◌||◌, some, inl, inr, refl, arith, Bool-cases,
}
use vibe_coding.Prelude.Text.{Bytes, codes, text_eq, text_eq_iff}
use vibe_coding.Db.Tables.{Tables, UserRecord}
use vibe_coding.Db.Columns.{column_text, load_user, loaded-there}
use vibe_coding.Db.Users.{user_of, read_user, is_admin, is_admin_role}

pub read_user-there :
    (id : ℕ) (t : Tables) (user : UserRecord)
    → read_user id t ≡ some user
    → (row : UserRecord) × (user_of id t ≡ some row) × (load_user row ≡ user)
unfolding read_user
read_user-there id t user h = loaded-there load_user (user_of id t) user h

user-whole : column_text (codes "user") ≡ codes "user"
unfolding column_text
user-whole = refl

admin-whole : column_text (codes "admin") ≡ codes "admin"
unfolding column_text
admin-whole = refl

-- A role that the table admits is read back whole.
pub role-whole :
    (role : Bytes)
    → (is_admin_role role || text_eq role (codes "user")) ≡ true
    → column_text role ≡ role
role-whole role h = elim (Bool-cases (is_admin_role role)) [
  | inl e ↦
      let same = (text_eq_iff role (codes "admin")).0 e in
      ap column_text same ∙ admin-whole ∙ sym same
  | inr e ↦
      let same = (text_eq_iff role (codes "user")).0 (ground (arith, e, h)) in
      ap column_text same ∙ user-whole ∙ sym same
]

-- An administrator is read as one.
pub is_admin-load_user : (row : UserRecord) → is_admin row ≡ true → is_admin (load_user row) ≡ true
unfolding load_user
is_admin-load_user row h =
    subst (λ role. is_admin_role role ≡ true) (sym (role-whole row.role (ground (arith, h)))) h
