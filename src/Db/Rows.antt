-- ===== src/Db/Rows.antt =====
-- What the statements of Db.Tables do to lists of rows.
use vibe_coding.Prelude.{
  ℕ, ◌+◌, ◌≡◌, refl, length, Bool, false, not, some, List, [], ◌∷◌, ◌++◌, arith, true, Bool-cases,
  inl, inr, ltb, ◌≤◌, ap, sym, subst,
}
use vibe_coding.Db.Tables.{StatusRow, select_one, select_all, count_rows, update_where}
use vibe_coding.Db.Submissions.{is_of, put_status}

module _ {ℓ} {A : Type ℓ} (p : A → Bool) where
  pub count_rows-removed : (rows : List A) → count_rows p (select_all (λ a. not (p a)) rows) ≡ 0
  unfolding count_rows select_all
  count_rows-removed [] = refl
  count_rows-removed (row ∷ rows) = ground (arith, count_rows-removed rows)

  pub count_rows-append :
      (rows later : List A) → count_rows p (rows ++ later) ≡ count_rows p rows + count_rows p later
  unfolding count_rows
  count_rows-append [] later = omega arith
  count_rows-append (row ∷ rows) later = omega (arith, count_rows-append rows later)

  -- An update that does not change what is counted.
  pub count_rows-update :
      (q : A → Bool) (f : A → A)
      → ((a : A) → p (f a) ≡ p a)
      → (rows : List A) → count_rows p (update_where q f rows) ≡ count_rows p rows
  unfolding count_rows update_where
  count_rows-update q f same [] = refl
  count_rows-update q f same (row ∷ rows) =
      ground (arith, same row, count_rows-update q f same rows)

  -- Rows that are selected are not more than there were.
  pub count_rows-select :
      (q : A → Bool) (rows : List A) → count_rows p (select_all q rows) ≤ count_rows p rows
  unfolding count_rows select_all
  count_rows-select q [] = omega arith
  count_rows-select q (row ∷ rows) = ground (arith, count_rows-select q rows)

  -- A row is found exactly where there is one.
  pub select-found :
      (rows : List A) → ltb 0 (count_rows p rows) ≡ true → (a : A) × (select_one p rows ≡ some a)
  unfolding count_rows select_one
  select-found [] h = absurd (ground (arith, h))
  select-found (row ∷ rows) h = elim (Bool-cases (p row)) [
    | inl d ↦ (row, rw d refl)
    | inr d ↦ let found = select-found rows (ground (arith, d, h)) in (found.0, rw d found.1)
  ]

  -- A row behind those that are not selected.
  pub select-append :
      (rows : List A) (a : A)
      → count_rows p rows ≡ 0
      → p a ≡ true
      → select_one p (rows ++ a ∷ []) ≡ some a
  unfolding count_rows select_one
  select-append [] a h e = ground (arith, e)
  select-append (row ∷ rows) a h e = ground (arith, h, select-append rows a (omega (arith, h)) e)

  -- What is found satisfies the test.
  pub select-holds : (rows : List A) (a : A) → select_one p rows ≡ some a → p a ≡ true
  unfolding select_one
  select-holds [] a h = absurd (ground (arith, h))
  select-holds (row ∷ rows) a h = elim (Bool-cases (p row)) [
    | inl d ↦ let same : row ≡ a = ground (arith, d, h) in subst (λ r. p r ≡ true) same d
    | inr d ↦ select-holds rows a (ground (arith, d, h))
  ]

  pub select-counted :
      (q : A → Bool) (rows : List A) (a : A)
      → select_one q rows ≡ some a
      → p a ≡ true
      → 1 ≤ count_rows p rows
  unfolding select_one count_rows
  select-counted q [] a h e = absurd (ground (arith, h))
  select-counted q (row ∷ rows) a h e = elim (Bool-cases (q row)) [
    | inl d ↦
        let same : row ≡ a = ground (arith, d, h) in
        let holds : p row ≡ true = subst (λ r. p r ≡ true) (sym same) e in rw holds (omega arith)
    | inr d ↦ omega (arith, select-counted q rows a (ground (arith, d, h)) e)
  ]

  -- A row that satisfies another test, of which there is one row.
  pub select-other :
      (q : A → Bool) (rows : List A) (a : A)
      → select_one q rows ≡ some a
      → p a ≡ true
      → count_rows p rows ≤ 1
      → select_one p rows ≡ some a
  unfolding count_rows select_one
  select-other q [] a h e least = absurd (ground (arith, h))
  select-other q (row ∷ rows) a h e least = elim (Bool-cases (q row)) [
    | inl d ↦
        let same : row ≡ a = ground (arith, d, h) in
        let holds : p row ≡ true = subst (λ r. p r ≡ true) (sym same) e in rw holds (ap some same)
    | inr d ↦
        let later : select_one q rows ≡ some a = ground (arith, d, h) in
        elim (Bool-cases (p row)) [
          | inl holds ↦ absurd (ground (arith, holds, least, select-counted q rows a later e))
          | inr fails ↦ rw fails (select-other q rows a later e (ground (arith, fails, least)))
        ]
  ]

  -- The row that an update changes.
  pub select-update :
      (q : A → Bool) (f : A → A)
      → ((a : A) → p (f a) ≡ p a)
      → (rows : List A) (a : A) → select_one p rows ≡ some a
      → q a ≡ true
      → select_one p (update_where q f rows) ≡ some (f a)
  unfolding update_where select_one
  select-update q f same [] a h e = ground (arith, h)
  select-update q f same (row ∷ rows) a h e = elim (Bool-cases (p row)) [
    | inl d ↦
        let same_row : row ≡ a = ground (arith, h, d) in
        let q_row : q row ≡ true = subst (λ r. q r ≡ true) (sym same_row) e in
        rw q_row (rw (same row) (rw d (ap (λ r. some (f r)) same_row)))
    | inr d ↦ ground (arith, d, same row, h, select-update q f same rows a (ground (arith, h, d)) e)
  ]

-- An update keeps the number of rows.
pub length-update {ℓ} :
    {A : Type ℓ} (p : A → Bool) (f : A → A) (rows : List A)
    → length (update_where p f rows) ≡ length rows
unfolding update_where
length-update p f [] = refl
length-update p f (row ∷ rows) = omega (arith, length-update p f rows)

-- The row of a key behind its upsert, and the rows of the others.
pub status-put :
    (new : StatusRow) (rows : List StatusRow)
    → select_one (is_of new.user_id new.problem_id) (put_status new rows) ≡ some new
unfolding select_one put_status
status-put new [] = ground arith
status-put new (row ∷ rows) = ground (arith, status-put new rows)

pub status-put_other :
    (new : StatusRow) (user_id problem_id : ℕ) (rows : List StatusRow)
    → is_of user_id problem_id new ≡ false
    → select_one (is_of user_id problem_id) (put_status new rows)
      ≡ select_one (is_of user_id problem_id) rows
unfolding select_one put_status
status-put_other new user_id problem_id [] h = ground (arith, h)
status-put_other new user_id problem_id (row ∷ rows) h =
    ground (arith, h, status-put_other new user_id problem_id rows h)
