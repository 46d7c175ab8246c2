-- ===== src/Db/ProblemAdmin/Rows.antt =====
-- Rows that are deleted, and those that stay.
use vibe_coding.Prelude.{
  ◌≡◌, refl, ap, Bool, true, false, not, none, List, [], ◌∷◌, ◌++◌, arith, Bool-cases, inl, inr,
}
use vibe_coding.Db.Tables.{select_one, select_all, update_where}

module _ {ℓ} {A : Type ℓ} (p : A → Bool) where
  pub select_one-removed : (rows : List A) → select_one p (select_all (λ a. not (p a)) rows) ≡ none
  unfolding select_one select_all
  select_one-removed [] = refl
  select_one-removed (row ∷ rows) = elim (Bool-cases (p row)) [
    | inl e ↦ rw e (select_one-removed rows)
    | inr e ↦ rw (e, e) (select_one-removed rows)
  ]

  -- A selection that has nothing of what is deleted.
  module _ (q : A → Bool) (apart : (a : A) → q a ≡ true → p a ≡ false) where
    pub select_one-kept :
        (rows : List A) → select_one q (select_all (λ a. not (p a)) rows) ≡ select_one q rows
    unfolding select_one select_all
    select_one-kept [] = refl
    select_one-kept (row ∷ rows) = elim (Bool-cases (q row)) [
      | inl e ↦ rw (apart row e, e) refl
      | inr e ↦ ground (arith, e, select_one-kept rows)
    ]

    pub select_all-kept :
        (rows : List A) → select_all q (select_all (λ a. not (p a)) rows) ≡ select_all q rows
    unfolding select_all
    select_all-kept [] = refl
    select_all-kept (row ∷ rows) = elim (Bool-cases (q row)) [
      | inl e ↦ rw (apart row e, e) (ap (λ later. row ∷ later) (select_all-kept rows))
      | inr e ↦ ground (arith, e, select_all-kept rows)
    ]

-- A selection that has nothing of what is appended.
pub select_all-append {ℓ} :
    {A : Type ℓ} (q : A → Bool) (rows later : List A)
    → select_all q later ≡ []
    → select_all q (rows ++ later) ≡ select_all q rows
unfolding select_all
select_all-append q [] later h = h
select_all-append q (row ∷ rows) later h = elim (Bool-cases (q row)) [
  | inl e ↦ rw e (ap (λ kept. row ∷ kept) (select_all-append q rows later h))
  | inr e ↦ rw e (select_all-append q rows later h)
]

-- A row that an update by key does not reach.
pub select_one-update {ℓ} :
    {A : Type ℓ} (p q : A → Bool) (f : A → A)
    → ((a : A) → q a ≡ true → p a ≡ false)
    → ((a : A) → p (f a) ≡ p a)
    → (rows : List A) → select_one p (update_where q f rows) ≡ select_one p rows
unfolding select_one update_where
select_one-update p q f apart same [] = refl
select_one-update p q f apart same (row ∷ rows) = elim (Bool-cases (q row)) [
  | inl e ↦ rw e (rw (same row) (rw (apart row e) (select_one-update p q f apart same rows)))
  | inr e ↦ ground (arith, e, select_one-update p q f apart same rows)
]
