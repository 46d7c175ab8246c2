-- ===== src/Db/TestcaseAdmin/Kept.antt =====
-- What every operation of the administration of test points keeps.
use vibe_coding.Prelude.{
  ℕ, ◌≡◌, refl, sym, subst, Bool, false, Option, none, some, inl, inr, List, [], ◌∷◌, arith, All,
  All-append, Bool-cases, if-cases, zero, suc,
}
use vibe_coding.Prelude.Int.{ℤ, pos, ltb_ℤ, ◌≤ℤ◌}
use vibe_coding.Db.Tables.{Tables, TestcaseRow, select_all, update_where}
use vibe_coding.Db.Connection.{Conn, durable}
use vibe_coding.Db.Connection.Bodies.{transaction-keeps}
use vibe_coding.Db.ProblemAdmin.{is_testcase_of, added_testcase}
use vibe_coding.Db.ProblemAdmin.Rows.{select_all-append}
use vibe_coding.Db.TestcaseAdmin.{
  testcase_error, is_hidden_testcase, next_ord, last_ord, max_ord, larger, hidden_row,
  create_testcase_body, create_testcase,
}
use vibe_coding.Db.TestcaseAdmin.Changed.{IsHiddenAdded, create-Gives}
use vibe_coding.Problem.Fields.Range.{IfSome}
use vibe_coding.Problem.TestcaseValidation.{TestcaseData, IsTestcase, IsOrd}

-- The samples, which only the administration of problems changes.
abbrev pub samples_of : Tables → List TestcaseRow
samples_of t = select_all (λ tc. tc.is_sample) t.testcases

-- Every test point has its place in the order within the bounds.
abbrev pub OrdsValid : Tables → Type 0
OrdsValid t = All (λ (tc : TestcaseRow). IsOrd tc.ord) t.testcases

-- The samples stay, and so do the bounds of the places.
pub record Keeps (before after : Tables) : Type 0 where
  pub samples : samples_of after ≡ samples_of before
  pub ords : OrdsValid before → OrdsValid after

pub Keeps-same : (t : Tables) → Keeps t t
Keeps-same t = record { samples = refl; ords = λ h. h }

pub updated-samples :
    (problem_id id : ℕ) (new : TestcaseRow) (rows : List TestcaseRow)
    → select_all
        (λ tc. tc.is_sample)
        (update_where
          (is_hidden_testcase problem_id id)
          (λ tc. record tc { input = new.input; output = new.output; ord = new.ord })
          rows)
      ≡ select_all (λ tc. tc.is_sample) rows
unfolding select_all update_where
updated-samples problem_id id new [] = refl
updated-samples problem_id id new (tc ∷ rows) =
    elim (Bool-cases (is_hidden_testcase problem_id id tc)) [
      | inl e ↦
          let hidden : tc.is_sample ≡ false = ground (arith, e) in
          rw e (rw hidden (updated-samples problem_id id new rows))
      | inr e ↦ rw e (ground (arith, updated-samples problem_id id new rows))
    ]

pub updated-ords :
    (problem_id id : ℕ) (new : TestcaseRow) (rows : List TestcaseRow)
    → IsOrd new.ord
    → All (λ (tc : TestcaseRow). IsOrd tc.ord) rows
    → All
        (λ (tc : TestcaseRow). IsOrd tc.ord)
        (update_where
          (is_hidden_testcase problem_id id)
          (λ tc. record tc { input = new.input; output = new.output; ord = new.ord })
          rows)
unfolding update_where
updated-ords problem_id id new [] valid h = tt
updated-ords problem_id id new (tc ∷ rows) valid h =
    elim (Bool-cases (is_hidden_testcase problem_id id tc)) [
      | inl e ↦ rw e (valid, updated-ords problem_id id new rows valid h.1)
      | inr e ↦ rw e (h.0, updated-ords problem_id id new rows valid h.1)
    ]

pub select-All {ℓ} :
    {A : Type ℓ} (P : A → Type 0) (q : A → Bool) (rows : List A)
    → All P rows
    → All P (select_all q rows)
unfolding select_all
select-All P q [] h = tt
select-All P q (row ∷ rows) h = elim (Bool-cases (q row)) [
  | inl e ↦ rw e (h.0, select-All P q rows h.1)
  | inr e ↦ rw e (select-All P q rows h.1)
]

-- What is behind places that are not negative is not negative.
abbrev IsNatural : ℤ → Type 0
IsNatural i = pos 0 ≤ℤ i

larger-IsNatural :
    (ord : ℤ) (o : Option ℤ) → IsNatural ord → IfSome IsNatural o → IfSome IsNatural (larger ord o)
unfolding larger
larger-IsNatural ord none h k = h
larger-IsNatural ord (some max) h k = if-cases IsNatural (ltb_ℤ max ord) ord max (λ _. h) (λ _. k)

max_ord-IsNatural :
    (rows : List TestcaseRow)
    → All (λ (tc : TestcaseRow). IsOrd tc.ord) rows
    → IfSome IsNatural (max_ord rows)
unfolding max_ord
max_ord-IsNatural [] h = tt
max_ord-IsNatural (tc ∷ rows) h =
    larger-IsNatural tc.ord (max_ord rows) h.0.0 (max_ord-IsNatural rows h.1)

next_ord-IsNatural : (o : Option ℤ) → IfSome IsNatural o → IsNatural (next_ord o)
unfolding next_ord
next_ord-IsNatural none h = omega arith
next_ord-IsNatural (some (ℤ.pos n)) h = omega arith
next_ord-IsNatural (some (ℤ.negsuc zero)) h = omega arith
next_ord-IsNatural (some (ℤ.negsuc (suc n))) h = absurd (omega (arith, h))

added-IsOrd :
    (problem_id : ℕ) (testcase : TestcaseData) (o : Option ℤ) (id : ℕ) (ord : ℤ)
    (before after : Tables)
    → testcase.ord ≡ o
    → IfSome IsOrd o
    → IsHiddenAdded problem_id testcase id ord before after
    → OrdsValid before
    → IsOrd ord
unfolding last_ord
added-IsOrd problem_id testcase (some place) id ord before after e valid h k =
    subst IsOrd (sym (h.given place e)) valid
added-IsOrd problem_id testcase none id ord before after e valid h k =
    let chosen = h.chosen e in
    (
      subst IsNatural (sym chosen.0) (
          next_ord-IsNatural _
            (max_ord-IsNatural _ (select-All _ (is_testcase_of problem_id) _ k))),
      chosen.1,
    )

added-Keeps :
    (problem_id : ℕ) (testcase : TestcaseData) (id : ℕ) (ord : ℤ) (before after : Tables)
    → IsTestcase testcase
    → IsHiddenAdded problem_id testcase id ord before after
    → Keeps before after
unfolding added_testcase hidden_row select_all
added-Keeps problem_id testcase id ord before after valid h =
    subst (Keeps before) (sym h.tables) (record {
      samples = select_all-append (λ tc. tc.is_sample) before.testcases _ refl;
      ords = λ k.
          All-append (λ (tc : TestcaseRow). IsOrd tc.ord) before.testcases _ k
            (
              added-IsOrd problem_id testcase testcase.ord id ord before after refl valid.ord h k,
              tt,
            );
    })

-- Whichever calls of the database fail, the creation of a test point of an accepted request keeps the
-- samples, and every place in the order within 0 and 1000000.
pub create_testcase-Keeps :
    (problem_id : ℕ) (testcase : TestcaseData) (c : Conn)
    → IsTestcase testcase
    → Keeps (durable c) (durable (create_testcase problem_id testcase c).1)
unfolding create_testcase
create_testcase-Keeps problem_id testcase c valid =
    transaction-keeps (create_testcase_body problem_id testcase) Keeps testcase_error Keeps-same
      (λ w r w' h.
        added-Keeps problem_id testcase r.0 r.1 w.tables w'.tables valid
          (create-Gives problem_id testcase w r w' h))
      c
