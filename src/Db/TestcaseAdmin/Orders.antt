-- ===== src/Db/TestcaseAdmin/Orders.antt =====
-- The order of a new test point, against those that are there.
use vibe_coding.Prelude.{
  zero, suc, ◌≡◌, Option, none, some, List, [], ◌∷◌, arith, All, if-cases, true, false,
}
use vibe_coding.Prelude.Int.{ℤ, pos, negsuc, ltb_ℤ, ◌≤ℤ◌, ◌<ℤ◌}
use vibe_coding.Db.Tables.{TestcaseRow}
use vibe_coding.Db.TestcaseAdmin.{larger, max_ord, next_ord}

-- Not above a maximum, if there is one.
abbrev IsBelow : Option ℤ → ℤ → Type 0
IsBelow none ord = ⊥
IsBelow (some max) ord = ord ≤ℤ max

All-weaken {ℓ} :
    {A : Type ℓ} (P Q : A → Type 0)
    → ((a : A) → P a → Q a)
    → (rows : List A) → All P rows
    → All Q rows
All-weaken P Q k [] h = tt
All-weaken P Q k (row ∷ rows) h = (k row h.0, All-weaken P Q k rows h.1)

above-trans : (a b c : ℤ) → a ≤ℤ b → b ≤ℤ c → a ≤ℤ c
above-trans a b c h k = omega (arith, h, k)

ltb→le : (a b : ℤ) → ltb_ℤ a b ≡ true → a ≤ℤ b
ltb→le a b h = ground (arith, h)

not-ltb→le : (a b : ℤ) → ltb_ℤ a b ≡ false → b ≤ℤ a
not-ltb→le a b h = ground (arith, h)

grown :
    (o : Option ℤ) (tc : TestcaseRow) (rows : List TestcaseRow)
    → All (λ (row : TestcaseRow). IsBelow o row.ord) rows
    → All (λ (row : TestcaseRow). IsBelow (larger tc.ord o) row.ord) (tc ∷ rows)
unfolding larger
grown none tc rows h =
    (omega arith, All-weaken _ (λ row. row.ord ≤ℤ tc.ord) (λ row k. absurd k) rows h)
grown (some max) tc rows h =
    if-cases (λ m. All (λ (row : TestcaseRow). row.ord ≤ℤ m) (tc ∷ rows)) (ltb_ℤ max tc.ord) _ _
      (λ less. (
        omega arith,
        All-weaken (λ row. row.ord ≤ℤ max) (λ row. row.ord ≤ℤ tc.ord)
            (λ row k. above-trans row.ord max tc.ord k (ltb→le max tc.ord less)) rows h,
      ))
      (λ more. (not-ltb→le max tc.ord more, h))

max_ord-above :
    (rows : List TestcaseRow) → All (λ (row : TestcaseRow). IsBelow (max_ord rows) row.ord) rows
unfolding max_ord
max_ord-above [] = tt
max_ord-above (tc ∷ rows) = grown (max_ord rows) tc rows (max_ord-above rows)

next_ord-above : (o : Option ℤ) (ord : ℤ) → IsBelow o ord → ord <ℤ next_ord o
unfolding next_ord
next_ord-above none ord h = absurd h
next_ord-above (some (pos n)) ord h = omega (arith, h)
next_ord-above (some (negsuc zero)) ord h = omega (arith, h)
next_ord-above (some (negsuc (suc n))) ord h = omega (arith, h)

-- One more than the maximum is above all.
pub next_ord-max_ord :
    (rows : List TestcaseRow) → All (λ (row : TestcaseRow). row.ord <ℤ next_ord (max_ord rows)) rows
next_ord-max_ord rows =
    All-weaken _ (λ row. row.ord <ℤ next_ord (max_ord rows))
      (λ row h. next_ord-above (max_ord rows) row.ord h) rows (max_ord-above rows)
