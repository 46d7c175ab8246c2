-- ===== src/Db/Connection/Bodies.antt =====
-- What a body did where it gave a result, statement by statement.
use vibe_coding.Prelude.{
  ◌≡◌, refl, sym, ap, subst, Option, some, ◌⊎◌, inl, inr, arith, Option-cases,
}
use vibe_coding.Db.Tables.{Tables}
use vibe_coding.Db.Connection.Atomic.{Committed, Atomic, transaction-Atomic}
use vibe_coding.Db.Connection.{
  Conn, durable, transaction, Work, Body, carry_on, query, execute, take_fault, or_fail, pass,
  give_up, ◌>>=◌,
}

-- The body gives `a`, and leaves `w'`.
pub record Gives {E A : Type 0} (body : Body E A) (w : Work) (a : A) (w' : Work) : Type 0 where
  pub run : body w ≡ (inr a, w')

-- The middle of a chain of two.
pub record Chained {E A B : Type 0} (first : Body E A) (rest : A → Body E B) (w : Work) (b : B)
    (w' : Work) : Type 0 where
  pub value : A
  pub work : Work
  pub before : Gives first w value work
  pub behind : Gives (rest value) work b w'

module _ {E A B : Type 0} where
  chain-from :
      (r : (E ⊎ A) × Work) (first : Body E A) (rest : A → Body E B) (w : Work) (b : B) (w' : Work)
      → first w ≡ r
      → carry_on rest r ≡ (inr b, w')
      → Chained first rest w b w'
  unfolding carry_on
  chain-from (inl error, v) first rest w b w' e h = cc
  chain-from (inr a, v) first rest w b w' e h = record {
    value = a;
    work = v;
    before = record { run = e };
    behind = record { run = h };
  }

  pub >>=-Chained :
      (first : Body E A) (rest : A → Body E B) (w : Work) (b : B) (w' : Work)
      → Gives (first >>= rest) w b w'
      → Chained first rest w b w'
  unfolding ◌>>=◌
  >>=-Chained first rest w b w' h = chain-from (first w) first rest w b w' refl h.run

-- A statement that writes and succeeds has done its work.
pub execute-some :
    {A : Type 0} (f : Tables → Option (A × Tables)) (w : Work) (a : A) (w' : Work)
    → execute f w ≡ (some a, w')
    → f w.tables ≡ some (a, w'.tables)
unfolding execute take_fault
execute-some f w a w' h = elim (Option-cases (f w.tables)) [
  | inl e ↦ ground (arith, h, e)
  | inr (r, e) ↦ ground (arith, h, e)
]

module _ {E A : Type 0} where
  pub pass-Gives : (a b : A) (w w' : Work) → Gives (pass {E = E} a) w b w' → (b ≡ a) × (w' ≡ w)
  unfolding pass
  pass-Gives a b w w' h = ground (arith, h.run)

  pub give_up-Gives : (error : E) (b : A) (w w' : Work) → Gives (give_up error) w b w' → ⊥
  unfolding give_up
  give_up-Gives error b w w' h = ground (arith, h.run)

  pub query-Gives :
      (error : E) (f : Tables → A) (w : Work) (a : A) (w' : Work)
      → Gives (or_fail error (query f)) w a w'
      → (a ≡ f w.tables) × (w'.tables ≡ w.tables)
  unfolding or_fail query take_fault
  query-Gives error f w a w' h = ground (arith, h.run)

  pub execute-Gives :
      (error : E) (f : Tables → Option (A × Tables)) (w : Work) (a : A) (w' : Work)
      → Gives (or_fail error (execute f)) w a w'
      → f w.tables ≡ some (a, w'.tables)
  unfolding or_fail execute take_fault
  execute-Gives error f w a w' h = elim (Option-cases (f w.tables)) [
    | inl e ↦ ground (arith, h.run, e)
    | inr (r, e) ↦ ground (arith, h.run, e)
  ]

  -- What was committed is what the body gave, from some list of faults on.
  pub Committed-Gives :
      (body : Body E A) (before after : Tables) (a : A) (h : Committed body before after a)
      → let w : Work = record { tables = before; faults = h.faults } in Gives body w a (body w).1
  Committed-Gives body before after a h =
      let w : Work = record { tables = before; faults = h.faults } in
      record { run = ap (λ r. (r, (body w).1)) h.result }

-- A statement that no constraint refuses.
pub write-Gives :
    {E : Type 0} (error : E) (f : Tables → Tables) (w : Work) (u : Unit {0}) (w' : Work)
    → Gives (or_fail error (execute λ t. some (tt, f t))) w u w'
    → w'.tables ≡ f w.tables
write-Gives error f w u w' h = ground (arith, execute-Gives error (λ t. some (tt, f t)) w u w' h)

-- What a body that gives a result did to the tables, a transaction of it did to what is durable.
module _ {E A : Type 0} (body : Body E A) (R : Tables → Tables → Type 0) where
  kept-from :
      ((t : Tables) → R t t)
      → ((w : Work) (a : A) (w' : Work) → Gives body w a w' → R w.tables w'.tables)
      → (before after : Tables) (r : E ⊎ A) → Atomic body before after r
      → R before after
  kept-from same gives before after (inl error) h = subst (R before) (sym h) (same before)
  kept-from same gives before after (inr a) h =
      subst (R before) (sym h.kept) (gives _ a _ (Committed-Gives body before after a h))

  pub transaction-keeps :
      (internal : E)
      → ((t : Tables) → R t t)
      → ((w : Work) (a : A) (w' : Work) → Gives body w a w' → R w.tables w'.tables)
      → (c : Conn) → R (durable c) (durable (transaction internal body c).1)
  transaction-keeps internal same gives c =
      kept-from same gives (durable c) _ _ (transaction-Atomic internal body c)
