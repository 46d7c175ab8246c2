-- ===== src/Db/Connection/Atomic.antt =====
-- A transaction is kept as a whole or not at all.
use vibe_coding.Prelude.{
  if◌then◌else◌, not, subst, if-cases, sym, ap, ◌∙◌, ◌≡◌, refl, Bool, true, false, Option, none,
  some, ◌⊎◌, inl, inr, List, arith, ap, ◌∙◌, if-cases, sym,
}
use vibe_coding.Db.Tables.{Tables}
use vibe_coding.Db.Connection.{
  Work, Conn, durable, rollback, commit_from, rollback_from, finish, begin_from, transaction, begin,
  commit, take_fault,
}

-- The body, run on the tables that were durable before, gave `a`, and what it made of them is durable.
pub record Committed {E A : Type 0} (body : Work → (E ⊎ A) × Work) (before after : Tables) (a : A)
    : Type 0 where
  pub faults : List Bool
  pub result : (body (record { tables = before; faults = faults })).0 ≡ inr a
  pub kept : after ≡ (body (record { tables = before; faults = faults })).1.tables

rollback_from-durable :
    (o : Option Tables) (c : Conn) → c.snapshot ≡ o → durable (rollback_from o c).1 ≡ durable c
unfolding durable rollback_from
rollback_from-durable none c e = refl
rollback_from-durable (some before) c e = ground (arith, e)

rollback-durable : (c : Conn) → durable (rollback c).1 ≡ durable c
unfolding rollback
rollback-durable c = rollback_from-durable c.snapshot c refl

-- A COMMIT makes durable what the transaction made of the tables, or changes nothing.
commit_from-durable :
    (o : Option Tables) (c : Conn)
    → c.snapshot ≡ o
    → ((commit_from o c).0 ≡ true) × (durable (commit_from o c).1 ≡ c.work.tables)
      ⊎ ((commit_from o c).0 ≡ false) × (durable (commit_from o c).1 ≡ durable c)
unfolding durable commit_from
commit_from-durable none c e = inr (refl, refl)
commit_from-durable (some before) c e = ground (arith, e)

-- What became of a transaction: nothing where it has an error, and all of its body otherwise.
abbrev pub Atomic : {E A : Type 0} → (Work → (E ⊎ A) × Work) → Tables → Tables → E ⊎ A → Type 0
Atomic body before after (inl error) = after ≡ before
Atomic body before after (inr a) = Committed body before after a

pub durable-open : (c : Conn) (before : Tables) → c.snapshot ≡ some before → durable c ≡ before
unfolding durable
durable-open c before e = ap (λ (o : Option Tables). elim o [ none ↦ c.work.tables | some t ↦ t ]) e

durable-shut : (c : Conn) → c.snapshot ≡ none → durable c ≡ c.work.tables
unfolding durable
durable-shut c e = ap (λ (o : Option Tables). elim o [ none ↦ c.work.tables | some t ↦ t ]) e

module _ {E A : Type 0} (internal : E) (body : Work → (E ⊎ A) × Work) where
  finish-Atomic :
      (r : E ⊎ A) (c : Conn) (before : Tables) (faults : List Bool)
      → c.snapshot ≡ some before
      → body (record { tables = before; faults = faults }) ≡ (r, c.work)
      → Atomic body before (durable (finish internal r c).1) (finish internal r c).0
  unfolding finish
  finish-Atomic (inl error) c before faults e k = rollback-durable c ∙ durable-open c before e
  finish-Atomic (inr a) c before faults e k =
      let kept = commit_from-durable c.snapshot c refl in
      if-cases (λ (r : (E ⊎ A) × Conn). Atomic body before (durable r.1) r.0) (commit c).0 _ _
        (λ d. record {
          faults = faults;
          result = ap (λ r. r.0) k;
          kept = committed d kept ∙ ap (λ r. r.1.tables) (sym k);
        })
        (λ d. rollback-durable (commit c).1 ∙ refused d kept ∙ durable-open c before e)
    where
      committed :
          (commit c).0 ≡ true
          → ((commit c).0 ≡ true) × (durable (commit c).1 ≡ c.work.tables)
            ⊎ ((commit c).0 ≡ false) × (durable (commit c).1 ≡ durable c)
          → durable (commit c).1 ≡ c.work.tables
      committed d (inl h) = h.1
      committed d (inr h) = cc

      refused :
          (commit c).0 ≡ false
          → ((commit c).0 ≡ true) × (durable (commit c).1 ≡ c.work.tables)
            ⊎ ((commit c).0 ≡ false) × (durable (commit c).1 ≡ durable c)
          → durable (commit c).1 ≡ durable c
      refused d (inl h) = cc
      refused d (inr h) = h.1

  begun-Atomic :
      (o : Option Tables) (c : Conn)
      → c.snapshot ≡ o
      → let (began, c₁) = begin_from o c in
        let (r, w) = body c₁.work in
        let rs =
          if not began then (inl internal, c₁) else finish internal r (record c₁ { work = w }) in
        Atomic body (durable c) (durable rs.1) rs.0
  unfolding begin_from take_fault
  begun-Atomic (some before) c e = refl
  begun-Atomic none c e =
      subst
        (λ t.
          let (began, c₁) = begin_from none c in
          let (r, w) = body c₁.work in
          let rs =
            if not began then (inl internal, c₁) else finish internal r (record c₁ { work = w }) in
          Atomic body t (durable rs.1) rs.0)
        (sym (durable-shut c e))
        (if-cases
          (λ (b : Bool × Conn).
            let (began, c₁) = b in
            let (r, w) = body c₁.work in
            let rs =
              if not began
              then (inl internal, c₁)
              else finish internal r (record c₁ { work = w }) in
            Atomic body c.work.tables (durable rs.1) rs.0)
          (take_fault c.work).0 _ _
          (λ _. durable-shut (record c { work = (take_fault c.work).1 }) e)
          (λ _.
            finish-Atomic (body (take_fault c.work).1).0
              (record { work = (body (take_fault c.work).1).1; snapshot = some c.work.tables })
              c.work.tables (take_fault c.work).1.faults refl refl))

  -- A transaction that gives an error leaves what is durable as it was, and one that gives a result
  -- makes durable what its body made of it, whichever calls fail, the ROLLBACK included.
  pub transaction-Atomic :
      (c : Conn)
      → Atomic body
          (durable c)
          (durable (transaction internal body c).1)
          (transaction internal body c).0
  unfolding transaction begin
  transaction-Atomic c = begun-Atomic c.snapshot c refl
