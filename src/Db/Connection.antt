-- ===== src/Db/Connection.antt =====
-- `Database` of src/db/database.h and database.cpp: the one connection that all threads share. A
-- call of SQLite may fail, which `faults` decides: a call that fails changes nothing, and behind the
-- list's end none fails. What is documented of SQLite is in the definitions: BEGIN inside a
-- transaction fails, a COMMIT that fails leaves the transaction open, ROLLBACK restores the tables.
pub mod Atomic
pub mod Bodies
pub mod Quiet
use vibe_coding.Prelude.{
  Bool, true, false, not, Option, none, some, ◌⊎◌, inl, inr, List, [], ◌∷◌, if◌then◌else◌,
}
use vibe_coding.Db.Tables.{Tables}

-- What a statement works on.
pub record Work : Type 0 where
  pub tables : Tables
  pub faults : List Bool

-- `snapshot` has the tables at the BEGIN of the open transaction.
pub record Conn : Type 0 where
  pub work : Work
  pub snapshot : Option Tables

-- What another connection, or this one behind a crash, finds.
unfoldable pub durable : Conn → Tables
durable c = elim c.snapshot [ none ↦ c.work.tables | some tables ↦ tables ]

-- Does the next call fail?
unfoldable pub next_fault : List Bool → Bool × List Bool
next_fault [] = (false, [])
next_fault (failed ∷ faults) = (failed, faults)

unfoldable pub take_fault : Work → Bool × Work
unfolding next_fault
take_fault w = let (failed, faults) = next_fault w.faults in (failed, record w { faults = faults })

-- Preparing, binding and stepping one statement that reads; `none` is the failure.
unfoldable pub query {ℓ} : {A : Type ℓ} → (Tables → A) → Work → Option A × Work
unfolding take_fault
query f w =
    let (failed, w') = take_fault w in if failed then (none, w') else (some (f w'.tables), w')

-- The same of one that writes; it may also be refused by a constraint.
unfoldable pub execute {ℓ} : {A : Type ℓ} → (Tables → Option (A × Tables)) → Work → Option A × Work
unfolding take_fault
execute f w =
    let (failed, w') = take_fault w in
    if failed then (none, w') else elim (f w'.tables) [
      | none ↦ (none, w')
      | some (a, tables) ↦ (some a, record w' { tables = tables })
    ]

-- A statement outside a transaction, which is one of its own.
unfoldable pub alone {ℓ} : {A : Type ℓ} → (Work → A × Work) → Conn → A × Conn
alone statement c = let (a, w) = statement c.work in (a, record c { work = w })

-- `Database::begin`, by the snapshot that is there.
unfoldable pub begin_from : Option Tables → Conn → Bool × Conn
unfolding take_fault
begin_from (some _) c = (false, c)
begin_from none c =
    let (failed, w) = take_fault c.work in
    if failed
    then (false, record c { work = w })
    else (true, record { work = w; snapshot = some w.tables })

unfoldable pub begin : Conn → Bool × Conn
unfolding begin_from
begin c = begin_from c.snapshot c

-- `Database::commit`
unfoldable pub commit_from : Option Tables → Conn → Bool × Conn
unfolding take_fault
commit_from none c = (false, c)
commit_from (some _) c =
    let (failed, w) = take_fault c.work in
    if failed then (false, record c { work = w }) else (true, record { work = w; snapshot = none })

unfoldable pub commit : Conn → Bool × Conn
unfolding commit_from
commit c = commit_from c.snapshot c

-- `Database::rollback`
unfoldable pub rollback_from : Option Tables → Conn → Bool × Conn
unfolding take_fault
rollback_from none c = (false, c)
rollback_from (some before) c =
    let (failed, w) = take_fault c.work in
    if failed
    then (false, record c { work = w })
    else (true, record { work = record w { tables = before }; snapshot = none })

unfoldable pub rollback : Conn → Bool × Conn
unfolding rollback_from
rollback c = rollback_from c.snapshot c

-- The frame that the services write out around their statements: `internal` where BEGIN fails; where
-- the body gives up, a ROLLBACK and what the body says; where COMMIT fails, a ROLLBACK and
-- `internal`.
module _ {E A : Type 0} (internal : E) where
  unfoldable pub finish : E ⊎ A → Conn → (E ⊎ A) × Conn
  unfolding commit rollback
  finish (inl error) c = (inl error, (rollback c).1)
  finish (inr a) c =
      let (done, c') = commit c in if done then (inr a, c') else (inl internal, (rollback c').1)

  unfoldable pub transaction : (Work → (E ⊎ A) × Work) → Conn → (E ⊎ A) × Conn
  unfolding begin finish
  transaction body c =
      let (began, c₁) = begin c in
      let (r, w) = body c₁.work in
      if not began then (inl internal, c₁) else finish r (record c₁ { work = w })

-- The body of a transaction: its statements one by one, until one has an error.
abbrev pub Body : Type 0 → Type 0 → Type 0
Body E A = Work → (E ⊎ A) × Work

module _ {E A : Type 0} where
  unfoldable pub pass : A → Body E A
  pass a w = (inr a, w)

  unfoldable pub give_up : E → Body E A
  give_up error w = (inl error, w)

  -- `if (!statement(…, err)) { … error … }`
  unfoldable pub or_fail : E → (Work → Option A × Work) → Body E A
  or_fail error statement w =
      let (r, w') = statement w in elim r [ none ↦ (inl error, w') | some a ↦ (inr a, w') ]

unfoldable pub carry_on : {E A B : Type 0} → (A → Body E B) → (E ⊎ A) × Work → (E ⊎ B) × Work
carry_on rest (inl error, w) = (inl error, w)
carry_on rest (inr a, w) = rest a w

infixl 1 ◌>>=◌ ◌>>◌
unfoldable pub ◌>>=◌ : {E A B : Type 0} → Body E A → (A → Body E B) → Body E B
unfolding carry_on
(first >>= rest) w = carry_on rest (first w)

unfoldable pub ◌>>◌ : {E A B : Type 0} → Body E A → Body E B → Body E B
unfolding ◌>>=◌
first >> rest = first >>= λ _. rest
