-- ===== src/Db/Connection/Quiet.antt =====
-- A body of which no call fails, statement by statement.
use vibe_coding.Prelude.{◌≡◌, refl, ap, ◌∙◌, Option, none, some, inl, inr, [], arith}
use vibe_coding.Db.Tables.{Tables}
use vibe_coding.Db.Connection.Bodies.{Gives}
use vibe_coding.Db.Connection.{
  Work, Conn, Body, carry_on, query, execute, take_fault, or_fail, pass, ◌>>=◌, begin, begin_from,
  commit, commit_from, rollback, rollback_from, finish, transaction,
}

abbrev pub quiet : Tables → Work
quiet t = record { tables = t; faults = [] }

-- A connection outside a transaction, of which no call fails.
abbrev pub quiet_conn : Tables → Conn
quiet_conn t = record { work = quiet t; snapshot = none }

module _ {E A B : Type 0} where
  pub then-Gives :
      (first : Body E A) (rest : A → Body E B) (w : Work) (a : A) (w₁ : Work) (b : B) (w' : Work)
      → Gives first w a w₁
      → Gives (rest a) w₁ b w'
      → Gives (first >>= rest) w b w'
  unfolding ◌>>=◌ carry_on
  then-Gives first rest w a w₁ b w' h k = record { run = ap (carry_on rest) h.run ∙ k.run }

  -- Where the first part has an error, so has the whole.
  pub then-fails :
      (first : Body E A) (rest : A → Body E B) (w : Work) (error : E) (w' : Work)
      → first w ≡ (inl error, w')
      → (first >>= rest) w ≡ (inl error, w')
  unfolding ◌>>=◌ carry_on
  then-fails first rest w error w' h = ap (carry_on rest) h

module _ {E A : Type 0} where
  pub pass-runs : (a : A) (w : Work) → Gives (pass {E = E} a) w a w
  unfolding pass
  pass-runs a w = record { run = refl }

  pub query-runs :
      (error : E) (f : Tables → A) (t : Tables)
      → Gives (or_fail error (query f)) (quiet t) (f t) (quiet t)
  unfolding or_fail query take_fault
  query-runs error f t = record { run = refl }

  pub execute-runs :
      (error : E) (f : Tables → Option (A × Tables)) (t : Tables) (a : A) (t' : Tables)
      → f t ≡ some (a, t')
      → Gives (or_fail error (execute f)) (quiet t) a (quiet t')
  unfolding or_fail execute take_fault
  execute-runs error f t a t' h = record { run = ground (arith, h) }

  -- A transaction whose body gives a result, and in which no call fails.
  pub transaction-runs :
      (internal : E) (body : Body E A) (t : Tables) (a : A) (t' : Tables)
      → Gives body (quiet t) a (quiet t')
      → transaction internal body (quiet_conn t) ≡ (inr a, quiet_conn t')
  unfolding transaction begin begin_from finish commit commit_from take_fault
  transaction-runs internal body t a t' h = ground (arith, h.run)

  pub transaction-refuses :
      (internal error : E) (body : Body E A) (t t' : Tables)
      → body (quiet t) ≡ (inl error, quiet t')
      → transaction internal body (quiet_conn t) ≡ (inl error, quiet_conn t)
  unfolding transaction begin begin_from finish rollback rollback_from take_fault
  transaction-refuses internal error body t t' h = ground (arith, h)
