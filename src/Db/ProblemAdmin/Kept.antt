-- ===== src/Db/ProblemAdmin/Kept.antt =====
-- What is submitted keeps its problem.
use vibe_coding.Prelude.{
  ℕ, ◌+◌, ◌≤◌, ◌≡◌, ap, ◌==◌, ◌⊎◌, inl, inr, arith, Bool-cases, ==_iff, subst, sym,
}
use vibe_coding.Db.Tables.{Tables}
use vibe_coding.Db.Connection.{Conn, durable}
use vibe_coding.Db.InFlight.{unsettled_for}
use vibe_coding.Db.Problems.{problem_of}
use vibe_coding.Db.ProblemAdmin.{ProblemRefusal}
use vibe_coding.Db.ProblemAdmin.Remove.{submissions_for, remove_problem}
use vibe_coding.Db.ProblemAdmin.Removed.{Removes, remove_problem-Removes}

kept :
    (id used : ℕ) (before after : Tables) (r : ProblemRefusal ⊎ Unit {0})
    → Removes id before after r
    → 1 ≤ submissions_for used before + unsettled_for used before
    → problem_of used after ≡ problem_of used before
kept id used before after (inl _) h some_use = ap (problem_of used) h
kept id used before after (inr _) h some_use = elim (Bool-cases (used == id)) [
  | inl e ↦
      let same = (==_iff used id).0 e in
      absurd (
        omega (
          arith,
          some_use,
          subst (λ p. submissions_for p before ≡ 0) (sym same) h.no_submission,
          subst (λ p. unsettled_for p before ≡ 0) (sym same) h.no_task,
        ))
  | inr e ↦ h.other_problems used e
]

-- A problem that something was submitted for, settled or still under way, stays as it is behind the
-- removal of any problem, whichever calls of the database fail.
pub remove_problem-keeps_used :
    (id used : ℕ) (c : Conn)
    → 1 ≤ submissions_for used (durable c) + unsettled_for used (durable c)
    → problem_of used (durable (remove_problem id c).1) ≡ problem_of used (durable c)
remove_problem-keeps_used id used c some_use =
    kept id used (durable c) _ (remove_problem id c).0 (remove_problem-Removes id c) some_use
