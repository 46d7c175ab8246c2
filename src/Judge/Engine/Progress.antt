-- ===== src/Judge/Engine/Progress.antt =====
-- The loop over the test points: what holds of the result before each round and behind the loop.
use vibe_coding.Prelude.{
  ◌≢◌, All, All-append, ℕ, suc, ◌+◌, ◌≤◌, ◌<◌, ◌≡◌, inl, inr, Bool, true, false, List, [], ◌∷◌,
  ◌++◌, arith, if◌then◌else◌, length, length-append, Bool-cases,
}
use vibe_coding.Prelude.Int.{ℤ}
use vibe_coding.Prelude.Text.{Bytes, codes}
use vibe_coding.Judge.Status.{syserr, ce, is_ac}
use vibe_coding.Judge.Classification.{CaseVerdict, classify_case}
use vibe_coding.Judge.Classification.Verdict.{classify_case-blame}
use vibe_coding.Judge.Executor.{ProcessResult}
use vibe_coding.Judge.Host.{Host}
use vibe_coding.Judge.Engine.Result.{
  Testcase, JudgeOptions, JudgeTask, TestcaseResult, JudgeResult, mark_cancelled,
  mark_global_exhausted,
}
use vibe_coding.Judge.Engine.Case.{case_evidence, case_result, push_case, record_case, run_case}
use vibe_coding.Judge.Engine.{run_cases, path_join}

-- How many test points were accepted.
abbrev pub count_ac : List TestcaseResult → ℕ
count_ac [] = 0
count_ac (c ∷ cases) = (if is_ac c.status then 1 else 0) + count_ac cases

-- The cases are numbered upwards from `n`.
abbrev pub Numbered : ℕ → List TestcaseResult → Type 0
Numbered n [] = Unit {0}
Numbered n (c ∷ cases) = (c.index ≡ n) × Numbered (suc n) cases

count_ac-append : (cs ds : List TestcaseResult) → count_ac (cs ++ ds) ≡ count_ac cs + count_ac ds
count_ac-append [] ds = omega arith
count_ac-append (c ∷ cs) ds = omega (arith, count_ac-append cs ds)

Numbered-append :
    (n : ℕ) (cs : List TestcaseResult) (d : TestcaseResult)
    → Numbered n cs
    → d.index ≡ n + length cs
    → Numbered n (cs ++ d ∷ [])
Numbered-append n [] d h e = (omega arith, tt)
Numbered-append n (c ∷ cs) d h e = (h.0, Numbered-append (suc n) cs d h.1 (omega arith))

-- A test point is never a compile error.
abbrev pub NotCe : TestcaseResult → Type 0
NotCe c = c.status ≢ ce

-- Before round `n` of a task with `total` test points.
pub record Running (total n : ℕ) (r : JudgeResult) : Type 0 where
  pub numbers : Numbered 0 r.cases
  pub count : length r.cases ≡ n
  pub passes : r.passed ≡ count_ac r.cases
  pub no_ce : All NotCe r.cases
  pub whole : r.total ≡ total
  pub compiled : r.compile_ok ≡ true
  pub on_time : r.global_deadline_hit ≡ false
  pub wanted : r.cancelled ≡ false

-- Behind the loop.
pub record Ended (total : ℕ) (r : JudgeResult) : Type 0 where
  pub numbers : Numbered 0 r.cases
  pub within : length r.cases ≤ total
  pub passes : r.passed ≡ count_ac r.cases
  pub no_ce : All NotCe r.cases
  pub whole : r.total ≡ total
  pub compiled : r.compile_ok ≡ true
  pub covered :
      r.global_deadline_hit ≡ false
      → r.cancelled ≡ false
      → count_ac r.cases ≡ length r.cases
      → length r.cases ≡ total

pub count_ac-le : (cs : List TestcaseResult) → count_ac cs ≤ length cs
count_ac-le [] = omega arith
count_ac-le (c ∷ cs) = ground (arith, count_ac-le cs)

-- A round that breaks off ends the loop, and one that does not leaves it running.
abbrev After : ℕ → ℕ → JudgeResult → Bool → Type 0
After total n r true = Ended total r
After total n r false = Running total (suc n) r

module _ (opts : JudgeOptions) (total n : ℕ) (p : ProcessResult) (verdict : CaseVerdict) where
  push_case-Running :
      (r : JudgeResult)
      → Running total n r
      → verdict.status ≢ ce
      → Running total (suc n) (push_case opts n p verdict r)
  unfolding push_case
  push_case-Running r h ne = record {
    numbers = Numbered-append 0 r.cases _ h.numbers (omega (arith, h.count));
    count = omega (arith, length-append r.cases (case_result opts n p verdict ∷ []), h.count);
    passes = ground (arith, count_ac-append r.cases (case_result opts n p verdict ∷ []), h.passes);
    no_ce = All-append NotCe r.cases (case_result opts n p verdict ∷ []) h.no_ce (ne, tt);
    whole = h.whole;
    compiled = h.compiled;
    on_time = h.on_time;
    wanted = h.wanted;
  }

  count_ac-push_case :
      (r : JudgeResult)
      → verdict.status ≡ syserr
      → count_ac (push_case opts n p verdict r).cases ≡ count_ac r.cases
  unfolding push_case is_ac
  count_ac-push_case r e =
      ground (arith, count_ac-append r.cases (case_result opts n p verdict ∷ []))

  record_case-After :
      (r : JudgeResult)
      → Running total n r
      → n < total
      → (p.launch_error ≡ true → verdict.status ≡ syserr)
      → verdict.status ≢ ce
      → After total n (record_case opts n p verdict r).0 (record_case opts n p verdict r).1
  unfolding record_case mark_cancelled mark_global_exhausted
  record_case-After r h lt blame ne =
      let run = push_case-Running r h ne in
      ground (
        arith,
        run.numbers,
        run.count,
        run.passes,
        run.no_ce,
        run.whole,
        run.compiled,
        run.on_time,
        run.wanted,
        count_ac-push_case r,
        count_ac-le r.cases,
        h.count,
      )

record GoodRound {ℓ} {S : Type ℓ} (total n : ℕ) (round : JudgeResult × Bool × S) : Type 0 where
  good : After total n round.0 round.1

GoodRound-if {ℓ} :
    {S : Type ℓ} {total n : ℕ} (b : Bool) {x y : JudgeResult × Bool × S}
    → GoodRound total n x
    → GoodRound total n y
    → GoodRound total n (if b then x else y)
GoodRound-if true h k = h
GoodRound-if false h k = k

GoodRound-broke {ℓ} :
    {S : Type ℓ} {total n : ℕ} (round : JudgeResult × Bool × S)
    → GoodRound total n round
    → round.1 ≡ true
    → Ended total round.0
GoodRound-broke (r, true, s) h e = h.good
GoodRound-broke (r, false, s) h e = cc

GoodRound-runs {ℓ} :
    {S : Type ℓ} {total n : ℕ} (round : JudgeResult × Bool × S)
    → GoodRound total n round
    → round.1 ≡ false
    → Running total (suc n) round.0
GoodRound-runs (r, true, s) h e = cc
GoodRound-runs (r, false, s) h e = h.good

module _ (opts : JudgeOptions) {total n : ℕ} {r : JudgeResult} (h : Running total n r) where
  Ended-mark_cancelled : n ≤ total → Ended total (mark_cancelled r)
  unfolding mark_cancelled
  Ended-mark_cancelled le = ground arith

  Ended-mark_global_exhausted : n ≤ total → Ended total (mark_global_exhausted opts r)
  unfolding mark_global_exhausted
  Ended-mark_global_exhausted le = ground arith

not_launched :
    (opts : JudgeOptions) (task : JudgeTask) (limit : ℤ) (capped : Bool) (t : Testcase)
    (p : ProcessResult)
    → p.launch_error ≡ true
    → (classify_case (case_evidence opts task limit capped t p)).status ≡ syserr
unfolding case_evidence
not_launched opts task limit capped t p e =
    (classify_case-blame (case_evidence opts task limit capped t p)).0.1 (inr e)

module _ (H : Host) (opts : JudgeOptions) (task : JudgeTask) (deadline : ℤ) where
  open H use {State}

  run_case-GoodRound :
      (workspace program : Bytes) (limit : ℤ) (total n : ℕ) (t : Testcase) (r : JudgeResult)
      (s : State)
      → Running total n r
      → n < total
      → GoodRound total n (run_case H opts task deadline workspace program limit n t r s)
  unfolding run_case
  run_case-GoodRound workspace program limit total n t r s h lt =
      search (GoodRound-if, stopped, exhausted, ran)
    where
      stopped : (s' : State) → GoodRound total n (mark_cancelled r, true, s')
      stopped s' = record { good = Ended-mark_cancelled opts h (omega arith) }

      exhausted : (s' : State) → GoodRound total n (mark_global_exhausted opts r, true, s')
      exhausted s' = record { good = Ended-mark_global_exhausted opts h (omega arith) }

      ran :
          (p : ProcessResult) (capped : Bool) (s' : State)
          → let done =
              record_case opts n p (classify_case (case_evidence opts task limit capped t p)) r in
            GoodRound total n (done.0, done.1, s')
      ran p capped s' = record {
        good =
            record_case-After opts total n p _ r h lt (not_launched opts task limit capped t p)
              (classify_case-blame (case_evidence opts task limit capped t p)).3;
      }

  pub run_cases-Ended :
      (workspace : Bytes) (limit : ℤ) (total n : ℕ) (ts : List Testcase) (r : JudgeResult)
      (s : State)
      → Running total n r
      → n + length ts ≡ total
      → Ended total (run_cases H opts task deadline workspace limit n ts r s).0
  unfolding run_cases
  run_cases-Ended workspace limit total n [] r s h e = ground arith
  run_cases-Ended workspace limit total n (t ∷ ts) r s h e =
      let program = path_join workspace (codes "program") in
      let round = run_case H opts task deadline workspace program limit n t r s in
      let good = run_case-GoodRound workspace program limit total n t r s h (omega arith) in
      elim (Bool-cases round.1) [
        | inl broke ↦ rw broke (GoodRound-broke round good broke)
        | inr runs ↦ rw runs (
            run_cases-Ended workspace limit total (suc n) ts round.0 round.2
              (GoodRound-runs round good runs) (omega arith))
      ]
