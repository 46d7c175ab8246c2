-- ===== src/Judge/Engine/Summary.antt =====
-- `summarize_cases`: the worst status of the cases.
use vibe_coding.Prelude.{
  ◌≤◌, ◌<◌, ◌≡◌, ◌≢◌, refl, sym, ◌∙◌, ◌⊎◌, inl, inr, List, [], ◌∷◌, arith, length, Bool-cases, ltb,
  All, Any,
}
use vibe_coding.Judge.Status.{JudgeStatus, ac, ce, is_ac, judge_status_severity}
use vibe_coding.Judge.Engine.Result.{TestcaseResult, worst_from, summarize_cases}
use vibe_coding.Judge.Engine.Progress.{count_ac}

-- `w` is no less severe than any case, and is the status of one of them.
pub record IsWorst (w : JudgeStatus) (cs : List TestcaseResult) : Type 0 where
  pub bounds : All (λ c. judge_status_severity c.status ≤ judge_status_severity w) cs
  pub attained : Any (λ c. c.status ≡ w) cs

-- The loop's result from `w`: as severe as `w` and each case, and one of these.
record IsWorstFrom (v w : JudgeStatus) (cs : List TestcaseResult) : Type 0 where
  start : judge_status_severity v ≤ judge_status_severity w
  bounds : All (λ c. judge_status_severity c.status ≤ judge_status_severity w) cs
  attained : (w ≡ v) ⊎ Any (λ c. c.status ≡ w) cs

worst_from-IsWorstFrom :
    (v : JudgeStatus) (cs : List TestcaseResult)
    → IsWorstFrom v (worst_from v (judge_status_severity v) cs) cs
unfolding worst_from
worst_from-IsWorstFrom v [] = record { start = omega arith; bounds = tt; attained = inl refl }
worst_from-IsWorstFrom v (c ∷ cs) =
    elim (Bool-cases (ltb (judge_status_severity v) (judge_status_severity c.status))) [
      | inl e ↦
          let rest = worst_from-IsWorstFrom c.status cs in
          rw (e, worst_from)
            (record {
              start = ground (arith, rest.start);
              bounds = (rest.start, rest.bounds);
              attained = elim rest.attained [ inl p ↦ inr (inl (sym p)) | inr q ↦ inr (inr q) ];
            })
      | inr e ↦
          let rest = worst_from-IsWorstFrom v cs in
          rw (e, worst_from)
            (record {
              start = rest.start;
              bounds = (ground (arith, rest.start), rest.bounds);
              attained = elim rest.attained [ inl p ↦ inl p | inr q ↦ inr (inr q) ];
            })
    ]

least-ac : (s w : JudgeStatus) → judge_status_severity s ≤ judge_status_severity w → w ≡ ac → s ≡ w
unfolding judge_status_severity
least-ac s w h e = ground arith

-- The summary of at least one case is the worst status among the cases.
pub summarize_cases-IsWorst :
    (c : TestcaseResult) (cs : List TestcaseResult) → IsWorst (summarize_cases (c ∷ cs)) (c ∷ cs)
unfolding summarize_cases
summarize_cases-IsWorst c cs =
    let worst = worst_from-IsWorstFrom ac (c ∷ cs) in
    record {
      bounds = worst.bounds;
      attained = elim worst.attained [
        | inl p ↦ inl (least-ac c.status (summarize_cases (c ∷ cs)) worst.bounds.0 p)
        | inr q ↦ q
      ];
    }

count_ac_of_bound :
    (cs : List TestcaseResult) (w : JudgeStatus)
    → All (λ c. judge_status_severity c.status ≤ judge_status_severity w) cs
    → w ≡ ac
    → count_ac cs ≡ length cs
unfolding is_ac
count_ac_of_bound [] w h e = refl
count_ac_of_bound (c ∷ cs) w h e =
    ground (arith, least-ac c.status w h.0 e, count_ac_of_bound cs w h.1 e)

-- An accepted summary has accepted cases only, and some.
pub count_ac-summarize_cases :
    (cs : List TestcaseResult)
    → summarize_cases cs ≡ ac
    → (count_ac cs ≡ length cs) × (0 < length cs)
unfolding summarize_cases
count_ac-summarize_cases [] e = cc
count_ac-summarize_cases (c ∷ cs) e =
    (count_ac_of_bound (c ∷ cs) _ (summarize_cases-IsWorst c cs).bounds e, omega arith)

-- Where no case has the status CE, the summary has another.
pub summarize_cases-ne-ce :
    (cs : List TestcaseResult) → All (λ c. c.status ≢ ce) cs → summarize_cases cs ≢ ce
unfolding summarize_cases
summarize_cases-ne-ce [] h e = cc
summarize_cases-ne-ce (c ∷ cs) h e = some_ce (c ∷ cs) h (summarize_cases-IsWorst c cs).attained
  where
    some_ce :
        (ds : List TestcaseResult)
        → All (λ d. d.status ≢ ce) ds
        → Any (λ d. d.status ≡ summarize_cases (c ∷ cs)) ds
        → ⊥
    some_ce [] k a = a
    some_ce (d ∷ ds) k (inl p) = k.0 (p ∙ e)
    some_ce (d ∷ ds) k (inr a) = some_ce ds k.1 a
