-- ===== src/Submit/Service/Judged.antt =====
-- `SubmitService::submit` as a whole: where a submission that is done comes from, and that an accepted
-- one has passed every test point of its problem.
use vibe_coding.Prelude.{
  ℕ, ◌≡◌, ◌<◌, ◌⊎◌, inl, inr, refl, sym, ap, ◌∙◌, subst, Bool, Option, none, some, List, [], ◌∷◌,
  map, arith, length,
}
use vibe_coding.Prelude.Text.{Bytes, codes, text_eq, text_eq_iff}
use vibe_coding.Judge.Status.{
  JudgeStatus, ac, wa, tle, mle, re, ce, syserr, is_ac, is_ac_lem, judge_status_name,
}
use vibe_coding.Judge.Host.{Host}
use vibe_coding.Judge.Engine.{judge}
use vibe_coding.Judge.Engine.Result.{JudgeOptions, JudgeTask, JudgeResult}
use vibe_coding.Judge.Engine.Sound.{judge_accepts}
use vibe_coding.Judge.Engine.Progress.{count_ac}
use vibe_coding.Db.Tables.{Tables, ProblemRecord, SubmissionRecord}
use vibe_coding.Db.Connection.{Conn, durable, alone, query, take_fault}
use vibe_coding.Db.Problems.{
  find_problem, read_problem, list_testcases, read_testcases, testcases_of,
}
use vibe_coding.Submit.PerCase.{CaseEntry}
use vibe_coding.Submit.Service.{
  Submission, judge_task, judged, reading, record_of, submit_judged, submit_rows, submit_found,
  submit_task,
}
use vibe_coding.Submit.Service.Settle.{
  Outcome, done, settle_submission, Refusal, no_problem, was_settled, failed, Settlement, settled,
  stopped_short, outcome_of,
}
use vibe_coding.Submit.Service.Refined.{Refines, settle_submission-Refines}

-- A read that is followed by what is done.
reading-done :
    {A : Type 0} (f : Tables → A) (rest : A → Conn → Outcome × Conn) (c : Conn)
    (row : SubmissionRecord) (result : JudgeResult) (after : Conn)
    → reading (query f) rest c ≡ (done row result, after)
    → (rest (f c.work.tables) (alone (query f) c).1 ≡ (done row result, after))
      × ((alone (query f) c).1.work.tables ≡ c.work.tables)
unfolding reading alone query take_fault
reading-done f rest c row result after h = ground (arith, h)

outcome-result :
    (row row' : SubmissionRecord) (result result' : JudgeResult) (r : Refusal ⊎ Settlement)
    → outcome_of row result r ≡ done row' result'
    → result' ≡ result
unfolding outcome_of
outcome-result row row' result result' (inl no_problem) h = cc
outcome-result row row' result result' (inl was_settled) h = cc
outcome-result row row' result result' (inl failed) h = cc
outcome-result row row' result result' (inr (settled id)) h = cc
outcome-result row row' result result' (inr stopped_short) h = cc

settle-done :
    (row row' : SubmissionRecord) (accepted : Bool) (task_id : Bytes) (result result' : JudgeResult)
    (c after : Conn)
    → settle_submission row accepted task_id result c ≡ (done row' result', after)
    → (result' ≡ result) × (row' ≡ record row { id = (durable c).next_submission })
unfolding settle_submission
settle-done row row' accepted task_id result result' c after h =
    let refined : Refines row accepted task_id (durable c) (durable after) (done row' result') =
      subst (λ (r : Outcome × Conn). Refines row accepted task_id (durable c) (durable r.1) r.0) h
        (settle_submission-Refines row accepted task_id result c) in
    (outcome-result row row' result result' _ (ap (λ r. r.0) h), refined.0)

-- What is judged, of the tables from which the test points are taken.
abbrev pub taken_task : Submission → ProblemRecord → Tables → JudgeTask
taken_task s problem taken =
    judge_task problem s.language s.source_code (read_testcases s.problem_id taken)

module _ (dump : List CaseEntry → Bytes) (now : Bytes) (engine : JudgeTask → Option JudgeResult)
    (between meanwhile : Conn → Conn) (s : Submission) where
  -- A submission that is done: it was judged on the test points that were there when they were read,
  -- and the record says what the judgement says.
  pub record IsJudged (taken : Tables) (row : SubmissionRecord) (result : JudgeResult)
      : Type 0 where
    pub problem : ProblemRecord
    pub judgement :
        result ≡ judged (taken_task s problem taken) (engine (taken_task s problem taken))
    pub key : ℕ
    pub written :
        row ≡ record (record_of dump now s (taken_task s problem taken) result) { id = key }

  rows-done :
      (taken : Tables) (problem : ProblemRecord) (c : Conn) (row : SubmissionRecord)
      (result : JudgeResult) (after : Conn)
      → submit_rows dump now engine between meanwhile s problem
          (read_testcases s.problem_id taken)
          c
        ≡ (done row result, after)
      → IsJudged taken row result
  unfolding submit_rows submit_judged
  rows-done taken problem c row result after h =
      let task = taken_task s problem taken in
      let r = judged task (engine task) in
      let d =
        settle-done (record_of dump now s task r) row (is_ac r.status) s.in_flight_task_id r result
          (meanwhile c) after h in
      subst (λ (q : JudgeResult). IsJudged taken row q) (sym d.0)
        (record {
          problem = problem;
          judgement = refl;
          key = (durable (meanwhile c)).next_submission;
          written = d.1;
        })

  found-done :
      (found : Option ProblemRecord) (c : Conn) (row : SubmissionRecord) (result : JudgeResult)
      (after : Conn)
      → submit_found dump now engine between meanwhile s found c ≡ (done row result, after)
      → IsJudged (between c).work.tables row result
  unfolding submit_found list_testcases
  found-done none c row result after h = absurd (ground (arith, h))
  found-done (some problem) c row result after h =
      let rest = submit_rows dump now engine between meanwhile s problem in
      let read =
        reading-done (read_testcases s.problem_id) rest (between c) row result after
          (ground (arith, h)) in
      rows-done (between c).work.tables problem _ row result after read.0

  -- A submission whose outcome is done was judged on the test points that were there when they were
  -- read, behind the read of its problem.
  pub submit_task-done :
      (c : Conn) (row : SubmissionRecord) (result : JudgeResult) (after : Conn)
      → submit_task dump now engine between meanwhile s c ≡ (done row result, after)
      → IsJudged (between (alone (find_problem s.problem_id) c).1).work.tables row result
  unfolding submit_task find_problem
  submit_task-done c row result after h =
      let read =
        reading-done (read_problem s.problem_id) (submit_found dump now engine between meanwhile s)
          c row result after h in
      found-done (read_problem s.problem_id c.work.tables) _ row result after read.0

judge_status_name-ac :
    (status : JudgeStatus) → text_eq (judge_status_name status) (codes "AC") ≡ is_ac status
unfolding judge_status_name is_ac text_eq
judge_status_name-ac ac = refl
judge_status_name-ac wa = refl
judge_status_name-ac re = refl
judge_status_name-ac tle = refl
judge_status_name-ac mle = refl
judge_status_name-ac ce = refl
judge_status_name-ac syserr = refl

ac-name : (status : JudgeStatus) → judge_status_name status ≡ codes "AC" → status ≡ ac
ac-name status h = is_ac_lem status (sym (judge_status_name-ac status) ∙ (text_eq_iff _ _).1 h)

length-map {ℓ κ} :
    {A : Type ℓ} {B : Type κ} (f : A → B) (xs : List A) → length (map f xs) ≡ length xs
length-map f [] = refl
length-map f (x ∷ xs) = omega (arith, length-map f xs)

length-taken :
    (s : Submission) (problem : ProblemRecord) (t : Tables)
    → length (taken_task s problem t).testcases ≡ length (testcases_of s.problem_id t)
unfolding judge_task read_testcases
length-taken s problem t =
    length-map _ (read_testcases s.problem_id t) ∙ length-map _ (testcases_of s.problem_id t)

-- `JudgeEngine::judge`, which starts on whatever state the machine is in.
abbrev pub judge_engine :
    (H : Host) → JudgeOptions → (JudgeTask → H.State) → JudgeTask → Option JudgeResult
judge_engine H opts start task = some (judge H opts task (start task)).0

module _ (H : Host) (opts : JudgeOptions) (start : JudgeTask → H.State)
    (dump : List CaseEntry → Bytes) (now : Bytes) (between meanwhile : Conn → Conn)
    (s : Submission) where
  -- With the judge engine, whatever the executor, the clock, the workspace, other threads and the calls of
  -- the database do: a submission that is recorded as accepted has a case for every test point that its
  -- problem had when they were read, behind the read of the problem, of which there is at least one, and
  -- every one of them was accepted.
  pub submit_task_accepts :
      (c : Conn) (row : SubmissionRecord) (result : JudgeResult) (after : Conn)
      → submit_task dump now (judge_engine H opts start) between meanwhile s c
        ≡ (done row result, after)
      → row.status ≡ codes "AC"
      → let taken = (between (alone (find_problem s.problem_id) c).1).work.tables in
        (0 < length (testcases_of s.problem_id taken))
        × (length result.cases ≡ length (testcases_of s.problem_id taken))
        × (count_ac result.cases ≡ length (testcases_of s.problem_id taken))
  unfolding record_of judged
  submit_task_accepts c row result after h e =
      let taken = (between (alone (find_problem s.problem_id) c).1).work.tables in
      let j =
        submit_task-done dump now (judge_engine H opts start) between meanwhile s c row result after
          h in
      let task = taken_task s j.problem taken in
      let status : judge_status_name result.status ≡ codes "AC" =
        ap (λ (r : SubmissionRecord). r.status) (sym j.written) ∙ e in
      let all =
        judge_accepts H opts task (start task)
          (ap (λ (r : JudgeResult). r.status) (sym j.judgement) ∙ ac-name result.status status) in
      let same = length-taken s j.problem taken in
      let cases : result.cases ≡ (judge H opts task (start task)).0.cases =
        ap (λ (r : JudgeResult). r.cases) j.judgement in
      (
        subst (λ n. 0 < n) same all.0,
        ap length cases ∙ all.2 ∙ same,
        ap count_ac cases ∙ all.3 ∙ same,
      )
