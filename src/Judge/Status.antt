-- ===== src/Judge/Status.antt =====
-- src/judge/status.h: the judge's verdicts, their names and their severity.
use vibe_coding.Prelude.{ℕ, ◌≡◌, Bool, true, false, arith}
use vibe_coding.Prelude.Text.{Bytes, codes}

-- The constants AC, WA, CE, TLE, RE, MLE and SYSERR.
pub data JudgeStatus : Type 0 where
  ac wa ce tle re mle syserr : JudgeStatus

unfoldable pub judge_status_name : JudgeStatus → Bytes
judge_status_name ac = codes "AC"
judge_status_name wa = codes "WA"
judge_status_name ce = codes "CE"
judge_status_name tle = codes "TLE"
judge_status_name re = codes "RE"
judge_status_name mle = codes "MLE"
judge_status_name syserr = codes "SYSERR"

unfoldable pub judge_status_severity : JudgeStatus → ℕ
judge_status_severity ac = 0
judge_status_severity wa = 1
judge_status_severity re = 2
judge_status_severity mle = 3
judge_status_severity tle = 4
judge_status_severity syserr = 5
judge_status_severity ce = 6

-- `operator==` of the enumeration.
unfoldable pub is_ac : JudgeStatus → Bool
is_ac ac = true
is_ac _ = false

pub is_ac_lem : (s : JudgeStatus) → is_ac s ≡ true → s ≡ ac
unfolding is_ac
is_ac_lem s h = ground arith

unfoldable pub is_syserr : JudgeStatus → Bool
is_syserr syserr = true
is_syserr _ = false

-- No two verdicts have one severity.
pub judge_status_severity-injective :
    (s t : JudgeStatus) → judge_status_severity s ≡ judge_status_severity t → s ≡ t
unfolding judge_status_severity
judge_status_severity-injective s t h = ground arith
