-- ===== src/Submit/Status.antt =====
-- `compute_status_update` of src/submit/submit.cpp, with what `upsert` and `find` of
-- src/db/submissions.cpp make of its result until the next submission. Times are texts that
-- compare as the code compares them.
pub mod Order
pub mod First
use vibe_coding.Prelude.{
  ℕ, ◌+◌, Bool, true, false, not, ◌&&◌, ◌||◌, List, [], ◌∷◌, ◌==◌, ltb, if◌then◌else◌, is_empty,
}
use vibe_coding.Prelude.Text.{Bytes}

pub record StatusState : Type 0 where
  pub has_record : Bool
  pub accepted : Bool
  pub first_ac_at : Bytes
  pub submit_count : ℕ

pub record StatusUpdate : Type 0 where
  pub accepted : Bool
  pub has_first_ac_at : Bool
  pub first_ac_at : Bytes
  pub submit_count : ℕ

-- `operator<` on texts.
unfoldable pub text_lt : Bytes → Bytes → Bool
text_lt s [] = false
text_lt [] (d ∷ t) = true
text_lt (c ∷ s) (d ∷ t) = let rest = text_lt s t in ltb c d || c == d && rest

-- `best` in the branch of a problem that was accepted before.
unfoldable pub best_time : Bool → Bytes → Bytes → Bytes
unfolding text_lt
best_time submission_accepted submission_time first_ac_at =
    if submission_accepted
      && not (is_empty submission_time)
      && (is_empty first_ac_at || text_lt submission_time first_ac_at)
    then submission_time
    else first_ac_at

unfoldable pub compute_status_update : StatusState → Bool → Bytes → StatusUpdate
unfolding best_time
compute_status_update current submission_accepted submission_time =
    if current.accepted
    then (let best = best_time submission_accepted submission_time current.first_ac_at in
        record {
          accepted = true;
          has_first_ac_at = not (is_empty best);
          first_ac_at = best;
          submit_count = current.submit_count + 1;
        })
    else record {
      accepted = submission_accepted;
      has_first_ac_at = submission_accepted;
      first_ac_at = if submission_accepted then submission_time else [];
      submit_count = current.submit_count + 1;
    }

-- The row as it is written, and as the next settlement reads it: NULL is read as "".
unfoldable pub stored : StatusUpdate → StatusState
stored u = record {
  has_record = true;
  accepted = u.accepted;
  first_ac_at = if u.has_first_ac_at then u.first_ac_at else [];
  submit_count = u.submit_count;
}

-- One settled submission, and what it makes of the state of its user and problem.
pub record Settled : Type 0 where
  pub accepted : Bool
  pub created_at : Bytes

unfoldable pub settle : StatusState → Settled → StatusState
unfolding compute_status_update stored
settle state s = stored (compute_status_update state s.accepted s.created_at)

unfoldable pub settle_all : StatusState → List Settled → StatusState
unfolding settle
settle_all state [] = state
settle_all state (s ∷ rest) = settle_all (settle state s) rest
