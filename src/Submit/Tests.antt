-- ===== src/Submit/Tests.antt =====
-- Concrete runs of src/submit.
mod Services
mod Judging
use mathlib.Core.List.Perm
use vibe_coding.Prelude.{◌≤◌, ◌≡◌, ◌↔◌, ◌⊎◌, refl, true, false, none, some, [], ◌∷◌, length, Any}
use vibe_coding.Prelude.Text.{Bytes, codes, text_eq, to_lower, is_space}
use vibe_coding.Judge.Executor.{Language, language_name, parse_language}
use vibe_coding.Submit.Input.{parse_submission_language, validate_source_code, max_source_bytes}
use vibe_coding.Submit.Input.Accepted.{validate_source_code_iff, parse_submission_language-judged}
use vibe_coding.Submit.Status.{StatusState, Settled, settle_all}
use vibe_coding.Submit.Status.First.{IsEarliest, settle_all-IsEarliest}
use vibe_coding.Submit.Status.Order.{settle_all-Perm, settle_all-counts}

abbrev no_status : StatusState
no_status = record { has_record = false; accepted = false; first_ac_at = []; submit_count = 0 }

abbrev early : Settled
early = record { accepted = true; created_at = codes "2026-01-01 08:00:00" }

abbrev late : Settled
late = record { accepted = true; created_at = codes "2026-01-01 09:00:00" }

settle_all-Perm_example :
    settle_all no_status (late ∷ early ∷ []) ≡ settle_all no_status (early ∷ late ∷ [])
settle_all-Perm_example =
    settle_all-Perm no_status (late ∷ early ∷ []) (early ∷ late ∷ []) (Perm.swap early late [])

abbrev short_code : Bytes
short_code = codes " x"

cpp17-taken : parse_submission_language (codes "CPP17") ≡ some (codes "cpp17")
unfolding parse_submission_language text_eq to_lower
cpp17-taken = refl

both-accepted : (settle_all no_status (late ∷ early ∷ [])).accepted ≡ true
unfolding settle_all
both-accepted = refl

settle_all-IsEarliest_example :
    IsEarliest (settle_all no_status (late ∷ early ∷ [])).first_ac_at (late ∷ early ∷ [])
settle_all-IsEarliest_example =
    settle_all-IsEarliest no_status (late ∷ early ∷ []) refl (refl, (refl, tt)) both-accepted
