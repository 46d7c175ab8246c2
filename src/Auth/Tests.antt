-- ===== src/Auth/Tests.antt =====
-- Concrete runs of src/auth.
mod Services
use vibe_coding.Prelude.{
  ◌+◌, ◌-◌, ◌*◌, ◌≤◌, ◌<◌, ◌≡◌, ◌≢◌, ◌↔◌, refl, true, inr, [], ◌∷◌, if◌then◌else◌, ◌++◌, some,
  length, arith, drop_while, drop_while_end,
}
use vibe_coding.Prelude.Text.{Bytes, codes, text_eq, is_space, to_upper}
use vibe_coding.Auth.RateLimit.{
  Config, RateLimiter, blocked, new_limiter, allow, window_of, retry_after, ns_per_second,
}
use vibe_coding.Auth.RateLimit.Log.{Logged, logs_nothing, logs}
use vibe_coding.Auth.RateLimit.Window.{Reach, starts, tries, most, in_window}
use vibe_coding.Auth.RateLimit.Limit.{failures_bounded, allow-blocked_iff, retry_after_bounds}
use vibe_coding.Auth.Validation.{
  trim_ascii, is_ws, validate_nickname, validate_password_change, nickname_max_len,
  password_max_len,
}
use vibe_coding.Auth.Validation.Rules.{
  validate_nickname_iff, validate_nickname_stable, validate_password_change_iff,
}
use vibe_coding.Auth.Context.{AuthUser, extract_bearer_token, check_admin, admin_ok}
use vibe_coding.Auth.Context.Bearer.{
  solid, extract_bearer_token-solid, extract_bearer_token-codes, check_admin_iff,
}

abbrev one_failure : Config
one_failure = record { max_failures = 1; window_seconds = 300 }

abbrev source_key : Bytes
source_key = codes "10.0.0.1"

-- One login of a source at the time 5.
abbrev tried_once : RateLimiter
tried_once = (allow source_key 5 (new_limiter one_failure)).1

tried_once-Logged :
    Logged one_failure 5 (λ k. if text_eq k source_key then 5 ∷ [] else []) tried_once
unfolding allow new_limiter drop_while
tried_once-Logged = logs 5 source_key (logs_nothing 0) (omega arith) refl

allow-blocked_iff_example :
    ((allow source_key 9 tried_once).0.status ≡ blocked)
    ↔ (most one_failure ≤ length (in_window (window_of one_failure) 9 (5 ∷ [])))
unfolding text_eq
allow-blocked_iff_example =
    allow-blocked_iff one_failure 5 9 _ tried_once tried_once-Logged (omega arith) source_key

abbrev padded_name : Bytes
padded_name = codes " ann lee "

padded_name-passes : validate_nickname padded_name ≡ inr (codes "ann lee")
unfolding validate_nickname drop_while drop_while_end is_ws
padded_name-passes = refl

abbrev header : Bytes
header = codes " bearer  a.b "

header-token : extract_bearer_token header ≡ some (codes "a.b")
unfolding extract_bearer_token drop_while is_space to_upper
header-token = refl

solid-token : solid (codes "a.b") ≡ true
unfolding is_space
solid-token = refl

abbrev admin : AuthUser
admin = record {
  id = 1;
  account = codes "admin";
  nickname = codes "admin";
  role = codes "admin";
  reset_pwd_flag = 1;
}
