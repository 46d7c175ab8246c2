-- ===== src/Auth/RateLimit.antt =====
-- src/auth/rate_limit.h and rate_limit.cpp: the limit on failed logins. Points of the steady clock
-- are nanoseconds; the configured numbers are natural numbers.
pub mod Window
pub mod Log
pub mod Limit
use vibe_coding.Prelude.{
  ℕ, Bool, List, [], ◌∷◌, ◌++◌, drop_while, if◌then◌else◌, ltb, ◌*◌, ◌-◌, leb, ◌+◌, length, ◌/◌,
}
use vibe_coding.Prelude.Text.{Bytes, text_eq}

pub record Config : Type 0 where
  pub max_failures : ℕ
  pub window_seconds : ℕ

pub data Status : Type 0 where
  allowed blocked : Status

pub record Answer : Type 0 where
  pub status : Status
  pub retry_after_seconds : ℕ

-- `failures` gives the deque of a key, and the empty one for a key that the code's map does not
-- have: the code removes each key whose deque becomes empty.
pub record RateLimiter : Type 0 where
  pub config : Config
  pub failures : Bytes → List ℕ
  pub sweep_counter : ℕ

abbrev pub ns_per_second : ℕ
ns_per_second = 1000000000

abbrev sweep_interval : ℕ
sweep_interval = 1024

unfoldable pub new_limiter : Config → RateLimiter
new_limiter config = record { config = config; failures = λ _. []; sweep_counter = 0 }

abbrev pub window_of : Config → ℕ
window_of config = config.window_seconds * ns_per_second

-- `while (!dq.empty() && now - dq.front() > window) dq.pop_front();`
abbrev pub expire : ℕ → ℕ → List ℕ → List ℕ
expire window now = drop_while (λ t. ltb window (now - t))

-- Another deque for one key.
unfoldable pub put : Bytes → List ℕ → (Bytes → List ℕ) → Bytes → List ℕ
put key times failures k = if text_eq k key then times else failures k

-- The sweep over all keys, each 1024 calls.
unfoldable pub sweep : ℕ → RateLimiter → RateLimiter
sweep now l =
    if leb sweep_interval (l.sweep_counter + 1)
    then record l {
      sweep_counter = 0;
      failures = λ k. expire (window_of l.config) now (l.failures k);
    }
    else record l { sweep_counter = l.sweep_counter + 1 }

-- The seconds until the oldest failure leaves the window, rounded up, and at least 1.
unfoldable pub retry_after : ℕ → ℕ → ℕ → ℕ
retry_after window oldest now =
    let seconds = (window - (now - oldest) + ns_per_second - 1) / ns_per_second in
    if ltb seconds 1 then 1 else seconds

-- `allow` behind the sweep: `times` are the key's failures that have not expired.
unfoldable pub admit : Bytes → ℕ → List ℕ → RateLimiter → Answer × RateLimiter
unfolding put retry_after
admit key now [] l = (
  record { status = allowed; retry_after_seconds = 0 },
  record l { failures = put key (now ∷ []) l.failures },
)
admit key now (oldest ∷ times) l =
    if leb l.config.max_failures (length (oldest ∷ times))
    then (
      record {
        status = blocked;
        retry_after_seconds = retry_after (window_of l.config) oldest now;
      },
      record l { failures = put key (oldest ∷ times) l.failures },
    )
    else (
      record { status = allowed; retry_after_seconds = 0 },
      record l { failures = put key (oldest ∷ times ++ now ∷ []) l.failures },
    )

unfoldable pub allow : Bytes → ℕ → RateLimiter → Answer × RateLimiter
unfolding sweep admit
allow key now l =
    let swept = sweep now l in
    admit key now (expire (window_of l.config) now (swept.failures key)) swept

unfoldable pub clear : Bytes → RateLimiter → RateLimiter
unfolding put
clear key l = record l { failures = put key [] l.failures }
