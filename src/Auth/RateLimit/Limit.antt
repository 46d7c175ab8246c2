-- ===== src/Auth/RateLimit/Limit.antt =====
-- What the limit on failed logins promises.
use vibe_coding.Prelude.{
  subst, ℕ, ◌+◌, ◌-◌, ◌*◌, ◌≤◌, ◌≡◌, ◌↔◌, ◌∙◌, ap, List, [], ◌∷◌, arith, length,
}
use vibe_coding.Prelude.Text.{Bytes}
use vibe_coding.Auth.RateLimit.{
  Config, RateLimiter, blocked, window_of, expire, sweep, retry_after, admit, allow, ns_per_second,
}
use vibe_coding.Auth.RateLimit.Window.{
  Reach, most, in_window, Reach-IsLimited, expire-in_window, sweep-IsLimited,
}
use vibe_coding.Auth.RateLimit.Log.{Logged, Logged-Reach, Logged-Agrees, in_window-sweep}

-- Over every sequence of logins at rising times, no key ever has more failures recorded than the
-- configured number (1 where that is 0).
pub failures_bounded :
    (config : Config) (at : ℕ) (l : RateLimiter)
    → Reach config at l
    → (key : Bytes) → length (l.failures key) ≤ most config
failures_bounded config at l r key = ((Reach-IsLimited r).kept key).few

config-sweep : (now : ℕ) (l : RateLimiter) → (sweep now l).config ≡ l.config
unfolding sweep
config-sweep now l = ground arith

-- What `allow` hands to `admit`.
expire-sweep :
    {config : Config} {at : ℕ} {l : RateLimiter} (now : ℕ) (key : Bytes)
    → Reach config at l
    → at ≤ now
    → expire (window_of l.config) now ((sweep now l).failures key)
      ≡ in_window (window_of config) now (l.failures key)
expire-sweep {config} {at} {l} now key r h =
    expire-in_window (window_of l.config) now 0 now _
      ((sweep-IsLimited config at now l h (Reach-IsLimited r)).kept key).ordered
    ∙ in_window-sweep now now l key (omega arith)
    ∙ ap (λ c. in_window (window_of c) now (l.failures key)) (Reach-IsLimited r).same

admit-blocked_iff :
    (key : Bytes) (now : ℕ) (times : List ℕ) (l : RateLimiter)
    → ((admit key now times l).0.status ≡ blocked) ↔ (most l.config ≤ length times)
unfolding admit
admit-blocked_iff key now [] l = ground arith
admit-blocked_iff key now (t ∷ times) l = ground arith

admit-blocked_if :
    {config : Config} (key : Bytes) (now : ℕ) (times recent : List ℕ) (l : RateLimiter)
    → l.config ≡ config
    → times ≡ recent
    → ((admit key now times l).0.status ≡ blocked) ↔ (most config ≤ length recent)
admit-blocked_if key now times recent l e h =
    subst (λ c. ((admit key now times l).0.status ≡ blocked) ↔ (most c ≤ length recent)) e
      (subst (λ ts. ((admit key now times l).0.status ≡ blocked) ↔ (most l.config ≤ length ts)) h
        (admit-blocked_iff key now times l))

-- An attempt is blocked exactly when the failures of its key in its deque are as many as configured.
allow-recorded_iff :
    (config : Config) (at now : ℕ) (l : RateLimiter)
    → Reach config at l
    → at ≤ now
    → (key : Bytes)
    → ((allow key now l).0.status ≡ blocked)
      ↔ (most config ≤ length (in_window (window_of config) now (l.failures key)))
unfolding allow
allow-recorded_iff config at now l r h key =
    admit-blocked_if key now _ _ (sweep now l) (config-sweep now l ∙ (Reach-IsLimited r).same)
      (expire-sweep now key r h)

-- Over every sequence of logins at rising times, an attempt is blocked exactly when the attempts of
-- its key that were let through since the key was cleared last, and that are inside the window, are as
-- many as configured (at least 1).
pub allow-blocked_iff :
    (config : Config) (at now : ℕ) (log : Bytes → List ℕ) (l : RateLimiter)
    → Logged config at log l
    → at ≤ now
    → (key : Bytes)
    → ((allow key now l).0.status ≡ blocked)
      ↔ (most config ≤ length (in_window (window_of config) now (log key)))
allow-blocked_iff config at now log l r h key =
    subst (λ times. ((allow key now l).0.status ≡ blocked) ↔ (most config ≤ length times))
      (Logged-Agrees r key now h) (allow-recorded_iff config at now l (Logged-Reach r) h key)

-- An attempt that is answered by a waiting time for the oldest of the failures, which is inside the
-- window: that time is at least one second, it brings the clock to the end of the window or beyond,
-- and by at most one second beyond.
pub retry_after_bounds :
    (window oldest now : ℕ)
    → now - oldest ≤ window
    → (1 ≤ retry_after window oldest now)
      × (window ≤ now - oldest + retry_after window oldest now * ns_per_second)
      × (now - oldest + retry_after window oldest now * ns_per_second ≤ window + ns_per_second)
unfolding retry_after
retry_after_bounds window oldest now h = ground arith
