-- ===== src/Auth/RateLimit/Log.antt =====
-- The limit against a log of the attempts, from which nothing expires.
use vibe_coding.Prelude.{
  ℕ, ◌-◌, ◌≤◌, ◌≡◌, ◌∙◌, refl, sym, ap, subst, Bool, true, false, List, [], ◌∷◌, ◌++◌, arith, ltb,
  if◌then◌else◌, drop_while, Bool-cases, inl, inr, if-cases,
}
use vibe_coding.Prelude.Text.{Bytes, text_eq, text_eq_iff}
use vibe_coding.Auth.RateLimit.{
  Config, RateLimiter, allowed, blocked, new_limiter, window_of, expire, put, sweep, admit, allow,
  clear,
}
use vibe_coding.Auth.RateLimit.Window.{Reach, starts, tries, clears, in_window, Reach-IsLimited}

-- What logins at rising times lead to, with the time of the last, and for each key the times of all
-- attempts that were let through since it was cleared last.
pub data Logged (config : Config) : ℕ → (Bytes → List ℕ) → RateLimiter → Type 0 where
  logs_nothing : (at : ℕ) → Logged config at (λ _. []) (new_limiter config)
  logs :
      {at : ℕ} {log : Bytes → List ℕ} {l : RateLimiter} (now : ℕ) (key : Bytes)
      → Logged config at log l
      → at ≤ now
      → (allow key now l).0.status ≡ allowed
      → Logged config now
          (λ k. if text_eq k key then log k ++ now ∷ [] else log k)
          (allow key now l).1
  blocks :
      {at : ℕ} {log : Bytes → List ℕ} {l : RateLimiter} (now : ℕ) (key : Bytes)
      → Logged config at log l
      → at ≤ now
      → (allow key now l).0.status ≡ blocked
      → Logged config now log (allow key now l).1
  forgets :
      {at : ℕ} {log : Bytes → List ℕ} {l : RateLimiter} (key : Bytes)
      → Logged config at log l
      → Logged config at (λ k. if text_eq k key then [] else log k) (clear key l)

pub Logged-Reach :
    {config : Config} {at : ℕ} {log : Bytes → List ℕ} {l : RateLimiter}
    → Logged config at log l
    → Reach config at l
Logged-Reach (logs_nothing at) = starts at
Logged-Reach (logs now key r h e) = tries now key (Logged-Reach r) h
Logged-Reach (blocks now key r h e) = tries now key (Logged-Reach r) h
Logged-Reach (forgets key r) = clears key (Logged-Reach r)

-- What has expired is outside of the window at every later time.
pub in_window-expire :
    (window now later : ℕ) (times : List ℕ)
    → now ≤ later
    → in_window window later (expire window now times) ≡ in_window window later times
unfolding drop_while
in_window-expire window now later [] h = refl
in_window-expire window now later (t ∷ times) h = elim (Bool-cases (ltb window (now - t))) [
  | inl e ↦ ground (arith, e, h, in_window-expire window now later times h)
  | inr e ↦ ground (arith, e)
]

-- The sweep removes nothing that is inside the window, at that time or later.
pub in_window-sweep :
    (now later : ℕ) (l : RateLimiter) (key : Bytes)
    → now ≤ later
    → in_window (window_of l.config) later ((sweep now l).failures key)
      ≡ in_window (window_of l.config) later (l.failures key)
unfolding sweep
in_window-sweep now later l key h =
    ground (arith, in_window-expire (window_of l.config) now later (l.failures key) h)

in_window-append :
    (window now : ℕ) (times more : List ℕ)
    → in_window window now (times ++ more) ≡ in_window window now times ++ in_window window now more
in_window-append window now [] more = refl
in_window-append window now (t ∷ times) more = elim (Bool-cases (ltb window (now - t))) [
  | inl e ↦ ground (arith, e, in_window-append window now times more)
  | inr e ↦ ground (arith, e, in_window-append window now times more)
]

admit-allowed :
    (key : Bytes) (now : ℕ) (times : List ℕ) (l : RateLimiter) (k : Bytes)
    → (admit key now times l).0.status ≡ allowed
    → (admit key now times l).1.failures k
      ≡ (if text_eq k key then times ++ now ∷ [] else l.failures k)
unfolding admit put
admit-allowed key now [] l k h = refl
admit-allowed key now (t ∷ times) l k h = ground (arith, h)

admit-refused :
    (key : Bytes) (now : ℕ) (times : List ℕ) (l : RateLimiter) (k : Bytes)
    → (admit key now times l).0.status ≡ blocked
    → (admit key now times l).1.failures k ≡ (if text_eq k key then times else l.failures k)
unfolding admit put
admit-refused key now [] l k h = absurd (ground (arith, h))
admit-refused key now (t ∷ times) l k h = ground (arith, h)

-- The deque and the log of a key, told by what is inside the window from a time on.
abbrev pub Agrees : ℕ → ℕ → List ℕ → List ℕ → Type 0
Agrees window at times logged =
    (later : ℕ) → at ≤ later → in_window window later times ≡ in_window window later logged

-- What a call leaves of a deque before it answers.
left-Agrees :
    (config : Config) (at now : ℕ) (l : RateLimiter) (k : Bytes) (logged : List ℕ)
    → l.config ≡ config
    → at ≤ now
    → Agrees (window_of config) at (l.failures k) logged
    → Agrees (window_of config) now ((sweep now l).failures k) logged
      × Agrees
          (window_of config)
          now
          (expire (window_of l.config) now ((sweep now l).failures k))
          logged
left-Agrees config at now l k logged same h =
    subst
      (λ c.
        Agrees (window_of c) at (l.failures k) logged
        → Agrees (window_of c) now ((sweep now l).failures k) logged
          × Agrees (window_of c) now (expire (window_of l.config) now ((sweep now l).failures k))
              logged)
      same
      (λ a.
        let swept : Agrees (window_of l.config) now ((sweep now l).failures k) logged =
          λ later e. in_window-sweep now later l k e ∙ a later (omega (arith, h, e)) in
        (
          swept,
          λ later e.
              in_window-expire (window_of l.config) now later ((sweep now l).failures k) e
              ∙ swept later e,
        ))

append-Agrees :
    (window now : ℕ) (times logged : List ℕ)
    → Agrees window now times logged
    → Agrees window now (times ++ now ∷ []) (logged ++ now ∷ [])
append-Agrees window now times logged a later e =
    in_window-append window later times (now ∷ [])
    ∙ ap (λ front. front ++ in_window window later (now ∷ [])) (a later e)
    ∙ sym (in_window-append window later logged (now ∷ []))

if-Agrees :
    (window at : ℕ) (b : Bool) (times logged other other_logged : List ℕ)
    → (b ≡ true → Agrees window at times logged)
    → Agrees window at other other_logged
    → Agrees window at (if b then times else other) (if b then logged else other_logged)
if-Agrees window at true times logged other other_logged h g = h refl
if-Agrees window at false times logged other other_logged h g = g

-- An attempt that is let through, and one that is blocked.
module _ (config : Config) (at now : ℕ) (key : Bytes) (log : Bytes → List ℕ) (l : RateLimiter)
    (same : l.config ≡ config) (h : at ≤ now)
    (a : (k : Bytes) → Agrees (window_of config) at (l.failures k) (log k)) where
  key-Agrees :
      (k : Bytes)
      → text_eq k key ≡ true
      → Agrees
          (window_of config)
          now
          (expire (window_of l.config) now ((sweep now l).failures key))
          (log k)
  key-Agrees k e =
      subst
        (λ q.
          Agrees (window_of config) now (expire (window_of l.config) now ((sweep now l).failures q))
            (log k))
        ((text_eq_iff k key).0 e) (left-Agrees config at now l k (log k) same h (a k)).1

  logs-Agrees :
      (allow key now l).0.status ≡ allowed
      → (k : Bytes)
      → Agrees
          (window_of config)
          now
          ((allow key now l).1.failures k)
          (if text_eq k key then log k ++ now ∷ [] else log k)
  unfolding allow
  logs-Agrees e k =
      subst
        (λ times.
          Agrees (window_of config) now times (if text_eq k key then log k ++ now ∷ [] else log k))
        (sym (admit-allowed key now _ (sweep now l) k e))
        (if-Agrees (window_of config) now (text_eq k key) _ (log k ++ now ∷ []) _ (log k)
          (λ d. append-Agrees (window_of config) now _ (log k) (key-Agrees k d))
          (left-Agrees config at now l k (log k) same h (a k)).0)

  blocks-Agrees :
      (allow key now l).0.status ≡ blocked
      → (k : Bytes) → Agrees (window_of config) now ((allow key now l).1.failures k) (log k)
  unfolding allow
  blocks-Agrees e k =
      subst (λ times. Agrees (window_of config) now times (log k))
        (sym (admit-refused key now _ (sweep now l) k e))
        (if-cases (λ times. Agrees (window_of config) now times (log k)) (text_eq k key) _ _
          (λ d. key-Agrees k d) (λ _. (left-Agrees config at now l k (log k) same h (a k)).0))

-- Of every key: what is in its deque and what is in its log are the same inside the window.
pub Logged-Agrees :
    {config : Config} {at : ℕ} {log : Bytes → List ℕ} {l : RateLimiter}
    → Logged config at log l
    → (k : Bytes) → Agrees (window_of config) at (l.failures k) (log k)
unfolding new_limiter clear put
Logged-Agrees (logs_nothing at) k = λ later h. refl
Logged-Agrees {config} (logs {at} {log} {l} now key r h e) k =
    logs-Agrees config at now key log l (Reach-IsLimited (Logged-Reach r)).same h (Logged-Agrees r)
      e k
Logged-Agrees {config} (blocks {at} {log} {l} now key r h e) k =
    blocks-Agrees config at now key log l (Reach-IsLimited (Logged-Reach r)).same h
      (Logged-Agrees r) e k
Logged-Agrees {config} {at} (forgets {log = log} {l = l} key r) k =
    if-Agrees (window_of config) at (text_eq k key) [] [] (l.failures k) (log k) (λ _ later h. refl)
      (Logged-Agrees r k)
