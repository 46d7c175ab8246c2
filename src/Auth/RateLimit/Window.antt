-- ===== src/Auth/RateLimit/Window.antt =====
-- The limit over every sequence of logins, told by the failures inside the window.
use vibe_coding.Prelude.{
  ℕ, ◌-◌, ◌≤◌, ◌≡◌, refl, false, List, [], ◌∷◌, ◌++◌, inl, inr, arith, length, if◌then◌else◌, ltb,
  ◌==◌, drop_while, Bool-cases, if-cases, length-append,
}
use vibe_coding.Prelude.Text.{Bytes}
use vibe_coding.Auth.RateLimit.{
  Config, RateLimiter, new_limiter, window_of, expire, put, sweep, admit, allow, clear, drop_while,
  leb, text_eq, Answer,
}

-- The failures that are no older than the window.
abbrev pub in_window : ℕ → ℕ → List ℕ → List ℕ
in_window window now [] = []
in_window window now (t ∷ times) =
    let rest = in_window window now times in if ltb window (now - t) then rest else t ∷ rest

-- Upwards from `low`, and none behind `high`.
abbrev pub Ordered : ℕ → ℕ → List ℕ → Type 0
Ordered low high [] = low ≤ high
Ordered low high (t ∷ times) = (low ≤ t) × Ordered t high times

-- The states that logins at rising times lead to, with the time of the last.
pub data Reach (config : Config) : ℕ → RateLimiter → Type 0 where
  starts : (at : ℕ) → Reach config at (new_limiter config)
  tries :
      {at : ℕ} {l : RateLimiter} (now : ℕ) (key : Bytes)
      → Reach config at l
      → at ≤ now
      → Reach config now (allow key now l).1
  clears :
      {at : ℕ} {l : RateLimiter} (key : Bytes) → Reach config at l → Reach config at (clear key l)

-- At least one failure is recorded before a key is blocked.
abbrev pub most : Config → ℕ
most config = if config.max_failures == 0 then 1 else config.max_failures

Ordered-high :
    (low high higher : ℕ) (times : List ℕ)
    → high ≤ higher
    → Ordered low high times
    → Ordered low higher times
Ordered-high low high higher [] h o = omega (arith, h, o)
Ordered-high low high higher (t ∷ times) h o = (o.0, Ordered-high t high higher times h o.1)

Ordered-low :
    (lower low high : ℕ) (times : List ℕ)
    → lower ≤ low
    → Ordered low high times
    → Ordered lower high times
Ordered-low lower low high [] h o = omega (arith, h, o)
Ordered-low lower low high (t ∷ times) h o = (omega (arith, h, o.0), o.1)

Ordered-append :
    (low high now : ℕ) (times : List ℕ)
    → high ≤ now
    → Ordered low high times
    → Ordered low now (times ++ now ∷ [])
Ordered-append low high now [] h o = (omega (arith, h, o), omega arith)
Ordered-append low high now (t ∷ times) h o = (o.0, Ordered-append t high now times h o.1)

Ordered-expire :
    (window now low high : ℕ) (times : List ℕ)
    → Ordered low high times
    → Ordered low high (expire window now times)
unfolding drop_while
Ordered-expire window now low high [] o = o
Ordered-expire window now low high (t ∷ times) o =
    if-cases (λ ts. Ordered low high ts) (ltb window (now - t)) _ _
      (λ e. Ordered-low low t high _ o.0 (Ordered-expire window now t high times o.1)) (λ e. o)

length-expire : (window now : ℕ) (times : List ℕ) → length (expire window now times) ≤ length times
unfolding drop_while
length-expire window now [] = omega arith
length-expire window now (t ∷ times) = ground (arith, length-expire window now times)

-- A deque in order with a first entry inside the window is inside it as a whole.
in_window-fresh :
    (window now low high : ℕ) (times : List ℕ)
    → now - low ≤ window
    → Ordered low high times
    → in_window window now times ≡ times
in_window-fresh window now low high [] h o = refl
in_window-fresh window now low high (t ∷ times) h o =
    ground (arith, h, o.0, in_window-fresh window now t high times (omega (arith, h, o.0)) o.1)

pub expire-in_window :
    (window now low high : ℕ) (times : List ℕ)
    → Ordered low high times
    → expire window now times ≡ in_window window now times
unfolding drop_while
expire-in_window window now low high [] o = refl
expire-in_window window now low high (t ∷ times) o = elim (Bool-cases (ltb window (now - t))) [
  | inl e ↦ ground (arith, e, expire-in_window window now t high times o.1)
  | inr e ↦ ground (arith, e, in_window-fresh window now t high times (ground (arith, e)) o.1)
]

length-in_window :
    (window now : ℕ) (times : List ℕ) → length (in_window window now times) ≤ length times
length-in_window window now [] = omega arith
length-in_window window now (t ∷ times) = ground (arith, length-in_window window now times)

-- The invariant told of one deque.
pub record IsKept (config : Config) (at : ℕ) (times : List ℕ) : Type 0 where
  pub ordered : Ordered 0 at times
  pub few : length times ≤ most config

put-IsKept :
    (config : Config) (at : ℕ) (key : Bytes) (times : List ℕ) (failures : Bytes → List ℕ)
    → IsKept config at times
    → ((k : Bytes) → IsKept config at (failures k))
    → (k : Bytes) → IsKept config at (put key times failures k)
unfolding put
put-IsKept config at key times failures h g k =
    if-cases (λ (ts : List ℕ). IsKept config at ts) (text_eq k key) _ _ (λ _. h) (λ _. g k)

expire-IsKept :
    (config : Config) (window now at : ℕ) (times : List ℕ)
    → IsKept config at times
    → IsKept config at (expire window now times)
expire-IsKept config window now at times h = record {
  ordered = Ordered-expire window now 0 at times h.ordered;
  few = omega (arith, length-expire window now times, h.few);
}

later-IsKept :
    (config : Config) (at now : ℕ) (times : List ℕ)
    → at ≤ now
    → IsKept config at times
    → IsKept config now times
later-IsKept config at now times h k = record {
  ordered = Ordered-high 0 at now times h k.ordered;
  few = k.few;
}

pub record IsLimited (config : Config) (at : ℕ) (l : RateLimiter) : Type 0 where
  pub same : l.config ≡ config
  pub kept : (key : Bytes) → IsKept config at (l.failures key)

pub sweep-IsLimited :
    (config : Config) (at now : ℕ) (l : RateLimiter)
    → at ≤ now
    → IsLimited config at l
    → IsLimited config now (sweep now l)
unfolding sweep
sweep-IsLimited config at now l h i =
    if-cases (λ (m : RateLimiter). IsLimited config now m) _ _ _
      (λ _. record {
        same = i.same;
        kept = λ k.
            expire-IsKept config (window_of l.config) now now (l.failures k)
              (later-IsKept config at now (l.failures k) h (i.kept k));
      })
      (λ _. record {
        same = i.same;
        kept = λ k. later-IsKept config at now (l.failures k) h (i.kept k);
      })

admit-IsLimited :
    (config : Config) (now : ℕ) (key : Bytes) (times : List ℕ) (l : RateLimiter)
    → IsLimited config now l
    → IsKept config now times
    → IsLimited config now (admit key now times l).1
unfolding admit
admit-IsLimited config now key [] l i k = record {
  same = i.same;
  kept =
      put-IsKept config now key (now ∷ []) l.failures
        (record { ordered = (omega arith, omega arith); few = ground arith }) i.kept;
}
admit-IsLimited config now key (t ∷ times) l i k =
    if-cases (λ (a : Answer × RateLimiter). IsLimited config now a.1) _ _ _
      (λ _. record {
        same = i.same;
        kept = put-IsKept config now key (t ∷ times) l.failures k i.kept;
      })
      (λ e. record {
        same = i.same;
        kept =
            put-IsKept config now key (t ∷ times ++ now ∷ []) l.failures
              (record {
                ordered = (omega arith, Ordered-append t now now times (omega arith) k.ordered.1);
                few = room-append now (t ∷ times) l.config config i.same e;
              })
              i.kept;
      })
  where
    room-append :
        (n : ℕ) (ts : List ℕ) (c config : Config)
        → c ≡ config
        → leb c.max_failures (length ts) ≡ false
        → length (ts ++ n ∷ []) ≤ most config
    room-append n ts c config s e = ground (arith, length-append ts (n ∷ []), s, e)

pub Reach-IsLimited :
    {config : Config} {at : ℕ} {l : RateLimiter} → Reach config at l → IsLimited config at l
unfolding new_limiter allow clear
Reach-IsLimited (starts at) = record {
  same = refl;
  kept = λ k. record { ordered = omega arith; few = omega arith };
}
Reach-IsLimited {config} (tries {at} {l} now key r h) =
    let i = sweep-IsLimited config at now l h (Reach-IsLimited r) in
    admit-IsLimited config now key _ (sweep now l) i
      (expire-IsKept config (window_of l.config) now now _ (i.kept key))
Reach-IsLimited {config} {at} (clears {l = l} key r) =
    let i = Reach-IsLimited r in
    record {
      same = i.same;
      kept =
          put-IsKept config at key [] l.failures
            (record { ordered = omega arith; few = omega arith }) i.kept;
    }
