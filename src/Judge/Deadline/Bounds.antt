-- ===== src/Judge/Deadline/Bounds.antt =====
-- What the deadline's arithmetic promises: no rounding lets a budget end early or late.
use vibe_coding.Prelude.{ℕ, ◌+◌, ◌*◌, ◌≤◌, ◌<◌, ◌≡◌, ◌↔◌, ◌⊎◌, true, arith}
use vibe_coding.Prelude.Int.{ℤ, pos, negsuc, ◌≤ℤ◌, ◌<ℤ◌}
use vibe_coding.Judge.Deadline.{
  after_ms, expired, remaining_ms, effective_time_limit_ms, int_max, ns_per_ms,
}

-- At every time, a deadline has expired exactly when no millisecond remains; and what remains fits
-- an `int`.
pub remaining_ms-expired :
    (now : ℕ) (deadline : ℤ)
    → ((expired now deadline ≡ true) ↔ (remaining_ms now deadline ≡ 0))
      × (remaining_ms now deadline ≤ int_max)
unfolding expired remaining_ms
remaining_ms-expired now (pos d) = ground arith
remaining_ms-expired now (negsuc d) = ground arith

-- A deadline made at `start` for `ms` milliseconds has expired exactly when that time has passed.
pub expired-after_ms :
    (start ms passed : ℕ)
    → (expired (start + passed) (after_ms start (pos ms)) ≡ true) ↔ (ms * ns_per_ms ≤ passed)
unfolding after_ms expired
expired-after_ms start ms passed = ground arith

-- Before a deadline that was made at `start` for `ms` milliseconds, an `int`, the milliseconds that
-- remain are what is left of it, rounded up: they reach up to the deadline, by less than one
-- millisecond beyond it.
pub remaining_ms-after_ms :
    (start ms passed : ℕ)
    → ms ≤ int_max
    → passed < ms * ns_per_ms
    → (ms * ns_per_ms
        ≤ passed + remaining_ms (start + passed) (after_ms start (pos ms)) * ns_per_ms)
      × (passed + remaining_ms (start + passed) (after_ms start (pos ms)) * ns_per_ms
          < ms * ns_per_ms + ns_per_ms)
unfolding after_ms remaining_ms
remaining_ms-after_ms start ms passed h k = ground arith

-- Where the problem's limit and the remaining budget are positive, the limit of a test point is
-- positive, is above neither of the two, and is one of them.
pub effective_time_limit_ms-least :
    (problem remaining : ℤ)
    → pos 0 <ℤ problem
    → pos 0 <ℤ remaining
    → (pos 0 <ℤ effective_time_limit_ms problem remaining)
      × (effective_time_limit_ms problem remaining ≤ℤ problem)
      × (effective_time_limit_ms problem remaining ≤ℤ remaining)
      × ((effective_time_limit_ms problem remaining ≡ problem)
          ⊎ (effective_time_limit_ms problem remaining ≡ remaining))
unfolding effective_time_limit_ms
effective_time_limit_ms-least problem remaining h k = ground arith
