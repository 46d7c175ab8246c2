-- ===== src/Judge/Deadline.antt =====
-- src/judge/deadline.h and deadline.cpp. Points of the steady clock are nanoseconds in ℤ, and an
-- `int` of milliseconds is an integer.
pub mod Bounds
use vibe_coding.Prelude.{ℕ, ◌+◌, ◌-◌, ◌*◌, ◌/◌, Bool, ltb, leb, if◌then◌else◌}
use vibe_coding.Prelude.Int.{ℤ, pos, negsuc, leb_ℤ, ltb_ℤ, pos_part, neg_part}

-- `std::numeric_limits<int>::max()`
abbrev pub int_max : ℕ
int_max = 2147483647

abbrev pub ns_per_ms : ℕ
ns_per_ms = 1000000

-- a - b, as an integer.
abbrev sub_ℕ : ℕ → ℕ → ℤ
sub_ℕ a b = if leb b a then pos (a - b) else negsuc (b - a - 1)

-- `Deadline::after_ms(ms)` at the time `now`.
unfoldable pub after_ms : ℕ → ℤ → ℤ
after_ms now ms = sub_ℕ (now + pos_part ms * ns_per_ms) (neg_part ms * ns_per_ms)

-- `Deadline::expired()` at the time `now`.
unfoldable pub expired : ℕ → ℤ → Bool
expired now deadline = leb_ℤ deadline (pos now)

-- `Deadline::remaining_ms()` at the time `now`: rounded up, and held to an `int`.
unfoldable pub remaining_ms : ℕ → ℤ → ℕ
remaining_ms now deadline =
    if leb_ℤ deadline (pos now)
    then 0
    else let count = (pos_part deadline - now + (ns_per_ms - 1)) / ns_per_ms in
      if ltb int_max count then int_max else count

unfoldable pub effective_time_limit_ms : ℤ → ℤ → ℤ
effective_time_limit_ms problem_limit_ms remaining_global_ms =
    if leb_ℤ problem_limit_ms (pos 0)
    then pos 0
    else if leb_ℤ remaining_global_ms (pos 0)
    then pos 0
    else if ltb_ℤ problem_limit_ms remaining_global_ms
    then problem_limit_ms
    else remaining_global_ms
