-- ===== src/Judge/Gate.antt =====
-- src/judge/compile_gate.h and compile_gate.cpp: how many compilers run at once. `acquire` is a
-- loop of looks under the lock, between which it waits; its guard releases once.
pub mod Bounded
use vibe_coding.Prelude.{ℕ, zero, suc, ◌+◌, ◌-◌, Bool, true, false, leb, ltb, ◌==◌, if◌then◌else◌}
use vibe_coding.Prelude.Int.{ℤ, pos, negsuc, ltb_ℤ, pos_part}

pub record CompileGate : Type 0 where
  pub max_concurrent : ℕ
  pub active : ℕ

-- What one round of the loop in `acquire` leads to.
pub data Look : Type 0 where
  granted given_up waits : Look

unfoldable pub new_gate : ℤ → CompileGate
new_gate max_concurrent = record {
  max_concurrent = if ltb_ℤ max_concurrent (pos 1) then 1 else pos_part max_concurrent;
  active = 0;
}

-- One round, where the token says `cancelled` and the deadline has `remaining` milliseconds.
unfoldable pub look : Bool → ℕ → CompileGate → Look × CompileGate
look cancelled remaining gate =
    if leb gate.max_concurrent gate.active
    then (if cancelled
        then (given_up, gate)
        else if remaining == 0
        then (given_up, gate)
        else (waits, gate))
    else (granted, record gate { active = gate.active + 1 })

-- `m.active - 1` stops at 0, as the test in the source does.
unfoldable pub release_permit : CompileGate → CompileGate
release_permit gate = record gate { active = gate.active - 1 }

-- One more guard where the permit was granted.
abbrev pub held_after : ℕ → Look → ℕ
held_after held granted = suc held
held_after held given_up = held
held_after held waits = held

-- The states that the guards of all threads lead to, with the number of those that hold a permit.
pub data Reach (max_concurrent : ℤ) : ℕ → CompileGate → Type 0 where
  starts : Reach max_concurrent 0 (new_gate max_concurrent)
  looks :
      {held : ℕ} {gate : CompileGate} (cancelled : Bool) (remaining : ℕ)
      → Reach max_concurrent held gate
      → Reach max_concurrent
          (held_after held (look cancelled remaining gate).0)
          (look cancelled remaining gate).1
  releases :
      {held : ℕ} {gate : CompileGate}
      → Reach max_concurrent (suc held) gate
      → Reach max_concurrent held (release_permit gate)
