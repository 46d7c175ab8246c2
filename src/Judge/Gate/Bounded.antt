-- ===== src/Judge/Gate/Bounded.antt =====
-- What the gate promises.
use vibe_coding.Prelude.{ℕ, suc, ◌≤◌, ◌<◌, ◌≡◌, arith}
use vibe_coding.Prelude.Int.{ℤ, pos, negsuc}
use vibe_coding.Judge.Gate.{
  CompileGate, look, new_gate, release_permit, Reach, starts, looks, releases,
}

record IsBounded (held : ℕ) (gate : CompileGate) : Type 0 where
  counted : gate.active ≡ held
  room : held ≤ gate.max_concurrent
  open_once : 0 < gate.max_concurrent

Reach-IsBounded :
    {max_concurrent : ℤ} (held : ℕ) (gate : CompileGate)
    → Reach max_concurrent held gate
    → IsBounded held gate
unfolding new_gate look release_permit
Reach-IsBounded {max_concurrent = pos n} _ _ starts = ground arith
Reach-IsBounded {max_concurrent = negsuc n} _ _ starts = ground arith
Reach-IsBounded _ _ (looks {held} {gate} cancelled remaining r) =
    ground (arith, Reach-IsBounded held gate r)
Reach-IsBounded held _ (releases {gate = gate} r) =
    ground (arith, Reach-IsBounded (suc held) gate r)

-- Over every sequence of guards, the count of the gate is the number of guards that hold a permit,
-- and these are never more than the limit, which is at least one.
pub permits_bounded :
    (max_concurrent : ℤ) (held : ℕ) (gate : CompileGate)
    → Reach max_concurrent held gate
    → (gate.active ≡ held) × (held ≤ gate.max_concurrent) × (0 < gate.max_concurrent)
permits_bounded max_concurrent held gate r =
    let bounded = Reach-IsBounded held gate r in (bounded.counted, bounded.room, bounded.open_once)
