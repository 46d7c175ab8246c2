-- ===== src/Judge/Tests/Gate.antt =====
-- Two guards at a gate of one permit.
use vibe_coding.Prelude.{◌≤◌, ◌<◌, ◌≡◌, false}
use vibe_coding.Prelude.Int.{pos}
use vibe_coding.Judge.Gate.{CompileGate, new_gate, look, Reach, starts, looks}
use vibe_coding.Judge.Gate.Bounded.{permits_bounded}

abbrev one_held : CompileGate
one_held = (look false 9 (new_gate (pos 1))).1

one_held-Reach : Reach (pos 1) 1 (look false 9 one_held).1
unfolding look new_gate
one_held-Reach = looks false 9 (looks false 9 starts)

permits_bounded_example :
    ((look false 9 one_held).1.active ≡ 1)
    × (1 ≤ (look false 9 one_held).1.max_concurrent)
    × (0 < (look false 9 one_held).1.max_concurrent)
permits_bounded_example = permits_bounded (pos 1) 1 (look false 9 one_held).1 one_held-Reach
