-- ===== src/Judge/Diagnostics.antt =====
-- `scrub_compile_diagnostics` of src/judge/classification.cpp.
use vibe_coding.Prelude.{
  ℕ, zero, suc, ◌-◌, Bool, true, false, ◌&&◌, [], ◌∷◌, ◌==◌, if◌then◌else◌, length, is_empty,
}
use vibe_coding.Prelude.Text.{Bytes, codes}

-- `text` goes on with `needle`.
unfoldable pub starts_with : Bytes → Bytes → Bool
starts_with [] text = true
starts_with (c ∷ needle) [] = false
starts_with (c ∷ needle) (d ∷ text) = c == d && starts_with needle text

-- The loop of `erase_all` from `pos` on: `gap` bytes of an occurrence are still to be erased, and
-- the search goes on behind them, never before `pos`.
unfoldable pub erase_from : Bytes → ℕ → Bytes → Bytes
erase_from needle gap [] = []
erase_from needle (suc gap) (c ∷ text) = erase_from needle gap text
erase_from needle zero (c ∷ text) =
    let erased = erase_from needle (length needle - 1) text in
    let kept = c ∷ erase_from needle 0 text in
    if starts_with needle (c ∷ text) then erased else kept

unfoldable pub erase_all : Bytes → Bytes → Bytes
unfolding erase_from starts_with
erase_all needle out = if is_empty needle then out else erase_from needle 0 out

unfoldable pub scrub_compile_diagnostics : Bytes → Bytes → Bytes
unfolding erase_all
scrub_compile_diagnostics text workspace_path =
    erase_all (codes "/box/") (erase_all (codes "/.oj_sandbox") (erase_all workspace_path text))
