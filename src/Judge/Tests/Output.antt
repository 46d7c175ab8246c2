-- ===== src/Judge/Tests/Output.antt =====
-- The comparator, the classification and the diagnostics on concrete inputs.
use vibe_coding.Prelude.{ℕ, ◌≡◌, refl, ◌↔◌, true, false, drop_while_end}
use vibe_coding.Prelude.Int.{pos}
use vibe_coding.Prelude.Text.{Bytes, codes}
use vibe_coding.Judge.Status.{ac}
use vibe_coding.Judge.Comparator.{normalize_output, is_trailing_whitespace, outputs_match, strip}
use vibe_coding.Judge.Comparator.Lines.{line}
use vibe_coding.Judge.Comparator.Match.{outputs_match_iff}
use vibe_coding.Judge.Classification.{CaseEvidence, classify_case}
use vibe_coding.Judge.Classification.Verdict.{IsClean, classify_case-ac_iff}
use vibe_coding.Judge.Diagnostics.{scrub_compile_diagnostics}

normalized : normalize_output (codes "a  \r\n\n b\t\n\n\n") ≡ codes "a\n\n b"
unfolding normalize_output drop_while_end is_trailing_whitespace
normalized = refl

scrubbed :
    scrub_compile_diagnostics (codes "/t/j1/.oj_sandbox/box/main.cpp:3: x") (codes "/t/j1")
    ≡ codes "main.cpp:3: x"
unfolding scrub_compile_diagnostics
scrubbed = refl

-- Erasing goes on behind the place of an erased occurrence, so a path that only the erasing puts
-- together stays.
scrub_leaves_box :
    scrub_compile_diagnostics (codes "/b/box/ox/main.cpp") (codes "/t/j1") ≡ codes "/box/main.cpp"
unfolding scrub_compile_diagnostics
scrub_leaves_box = refl

abbrev padded : Bytes
padded = codes "a \n\n"

outputs_match_iff_example :
    (outputs_match (codes "a") padded ≡ true)
    ↔ ((i : ℕ) → strip (line i (codes "a")) ≡ strip (line i padded))
outputs_match_iff_example = outputs_match_iff (codes "a") padded

-- A run that was killed at the global deadline.
abbrev killed : CaseEvidence
killed = record {
  launch_error = false;
  sandbox_error = false;
  cancelled = false;
  timed_out = true;
  global_capped = true;
  memory_exceeded = false;
  exited = false;
  exit_code = 0;
  term_signal = 9;
  output_truncated = false;
  sanitizer_error = false;
  output_matches = true;
  time_limit_ms = pos 1000;
  memory_limit_kb = pos 65536;
  peak_memory_kb = 2048;
  stdout_limit_bytes = 65536;
}

classify_case-ac_iff_example :
    ((classify_case killed).status ≡ ac) ↔ (IsClean killed × (killed.output_matches ≡ true))
classify_case-ac_iff_example = classify_case-ac_iff killed
