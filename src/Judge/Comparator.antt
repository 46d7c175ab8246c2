-- ===== src/Judge/Comparator.antt =====
-- src/judge/comparator.cpp: output normalisation and comparison.
pub mod Match
pub mod Lines
use vibe_coding.Prelude.{
  ℕ, ◌≡◌, refl, Bool, ◌||◌, List, [], ◌∷◌, ◌++◌, ◌==◌, if◌then◌else◌, drop_while_end, is_empty,
}
use vibe_coding.Prelude.Text.{Bytes, text_eq}

-- The bytes 11, 12 and 13 are '\v', '\f' and '\r'.
unfoldable pub is_trailing_whitespace : ℕ → Bool
is_trailing_whitespace c = c == b' ' || c == b'\t' || c == 13 || c == 11 || c == 12

-- Removing the trailing whitespace of one line.
abbrev pub strip : Bytes → Bytes
strip = drop_while_end is_trailing_whitespace

-- The loop over `text.find('\n', pos)`: `cur` is `text.substr(pos, …)` up to the byte at hand.
unfoldable pub lines_from : Bytes → Bytes → List Bytes
lines_from cur [] = strip cur ∷ []
lines_from cur (c ∷ text) =
    let next = strip cur ∷ lines_from [] text in
    let longer = lines_from (cur ++ c ∷ []) text in if c == b'\n' then next else longer

-- The lines joined by '\n'.
unfoldable pub join_lines : List Bytes → Bytes
join_lines [] = []
join_lines (l ∷ []) = l
join_lines (l ∷ m ∷ ls) = l ++ b'\n' ∷ join_lines (m ∷ ls)

unfoldable pub normalize_output : Bytes → Bytes
unfolding lines_from join_lines
normalize_output text = join_lines (drop_while_end is_empty (lines_from [] text))

unfoldable pub outputs_match : Bytes → Bytes → Bool
unfolding normalize_output
outputs_match expected actual = text_eq (normalize_output expected) (normalize_output actual)
