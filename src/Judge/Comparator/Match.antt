-- ===== src/Judge/Comparator/Match.antt =====
-- What `outputs_match` decides, told line by line.
use vibe_coding.Prelude.{
  ℕ, zero, suc, ◌≡◌, refl, sym, ap, ◌∙◌, ◌↔◌, true, List, [], ◌∷◌, drop_while_end,
  drop_while_end_idem, drop_while_end-All, drop_while_end-ext, get_or-drop_while_end, All, get_or,
  is_empty,
}
use vibe_coding.Prelude.Text.{Bytes, text_eq_iff}
use vibe_coding.Judge.Comparator.{strip, lines_from, join_lines, normalize_output, outputs_match}
use vibe_coding.Judge.Comparator.Lines.{
  line, IsLine, lines_from-IsLine, lines_from-join_lines, get_or-lines_from, first_line,
}

-- The lines that `normalize_output` joins.
abbrev kept_lines : Bytes → List Bytes
kept_lines text = drop_while_end is_empty (lines_from [] text)

kept_lines-IsLine : (text : Bytes) → All IsLine (kept_lines text)
kept_lines-IsLine text = drop_while_end-All is_empty IsLine _ (lines_from-IsLine [] text tt)

kept_lines-join_lines :
    (ls : List Bytes) → All IsLine ls → kept_lines (join_lines ls) ≡ drop_while_end is_empty ls
unfolding join_lines lines_from drop_while_end
kept_lines-join_lines [] h = refl
kept_lines-join_lines (l ∷ ls) h = ap (drop_while_end is_empty) (lines_from-join_lines l ls h)

kept_lines-normalize_output : (text : Bytes) → kept_lines (normalize_output text) ≡ kept_lines text
unfolding normalize_output
kept_lines-normalize_output text =
    kept_lines-join_lines (kept_lines text) (kept_lines-IsLine text)
    ∙ drop_while_end_idem is_empty (lines_from [] text)

-- Normalising an output a second time changes nothing.
pub normalize_output_idem :
    (text : Bytes) → normalize_output (normalize_output text) ≡ normalize_output text
unfolding normalize_output
normalize_output_idem text = ap join_lines (kept_lines-normalize_output text)

get_or-kept_lines : (text : Bytes) (i : ℕ) → get_or (kept_lines text) i [] ≡ strip (line i text)
unfolding first_line
get_or-kept_lines text zero =
    get_or-drop_while_end (lines_from [] text) 0 ∙ get_or-lines_from [] text 0
get_or-kept_lines text (suc i) =
    get_or-drop_while_end (lines_from [] text) (suc i) ∙ get_or-lines_from [] text (suc i)

kept_lines-ext :
    (s t : Bytes) → ((i : ℕ) → strip (line i s) ≡ strip (line i t)) → kept_lines s ≡ kept_lines t
kept_lines-ext s t h = drop_while_end-ext (lines_from [] s) (lines_from [] t) λ i.
    sym (get_or-drop_while_end (lines_from [] s) i)
    ∙ get_or-kept_lines s i
    ∙ h i
    ∙ sym (get_or-kept_lines t i)
    ∙ get_or-drop_while_end (lines_from [] t) i

-- Two outputs match exactly when each line of the one, without its trailing whitespace, is the
-- same line of the other without its own; a line that a text does not have counts as empty.
pub outputs_match_iff :
    (s t : Bytes) → (outputs_match s t ≡ true) ↔ ((i : ℕ) → strip (line i s) ≡ strip (line i t))
unfolding outputs_match normalize_output
outputs_match_iff s t = (
  λ e i.
      sym (get_or-kept_lines s i)
      ∙ ap (λ ls. get_or ls i []) (same_lines ((text_eq_iff _ _).0 e))
      ∙ get_or-kept_lines t i,
  λ h. (text_eq_iff _ _).1 (ap join_lines (kept_lines-ext s t h)),
)
  where
    same_lines : normalize_output s ≡ normalize_output t → kept_lines s ≡ kept_lines t
    same_lines e =
        sym (kept_lines-normalize_output s) ∙ ap kept_lines e ∙ kept_lines-normalize_output t
