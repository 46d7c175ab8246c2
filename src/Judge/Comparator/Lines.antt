-- ===== src/Judge/Comparator/Lines.antt =====
-- The lines that `normalize_output` goes through: what they hold, and that joining loses nothing.
use vibe_coding.Prelude.{
  ℕ, zero, suc, ◌≡◌, ◌≢◌, refl, sym, ap, ◌∙◌, List, [], ◌∷◌, ◌++◌, ◌==◌, if◌then◌else◌, arith,
  append-nil, append_assoc, drop_while_end, drop_while_end_idem, drop_while_end-All, All,
  All-append, get_or, Bool-cases, inl, inr,
}
use vibe_coding.Prelude.Text.{Bytes}
use vibe_coding.Judge.Comparator.{is_trailing_whitespace, strip, lines_from, join_lines}

-- Line number `i` of a text, without its '\n'; empty where the text has no such line.
unfoldable pub line : ℕ → Bytes → Bytes
line i [] = []
line zero (c ∷ text) = let rest = c ∷ line zero text in if c == b'\n' then [] else rest
line (suc i) (c ∷ text) =
    let next = line i text in let same = line (suc i) text in if c == b'\n' then next else same

abbrev pub NotNewline : ℕ → Type 0
NotNewline c = c ≢ b'\n'

-- A line as `lines_from` leaves it.
pub record IsLine (l : Bytes) : Type 0 where
  pub stripped : strip l ≡ l
  pub one_line : All NotNewline l

strip-IsLine : (l : Bytes) → All NotNewline l → IsLine (strip l)
strip-IsLine l h = record {
  stripped = drop_while_end_idem is_trailing_whitespace l;
  one_line = drop_while_end-All is_trailing_whitespace NotNewline l h;
}

pub lines_from-IsLine : (cur text : Bytes) → All NotNewline cur → All IsLine (lines_from cur text)
unfolding lines_from
lines_from-IsLine cur [] h = (strip-IsLine cur h, tt)
lines_from-IsLine cur (c ∷ text) h = elim (Bool-cases (c == b'\n')) [
  | inl e ↦ rw e (strip-IsLine cur h, lines_from-IsLine [] text tt)
  | inr e ↦ rw e (
      lines_from-IsLine (cur ++ c ∷ []) text
        (All-append NotNewline cur (c ∷ []) h (λ k. ground arith, tt)))
]

lines_from-append :
    (cur l text : Bytes)
    → All NotNewline l
    → lines_from cur (l ++ text) ≡ lines_from (cur ++ l) text
unfolding lines_from
lines_from-append cur [] text h = rw (append-nil cur)
lines_from-append cur (c ∷ l) text h =
    ground (arith, h.0, lines_from-append (cur ++ c ∷ []) l text h.1, append_assoc cur (c ∷ []) l)

-- Splitting what was joined gives the lines back.
pub lines_from-join_lines :
    (l : Bytes) (ls : List Bytes)
    → All IsLine (l ∷ ls)
    → lines_from [] (join_lines (l ∷ ls)) ≡ l ∷ ls
unfolding lines_from join_lines
lines_from-join_lines l [] h =
    ap (lines_from []) (sym (append-nil l))
    ∙ lines_from-append [] l [] h.0.one_line
    ∙ ap (λ s. s ∷ []) h.0.stripped
lines_from-join_lines l (m ∷ ls) h =
    lines_from-append [] l (b'\n' ∷ join_lines (m ∷ ls)) h.0.one_line
    ∙ cc (h.0.stripped, lines_from-join_lines m ls h.1)

-- The entries of `lines_from` are the lines of the text, stripped.
unfoldable pub first_line : Bytes → ℕ → Bytes → Bytes
first_line cur zero text = cur ++ line zero text
first_line cur (suc i) text = line (suc i) text

pub get_or-lines_from :
    (cur text : Bytes) (i : ℕ) → get_or (lines_from cur text) i [] ≡ strip (first_line cur i text)
unfolding lines_from first_line line drop_while_end
get_or-lines_from cur [] zero = rw (append-nil cur)
get_or-lines_from cur [] (suc i) = refl
get_or-lines_from cur (c ∷ text) zero = ground (
  arith,
  get_or-lines_from (cur ++ c ∷ []) text 0,
  append_assoc cur (c ∷ []) (line 0 text),
  append-nil cur,
)
get_or-lines_from cur (c ∷ text) (suc zero) =
    ground (arith, get_or-lines_from [] text 0, get_or-lines_from (cur ++ c ∷ []) text 1)
get_or-lines_from cur (c ∷ text) (suc (suc i)) =
    ground (
      arith,
      get_or-lines_from [] text (suc i),
      get_or-lines_from (cur ++ c ∷ []) text (suc (suc i)),
    )
