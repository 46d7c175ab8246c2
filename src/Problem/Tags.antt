-- ===== src/Problem/Tags.antt =====
-- `join_tags` of src/problem/validation.cpp and `split_tags` of src/db/problems.cpp: the tags of a
-- problem as the text of a column.
pub mod RoundTrip
use vibe_coding.Prelude.{
  List, [], ◌∷◌, ◌++◌, ◌==◌, if◌then◌else◌, is_empty, drop_while, drop_while_end,
}
use vibe_coding.Prelude.Text.{Bytes, is_space}

-- `trim`
abbrev pub trim : Bytes → Bytes
trim text = drop_while_end is_space (drop_while is_space text)

unfoldable pub join_tags : List Bytes → Bytes
join_tags [] = []
join_tags (tag ∷ []) = tag
join_tags (tag ∷ next ∷ tags) = tag ++ b',' ∷ join_tags (next ∷ tags)

-- A byte before the first of the pieces.
unfoldable pub before_pieces : Bytes → List Bytes → List Bytes
before_pieces text [] = text ∷ []
before_pieces text (piece ∷ pieces) = (text ++ piece) ∷ pieces

-- The texts between the commas.
unfoldable pub comma_pieces : Bytes → List Bytes
unfolding before_pieces
comma_pieces [] = [] ∷ []
comma_pieces (c ∷ text) =
    let pieces = comma_pieces text in
    if c == b',' then [] ∷ pieces else before_pieces (c ∷ []) pieces

-- Each without its blanks, if anything is left of it.
unfoldable pub keep_tags : List Bytes → List Bytes
keep_tags [] = []
keep_tags (piece ∷ pieces) =
    let rest = keep_tags pieces in if is_empty (trim piece) then rest else trim piece ∷ rest

unfoldable pub split_tags : Bytes → List Bytes
unfolding comma_pieces keep_tags
split_tags tags = keep_tags (comma_pieces tags)
