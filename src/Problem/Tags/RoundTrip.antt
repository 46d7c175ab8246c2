-- ===== src/Problem/Tags/RoundTrip.antt =====
-- The tags that are stored are the tags that are read.
use vibe_coding.Prelude.{
  ℕ, ◌≡◌, refl, sym, ap, ◌∙◌, false, List, [], ◌∷◌, ◌++◌, ◌==◌, arith, inl, inr, Bool-cases,
  drop_while_end, drop_while, is_empty, All, append_assoc, append-nil,
}
use vibe_coding.Prelude.Text.{Bytes}
use vibe_coding.Problem.Tags.{trim, join_tags, before_pieces, comma_pieces, keep_tags, split_tags}

-- A tag that can be stored: something without blanks at its ends and without a comma.
abbrev pub IsTag : Bytes → Type 0
IsTag tag = (is_empty tag ≡ false) × (trim tag ≡ tag) × All (λ (c : ℕ). (c == b',') ≡ false) tag

before-before :
    (s t : Bytes) (pieces : List Bytes)
    → before_pieces s (before_pieces t pieces) ≡ before_pieces (s ++ t) pieces
unfolding before_pieces
before-before s t [] = refl
before-before s t (piece ∷ pieces) = ap (λ x. x ∷ pieces) (sym (append_assoc s t piece))

before-nil : (text : Bytes) → before_pieces [] (comma_pieces text) ≡ comma_pieces text
unfolding comma_pieces before_pieces
before-nil [] = refl
before-nil (c ∷ text) = elim (Bool-cases (c == b',')) [
  | inl e ↦ rw e refl
  | inr e ↦ rw e (before-before [] (c ∷ []) (comma_pieces text))
]

pieces-append :
    (tag text : Bytes)
    → All (λ (c : ℕ). (c == b',') ≡ false) tag
    → comma_pieces (tag ++ text) ≡ before_pieces tag (comma_pieces text)
unfolding comma_pieces before_pieces
pieces-append [] text h = sym (before-nil text)
pieces-append (c ∷ tag) text h =
    rw (h.0, pieces-append tag text h.1) (before-before (c ∷ []) tag (comma_pieces text))

pieces-join :
    (tag : Bytes) (tags : List Bytes)
    → All IsTag (tag ∷ tags)
    → comma_pieces (join_tags (tag ∷ tags)) ≡ tag ∷ tags
unfolding join_tags comma_pieces before_pieces
pieces-join tag [] h =
    ap comma_pieces (sym (append-nil tag))
    ∙ pieces-append tag [] h.0.2
    ∙ ap (λ x. x ∷ []) (append-nil tag)
pieces-join tag (next ∷ tags) h =
    pieces-append tag (b',' ∷ join_tags (next ∷ tags)) h.0.2
    ∙ rw (pieces-join next tags h.1) (ap (λ x. x ∷ next ∷ tags) (append-nil tag))

keep-tags : (tags : List Bytes) → All IsTag tags → keep_tags tags ≡ tags
unfolding keep_tags
keep-tags [] h = refl
keep-tags (tag ∷ tags) h = ground (arith, h.0.0, h.0.1, keep-tags tags h.1)

-- Tags that can be stored are read back, as they are and in their order.
pub split_tags-join_tags : (tags : List Bytes) → All IsTag tags → split_tags (join_tags tags) ≡ tags
unfolding split_tags join_tags comma_pieces keep_tags drop_while_end drop_while
split_tags-join_tags [] h = refl
split_tags-join_tags (tag ∷ tags) h =
    ap keep_tags (pieces-join tag tags h) ∙ keep-tags (tag ∷ tags) h
