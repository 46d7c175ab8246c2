-- ===== src/Problem/ListQuery/Filter.antt =====
-- What the filters of the problem list mean.
use vibe_coding.Prelude.{
  ℕ, ◌≤◌, ◌≡◌, ◌⊎◌, inl, inr, refl, Bool, true, false, ap, List, [], ◌∷◌, ◌++◌, map, arith,
  is_empty, ◌==◌, if◌then◌else◌, trim_idem, Sum-cases,
}
use vibe_coding.Prelude.Text.{Bytes, codes, is_space}
use vibe_coding.Problem.ListQuery.{
  RawListParams, ListFilter, escape_like, title_like_pattern, trim_ascii, is_valid_difficulty,
  parse_page, parse_visible, parse_list_query, max_problem_page, problem_page_size,
}
use vibe_coding.Problem.ListQuery.Page.{parse_page_bounds}

-- How a pattern of SQL's LIKE is read with the clause ESCAPE '\'.
pub data LikeItem : Type 0 where
  any_run any_one : LikeItem
  literal : ℕ → LikeItem

abbrev unescaped : ℕ → LikeItem
unescaped c = if c == b'%' then any_run else if c == b'_' then any_one else literal c

-- The flag: the byte before was the escape.
unfoldable pub like_items : Bool → Bytes → List LikeItem
like_items escaped [] = []
like_items true (c ∷ pattern) = literal c ∷ like_items false pattern
like_items false (c ∷ pattern) =
    let after = like_items true pattern in
    let rest = like_items false pattern in if c == b'\\' then after else unescaped c ∷ rest

like_items-escape_like :
    (text pattern : Bytes)
    → like_items false (escape_like text ++ pattern) ≡ map literal text ++ like_items false pattern
unfolding like_items escape_like
like_items-escape_like [] pattern = refl
like_items-escape_like (c ∷ text) pattern = ground (arith, like_items-escape_like text pattern)

-- The pattern for a keyword is read as the keyword's bytes, each for itself, between two runs of
-- anything, whatever the keyword contains.
pub like_items-title_like_pattern :
    (keyword : Bytes)
    → like_items false (title_like_pattern keyword) ≡ any_run ∷ map literal keyword ++ any_run ∷ []
unfolding title_like_pattern like_items
like_items-title_like_pattern keyword =
    ap (◌∷◌ any_run) (like_items-escape_like keyword (codes "%"))

-- A filter that the parameters were accepted for.
pub record IsValid (f : ListFilter) : Type 0 where
  pub level : (is_empty f.difficulty ≡ true) ⊎ (is_valid_difficulty f.difficulty ≡ true)
  pub first : 1 ≤ f.page
  pub last : f.page ≤ max_problem_page
  pub size : f.page_size ≡ problem_page_size
  pub trimmed_keyword : trim_ascii f.keyword ≡ f.keyword
  pub trimmed_tag : trim_ascii f.tag ≡ f.tag

-- Accepted parameters give a page from 1 to 1000000 of 20 entries, no difficulty or a known one,
-- and a keyword and a tag without blanks at their ends.
pub parse_list_query-IsValid :
    (raw : RawListParams) (f : ListFilter) → parse_list_query raw ≡ inr f → IsValid f
unfolding parse_list_query
parse_list_query-IsValid raw f h = elim (Sum-cases (parse_page raw.page)) [
  | inl (error, e) ↦ ground (arith, h, e)
  | inr (page, e) ↦ elim (Sum-cases (parse_visible raw.visible)) [
    | inl (error, k) ↦ ground (arith, h, e, k)
    | inr (visible, k) ↦ ground (
      arith,
      h,
      e,
      k,
      parse_page_bounds raw.page page e,
      trim_idem is_space raw.q,
      trim_idem is_space raw.tag,
    )
  ]
]
