-- ===== src/Problem/ListQuery.antt =====
-- src/problem/list_query.h and list_query.cpp: the parameters of the problem list. A parser gives
-- its error or the value.
pub mod Page
pub mod Filter
use vibe_coding.Prelude.{
  ℕ, suc, ◌+◌, ◌-◌, ◌*◌, Bool, true, false, not, ◌&&◌, ◌||◌, ◌⊎◌, inl, inr, List, [], ◌∷◌, ◌++◌,
  ◌==◌, ltb, if◌then◌else◌, length, is_empty, all, map, drop_while, drop_while_end,
}
use vibe_coding.Prelude.Text.{Bytes, codes, text_eq, is_space, is_digit, to_lower}

-- The texts on `difficulty`, `page` (two of them) and `visible`.
pub data QueryError : Type 0 where
  bad_difficulty page_not_positive page_too_large bad_visible : QueryError

pub data VisibleFilter : Type 0 where
  everything only_visible only_hidden : VisibleFilter

pub record ListFilter : Type 0 where
  pub keyword : Bytes
  pub difficulty : Bytes
  pub tag : Bytes
  pub page : ℕ
  pub page_size : ℕ
  pub visible : VisibleFilter

pub record RawListParams : Type 0 where
  pub q : Bytes
  pub difficulty : Bytes
  pub tag : Bytes
  pub page : Bytes
  pub visible : Bytes

abbrev pub problem_page_size : ℕ
problem_page_size = 20

abbrev pub max_problem_page : ℕ
max_problem_page = 1000000

abbrev pub trim_ascii : Bytes → Bytes
trim_ascii text = drop_while_end is_space (drop_while is_space text)

unfoldable pub is_valid_difficulty : Bytes → Bool
is_valid_difficulty difficulty =
    text_eq difficulty (codes "easy")
    || text_eq difficulty (codes "medium")
    || text_eq difficulty (codes "hard")

unfoldable pub escape_like : Bytes → Bytes
escape_like [] = []
escape_like (c ∷ text) =
    let rest = escape_like text in
    if c == b'\\' || c == b'%' || c == b'_' then b'\\' ∷ c ∷ rest else c ∷ rest

unfoldable pub title_like_pattern : Bytes → Bytes
unfolding escape_like
title_like_pattern keyword = codes "%" ++ escape_like keyword ++ codes "%"

-- `while (begin + 1 < trimmed.size() && trimmed[begin] == '0') ++begin;`
unfoldable pub drop_zeros : Bytes → Bytes
drop_zeros [] = []
drop_zeros (c ∷ []) = c ∷ []
drop_zeros (c ∷ d ∷ text) =
    let rest = drop_zeros (d ∷ text) in if c == b'0' then rest else c ∷ d ∷ text

-- `value = value * 10 + (c - '0')` over the digits.
unfoldable pub value_from : ℕ → Bytes → ℕ
value_from value [] = value
value_from value (c ∷ digits) = value_from (value * 10 + (c - b'0')) digits

-- `parse_page` behind the test on the digits.
unfoldable pub page_of : Bytes → QueryError ⊎ ℕ
unfolding value_from
page_of digits =
    if ltb 7 (length digits)
    then inl page_too_large
    else if ltb (value_from 0 digits) 1
    then inl page_not_positive
    else if ltb max_problem_page (value_from 0 digits)
    then inl page_too_large
    else inr (value_from 0 digits)

unfoldable pub parse_page : Bytes → QueryError ⊎ ℕ
unfolding page_of drop_zeros
parse_page text =
    let trimmed = trim_ascii text in
    if is_empty trimmed
    then inr 1
    else if not (all is_digit trimmed)
    then inl page_not_positive
    else page_of (drop_zeros trimmed)

unfoldable pub parse_visible : Bytes → QueryError ⊎ VisibleFilter
parse_visible text =
    let value = map to_lower (trim_ascii text) in
    if is_empty value || text_eq value (codes "all")
    then inr everything
    else if text_eq value (codes "1") || text_eq value (codes "true")
    then inr only_visible
    else if text_eq value (codes "0") || text_eq value (codes "false")
    then inr only_hidden
    else inl bad_visible

unfoldable pub parse_list_query : RawListParams → QueryError ⊎ ListFilter
unfolding parse_page parse_visible is_valid_difficulty
parse_list_query raw =
    let difficulty = trim_ascii raw.difficulty in
    if not (is_empty difficulty) && not (is_valid_difficulty difficulty)
    then inl bad_difficulty
    else elim (parse_page raw.page) [
      | inl error ↦ inl error
      | inr page ↦ elim (parse_visible raw.visible) [
        | inl error ↦ inl error
        | inr visible ↦ inr (record {
          keyword = trim_ascii raw.q;
          difficulty = difficulty;
          tag = trim_ascii raw.tag;
          page = page;
          page_size = problem_page_size;
          visible = visible;
        })
      ]
    ]
