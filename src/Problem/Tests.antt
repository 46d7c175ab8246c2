-- ===== src/Problem/Tests.antt =====
-- Concrete runs of src/problem.
pub mod Documents
pub mod Requests
use vibe_coding.Prelude.{
  ◌≤◌, ◌≡◌, ◌↔◌, refl, true, false, inr, [], ◌∷◌, ◌++◌, map, drop_while, drop_while_end, all,
  is_empty,
}
use vibe_coding.Prelude.Text.{Bytes, codes, text_eq, is_space, is_digit, to_lower}
use vibe_coding.Problem.ListQuery.{
  RawListParams, ListFilter, trim_ascii, value_from, parse_page, parse_list_query,
  title_like_pattern, max_problem_page, only_hidden,
}
use vibe_coding.Problem.ListQuery.Page.{parse_page_iff}
use vibe_coding.Problem.ListQuery.Filter.{
  like_items, any_run, literal, like_items-title_like_pattern,
}

-- The thirtieth page, with a blank and zeros.
abbrev thirty : Bytes
thirty = codes " 0030"

thirty-digits : all is_digit (trim_ascii thirty) ≡ true
unfolding drop_while drop_while_end is_space is_digit
thirty-digits = refl

thirty-there : is_empty (trim_ascii thirty) ≡ false
unfolding drop_while drop_while_end is_space
thirty-there = refl

thirty-page : parse_page thirty ≡ inr 30
unfolding parse_page drop_while drop_while_end is_space is_digit
thirty-page = refl

parse_page_iff_example :
    (parse_page thirty ≡ inr 30)
    ↔ ((30 ≡ value_from 0 (trim_ascii thirty)) × (1 ≤ 30) × (30 ≤ max_problem_page))
parse_page_iff_example = parse_page_iff thirty 30 thirty-there thirty-digits

abbrev raw_params : RawListParams
raw_params = record {
  q = codes " sum ";
  difficulty = codes "easy";
  tag = [];
  page = thirty;
  visible = codes "False";
}

abbrev easy_sums : ListFilter
easy_sums = record {
  keyword = codes "sum";
  difficulty = codes "easy";
  tag = [];
  page = 30;
  page_size = 20;
  visible = only_hidden;
}

raw_params-easy_sums : parse_list_query raw_params ≡ inr easy_sums
unfolding parse_list_query drop_while drop_while_end is_space is_digit text_eq to_lower
raw_params-easy_sums = refl
