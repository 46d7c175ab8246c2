-- ===== src/Submit/Input.antt =====
-- `parse_submission_language` and `validate_source_code` of src/submit/submit.cpp.
pub mod Accepted
use vibe_coding.Prelude.{
  ℕ, Bool, true, false, not, Option, none, some, ◌⊎◌, inl, inr, map, all, ltb, if◌then◌else◌,
  length,
}
use vibe_coding.Prelude.Text.{Bytes, codes, text_eq, to_lower, is_space}

unfoldable pub parse_submission_language : Bytes → Option Bytes
parse_submission_language text =
    let lowered = map to_lower text in
    if text_eq lowered (codes "cpp17")
    then some (codes "cpp17")
    else if text_eq lowered (codes "c11")
    then some (codes "c11")
    else none

-- The texts "源码过长" and "源码不能为空".
pub data SourceError : Type 0 where
  source_too_long source_empty : SourceError

-- `64 * 1024`
abbrev pub max_source_bytes : ℕ
max_source_bytes = 65536

unfoldable pub validate_source_code : Bytes → Option SourceError
validate_source_code code =
    if ltb max_source_bytes (length code)
    then some source_too_long
    else if all is_space code
    then some source_empty
    else none
