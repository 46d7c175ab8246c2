-- ===== src/Problem/Validation.antt =====
-- src/problem/validation.h and validation.cpp: the body of a request that creates or changes a
-- problem. A parser gives its error, or the value.
pub mod Items
pub mod Patch
pub mod Accepted
use vibe_coding.Prelude.{
  ℕ, Bool, true, false, not, ◌&&◌, ◌||◌, Option, none, some, ◌⊎◌, inl, inr, List, [], ◌∷◌, ◌++◌,
  ◌==◌, leb, length, is_empty, all,
}
use vibe_coding.Prelude.Int.{ℤ, pos}
use vibe_coding.Prelude.Text.{Bytes, codes, text_eq}
use vibe_coding.Prelude.Result.{◌>>=◌, ◌>>◌, require}
use vibe_coding.Problem.Json.{Json}
use vibe_coding.Problem.Tags.{trim}
use vibe_coding.Problem.Fields.{
  InputError, body_not_object, nothing_to_update, not_string, too_long, tags_not_strings,
  too_many_tags, tag_empty, tag_too_long, tag_with_comma, tag_repeated, samples_not_array,
  too_many_samples, bad_sample, sample_too_long, title_empty, bad_difficulty, visible_not_boolean,
  parse_int_in_range, or_default, if_given, required,
}

abbrev pub default_time_limit_ms : ℤ
default_time_limit_ms = pos 2000

abbrev pub default_memory_limit_kb : ℤ
default_memory_limit_kb = pos 65536

abbrev pub min_time_limit_ms : ℕ
min_time_limit_ms = 1

abbrev pub max_time_limit_ms : ℕ
max_time_limit_ms = 60000

abbrev pub min_memory_limit_kb : ℕ
min_memory_limit_kb = 1

abbrev pub max_memory_limit_kb : ℕ
max_memory_limit_kb = 1048576

abbrev pub max_title_bytes : ℕ
max_title_bytes = 200

abbrev pub max_description_bytes : ℕ
max_description_bytes = 65536

abbrev pub max_tag_bytes : ℕ
max_tag_bytes = 30

abbrev pub max_tags : ℕ
max_tags = 20

abbrev pub max_samples : ℕ
max_samples = 50

abbrev pub max_sample_field_bytes : ℕ
max_sample_field_bytes = 65536

pub record SampleInput : Type 0 where
  pub input : Bytes
  pub output : Bytes

pub record ProblemData : Type 0 where
  pub title : Bytes
  pub description : Bytes
  pub difficulty : Bytes
  pub tags : List Bytes
  pub time_limit_ms : ℤ
  pub memory_limit_kb : ℤ
  pub visible : Bool
  pub samples : List SampleInput

unfoldable pub is_valid_difficulty : Bytes → Bool
is_valid_difficulty value =
    text_eq value (codes "easy") || text_eq value (codes "medium") || text_eq value (codes "hard")

-- `std::find(out.begin(), out.end(), tag) != out.end()`
unfoldable pub is_among : Bytes → List Bytes → Bool
is_among tag [] = false
is_among tag (other ∷ out) = text_eq other tag || is_among tag out

-- One round of the loop over the tags, from the trimmed tag on.
unfoldable pub push_tag : List Bytes → Bytes → InputError ⊎ List Bytes
unfolding is_among
push_tag out tag = do
  require tag_empty (not (is_empty tag))
  require tag_too_long (leb (length tag) max_tag_bytes)
  require tag_with_comma (all (λ (c : ℕ). not (c == b',')) tag)
  require (tag_repeated tag) (not (is_among tag out))
  inr (out ++ tag ∷ [])

-- The same of a sample, from its texts on.
unfoldable pub push_sample : List SampleInput → SampleInput → InputError ⊎ List SampleInput
push_sample out sample = do
  require sample_too_long (
      leb (length sample.input) max_sample_field_bytes
      && leb (length sample.output) max_sample_field_bytes)
  inr (out ++ sample ∷ [])

unfoldable pub checked_title : Bytes → InputError ⊎ Bytes
checked_title title = do
  require title_empty (not (is_empty title))
  require (too_long (codes "title")) (leb (length title) max_title_bytes)
  inr title

module _ (J : Json) where
  unfoldable pub push_tags : List Bytes → List J.Value → InputError ⊎ List Bytes
  unfolding push_tag
  push_tags out [] = inr out
  push_tags out (item ∷ items) = do
    require tags_not_strings (J.is_string item)
    pushed ← push_tag out (trim (J.get_string item))
    push_tags pushed items

  unfoldable pub parse_tags : J.Value → InputError ⊎ List Bytes
  unfolding push_tags
  parse_tags value = do
    require tags_not_strings (J.is_array value)
    require too_many_tags (leb (length (J.items value)) max_tags)
    push_tags [] (J.items value)

  -- `!item.is_object() || … ` the other way round.
  unfoldable pub is_sample_item : J.Value → Bool
  is_sample_item item =
      J.is_object item
      && J.contains item (codes "input")
      && J.is_string (J.at item (codes "input"))
      && J.contains item (codes "output")
      && J.is_string (J.at item (codes "output"))

  abbrev pub sample_of : J.Value → SampleInput
  sample_of item = record {
    input = J.get_string (J.at item (codes "input"));
    output = J.get_string (J.at item (codes "output"));
  }

  unfoldable pub push_samples : List SampleInput → List J.Value → InputError ⊎ List SampleInput
  unfolding push_sample is_sample_item
  push_samples out [] = inr out
  push_samples out (item ∷ items) = do
    require bad_sample (is_sample_item item)
    pushed ← push_sample out (sample_of item)
    push_samples pushed items

  unfoldable pub parse_samples : J.Value → InputError ⊎ List SampleInput
  unfolding push_samples
  parse_samples value = do
    require samples_not_array (J.is_array value)
    require too_many_samples (leb (length (J.items value)) max_samples)
    push_samples [] (J.items value)

  unfoldable pub parse_title : J.Value → InputError ⊎ Bytes
  unfolding checked_title
  parse_title value = do
    require (not_string (codes "title")) (J.is_string value)
    checked_title (trim (J.get_string value))

  unfoldable pub parse_description : J.Value → InputError ⊎ Bytes
  parse_description value = do
    require (not_string (codes "description")) (J.is_string value)
    require (too_long (codes "description"))
        (leb (length (J.get_string value)) max_description_bytes)
    inr (J.get_string value)

  unfoldable pub parse_difficulty : J.Value → InputError ⊎ Bytes
  unfolding is_valid_difficulty
  parse_difficulty value = do
    require (not_string (codes "difficulty")) (J.is_string value)
    require bad_difficulty (is_valid_difficulty (J.get_string value))
    inr (J.get_string value)

  unfoldable pub parse_visible : J.Value → InputError ⊎ Bool
  parse_visible value = require visible_not_boolean (J.is_boolean value) >> inr (J.get_bool value)

  unfoldable pub parse_time_limit : J.Value → InputError ⊎ ℤ
  parse_time_limit =
      parse_int_in_range J min_time_limit_ms max_time_limit_ms (codes "time_limit_ms")

  unfoldable pub parse_memory_limit : J.Value → InputError ⊎ ℤ
  parse_memory_limit =
      parse_int_in_range J min_memory_limit_kb max_memory_limit_kb (codes "memory_limit_kb")

  unfoldable pub parse_create_problem : J.Value → InputError ⊎ ProblemData
  unfolding parse_title parse_difficulty parse_description parse_tags parse_time_limit
      parse_memory_limit parse_visible parse_samples
  parse_create_problem body = do
    require body_not_object (J.is_object body)
    title ← required J body (codes "title") parse_title
    difficulty ← required J body (codes "difficulty") parse_difficulty
    description ← or_default J body (codes "description") [] parse_description
    tags ← or_default J body (codes "tags") [] parse_tags
    time_limit_ms ← or_default J body (codes "time_limit_ms") default_time_limit_ms parse_time_limit
    memory_limit_kb ←
        or_default J body (codes "memory_limit_kb") default_memory_limit_kb parse_memory_limit
    visible ← or_default J body (codes "visible") true parse_visible
    samples ← or_default J body (codes "samples") [] parse_samples
    inr (record {
      title = title;
      description = description;
      difficulty = difficulty;
      tags = tags;
      time_limit_ms = time_limit_ms;
      memory_limit_kb = memory_limit_kb;
      visible = visible;
      samples = samples;
    })
