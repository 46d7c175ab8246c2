-- ===== src/Problem/Validation/Patch.antt =====
-- `ProblemPatch` and `parse_update_problem` of src/problem/validation.h and validation.cpp: the body of
-- a request that changes a problem.
use vibe_coding.Prelude.{Bool, true, false, not, ◌&&◌, Option, none, some, ◌⊎◌, inr, List}
use vibe_coding.Prelude.Int.{ℤ}
use vibe_coding.Prelude.Text.{Bytes, codes}
use vibe_coding.Prelude.Result.{◌>>=◌, ◌>>◌, require}
use vibe_coding.Problem.Json.{Json}
use vibe_coding.Problem.Fields.{InputError, body_not_object, nothing_to_update, if_given}
use vibe_coding.Problem.Validation.{
  SampleInput, parse_title, parse_description, parse_difficulty, parse_tags, parse_time_limit,
  parse_memory_limit, parse_visible, parse_samples,
}

pub record ProblemPatch : Type 0 where
  pub title : Option Bytes
  pub description : Option Bytes
  pub difficulty : Option Bytes
  pub tags : Option (List Bytes)
  pub time_limit_ms : Option ℤ
  pub memory_limit_kb : Option ℤ
  pub visible : Option Bool
  pub samples : Option (List SampleInput)

unfoldable pub has_value : {A : Type 0} → Option A → Bool
has_value none = false
has_value (some _) = true

-- `ProblemPatch::empty`
unfoldable pub patch_is_empty : ProblemPatch → Bool
unfolding has_value
patch_is_empty p =
    not (has_value p.title)
    && not (has_value p.description)
    && not (has_value p.difficulty)
    && not (has_value p.tags)
    && not (has_value p.time_limit_ms)
    && not (has_value p.memory_limit_kb)
    && not (has_value p.visible)
    && not (has_value p.samples)

module _ (J : Json) where
  -- The check behind the fields.
  unfoldable pub checked_patch : ProblemPatch → InputError ⊎ ProblemPatch
  unfolding patch_is_empty
  checked_patch patch = require nothing_to_update (not (patch_is_empty patch)) >> inr patch

  unfoldable pub parse_update_problem : J.Value → InputError ⊎ ProblemPatch
  unfolding checked_patch
  parse_update_problem body = do
    require body_not_object (J.is_object body)
    title ← if_given J body (codes "title") (parse_title J)
    description ← if_given J body (codes "description") (parse_description J)
    difficulty ← if_given J body (codes "difficulty") (parse_difficulty J)
    tags ← if_given J body (codes "tags") (parse_tags J)
    time_limit_ms ← if_given J body (codes "time_limit_ms") (parse_time_limit J)
    memory_limit_kb ← if_given J body (codes "memory_limit_kb") (parse_memory_limit J)
    visible ← if_given J body (codes "visible") (parse_visible J)
    samples ← if_given J body (codes "samples") (parse_samples J)
    checked_patch (record {
      title = title;
      description = description;
      difficulty = difficulty;
      tags = tags;
      time_limit_ms = time_limit_ms;
      memory_limit_kb = memory_limit_kb;
      visible = visible;
      samples = samples;
    })
