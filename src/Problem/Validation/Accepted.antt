-- ===== src/Problem/Validation/Accepted.antt =====
-- What passes as a problem, or as a change of one.
use vibe_coding.Prelude.{
  ◌≤◌, ◌≡◌, true, false, inr, List, arith, leb→le, length, is_empty, trim_idem,
}
use vibe_coding.Prelude.Int.{ℤ}
use vibe_coding.Prelude.Text.{Bytes, is_space}
use vibe_coding.Prelude.Result.{Holds, >>=-Holds, require-Holds, Holds-of}
use vibe_coding.Problem.Json.{Json}
use vibe_coding.Problem.Tags.{trim}
use vibe_coding.Problem.Fields.Range.{
  IsWithin, IfSome, parse_int_in_range-IsWithin, or_default-Holds, if_given-Holds, required-Holds,
}
use vibe_coding.Problem.Validation.Items.{
  AreTags, AreTags-nil, AreSamples, parse_tags-AreTags, parse_samples-AreSamples,
}
use vibe_coding.Problem.Validation.{
  ProblemData, is_valid_difficulty, checked_title, parse_title, parse_description, parse_difficulty,
  parse_visible, parse_time_limit, parse_memory_limit, parse_create_problem, max_tags,
  max_title_bytes, max_description_bytes, min_time_limit_ms, max_time_limit_ms, min_memory_limit_kb,
  max_memory_limit_kb,
}
use vibe_coding.Problem.Validation.Patch.{
  ProblemPatch, patch_is_empty, checked_patch, parse_update_problem,
}

-- The fields of a problem, each by itself.
abbrev pub IsTitle : Bytes → Type 0
IsTitle title = (is_empty title ≡ false) × (trim title ≡ title) × (length title ≤ max_title_bytes)

abbrev pub IsDescription : Bytes → Type 0
IsDescription description = length description ≤ max_description_bytes

abbrev pub IsDifficulty : Bytes → Type 0
IsDifficulty difficulty = is_valid_difficulty difficulty ≡ true

abbrev pub IsTagList : List Bytes → Type 0
IsTagList tags = AreTags tags × (length tags ≤ max_tags)

abbrev pub IsTimeLimit : ℤ → Type 0
IsTimeLimit = IsWithin min_time_limit_ms max_time_limit_ms

abbrev pub IsMemoryLimit : ℤ → Type 0
IsMemoryLimit = IsWithin min_memory_limit_kb max_memory_limit_kb

pub record IsProblem (p : ProblemData) : Type 0 where
  pub title : IsTitle p.title
  pub description : IsDescription p.description
  pub difficulty : IsDifficulty p.difficulty
  pub tags : IsTagList p.tags
  pub time_limit : IsTimeLimit p.time_limit_ms
  pub memory_limit : IsMemoryLimit p.memory_limit_kb
  pub samples : AreSamples p.samples

-- A change: what is given is as it is to be, and something is given.
pub record IsPatch (p : ProblemPatch) : Type 0 where
  pub title : IfSome IsTitle p.title
  pub description : IfSome IsDescription p.description
  pub difficulty : IfSome IsDifficulty p.difficulty
  pub tags : IfSome IsTagList p.tags
  pub time_limit : IfSome IsTimeLimit p.time_limit_ms
  pub memory_limit : IfSome IsMemoryLimit p.memory_limit_kb
  pub samples : IfSome AreSamples p.samples
  pub something : patch_is_empty p ≡ false

module _ (J : Json) where
  parse_title-IsTitle : (value : J.Value) → Holds IsTitle (parse_title J value)
  unfolding parse_title checked_title
  parse_title-IsTitle value = require-Holds _ _ _ _ λ _. require-Holds _ _ _ _ λ something.
      require-Holds _ _ _ _ λ short. (
        ground (arith, something),
        trim_idem is_space (J.get_string value),
        leb→le (length (trim (J.get_string value))) max_title_bytes short,
      )

  parse_description-IsDescription :
      (value : J.Value) → Holds IsDescription (parse_description J value)
  unfolding parse_description
  parse_description-IsDescription value = require-Holds _ _ _ _ λ _.
      require-Holds _ _ _ _
        λ short. leb→le (length (J.get_string value)) max_description_bytes short

  parse_difficulty-IsDifficulty : (value : J.Value) → Holds IsDifficulty (parse_difficulty J value)
  unfolding parse_difficulty
  parse_difficulty-IsDifficulty value =
      require-Holds _ _ _ _ λ _. require-Holds _ _ _ _ λ valid. valid

  time-IsTimeLimit : (value : J.Value) → Holds IsTimeLimit (parse_time_limit J value)
  unfolding parse_time_limit
  time-IsTimeLimit value = parse_int_in_range-IsWithin J _ _ _ value (omega arith)

  memory-IsMemoryLimit : (value : J.Value) → Holds IsMemoryLimit (parse_memory_limit J value)
  unfolding parse_memory_limit
  memory-IsMemoryLimit value = parse_int_in_range-IsWithin J _ _ _ value (omega arith)

  visible-any : (value : J.Value) → Holds (λ _. Unit) (parse_visible J value)
  unfolding parse_visible
  visible-any value = require-Holds _ _ _ _ λ _. tt

  create-Holds : (body : J.Value) → Holds IsProblem (parse_create_problem J body)
  unfolding parse_create_problem
  create-Holds body = require-Holds _ _ _ _ λ _.
      >>=-Holds IsTitle _ _ _ (required-Holds J IsTitle _ _ _ parse_title-IsTitle) λ t title.
        >>=-Holds IsDifficulty _ _ _
          (required-Holds J IsDifficulty _ _ _ parse_difficulty-IsDifficulty)
          λ d difficulty.
            >>=-Holds IsDescription _ _ _
              (or_default-Holds J IsDescription _ _ _ _ (omega arith)
                parse_description-IsDescription)
              λ e description.
                >>=-Holds IsTagList _ _ _
                  (or_default-Holds J IsTagList _ _ _ _ (AreTags-nil, omega arith)
                    (parse_tags-AreTags J))
                  λ ts tags.
                    >>=-Holds IsTimeLimit _ _ _
                      (or_default-Holds J IsTimeLimit _ _ _ _ (omega arith) time-IsTimeLimit)
                      λ tl time_limit.
                        >>=-Holds IsMemoryLimit _ _ _
                          (or_default-Holds J IsMemoryLimit _ _ _ _ (omega arith)
                            memory-IsMemoryLimit)
                          λ ml memory_limit.
                            >>=-Holds (λ _. Unit) _ _ _
                              (or_default-Holds J (λ _. Unit) _ _ _ _ tt visible-any)
                              λ v _.
                                >>=-Holds AreSamples _ _ _
                                  (or_default-Holds J AreSamples _ _ _ _ (tt, omega arith)
                                    (parse_samples-AreSamples J))
                                  λ ss samples. record {
                                    title = title;
                                    description = description;
                                    difficulty = difficulty;
                                    tags = tags;
                                    time_limit = time_limit;
                                    memory_limit = memory_limit;
                                    samples = samples;
                                  }

  update-Holds : (body : J.Value) → Holds IsPatch (parse_update_problem J body)
  unfolding parse_update_problem checked_patch
  update-Holds body = require-Holds _ _ _ _ λ _.
      >>=-Holds (IfSome IsTitle) _ _ _ (if_given-Holds J IsTitle _ _ _ parse_title-IsTitle)
        λ t title.
          >>=-Holds (IfSome IsDescription) _ _ _
            (if_given-Holds J IsDescription _ _ _ parse_description-IsDescription)
            λ e description.
              >>=-Holds (IfSome IsDifficulty) _ _ _
                (if_given-Holds J IsDifficulty _ _ _ parse_difficulty-IsDifficulty)
                λ d difficulty.
                  >>=-Holds (IfSome IsTagList) _ _ _
                    (if_given-Holds J IsTagList _ _ _ (parse_tags-AreTags J))
                    λ ts tags.
                      >>=-Holds (IfSome IsTimeLimit) _ _ _
                        (if_given-Holds J IsTimeLimit _ _ _ time-IsTimeLimit)
                        λ tl time_limit.
                          >>=-Holds (IfSome IsMemoryLimit) _ _ _
                            (if_given-Holds J IsMemoryLimit _ _ _ memory-IsMemoryLimit)
                            λ ml memory_limit.
                              >>=-Holds (IfSome (λ _. Unit)) _ _ _
                                (if_given-Holds J (λ _. Unit) _ _ _ visible-any)
                                λ v _.
                                  >>=-Holds (IfSome AreSamples) _ _ _
                                    (if_given-Holds J AreSamples _ _ _ (parse_samples-AreSamples J))
                                    λ ss samples. require-Holds _ _ _ _ λ something. record {
                                      title = title;
                                      description = description;
                                      difficulty = difficulty;
                                      tags = tags;
                                      time_limit = time_limit;
                                      memory_limit = memory_limit;
                                      samples = samples;
                                      something = ground (arith, something);
                                    }

  -- Whatever a request holds: a problem that is accepted has a title without blanks at its ends and
  -- of 1 to 200 bytes, a difficulty of the three, at most 20 tags that are short, distinct and can be
  -- stored, limits within their bounds, and at most 50 samples that are short.
  pub parse_create_problem-IsProblem :
      (body : J.Value) (p : ProblemData) → parse_create_problem J body ≡ inr p → IsProblem p
  parse_create_problem-IsProblem body p h = Holds-of IsProblem _ p (create-Holds body) h

  -- The same of what a change gives; and a change that is accepted gives something.
  pub parse_update_problem-IsPatch :
      (body : J.Value) (p : ProblemPatch) → parse_update_problem J body ≡ inr p → IsPatch p
  parse_update_problem-IsPatch body p h = Holds-of IsPatch _ p (update-Holds body) h
