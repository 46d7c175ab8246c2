-- ===== src/Problem/Fields.antt =====
-- The parts of a request's body that src/problem/validation.cpp and testcase_validation.cpp share:
-- `parse_int_in_range`, which both have, and the fields that may be left out.
pub mod Range
use vibe_coding.Prelude.{
  ℕ, ◌+◌, ◌-◌, ◌%◌, Bool, not, ◌||◌, Option, none, some, ◌⊎◌, inl, inr, ltb, if◌then◌else◌,
}
use vibe_coding.Prelude.Int.{ℤ, pos, negsuc, ltb_ℤ}
use vibe_coding.Prelude.Text.{Bytes}
use vibe_coding.Prelude.Result.{◌>>=◌, ◌>>◌, require}
use vibe_coding.Problem.Json.{Json}

-- The texts of the errors, by the name of the field where they name one.
pub data InputError : Type 0 where
  body_not_object nothing_to_update : InputError
  missing not_integer not_string too_long : Bytes → InputError
  out_of_range : Bytes → ℕ → ℕ → InputError
  tags_not_strings too_many_tags tag_empty tag_too_long tag_with_comma : InputError
  tag_repeated : Bytes → InputError
  samples_not_array too_many_samples bad_sample sample_too_long : InputError
  title_empty bad_difficulty visible_not_boolean : InputError

-- `static_cast<int>` of a number of 64 bits.
unfoldable pub to_int : ℤ → ℤ
to_int (pos n) =
    let low = n % 4294967296 in if ltb low 2147483648 then pos low else negsuc (4294967295 - low)
to_int (negsuc n) =
    let low = n % 4294967296 in if ltb low 2147483648 then negsuc low else pos (4294967295 - low)

module _ (J : Json) where
  -- The bounds of the calls are natural numbers, so that their `unsigned long long` is themselves.
  unfoldable pub integer_of : J.Value → ℕ → Option ℤ
  integer_of value max =
      if J.is_number_unsigned value
      then (if ltb max (J.get_unsigned value) then none else some (pos (J.get_unsigned value)))
      else some (J.get_integer value)

  unfoldable pub in_range : ℕ → ℕ → Bytes → Option ℤ → InputError ⊎ ℤ
  unfolding to_int
  in_range min max field none = inl (out_of_range field min max)
  in_range min max field (some parsed) =
      if ltb_ℤ parsed (pos min) || ltb_ℤ (pos max) parsed
      then inl (out_of_range field min max)
      else inr (to_int parsed)

  unfoldable pub parse_int_in_range : ℕ → ℕ → Bytes → J.Value → InputError ⊎ ℤ
  unfolding integer_of in_range
  parse_int_in_range min max field value =
      require (not_integer field) (J.is_number_integer value)
      >> in_range min max field (integer_of value max)

  module _ {A : Type 0} where
    -- `if (body.contains(key) && !parse(body[key], out, error)) { return false; }`
    unfoldable pub or_default : J.Value → Bytes → A → (J.Value → InputError ⊎ A) → InputError ⊎ A
    or_default body key default parse =
        if J.contains body key then parse (J.at body key) else inr default

    -- The same for a field of a patch.
    unfoldable pub if_given : J.Value → Bytes → (J.Value → InputError ⊎ A) → InputError ⊎ Option A
    if_given body key parse =
        if J.contains body key then (parse (J.at body key) >>= λ a. inr (some a)) else inr none

    -- `if (!body.contains(key)) { … } if (!parse(body[key], out, error)) { return false; }`
    unfoldable pub required : J.Value → Bytes → (J.Value → InputError ⊎ A) → InputError ⊎ A
    required body key parse = require (missing key) (J.contains body key) >> parse (J.at body key)
