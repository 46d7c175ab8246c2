-- ===== src/Problem/Json.antt =====
-- What src/problem and src/user use of nlohmann's JSON values. `at` is `[]`, which they call only behind
-- `contains`; the `get_…` are `get`, which they call only behind the test of the type; `items` are
-- the elements of an array.
use vibe_coding.Prelude.{ℕ, Bool, List}
use vibe_coding.Prelude.Int.{ℤ}
use vibe_coding.Prelude.Text.{Bytes}

pub record Json : Type 1 where
  pub Value : Type 0
  pub is_object : Value → Bool
  pub is_array : Value → Bool
  pub is_string : Value → Bool
  pub is_boolean : Value → Bool
  pub is_number_integer : Value → Bool
  pub is_number_unsigned : Value → Bool
  pub contains : Value → Bytes → Bool
  pub at : Value → Bytes → Value
  pub items : Value → List Value
  pub get_string : Value → Bytes
  pub get_bool : Value → Bool
  pub get_unsigned : Value → ℕ
  pub get_integer : Value → ℤ
