-- ===== src/Problem/Fields/Range.antt =====
-- What is known of a field that was accepted.
use vibe_coding.Prelude.{ℕ, ◌≤◌, ◌⊎◌, arith, Option, none, some, if-cases}
use vibe_coding.Prelude.Int.{ℤ, pos, ◌≤ℤ◌}
use vibe_coding.Prelude.Text.{Bytes}
use vibe_coding.Prelude.Result.{Holds, >>=-Holds, require-Holds}
use vibe_coding.Problem.Json.{Json}
use vibe_coding.Problem.Fields.{
  InputError, to_int, in_range, parse_int_in_range, integer_of, or_default, if_given, required,
}

-- Between two bounds that are not negative.
abbrev pub IsWithin : ℕ → ℕ → ℤ → Type 0
IsWithin min max i = (pos min ≤ℤ i) × (i ≤ℤ pos max)

-- A value that may be left out.
abbrev pub IfSome : {A : Type 0} → (A → Type 0) → Option A → Type 0
IfSome P none = Unit
IfSome P (some a) = P a

module _ (J : Json) where
  in_range-IsWithin :
      (min max : ℕ) (field : Bytes) (o : Option ℤ)
      → max ≤ 2147483647
      → Holds (IsWithin min max) (in_range J min max field o)
  unfolding in_range to_int
  in_range-IsWithin min max field none h = tt
  in_range-IsWithin min max field (some (ℤ.pos n)) h = ground (arith, h)
  in_range-IsWithin min max field (some (ℤ.negsuc n)) h = ground (arith, h)

  pub parse_int_in_range-IsWithin :
      (min max : ℕ) (field : Bytes) (value : J.Value)
      → max ≤ 2147483647
      → Holds (IsWithin min max) (parse_int_in_range J min max field value)
  unfolding parse_int_in_range
  parse_int_in_range-IsWithin min max field value h =
      require-Holds (IsWithin min max) _ _ _
        λ _. in_range-IsWithin min max field (integer_of J value max) h

  module _ {A : Type 0} (P : A → Type 0) where
    pub or_default-Holds :
        (body : J.Value) (key : Bytes) (default : A) (parse : J.Value → InputError ⊎ A)
        → P default
        → ((value : J.Value) → Holds P (parse value))
        → Holds P (or_default J body key default parse)
    unfolding or_default
    or_default-Holds body key default parse h k =
        if-cases (Holds P) (J.contains body key) _ _ (λ _. k (J.at body key)) (λ _. h)

    pub if_given-Holds :
        (body : J.Value) (key : Bytes) (parse : J.Value → InputError ⊎ A)
        → ((value : J.Value) → Holds P (parse value))
        → Holds (IfSome P) (if_given J body key parse)
    unfolding if_given
    if_given-Holds body key parse k =
        if-cases (Holds (IfSome P)) (J.contains body key) _ _
          (λ _. >>=-Holds P (IfSome P) _ _ (k (J.at body key)) (λ a h. h)) (λ _. tt)

    pub required-Holds :
        (body : J.Value) (key : Bytes) (parse : J.Value → InputError ⊎ A)
        → ((value : J.Value) → Holds P (parse value))
        → Holds P (required J body key parse)
    unfolding required
    required-Holds body key parse k = require-Holds P _ _ _ λ _. k (J.at body key)
