-- ===== src/Problem/TestcaseValidation.antt =====
-- src/problem/testcase_validation.h and testcase_validation.cpp: the body of a request that creates or
-- changes a test point.
use vibe_coding.Prelude.{
  ℕ, ◌≤◌, ◌≡◌, Bool, false, not, ◌&&◌, Option, ◌⊎◌, inr, arith, leb, leb→le, length,
}
use vibe_coding.Prelude.Int.{ℤ}
use vibe_coding.Prelude.Text.{Bytes, codes}
use vibe_coding.Prelude.Result.{◌>>=◌, ◌>>◌, require, Holds, >>=-Holds, require-Holds, Holds-of}
use vibe_coding.Problem.Json.{Json}
use vibe_coding.Problem.Fields.{
  InputError, body_not_object, nothing_to_update, not_string, too_long, parse_int_in_range,
  if_given, required,
}
use vibe_coding.Problem.Fields.Range.{
  IsWithin, IfSome, parse_int_in_range-IsWithin, if_given-Holds, required-Holds,
}
use vibe_coding.Problem.Validation.Patch.{has_value}

abbrev pub min_testcase_ord : ℕ
min_testcase_ord = 0

abbrev pub max_testcase_ord : ℕ
max_testcase_ord = 1000000

abbrev pub max_testcase_text_bytes : ℕ
max_testcase_text_bytes = 65536

-- Without `ord` the store puts the test point behind the others.
pub record TestcaseData : Type 0 where
  pub input : Bytes
  pub output : Bytes
  pub ord : Option ℤ

pub record TestcasePatch : Type 0 where
  pub input : Option Bytes
  pub output : Option Bytes
  pub ord : Option ℤ

-- `TestcasePatch::empty`
unfoldable pub testcase_patch_is_empty : TestcasePatch → Bool
testcase_patch_is_empty p =
    not (has_value p.input) && not (has_value p.output) && not (has_value p.ord)

-- The check behind the fields.
unfoldable checked_testcase_patch : TestcasePatch → InputError ⊎ TestcasePatch
unfolding testcase_patch_is_empty
checked_testcase_patch patch =
    require nothing_to_update (not (testcase_patch_is_empty patch)) >> inr patch

module _ (J : Json) where
  unfoldable parse_text : Bytes → J.Value → InputError ⊎ Bytes
  parse_text field value = do
    require (not_string field) (J.is_string value)
    require (too_long field) (leb (length (J.get_string value)) max_testcase_text_bytes)
    inr (J.get_string value)

  unfoldable parse_ord : J.Value → InputError ⊎ ℤ
  parse_ord = parse_int_in_range J min_testcase_ord max_testcase_ord (codes "ord")

  unfoldable pub parse_create_testcase : J.Value → InputError ⊎ TestcaseData
  unfolding parse_text parse_ord
  parse_create_testcase body = do
    require body_not_object (J.is_object body)
    input ← required J body (codes "input") (parse_text (codes "input"))
    output ← required J body (codes "output") (parse_text (codes "output"))
    ord ← if_given J body (codes "ord") parse_ord
    inr (record { input = input; output = output; ord = ord })

  unfoldable pub parse_update_testcase : J.Value → InputError ⊎ TestcasePatch
  unfolding parse_text parse_ord checked_testcase_patch
  parse_update_testcase body = do
    require body_not_object (J.is_object body)
    input ← if_given J body (codes "input") (parse_text (codes "input"))
    output ← if_given J body (codes "output") (parse_text (codes "output"))
    ord ← if_given J body (codes "ord") parse_ord
    checked_testcase_patch (record { input = input; output = output; ord = ord })

abbrev pub IsTestcaseText : Bytes → Type 0
IsTestcaseText text = length text ≤ max_testcase_text_bytes

abbrev pub IsOrd : ℤ → Type 0
IsOrd = IsWithin min_testcase_ord max_testcase_ord

pub record IsTestcase (point : TestcaseData) : Type 0 where
  pub input : IsTestcaseText point.input
  pub output : IsTestcaseText point.output
  pub ord : IfSome IsOrd point.ord

pub record IsTestcasePatch (p : TestcasePatch) : Type 0 where
  pub input : IfSome IsTestcaseText p.input
  pub output : IfSome IsTestcaseText p.output
  pub ord : IfSome IsOrd p.ord
  pub something : testcase_patch_is_empty p ≡ false

module _ (J : Json) where
  text-IsTestcaseText :
      (field : Bytes) (value : J.Value) → Holds IsTestcaseText (parse_text J field value)
  unfolding parse_text
  text-IsTestcaseText field value = require-Holds _ _ _ _ λ _.
      require-Holds _ _ _ _
        λ short. leb→le (length (J.get_string value)) max_testcase_text_bytes short

  parse_ord-IsOrd : (value : J.Value) → Holds IsOrd (parse_ord J value)
  unfolding parse_ord
  parse_ord-IsOrd value = parse_int_in_range-IsWithin J _ _ _ value (omega arith)

  create-Holds : (body : J.Value) → Holds IsTestcase (parse_create_testcase J body)
  unfolding parse_create_testcase
  create-Holds body = require-Holds _ _ _ _ λ _.
      >>=-Holds IsTestcaseText _ _ _
        (required-Holds J IsTestcaseText _ _ _ (text-IsTestcaseText (codes "input")))
        λ i input.
          >>=-Holds IsTestcaseText _ _ _
            (required-Holds J IsTestcaseText _ _ _ (text-IsTestcaseText (codes "output")))
            λ o output.
              >>=-Holds (IfSome IsOrd) _ _ _ (if_given-Holds J IsOrd _ _ _ parse_ord-IsOrd)
                λ n ord. record { input = input; output = output; ord = ord }

  update-Holds : (body : J.Value) → Holds IsTestcasePatch (parse_update_testcase J body)
  unfolding parse_update_testcase checked_testcase_patch
  update-Holds body = require-Holds _ _ _ _ λ _.
      >>=-Holds (IfSome IsTestcaseText) _ _ _
        (if_given-Holds J IsTestcaseText _ _ _ (text-IsTestcaseText (codes "input")))
        λ i input.
          >>=-Holds (IfSome IsTestcaseText) _ _ _
            (if_given-Holds J IsTestcaseText _ _ _ (text-IsTestcaseText (codes "output")))
            λ o output.
              >>=-Holds (IfSome IsOrd) _ _ _ (if_given-Holds J IsOrd _ _ _ parse_ord-IsOrd) λ n ord.
                require-Holds _ _ _ _ λ something. record {
                  input = input;
                  output = output;
                  ord = ord;
                  something = ground (arith, something);
                }

  -- Whatever a request holds: the texts of a test point that is accepted have at most 65536 bytes, and
  -- its place in the order, if it is given, is between 0 and 1000000.
  pub parse_create_testcase-IsTestcase :
      (body : J.Value) (point : TestcaseData)
      → parse_create_testcase J body ≡ inr point
      → IsTestcase point
  parse_create_testcase-IsTestcase body point h = Holds-of IsTestcase _ point (create-Holds body) h

  -- The same of what a change gives; and a change that is accepted gives something.
  pub parse_update_testcase-IsTestcasePatch :
      (body : J.Value) (p : TestcasePatch)
      → parse_update_testcase J body ≡ inr p
      → IsTestcasePatch p
  parse_update_testcase-IsTestcasePatch body p h =
      Holds-of IsTestcasePatch _ p (update-Holds body) h
