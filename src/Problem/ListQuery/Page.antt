-- ===== src/Problem/ListQuery/Page.antt =====
-- Which texts name a page.
use vibe_coding.Prelude.{
  ℕ, ◌+◌, ◌-◌, ◌*◌, ◌≤◌, ◌<◌, ◌≡◌, ◌↔◌, refl, true, false, inl, inr, [], ◌∷◌, arith, length,
  is_empty, all, ◌==◌, Bool-cases,
}
use vibe_coding.Prelude.Text.{Bytes, is_digit}
use vibe_coding.Problem.ListQuery.{
  trim_ascii, drop_zeros, value_from, page_of, parse_page, max_problem_page,
}

value_from-drop_zeros : (text : Bytes) → value_from 0 (drop_zeros text) ≡ value_from 0 text
unfolding drop_zeros value_from
value_from-drop_zeros [] = refl
value_from-drop_zeros (c ∷ []) = refl
value_from-drop_zeros (c ∷ d ∷ text) = ground (arith, value_from-drop_zeros (d ∷ text))

value_from-le : (value : ℕ) (digits : Bytes) → value ≤ value_from value digits
unfolding value_from
value_from-le value [] = omega arith
value_from-le value (c ∷ digits) = omega (arith, value_from-le (value * 10 + (c - b'0')) digits)

-- A text of more than seven digits that does not begin with a zero is a large number.
value_from-long :
    (c : ℕ) (digits : Bytes)
    → b'0' < c
    → 7 ≤ length digits
    → max_problem_page < value_from 0 (c ∷ digits)
unfolding value_from
value_from-long c (d ∷ e ∷ f ∷ g ∷ h ∷ i ∷ j ∷ digits) k l =
    omega (arith, k, value_from-le _ digits)
value_from-long c [] k l = omega (arith, l)
value_from-long c (d ∷ []) k l = omega (arith, l)
value_from-long c (d ∷ e ∷ []) k l = omega (arith, l)
value_from-long c (d ∷ e ∷ f ∷ []) k l = omega (arith, l)
value_from-long c (d ∷ e ∷ f ∷ g ∷ []) k l = omega (arith, l)
value_from-long c (d ∷ e ∷ f ∷ g ∷ h ∷ []) k l = omega (arith, l)
value_from-long c (d ∷ e ∷ f ∷ g ∷ h ∷ i ∷ []) k l = omega (arith, l)

-- What is left of digits has one digit, or begins with another than zero.
drop_zeros-long :
    (text : Bytes)
    → all is_digit text ≡ true
    → 7 < length (drop_zeros text)
    → max_problem_page < value_from 0 (drop_zeros text)
unfolding drop_zeros is_digit
drop_zeros-long [] h k = omega (arith, k)
drop_zeros-long (c ∷ []) h k = omega (arith, k)
drop_zeros-long (c ∷ d ∷ text) h k = elim (Bool-cases (c == b'0')) [
  | inl e ↦ rw e (drop_zeros-long (d ∷ text) (ground (arith, h)) (ground (arith, e, k)))
  | inr e ↦ rw e (value_from-long c (d ∷ text) (ground (arith, h, e)) (ground (arith, e, k)))
]

-- A text of digits only, blanks at its ends aside, names the page `page` exactly when that is its
-- decimal value, from 1 to 1000000; leading zeros do not matter.
pub parse_page_iff :
    (text : Bytes) (page : ℕ)
    → is_empty (trim_ascii text) ≡ false
    → all is_digit (trim_ascii text) ≡ true
    → (parse_page text ≡ inr page)
      ↔ ((page ≡ value_from 0 (trim_ascii text)) × (1 ≤ page) × (page ≤ max_problem_page))
unfolding parse_page page_of
parse_page_iff text page h k =
    ground
      (arith, h, k, value_from-drop_zeros (trim_ascii text), drop_zeros-long (trim_ascii text) k)

-- Every text that names a page names one from 1 to 1000000, so the offset of its entries stays far
-- below the largest `int`.
pub parse_page_bounds :
    (text : Bytes) (page : ℕ)
    → parse_page text ≡ inr page
    → (1 ≤ page) × (page ≤ max_problem_page) × ((page - 1) * 20 < 2147483647)
unfolding parse_page page_of
parse_page_bounds text page h = ground (arith, h)
