-- ===== src/Prelude/Lists.antt =====
-- Lists measured and indexed by native numbers, and the loops over them that several parts share.
use Prim.Native.Nat.{ℕ, zero, suc, ◌+◌}
use mathlib.Core.Path.{◌≡◌, refl, ap, ◌∙◌}
use mathlib.Core.Logic.{◌⊎◌, inl, inr, ◌↔◌}
use mathlib.Core.Bool.{Bool, true, false, ◌&&◌}
use mathlib.Core.List.{List, [], ◌∷◌, ◌++◌}
use native.Mathlib.Omega.{arith}
use vibe_coding.Prelude.Tests.{if◌then◌else◌, Bool-cases, ◌==◌}

module _ {ℓ} {A : Type ℓ} where
  abbrev pub length : List A → ℕ
  length [] = 0
  length (x ∷ xs) = suc (length xs)

  abbrev pub get_or : List A → ℕ → A → A
  get_or [] i d = d
  get_or (x ∷ xs) zero d = x
  get_or (x ∷ xs) (suc i) d = get_or xs i d

  abbrev pub is_empty : List A → Bool
  is_empty [] = true
  is_empty (x ∷ xs) = false

  abbrev pub all : (A → Bool) → List A → Bool
  all p [] = true
  all p (x ∷ xs) = p x && all p xs

  pub length-append : (xs ys : List A) → length (xs ++ ys) ≡ length xs + length ys
  length-append [] ys = omega arith
  length-append (x ∷ xs) ys = omega (arith, length-append xs ys)

module _ {ℓ κ} {A : Type ℓ} (P : A → Type κ) where
  abbrev pub All : List A → Type κ
  All [] = Unit
  All (x ∷ xs) = P x × All xs

  pub All-append : (xs ys : List A) → All xs → All ys → All (xs ++ ys)
  All-append [] ys h k = k
  All-append (x ∷ xs) ys h k = (h.0, All-append xs ys h.1 k)

  pub All-of : ((x : A) → P x) → (xs : List A) → All xs
  All-of h [] = tt
  All-of h (x ∷ xs) = (h x, All-of h xs)

-- `while (!v.empty() && p(v.back())) v.pop_back();`
module _ {ℓ} {A : Type ℓ} where
  unfoldable pub drop_while_end : (A → Bool) → List A → List A
  drop_while_end p [] = []
  drop_while_end p (x ∷ xs) =
      let rest = drop_while_end p xs in if p x && is_empty rest then [] else x ∷ rest

  unfoldable pub drop_while : (A → Bool) → List A → List A
  drop_while p [] = []
  drop_while p (x ∷ xs) = let rest = drop_while p xs in if p x then rest else x ∷ xs

module _ {ℓ} {A : Type ℓ} (p : A → Bool) where
  pub drop_while_end_idem :
      (xs : List A) → drop_while_end p (drop_while_end p xs) ≡ drop_while_end p xs
  unfolding drop_while_end
  drop_while_end_idem [] = refl
  drop_while_end_idem (x ∷ xs) = ground (arith, drop_while_end_idem xs)

  pub drop_while_end-All {κ} :
      (P : A → Type κ) (xs : List A) → All P xs → All P (drop_while_end p xs)
  unfolding drop_while_end
  drop_while_end-All P [] h = tt
  drop_while_end-All P (x ∷ xs) h = elim (Bool-cases (p x && is_empty (drop_while_end p xs))) [
    | inl e ↦ rw e tt
    | inr e ↦ rw e (h.0, drop_while_end-All P xs h.1)
  ]

-- Lists of lists that agree at every index, missing entries read as `[]`.
module _ {ℓ} {A : Type ℓ} where
  pub get_or-drop_while_end :
      (xs : List (List A)) (i : ℕ) → get_or (drop_while_end is_empty xs) i [] ≡ get_or xs i []
  unfolding drop_while_end
  get_or-drop_while_end [] i = refl
  get_or-drop_while_end ([] ∷ xs) zero = ground arith
  get_or-drop_while_end ((c ∷ x) ∷ xs) zero = refl
  get_or-drop_while_end ([] ∷ xs) (suc i) = ground (arith, get_or-drop_while_end xs i)
  get_or-drop_while_end ((c ∷ x) ∷ xs) (suc i) = get_or-drop_while_end xs i

  pub drop_while_end-ext :
      (xs ys : List (List A))
      → ((i : ℕ) → get_or xs i [] ≡ get_or ys i [])
      → drop_while_end is_empty xs ≡ drop_while_end is_empty ys
  unfolding drop_while_end
  drop_while_end-ext [] [] h = refl
  drop_while_end-ext [] (y ∷ ys) h = ground (arith, h 0, drop_while_end-ext [] ys (λ i. h (suc i)))
  drop_while_end-ext (x ∷ xs) [] h = ground (arith, h 0, drop_while_end-ext xs [] (λ i. h (suc i)))
  drop_while_end-ext (x ∷ xs) (y ∷ ys) h =
      ground (arith, h 0, drop_while_end-ext xs ys (λ i. h (suc i)))

-- Some entry of the list has a property.
abbrev pub Any {ℓ} : {A : Type ℓ} → (A → Type 0) → List A → Type 0
Any P [] = ⊥
Any P (x ∷ xs) = P x ⊎ Any P xs

-- How often a number stands in a list, and sums over a list.
abbrev pub count : ℕ → List ℕ → ℕ
count n [] = 0
count n (m ∷ ms) = (if m == n then 1 else 0) + count n ms

pub count-append : (n : ℕ) (ms ns : List ℕ) → count n (ms ++ ns) ≡ count n ms + count n ns
count-append n [] ns = ground arith
count-append n (m ∷ ms) ns = ground (arith, count-append n ms ns)

module _ {ℓ} {A : Type ℓ} where
  abbrev pub sum_of : (A → ℕ) → List A → ℕ
  sum_of f [] = 0
  sum_of f (x ∷ xs) = f x + sum_of f xs

  pub sum_of-append : (f : A → ℕ) (xs ys : List A) → sum_of f (xs ++ ys) ≡ sum_of f xs + sum_of f ys
  sum_of-append f [] ys = omega arith
  sum_of-append f (x ∷ xs) ys = omega (arith, sum_of-append f xs ys)

module _ {ℓ} {A : Type ℓ} (p : A → Bool) where
  drop_while_kept :
      (x : A) (xs : List A)
      → p x ≡ false
      → drop_while p (drop_while_end p (x ∷ xs)) ≡ drop_while_end p (x ∷ xs)
  unfolding drop_while drop_while_end
  drop_while_kept x xs h = ground (arith, h)

  drop_while-drop_while_end :
      (xs : List A)
      → drop_while p (drop_while_end p (drop_while p xs)) ≡ drop_while_end p (drop_while p xs)
  unfolding drop_while drop_while_end
  drop_while-drop_while_end [] = refl
  drop_while-drop_while_end (x ∷ xs) = elim (Bool-cases (p x)) [
    | inl e ↦ rw (e, drop_while) (drop_while-drop_while_end xs)
    | inr e ↦ rw (e, drop_while) (drop_while_kept x xs e)
  ]

  -- Removing what `p` names from both ends a second time changes nothing.
  pub trim_idem :
      (xs : List A)
      → drop_while_end p (drop_while p (drop_while_end p (drop_while p xs)))
        ≡ drop_while_end p (drop_while p xs)
  trim_idem xs =
      ap (drop_while_end p) (drop_while-drop_while_end xs) ∙ drop_while_end_idem p (drop_while p xs)

pub is_empty-length {ℓ} : {A : Type ℓ} (xs : List A) → (is_empty xs ≡ true) ↔ (length xs ≡ 0)
is_empty-length [] = ground arith
is_empty-length (x ∷ xs) = ground arith
