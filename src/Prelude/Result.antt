-- ===== src/Prelude/Result.antt =====
-- Results that are an error or a value, the checks before them, and what holds of the value.
use vibe_coding.Prelude.{Bool, true, false, ◌≡◌, refl, subst, ◌⊎◌, inl, inr}

infixl 1 ◌>>=◌ ◌>>◌
unfoldable pub ◌>>=◌ : {E A B : Type 0} → E ⊎ A → (A → E ⊎ B) → E ⊎ B
(inl error >>= rest) = inl error
(inr a >>= rest) = rest a

unfoldable pub ◌>>◌ : {E A B : Type 0} → E ⊎ A → E ⊎ B → E ⊎ B
unfolding ◌>>=◌
first >> rest = first >>= λ _. rest

-- `if (!holds) { error = …; return false; }`
unfoldable pub require : {E : Type 0} → E → Bool → E ⊎ Unit {0}
require error true = inr tt
require error false = inl error

-- Where there is a value, it has the property.
abbrev pub Holds : {E A : Type 0} → (A → Type 0) → E ⊎ A → Type 0
Holds P (inl _) = Unit
Holds P (inr a) = P a

pub >>=-Holds :
    {E A B : Type 0} (Q : A → Type 0) (P : B → Type 0) (first : E ⊎ A) (rest : A → E ⊎ B)
    → Holds Q first
    → ((a : A) → Q a → Holds P (rest a))
    → Holds P (first >>= rest)
unfolding ◌>>=◌
>>=-Holds Q P (inl error) rest h k = tt
>>=-Holds Q P (inr a) rest h k = k a h

-- Behind a check, what it checks holds.
pub require-Holds :
    {E B : Type 0} (P : B → Type 0) (error : E) (holds : Bool) (rest : E ⊎ B)
    → (holds ≡ true → Holds P rest)
    → Holds P (require error holds >> rest)
unfolding require ◌>>◌ ◌>>=◌
require-Holds P error true rest k = k refl
require-Holds P error false rest k = tt

pub Holds-of : {E A : Type 0} (P : A → Type 0) (r : E ⊎ A) (a : A) → Holds P r → r ≡ inr a → P a
Holds-of P r a h e = subst (Holds P) e h

pub Holds-weaken :
    {E A : Type 0} (P Q : A → Type 0) (r : E ⊎ A) → ((a : A) → P a → Q a) → Holds P r → Holds Q r
Holds-weaken P Q (inl error) k h = tt
Holds-weaken P Q (inr a) k h = k a h
