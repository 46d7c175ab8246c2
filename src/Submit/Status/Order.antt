-- ===== src/Submit/Status/Order.antt =====
-- The order in which submissions are settled does not matter.
use mathlib.Core.List.{Perm, Permᴰ, List}
use mathlib.Core.Logic.{∥∥₁_elim}
use vibe_coding.Prelude.{
  length, ◌⊎◌, ◌+◌, ◌↔◌, Any, ◌≡◌, refl, Bool, true, false, [], ◌∷◌, arith, sym, ap, ◌∙◌,
}
use vibe_coding.Prelude.Text.{Bytes}
use vibe_coding.Submit.Status.{
  text_lt, best_time, StatusState, settle, settle_all, compute_status_update, Settled, stored,
}

pub text_lt-eq : (s t : Bytes) → text_lt s t ≡ false → text_lt t s ≡ false → s ≡ t
unfolding text_lt
text_lt-eq [] [] h k = refl
text_lt-eq [] (d ∷ t) h k = cc
text_lt-eq (c ∷ s) [] h k = cc
text_lt-eq (c ∷ s) (d ∷ t) h k = ground (arith, h, k, text_lt-eq s t)

pub text_lt_trans : (s t u : Bytes) → text_lt s t ≡ true → text_lt t u ≡ true → text_lt s u ≡ true
unfolding text_lt
text_lt_trans s [] u h k = cc
text_lt_trans s (d ∷ t) [] h k = cc
text_lt_trans [] (d ∷ t) (e ∷ u) h k = refl
text_lt_trans (c ∷ s) (d ∷ t) (e ∷ u) h k = ground (arith, h, k, text_lt_trans s t u)

pub text_lt_irrefl : (s : Bytes) → text_lt s s ≡ false
unfolding text_lt
text_lt_irrefl [] = refl
text_lt_irrefl (c ∷ s) = ground (arith, text_lt_irrefl s)

best_time_comm :
    (a b : Bool) (s t f : Bytes) → best_time a s (best_time b t f) ≡ best_time b t (best_time a s f)
unfolding best_time
best_time_comm a b s t f = ground (
  arith,
  text_lt-eq s t,
  text_lt_trans s t f,
  text_lt_trans t s f,
  text_lt_irrefl s,
  text_lt_trans s t s,
  text_lt_trans t s t,
  text_lt_irrefl t,
  text_lt_trans s f t,
  text_lt_trans t f s,
)

settle_comm :
    (state : StatusState) (x y : Settled) → settle (settle state x) y ≡ settle (settle state y) x
unfolding settle compute_status_update stored best_time
settle_comm state x y = ground (
  arith,
  best_time_comm x.accepted y.accepted x.created_at y.created_at state.first_ac_at,
  best_time_comm x.accepted y.accepted x.created_at y.created_at [],
)

settle_all-Permᴰ :
    (state : StatusState) (xs ys : List Settled)
    → Permᴰ xs ys
    → settle_all state xs ≡ settle_all state ys
unfolding settle_all
settle_all-Permᴰ state _ _ Permᴰ.nil = refl
settle_all-Permᴰ state _ _ (Permᴰ.cons {a} {b} {l₁} {l₂} e p) =
    rw e (settle_all-Permᴰ (settle state b) l₁ l₂ p)
settle_all-Permᴰ state _ _ (Permᴰ.swap {a} {b} {l = l} e k) =
    rw (sym e, sym k) (ap (λ s. settle_all s l) (settle_comm state a b))
settle_all-Permᴰ state _ _ (Permᴰ.trans {l₁} {l₂} {l₃} p q) =
    settle_all-Permᴰ state l₁ l₂ p ∙ settle_all-Permᴰ state l₂ l₃ q

StatusState-set : IsSet StatusState
StatusState-set = hlevel

-- Whatever the order in which the submissions of a user for a problem are settled, the state that
-- they end in is the same: the count, whether the problem is accepted, and since when.
pub settle_all-Perm :
    (state : StatusState) (xs ys : List Settled)
    → Perm xs ys
    → settle_all state xs ≡ settle_all state ys
settle_all-Perm state xs ys p = ∥∥₁_elim p (StatusState-set _ _) (settle_all-Permᴰ state xs ys)

-- The count goes up by one for each settled submission, and the problem is accepted exactly when it
-- was before or one of them is.
pub settle_all-counts :
    (state : StatusState) (xs : List Settled)
    → ((settle_all state xs).submit_count ≡ state.submit_count + length xs)
      × (((settle_all state xs).accepted ≡ true)
          ↔ ((state.accepted ≡ true) ⊎ Any (λ s. s.accepted ≡ true) xs))
unfolding settle_all settle compute_status_update stored
settle_all-counts state [] = ground arith
settle_all-counts state (x ∷ xs) = ground (arith, settle_all-counts (settle state x) xs)
