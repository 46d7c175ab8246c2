-- ===== src/Submit/Status/First.antt =====
-- Since when a problem is accepted.
use vibe_coding.Prelude.{
  ap, subst, ◌≡◌, ◌⊎◌, inl, inr, refl, ◌∙◌, sym, Bool, true, false, List, [], ◌∷◌, All, Any,
  is_empty, arith, Bool-cases,
}
use vibe_coding.Prelude.Text.{Bytes}
use vibe_coding.Submit.Status.{
  StatusState, Settled, text_lt, best_time, compute_status_update, stored, settle, settle_all,
}
use vibe_coding.Submit.Status.Order.{text_lt-eq, text_lt_trans, text_lt_irrefl}

-- Each submission has a time.
abbrev pub Timed : List Settled → Type 0
Timed = All λ s. is_empty s.created_at ≡ false

-- `r` is the time of an accepted submission, and none was accepted before it.
pub record IsEarliest (r : Bytes) (xs : List Settled) : Type 0 where
  pub none_before : All (λ s. (s.accepted ≡ false) ⊎ (text_lt s.created_at r ≡ false)) xs
  pub found : Any (λ s. (s.accepted ≡ true) × (s.created_at ≡ r)) xs

-- The same from a time `f` on that is recorded already.
record IsEarlier (f r : Bytes) (xs : List Settled) : Type 0 where
  not_later : text_lt f r ≡ false
  none_before : All (λ s. (s.accepted ≡ false) ⊎ (text_lt s.created_at r ≡ false)) xs
  found : (r ≡ f) ⊎ Any (λ s. (s.accepted ≡ true) × (s.created_at ≡ r)) xs

pub not_lt_trans : (s t u : Bytes) → text_lt s t ≡ false → text_lt t u ≡ false → text_lt s u ≡ false
not_lt_trans s t u h k = ground (arith, h, k, text_lt-eq s t, text_lt_trans t s u)

best_time-step :
    (a : Bool) (t f r : Bytes) (xs : List Settled)
    → is_empty t ≡ false
    → is_empty f ≡ false
    → IsEarlier (best_time a t f) r xs
    → (text_lt f r ≡ false)
      × ((a ≡ false) ⊎ (text_lt t r ≡ false))
      × ((r ≡ f) ⊎ ((a ≡ true) × (t ≡ r)) ⊎ Any (λ s. (s.accepted ≡ true) × (s.created_at ≡ r)) xs)
unfolding best_time
best_time-step a t f r xs h k e = ground (
  arith,
  h,
  k,
  e.not_later,
  e.found,
  text_lt-eq t f,
  not_lt_trans f t r,
  not_lt_trans t f r,
  text_lt_trans f t f,
  text_lt_irrefl f,
)

best_time-there :
    (a : Bool) (t f : Bytes)
    → is_empty t ≡ false
    → is_empty f ≡ false
    → is_empty (best_time a t f) ≡ false
unfolding best_time
best_time-there a t f h k = ground (arith, h, k)

settle-accepted :
    (state : StatusState) (x : Settled)
    → state.accepted ≡ true
    → is_empty x.created_at ≡ false
    → is_empty state.first_ac_at ≡ false
    → ((settle state x).accepted ≡ true)
      × ((settle state x).first_ac_at ≡ best_time x.accepted x.created_at state.first_ac_at)
unfolding settle compute_status_update stored
settle-accepted state x s h k =
    ground (arith, s, best_time-there x.accepted x.created_at state.first_ac_at h k)

settle_all-IsEarlier :
    (state : StatusState) (xs : List Settled)
    → state.accepted ≡ true
    → is_empty state.first_ac_at ≡ false
    → Timed xs
    → IsEarlier state.first_ac_at (settle_all state xs).first_ac_at xs
unfolding settle_all
settle_all-IsEarlier state [] s k h = record {
  not_later = text_lt_irrefl state.first_ac_at;
  none_before = tt;
  found = inl refl;
}
settle_all-IsEarlier state (x ∷ xs) s k h =
    let settled = settle-accepted state x s h.0 k in
    let there = best_time-there x.accepted x.created_at state.first_ac_at h.0 k in
    let later =
      settle_all-IsEarlier (settle state x) xs settled.0 (ap is_empty settled.1 ∙ there) h.1 in
    let r = (settle_all (settle state x) xs).first_ac_at in
    let step =
      best_time-step x.accepted x.created_at state.first_ac_at r xs h.0 k
        (subst (λ f. IsEarlier f r xs) settled.1 later) in
    record { not_later = step.0; none_before = (step.1, later.none_before); found = step.2 }

-- A problem that was not accepted and becomes accepted by submissions that each have a time is
-- recorded as accepted since the earliest time of an accepted one among them.
pub settle_all-IsEarliest :
    (state : StatusState) (xs : List Settled)
    → state.accepted ≡ false
    → Timed xs
    → (settle_all state xs).accepted ≡ true
    → IsEarliest (settle_all state xs).first_ac_at xs
unfolding settle_all settle compute_status_update stored
settle_all-IsEarliest state [] s h e = cc
settle_all-IsEarliest state (x ∷ xs) s h e = elim (Bool-cases x.accepted) [
  | inl a ↦
      let later =
        settle_all-IsEarlier (settle state x) xs (ground (arith, s, a)) (ground (arith, s, a, h.0))
          h.1 in
      let same : (settle state x).first_ac_at ≡ x.created_at = ground (arith, s, a) in
      record {
        none_before = (inr (ground (arith, same, later.not_later)), later.none_before);
        found = elim later.found [ inl p ↦ inl (a, sym (p ∙ same)) | inr q ↦ inr q ];
      }
  | inr a ↦
      let later = settle_all-IsEarliest (settle state x) xs (ground (arith, s, a)) h.1 e in
      record { none_before = (inl a, later.none_before); found = inr later.found }
]
