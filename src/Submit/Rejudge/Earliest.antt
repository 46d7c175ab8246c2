-- ===== src/Submit/Rejudge/Earliest.antt =====
-- What `recompute` of src/db/submissions.cpp finds as the first time of acceptance.
use vibe_coding.Prelude.{
  ◌≡◌, refl, sym, subst, Bool, false, true, not, Option, none, some, List, [], ◌∷◌, All, Any, arith,
  if-cases, inl, inr, is_empty, if◌then◌else◌,
}
use vibe_coding.Prelude.Text.{Bytes}
use vibe_coding.Db.Tables.{SubmissionRecord}
use vibe_coding.Db.Submissions.{earliest}
use vibe_coding.Submit.Status.{text_lt}
use vibe_coding.Submit.Status.Order.{text_lt_irrefl, text_lt_trans}
use vibe_coding.Submit.Status.First.{not_lt_trans}

abbrev pub NoneBefore : Bytes → List SubmissionRecord → Type 0
NoneBefore time = All λ s. text_lt s.created_at time ≡ false

-- There are none; or one was created at the time, and none before.
abbrev pub IsFirst : Option Bytes → List SubmissionRecord → Type 0
IsFirst none rows = rows ≡ []
IsFirst (some time) rows = NoneBefore time rows × Any (λ s. s.created_at ≡ time) rows

none-before :
    (time earlier : Bytes) (rows : List SubmissionRecord)
    → text_lt time earlier ≡ false
    → NoneBefore time rows
    → NoneBefore earlier rows
none-before time earlier [] h k = k
none-before time earlier (s ∷ rows) h k =
    (not_lt_trans s.created_at time earlier k.0 h, none-before time earlier rows h k.1)

not_lt-lt : (s t : Bytes) → text_lt s t ≡ true → text_lt t s ≡ false
not_lt-lt s t h = ground (arith, h, text_lt_irrefl s, text_lt_trans s t s)

earliest-step :
    (s : SubmissionRecord) (rows : List SubmissionRecord) (later : Option Bytes)
    → IsFirst later rows
    → IsFirst
        (elim later [
          | none ↦ some s.created_at
          | some time ↦ some (if text_lt time s.created_at then time else s.created_at)
        ])
        (s ∷ rows)
earliest-step s rows none h =
    ((text_lt_irrefl s.created_at, subst (NoneBefore s.created_at) (sym h) tt), inl refl)
earliest-step s rows (some time) h =
    if-cases (λ (t : Bytes). NoneBefore t (s ∷ rows) × Any (λ r. r.created_at ≡ t) (s ∷ rows))
      (text_lt time s.created_at) _ _ (λ e. ((not_lt-lt time s.created_at e, h.0), inr h.1))
      (λ e. ((text_lt_irrefl s.created_at, none-before time s.created_at rows e h.0), inl refl))

pub earliest-IsFirst : (rows : List SubmissionRecord) → IsFirst (earliest rows) rows
unfolding earliest
earliest-IsFirst [] = refl
earliest-IsFirst (s ∷ rows) = earliest-step s rows (earliest rows) (earliest-IsFirst rows)

-- Is there a time?
abbrev pub is_there : Option Bytes → Bool
is_there none = false
is_there (some time) = true

there-step :
    (later : Option Bytes) (created_at : Bytes)
    → is_there (elim later [
      | none ↦ some created_at
      | some time ↦ some (if text_lt time created_at then time else created_at)
    ])
      ≡ true
there-step none created_at = refl
there-step (some time) created_at = refl

pub earliest-there : (rows : List SubmissionRecord) → is_there (earliest rows) ≡ not (is_empty rows)
unfolding earliest
earliest-there [] = refl
earliest-there (s ∷ rows) = there-step (earliest rows) s.created_at
