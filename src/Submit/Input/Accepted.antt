-- ===== src/Submit/Input/Accepted.antt =====
-- What a submission's language and code must be.
use vibe_coding.Prelude.{
  ◌≤◌, ◌≡◌, ◌↔◌, ◌⊎◌, inl, inr, refl, false, none, some, [], ◌∷◌, arith, all, length, Any,
}
use vibe_coding.Prelude.Text.{Bytes, codes, text_eq, is_space, to_lower}
use vibe_coding.Judge.Executor.{Language, cpp17, c11, parse_language, language_name}
use vibe_coding.Submit.Input.{parse_submission_language, validate_source_code, max_source_bytes}

not-blank : (code : Bytes) → (all is_space code ≡ false) ↔ Any (λ c. is_space c ≡ false) code
not-blank [] = ground arith
not-blank (c ∷ code) = ground (arith, not-blank code)

-- A program is taken exactly when it has at most 65536 bytes, and one that is not a blank.
pub validate_source_code_iff :
    (code : Bytes)
    → (validate_source_code code ≡ none)
      ↔ ((length code ≤ max_source_bytes) × Any (λ c. is_space c ≡ false) code)
unfolding validate_source_code
validate_source_code_iff code = ground (arith, not-blank code)

canonical :
    (text name : Bytes)
    → parse_submission_language text ≡ some name
    → (name ≡ codes "cpp17") ⊎ (name ≡ codes "c11")
unfolding parse_submission_language
canonical text name h = ground (arith, h)

-- Every language that a submission is taken for is one that the judge knows: its canonical name is
-- that of a language of the executor, and is parsed as that one.
pub parse_submission_language-judged :
    (text name : Bytes)
    → parse_submission_language text ≡ some name
    → ((language : Language) × (name ≡ language_name language)
        × (parse_language name ≡ some language))
unfolding parse_submission_language language_name parse_language to_lower text_eq
parse_submission_language-judged text name h = elim (canonical text name h) [
  | inl e ↦ (cpp17, e, rw e refl)
  | inr e ↦ (c11, e, rw e refl)
]
