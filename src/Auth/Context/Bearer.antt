-- ===== src/Auth/Context/Bearer.antt =====
-- What the header of a request is taken for.
use vibe_coding.Prelude.{
  Option-cases, inl, inr, Option-cases, inl, inr, ℕ, ◌≡◌, ◌≢◌, ◌↔◌, refl, Bool, true, not, some, [],
  ◌∷◌, ◌++◌, arith, all, drop_while,
}
use vibe_coding.Prelude.Text.{Bytes, codes, is_space, to_upper, text_eq_iff}
use vibe_coding.Auth.Context.{
  AuthUser, match_scheme, word, after_word, token_of, separated, extract_bearer_token, check_admin,
  admin_ok,
}

-- No byte of the text is a blank.
abbrev pub solid : Bytes → Bool
solid = all (λ c. not (is_space c))

solid-word : (text : Bytes) → solid (word text) ≡ true
unfolding word
solid-word [] = refl
solid-word (c ∷ text) = ground (arith, solid-word text)

word-solid : (text : Bytes) → solid text ≡ true → word text ≡ text
unfolding word
word-solid [] h = refl
word-solid (c ∷ text) h = ground (arith, word-solid text, h)

after_word-solid : (text : Bytes) → solid text ≡ true → after_word text ≡ []
unfolding after_word
after_word-solid [] h = refl
after_word-solid (c ∷ text) h = ground (arith, after_word-solid text, h)

token_of-solid :
    (text token : Bytes) → token_of text ≡ some token → (solid token ≡ true) × (token ≢ [])
unfolding token_of
token_of-solid [] token e = cc
token_of-solid (c ∷ text) token e = ground (arith, e, solid-word (c ∷ text))

token_of-whole :
    (c : ℕ) (token : Bytes) → solid (c ∷ token) ≡ true → token_of (c ∷ token) ≡ some (c ∷ token)
unfolding token_of
token_of-whole c token h =
    ground (arith, h, after_word-solid (c ∷ token) h, word-solid (c ∷ token) h)

separated-solid :
    (text token : Bytes) → separated text ≡ some token → (solid token ≡ true) × (token ≢ [])
unfolding separated
separated-solid [] token e = cc
separated-solid (c ∷ text) token e =
    ground (arith, e, token_of-solid (drop_while is_space (c ∷ text)) token)

-- A token that was taken from a header is not empty and has no blank in it.
pub extract_bearer_token-solid :
    (authorization token : Bytes)
    → extract_bearer_token authorization ≡ some token
    → (solid token ≡ true) × (token ≢ [])
unfolding extract_bearer_token
extract_bearer_token-solid authorization token e =
    elim (Option-cases (match_scheme (codes "Bearer") (drop_while is_space authorization))) [
      | inl none_there ↦ ground (arith, e, none_there)
      | inr (rest, there) ↦ separated-solid rest token (ground (arith, e, there))
    ]

-- A token without blanks that is not empty is found behind the scheme, as it was written.
pub extract_bearer_token-codes :
    (c : ℕ) (token : Bytes)
    → solid (c ∷ token) ≡ true
    → extract_bearer_token (codes "Bearer " ++ c ∷ token) ≡ some (c ∷ token)
unfolding extract_bearer_token drop_while is_space to_upper
extract_bearer_token-codes c token h = ground (arith, h, token_of-whole c token h)

-- A user passes as an administrator exactly with the role "admin" and without the flag for the
-- first change of the password.
pub check_admin_iff :
    (user : AuthUser)
    → (check_admin user ≡ admin_ok) ↔ ((user.role ≡ codes "admin") × (user.reset_pwd_flag ≡ 0))
unfolding check_admin
check_admin_iff user = ground (arith, text_eq_iff user.role (codes "admin"))
