-- ===== src/User/Request.antt =====
-- `parse_request` of src/user/admin_user_validation.h and admin_user_validation.cpp.
use vibe_coding.Prelude.{
  ℕ, ◌≤◌, ◌<◌, ◌≡◌, Bool, true, not, ◌&&◌, ◌||◌, ◌⊎◌, inl, inr, ◌==◌, arith, ltb, length,
  if◌then◌else◌, is_empty-length,
}
use vibe_coding.Prelude.Int.{ℤ, pos, negsuc}
use vibe_coding.Prelude.Text.{Bytes, codes, text_eq}
use vibe_coding.Prelude.Result.{◌>>=◌, ◌>>◌, require, Holds, >>=-Holds, require-Holds, Holds-of}
use vibe_coding.Auth.Validation.{ValidationError, validate_password, password_max_len}
use vibe_coding.Problem.Json.{Json}

-- The errors; `bad_password` says which rule for passwords is broken.
pub data RequestError : Type 0 where
  body_not_object no_action unknown_action bad_user_id no_new_password no_role bad_role :
      RequestError
  bad_password : ValidationError → RequestError

-- `Request` by its action: the fields that go with it, and the user's key.
pub data Request : Type 0 where
  password_reset : ℕ → Bytes → Request
  role_change : ℕ → Bytes → Request

unfoldable pub is_valid_role : Bytes → Bool
is_valid_role role = text_eq role (codes "admin") || text_eq role (codes "user")

-- `std::numeric_limits<std::int64_t>::max()`
abbrev max_int64 : ℕ
max_int64 = 9223372036854775807

-- A number of 64 bits as a key, which is positive.
unfoldable positive : ℤ → RequestError ⊎ ℕ
positive (negsuc n) = inl bad_user_id
positive (pos n) = if n == 0 then inl bad_user_id else inr n

unfoldable password_checked : ValidationError ⊎ Bytes → RequestError ⊎ Bytes
password_checked (inl error) = inl (bad_password error)
password_checked (inr password) = inr password

pub data Action : Type 0 where
  to_reset_password to_change_role : Action

-- The two names of an action.
unfoldable action_of : Bytes → RequestError ⊎ Action
action_of action =
    if text_eq action (codes "reset_password")
    then inr to_reset_password
    else if text_eq action (codes "change_role")
    then inr to_change_role
    else inl unknown_action

module _ (J : Json) where
  unfoldable parse_user_id : J.Value → RequestError ⊎ ℕ
  unfolding positive
  parse_user_id value =
      if J.is_number_unsigned value
      then (if J.get_unsigned value == 0 || ltb max_int64 (J.get_unsigned value)
          then inl bad_user_id
          else inr (J.get_unsigned value))
      else if not (J.is_number_integer value)
      then inl bad_user_id
      else positive (J.get_integer value)

  -- A field that has to be there and a text.
  unfoldable text_field : RequestError → J.Value → Bytes → RequestError ⊎ Bytes
  text_field error body key =
      require error (J.contains body key && J.is_string (J.at body key))
      >> inr (J.get_string (J.at body key))

  -- From the action and the user on.
  unfoldable request_of : J.Value → ℕ → Action → RequestError ⊎ Request
  unfolding text_field password_checked is_valid_role
  request_of body user_id to_reset_password = do
    new_password ← text_field no_new_password body (codes "new_password")
    checked ← password_checked (validate_password new_password)
    inr (password_reset user_id checked)
  request_of body user_id to_change_role = do
    role ← text_field no_role body (codes "role")
    require bad_role (is_valid_role role)
    inr (role_change user_id role)

  unfoldable pub parse_request : J.Value → RequestError ⊎ Request
  unfolding action_of parse_user_id request_of text_field
  parse_request body = do
    require body_not_object (J.is_object body)
    text ← text_field no_action body (codes "action")
    action ← action_of text
    require bad_user_id (J.contains body (codes "user_id"))
    user_id ← parse_user_id (J.at body (codes "user_id"))
    request_of body user_id action

-- What is asked is of a user, and a password that registrations admit, or a role that there is.
abbrev pub IsRequest : Request → Type 0
IsRequest (password_reset id password) =
    (0 < id) × (0 < length password) × (length password ≤ password_max_len)
IsRequest (role_change id role) = (0 < id) × (is_valid_role role ≡ true)

abbrev IsPassword : Bytes → Type 0
IsPassword password = (0 < length password) × (length password ≤ password_max_len)

positive-Holds : (i : ℤ) → Holds (λ id. 0 < id) (positive i)
unfolding positive
positive-Holds (negsuc n) = tt
positive-Holds (pos n) = ground arith

password_checked-Holds :
    (password : Bytes) → Holds IsPassword (password_checked (validate_password password))
unfolding password_checked validate_password
password_checked-Holds password = ground (arith, is_empty-length password)

module _ (J : Json) where
  user_id-Holds : (value : J.Value) → Holds (λ id. 0 < id) (parse_user_id J value)
  unfolding parse_user_id
  user_id-Holds value = ground (arith, positive-Holds (J.get_integer value))

  request_of-Holds :
      (body : J.Value) (id : ℕ) (action : Action)
      → 0 < id
      → Holds IsRequest (request_of J body id action)
  unfolding request_of text_field
  request_of-Holds body id to_reset_password h =
      >>=-Holds (λ _. Unit) _ _ _ (require-Holds _ _ _ _ λ _. tt)
        λ new_password _.
          >>=-Holds IsPassword _ _ _ (password_checked-Holds new_password)
            λ checked k. (h, k.0, k.1)
  request_of-Holds body id to_change_role h =
      >>=-Holds (λ _. Unit) _ _ _ (require-Holds _ _ _ _ λ _. tt)
        λ role _. require-Holds _ _ _ _ λ valid. (h, valid)

  any-Holds : {A : Type 0} (r : RequestError ⊎ A) → Holds (λ _. Unit) r
  any-Holds (inl error) = tt
  any-Holds (inr a) = tt

  parse_request-Holds : (body : J.Value) → Holds IsRequest (parse_request J body)
  unfolding parse_request
  parse_request-Holds body = require-Holds _ _ _ _ λ _.
      >>=-Holds (λ _. Unit) _ _ _ (any-Holds _)
        λ text _.
          >>=-Holds (λ _. Unit) _ _ _ (any-Holds _)
            λ action _. require-Holds _ _ _ _ λ _.
              >>=-Holds (λ id. 0 < id) _ _ _ (user_id-Holds (J.at body (codes "user_id")))
                λ id h. request_of-Holds body id action h

  -- Whatever a request holds: what is accepted is of a positive key, and a password of 1 to 128 bytes,
  -- or one of the two roles.
  pub parse_request-IsRequest :
      (body : J.Value) (r : Request) → parse_request J body ≡ inr r → IsRequest r
  parse_request-IsRequest body r h = Holds-of IsRequest _ r (parse_request-Holds body) h
