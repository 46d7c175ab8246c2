-- ===== src/User/Tests.antt =====
-- Concrete requests of src/user.
use vibe_coding.Prelude.{◌≡◌, refl, inr}
use vibe_coding.Prelude.Text.{codes, text_eq}
use vibe_coding.Prelude.Result.{◌>>◌, require}
use vibe_coding.Problem.Tests.Documents.{documents, demotion}
use vibe_coding.User.Request.{IsRequest, role_change, parse_request, parse_request-IsRequest}

demotion-parsed : parse_request documents demotion ≡ inr (role_change 4 (codes "user"))
unfolding parse_request ◌>>◌ require text_eq
demotion-parsed = refl

parse_request-IsRequest_example : IsRequest (role_change 4 (codes "user"))
parse_request-IsRequest_example =
    parse_request-IsRequest documents demotion (role_change 4 (codes "user")) demotion-parsed
