-- ===== src/Problem/Tests/Documents.antt =====
-- A small kind of JSON values, and requests in it.
use vibe_coding.Prelude.{ℕ, Bool, true, false, ◌||◌, List, [], ◌∷◌, if◌then◌else◌}
use vibe_coding.Prelude.Int.{pos}
use vibe_coding.Prelude.Text.{Bytes, codes, text_eq}
use vibe_coding.Problem.Json.{Json}

-- Arrays and objects are lists of their elements and members, behind each other.
pub data Document : Type 0 where
  null no_items no_members : Document
  text : Bytes → Document
  number : ℕ → Document
  flag : Bool → Document
  item : Document → Document → Document
  member : Bytes → Document → Document → Document

abbrev pub is_object : Document → Bool
is_object no_members = true
is_object (member key value rest) = true
is_object _ = false

abbrev pub is_array : Document → Bool
is_array no_items = true
is_array (item value rest) = true
is_array _ = false

abbrev pub is_text : Document → Bool
is_text (text bytes) = true
is_text _ = false

abbrev pub is_flag : Document → Bool
is_flag (flag b) = true
is_flag _ = false

abbrev pub is_number : Document → Bool
is_number (number n) = true
is_number _ = false

abbrev pub has_member : Document → Bytes → Bool
has_member (member key value rest) name = text_eq key name || has_member rest name
has_member _ name = false

abbrev pub member_at : Document → Bytes → Document
member_at (member key value rest) name =
    let later = member_at rest name in if text_eq key name then value else later
member_at _ name = null

abbrev pub items_of : Document → List Document
items_of (item value rest) = value ∷ items_of rest
items_of _ = []

abbrev pub text_of : Document → Bytes
text_of (text bytes) = bytes
text_of _ = []

abbrev pub flag_of : Document → Bool
flag_of (flag b) = b
flag_of _ = false

abbrev pub number_of : Document → ℕ
number_of (number n) = n
number_of _ = 0

abbrev pub documents : Json
documents = record {
  Value = Document;
  is_object = is_object;
  is_array = is_array;
  is_string = is_text;
  is_boolean = is_flag;
  is_number_integer = is_number;
  is_number_unsigned = is_number;
  contains = has_member;
  at = member_at;
  items = items_of;
  get_string = text_of;
  get_bool = flag_of;
  get_unsigned = number_of;
  get_integer = λ d. pos (number_of d);
}

-- A problem with a blank in its title, two tags and a sample.
abbrev pub new_problem : Document
new_problem = member (codes "title") (text (codes " Max")) (
    member (codes "difficulty") (text (codes "hard")) (
      member (codes "tags") (item (text (codes "dp ")) (item (text (codes "math")) no_items)) (
        member (codes "time_limit_ms") (number 500) (
          member (codes "samples")
            (item
              (member (codes "input") (text (codes "1"))
                (member (codes "output") (text (codes "2")) no_members))
              no_items)
            no_members))))

abbrev pub new_testcase : Document
new_testcase =
    member (codes "input") (text (codes "1 2"))
      (member (codes "output") (text (codes "3")) (member (codes "ord") (number 7) no_members))

abbrev pub demotion : Document
demotion =
    member (codes "action") (text (codes "change_role"))
      (member (codes "user_id") (number 4) (member (codes "role") (text (codes "user")) no_members))
