-- ===== src/Problem/Tests/Requests.antt =====
-- Concrete requests that create problems and test points.
use vibe_coding.Prelude.{arith, ◌≡◌, refl, true, inr, [], ◌∷◌, some, drop_while, drop_while_end}
use vibe_coding.Prelude.Int.{pos}
use vibe_coding.Prelude.Text.{codes, text_eq, is_space}
use vibe_coding.Prelude.Result.{◌>>◌, require}
use vibe_coding.Problem.Fields.{required, or_default, if_given, parse_int_in_range}
use vibe_coding.Problem.Validation.{ProblemData, default_memory_limit_kb, parse_create_problem}
use vibe_coding.Problem.Validation.Accepted.{IsProblem, parse_create_problem-IsProblem}
use vibe_coding.Problem.TestcaseValidation.{TestcaseData, IsTestcase, parse_create_testcase}
use vibe_coding.Problem.Tests.Documents.{documents, new_problem, new_testcase}

abbrev pub max_problem : ProblemData
max_problem = record {
  title = codes "Max";
  description = [];
  difficulty = codes "hard";
  tags = codes "dp" ∷ codes "math" ∷ [];
  time_limit_ms = pos 500;
  memory_limit_kb = default_memory_limit_kb;
  visible = true;
  samples = record { input = codes "1"; output = codes "2" } ∷ [];
}

pub max_problem-parsed : parse_create_problem documents new_problem ≡ inr max_problem
unfolding parse_create_problem ◌>>◌ require required text_eq drop_while_end drop_while is_space
    or_default parse_int_in_range
max_problem-parsed = refl

parse_create_problem-IsProblem_example : IsProblem max_problem
parse_create_problem-IsProblem_example =
    parse_create_problem-IsProblem documents new_problem max_problem max_problem-parsed

abbrev pub seventh : TestcaseData
seventh = record { input = codes "1 2"; output = codes "3"; ord = some (pos 7) }

seventh-parsed : parse_create_testcase documents new_testcase ≡ inr seventh
unfolding parse_create_testcase ◌>>◌ require required text_eq if_given parse_int_in_range
seventh-parsed = refl

pub seventh-IsTestcase : IsTestcase seventh
seventh-IsTestcase = record {
  input = omega arith;
  output = omega arith;
  ord = (omega arith, omega arith);
}
