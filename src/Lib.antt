-- ===== src/Lib.antt =====
-- The verification library of the online judge (src in the repository). The program takes
-- submissions over HTTP, queues them, judges each by compiling it and running it on test points in
-- a sandbox, and keeps the outcome in a database.
--
-- Judge models src/judge. Judge.Status, Judge.Executor and Judge.Message have its data (status.h,
-- executor.h and the texts shown to users); Judge.Comparator is comparator.cpp, Judge.Deadline
-- deadline.h and deadline.cpp, Judge.Classification and Judge.Diagnostics classification.cpp;
-- Judge.Engine is judge.h and judge.cpp: JudgeEngine::judge calls the executor once to compile and
-- once for each test point, hands what it sees to classify_case, and sums up. Judge.Gate is
-- compile_gate.h and compile_gate.cpp, how many compilers run at once; Judge.Manager is manager.h
-- and manager.cpp, the queue between the HTTP threads and the worker threads that call the engine.
--
-- The machine is a parameter of the engine: Judge.Host is a record of the calls that judge() makes
-- (IExecutor of executor.h, Workspace, CompileGate, the clock, the cancellation token), each a
-- function that reads and changes a state of its own, so the theorems hold for every behaviour of
-- processes, clock and file system. JudgeManager is a state with one step for each section of code
-- under its mutex; Judge.Manager.Step.Step is the relation of all steps of all threads, Reach its
-- closure, and what a task's handler gives is arbitrary.
--
-- Db models src/db. Db.Tables has the tables of schema.cpp as lists of rows, and what SELECT, UPDATE
-- and ORDER BY do to them; Db.Connection is the one connection of database.h and database.cpp that
-- all threads share, with BEGIN, COMMIT and ROLLBACK. Any call of SQLite may fail: a list of faults
-- says which. Db.Columns is how rows are read: a text is stored whole, and Statement::column_text
-- gives it up to its first NUL; the `read_` and `load_` functions stand between a SELECT and what the
-- stores answer, and where a theorem says what is stored it speaks of the row itself. The times
-- of user_problem_status, which the program writes itself, have no NUL and are read as they are. A call that fails changes nothing, a COMMIT that fails leaves the transaction open, and
-- a ROLLBACK that succeeds restores the tables of its BEGIN; `durable` is what another connection,
-- or this one behind a crash, finds. Db.Connection.Body is the code between BEGIN and COMMIT, one
-- statement behind the other, and Db.Connection.transaction the frame that the services write out
-- around it under the transaction mutex. Db.Users is users.cpp and user_admin.cpp, Db.Submissions
-- submissions.cpp, Db.InFlight in_flight.cpp, Db.Problems parts of problems.cpp,
-- Db.ProblemAdmin problem_admin.cpp and Db.TestcaseAdmin testcase_admin.cpp: what an administrator does
-- to problems and test points.
--
-- Auth models src/auth: Auth.RateLimit is rate_limit.h and rate_limit.cpp (the failed logins of
-- each source in a sliding window; Auth.RateLimit.Log keeps a log of them, from which nothing
-- expires, to compare with), Auth.Validation validation.cpp, Auth.Context the header parser
-- of context.cpp and the check of authorize.cpp, Auth.Authenticate the look-up of the user in
-- context.cpp; Auth.Register, Auth.Login and Auth.PasswordChange are the services of register.cpp,
-- login.cpp and password_change.cpp over Db.Users; Auth.Register.Lost is a registration beside the
-- transaction of another thread. Problem.ListQuery is src/problem/list_query.cpp,
-- Problem.Validation validation.cpp and Problem.TestcaseValidation testcase_validation.cpp: requests
-- as an administrator writes them, over Problem.Json, a record of what the code uses of a JSON value;
-- Problem.Fields has the parts that both share, Problem.Tags the tags as the text of a column.
-- User.Request is parse_request of src/user/admin_user_validation.cpp.
--
-- Submit models src/submit. Submit.Input has the checks of a submission, whose languages are handed
-- to Judge; Submit.Status the status of a user's problem as compute_status_update and the store of
-- src/db/submissions.cpp carry it from one settled submission to the next; Submit.PerCase what a
-- submitter is told of each test point. Submit.Service is SubmitService of submit.cpp: it reads the
-- problem and its test points, calls the judge engine (a parameter, which Submit.Service.Judged
-- fills with JudgeEngine::judge), and settles the result in one transaction together with the task
-- in flight and the status; Submit.Service.Persist writes the task down before. Submit.Rejudge is
-- RejudgeService of rejudge.cpp. What other threads do to the database between two reads and during
-- a judgement are arbitrary functions.
--
-- Numbers: points of the steady clock are nanoseconds and are integers, the limits that the code
-- compares with zero are integers, counts, keys and codes are natural numbers; sums stay far below
-- 2^63 and are not wrapped. The conversion to int in Deadline::remaining_ms is held to its maximum
-- as in the code, and the one in parse_int_in_range wraps at 2^32. There is no fuel: every loop over data is a recursion over its list or
-- its text, loops with a bound (the attempts for an account or an identifier) recur on the attempts
-- that are left, and each round of a loop that waits is a step of its own.
--
-- Parameters: argon2 (hash and verify), the signing and verifying of tokens, the random source, the
-- clock, and JSON values and their text. Where a theorem needs it, a hypothesis says that a hash
-- verifies against its password as it is read back, that an account is drawn without a NUL, or that a
-- token is signed.
--
-- Not modelled: system calls (local_executor.cpp, sandbox.cpp, workspace.cpp), the HTTP server,
-- the statements that only list rows for a page, seed data, start-up and logging: these are input
-- and output, or calls of libraries. Neither is src/submit/recovery.cpp.
pub mod Prelude
pub mod Judge
pub mod Auth
pub mod Problem
pub mod Submit
pub mod Db
pub mod User
