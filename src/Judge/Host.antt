-- ===== src/Judge/Host.antt =====
-- What the judge asks of the machine: the steady clock, the cancellation token, the workspace of
-- src/judge/workspace.h, the compile gate, and the `IExecutor` of src/judge/executor.h. Each call
-- reads and may change a state that the judge does not see.
use vibe_coding.Prelude.{ℕ, Bool}
use vibe_coding.Prelude.Int.{ℤ}
use vibe_coding.Prelude.Text.{Bytes}
use vibe_coding.Judge.Executor.{ProcessResult, CompileRequest, RunRequest}

pub data Outcome : Type 0 where
  ok : Bytes → Outcome
  failed : Bytes → Outcome

pub record Host : Type 1 where
  pub State : Type 0
  -- `steady_clock::now()`, in nanoseconds
  pub now : State → ℕ × State
  -- `cancel != nullptr && cancel->cancelled()`
  pub cancelled : State → Bool × State
  -- `Workspace::create(root, error)`: the workspace's path, or the error
  pub create_workspace : Bytes → State → Outcome × State
  -- the workspace's destructor, which removes the directory
  pub close_workspace : Bytes → State → State
  -- `workspace->write_file(name, text, error)`: `ok` with any text, or the error
  pub write_file : Bytes → Bytes → State → Outcome × State
  -- `CompileGateGuard(gate, deadline, cancel).acquired()`
  pub acquire_gate : ℤ → State → Bool × State
  -- `release_now()` of that guard
  pub release_gate : State → State
  pub compile : CompileRequest → State → ProcessResult × State
  pub run : RunRequest → Bytes → State → ProcessResult × State
  -- `std::filesystem::exists(path)`
  pub file_exists : Bytes → State → Bool × State
