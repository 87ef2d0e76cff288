-- ===== src/Process.antt =====
-- main/src/process.rs: child processes.
pub mod Outcomes
pub mod Failures
pub mod Quiet
pub mod Robust
use Prim.Native.String.{String}
use tansa.Prelude.{
  Bool, true, false, Option, none, some, List, [], ◌∷◌, Result, ok, err, ok_or, if◌then◌else◌,
}
use tansa.Async
use tansa.Async.{Async, done, call}
use tansa.Async.Try.{◌>>=◌, ◌>>◌, with_error}
use tansa.Protocol.{Bytes, IoError}
use tansa.Os.{
  os, Stdio, null, piped, inherit, Command, Handle, spawn, take_stdin, take_stdout, write_all,
  close, wait, read_to_end,
}

pub data ProcessError : Type 0 where
  child_process_creation : IoError → ProcessError
  redirect_std_io external_command : ProcessError

-- `e?` on a reply of the operating system: `From<std::io::Error>` is `child_process_creation`.
abbrev pub checked : {A : Type 0} → Async os (Result A IoError) → Async os (Result A ProcessError)
checked = with_error child_process_creation

-- `.take().ok_or_else(|| ProcessError::RedirectStdIo)?`
abbrev pub redirected : Async os (Option Handle) → Async os (Result Handle ProcessError)
redirected m = Async.◌>>=◌ m (λ pipe. done (ok_or pipe redirect_std_io))

abbrev pub no_color : List (String × String)
no_color = ("NO_COLOR", "1") ∷ []

unfoldable pub read_stdout : Handle → Async os (Result Bytes ProcessError)
read_stdout process = do
  stdout ← redirected (call (take_stdout process) done)
  checked (call (read_to_end stdout) done)

-- The test on `process.wait().await?.success()`.
abbrev pub read_if_success : Handle → Bool → Async os (Result Bytes ProcessError)
read_if_success process success =
    if success then read_stdout process else done (err external_command)

unfoldable pub eval : String → List String → Bytes → Async os (Result Bytes ProcessError)
eval command args stdin = do
  process ← checked (
      call
        (spawn (record {
          program = command;
          args = args;
          env = no_color;
          stdin = piped;
          stdout = piped;
          stderr = inherit;
        }))
        done)
  stdin_pipe ← redirected (call (take_stdin process) done)
  checked (call (write_all stdin_pipe stdin) done)
  call (close stdin_pipe) (λ closed. done (ok closed))
  success ← checked (call (wait process) done)
  read_if_success process success

unfoldable pub run : String → List String → Async os (Result Bytes ProcessError)
run command args = do
  process ← checked (
      call
        (spawn (record {
          program = command;
          args = args;
          env = no_color;
          stdin = null;
          stdout = piped;
          stderr = inherit;
        }))
        done)
  success ← checked (call (wait process) done)
  read_if_success process success

abbrev waited_for : Result Bool IoError → Async os Bool
waited_for (ok status) = done status
waited_for (err e) = done false

abbrev spawned : Result Handle IoError → Async os Bool
spawned (ok process) = call (wait process) waited_for
spawned (err e) = done false

unfoldable pub probe : String → List String → Async os Bool
probe command args =
    call
      (spawn (record {
        program = command;
        args = args;
        env = [];
        stdin = null;
        stdout = null;
        stderr = inherit;
      }))
      spawned
