-- ===== src/Process/Failures.antt =====
-- How `eval` and `run` of main/src/process.rs fail: the call at which they stopped.
use Prim.Native.String.{String}
use tansa.Prelude.{Result, true, false, none, some, List, [], ◌∷◌, ok, err}
use tansa.Async.Runs.{Trace, Run, returns, replied}
use tansa.Protocol.{Bytes, IoError}
use tansa.Os.{
  os, Command, Handle, spawn, take_stdin, take_stdout, write_all, close, wait, read_to_end,
}
use tansa.Process.{
  eval, run, read_stdout, ProcessError, child_process_creation, redirect_std_io, external_command,
}
use tansa.Process.Outcomes.{Ran, run-ok, Evaluated, eval-ok, eval_command, run_command}

-- From the wait on, the calls of a process that failed: the wait failed; the process ended with a
-- failure; it has no output; or its output could not be read.
pub data WaitFails (p : Handle) : Trace os → ProcessError → Type 0 where
  not_waited : (e : IoError) → WaitFails p ((wait p, err e) ∷ []) (child_process_creation e)
  unsuccessful : WaitFails p ((wait p, ok false) ∷ []) external_command
  no_stdout : WaitFails p ((wait p, ok true) ∷ (take_stdout p, none) ∷ []) redirect_std_io
  not_read :
      (stdout : Handle) (e : IoError)
      → WaitFails p
          ((wait p, ok true) ∷ (take_stdout p, some stdout) ∷ (read_to_end stdout, err e) ∷ [])
          (child_process_creation e)

-- A process that was not spawned, or failed from the wait on.
pub data RunFails (command : Command) : Trace os → ProcessError → Type 0 where
  not_spawned :
      (e : IoError) → RunFails command ((spawn command, err e) ∷ []) (child_process_creation e)
  failed :
      (p : Handle) {t : Trace os} {e : ProcessError}
      → WaitFails p t e
      → RunFails command ((spawn command, ok p) ∷ t) e

-- Whenever `run` returns an error, one of its calls failed so, and it made no call after that one.
pub run-err :
    (command : String) (args : List String) {t : Trace os} {e : ProcessError}
    → Run (run command args) t (err e)
    → RunFails (run_command command args) t e
unfolding run read_stdout
run-err command args (replied _ (err e) (returns _)) = not_spawned e
run-err command args (replied _ (ok p) (replied _ (err e) (returns _))) = failed p (not_waited e)
run-err command args (replied _ (ok p) (replied _ (ok false) (returns _))) = failed p unsuccessful
run-err command args (replied _ (ok p) (replied _ (ok true) (replied _ none (returns _)))) =
    failed p no_stdout
run-err command args
      (replied _
        (ok p)
        (replied _ (ok true) (replied _ (some h) (replied _ (err e) (returns _))))) =
    failed p (not_read h e)
run-err command args
      (replied _ (ok p) (replied _ (ok true) (replied _ (some h) (replied _ (ok out) q)))) =
    elim q [ ]

-- A process that was not spawned, or has no input, or did not take all of it, or failed from the
-- wait on, after its input was closed.
pub data EvalFails (command : Command) (input : Bytes) : Trace os → ProcessError → Type 0 where
  not_spawned :
      (e : IoError)
      → EvalFails command input ((spawn command, err e) ∷ []) (child_process_creation e)
  no_stdin :
      (p : Handle)
      → EvalFails command input ((spawn command, ok p) ∷ (take_stdin p, none) ∷ []) redirect_std_io
  not_written :
      (p stdin : Handle) (e : IoError)
      → EvalFails command input
          ((spawn command, ok p) ∷ (take_stdin p, some stdin) ∷ (write_all stdin input, err e) ∷ [])
          (child_process_creation e)
  failed :
      (p stdin : Handle) {t : Trace os} {e : ProcessError}
      → WaitFails p t e
      → EvalFails command input
          ((spawn command, ok p)
            ∷ (take_stdin p, some stdin)
            ∷ (write_all stdin input, ok tt)
            ∷ (close stdin, tt)
            ∷ t)
          e

-- Whenever `eval` returns an error, one of its calls failed so, and it made no call after that one.
pub eval-err :
    (command : String) (args : List String) (input : Bytes) {t : Trace os} {e : ProcessError}
    → Run (eval command args input) t (err e)
    → EvalFails (eval_command command args) input t e
unfolding eval read_stdout
eval-err command args input (replied _ (err e) (returns _)) = not_spawned e
eval-err command args input (replied _ (ok p) (replied _ none (returns _))) = no_stdin p
eval-err command args input
      (replied _ (ok p) (replied _ (some i) (replied _ (err e) (returns _)))) =
    not_written p i e
eval-err command args input
      (replied _
        (ok p)
        (replied _ (some i) (replied _ (ok u) (replied _ v (replied _ (err e) (returns _)))))) =
    failed p i (not_waited e)
eval-err command args input
      (replied _
        (ok p)
        (replied _ (some i) (replied _ (ok u) (replied _ v (replied _ (ok false) (returns _)))))) =
    failed p i unsuccessful
eval-err command args input
      (replied _ (ok p) (
        replied _
          (some i)
          (replied _ (ok u) (replied _ v (replied _ (ok true) (replied _ none (returns _))))))) =
    failed p i no_stdout
eval-err command args input
      (replied _ (ok p) (
        replied _ (some i) (
          replied _ (ok u) (
            replied _ v
              (replied _ (ok true) (replied _ (some h) (replied _ (err e) (returns _)))))))) =
    failed p i (not_read h e)
eval-err command args input
      (replied _ (ok p) (
        replied _ (some i) (
          replied _
            (ok u)
            (replied _ v (replied _ (ok true) (replied _ (some h) (replied _ (ok out) q))))))) =
    elim q [ ]

-- The two ends of `run`: an output of a process that ended with success, or a failure.
abbrev pub RunEnds : Command → Trace os → Result Bytes ProcessError → Type 0
RunEnds command t (ok out) = Ran command t out
RunEnds command t (err e) = RunFails command t e

-- Every run of `run` ends in one of these ways: the output is read of a process that ended with
-- success; or a call fails, is the last one, and gives the error.
pub run-RunEnds :
    (command : String) (args : List String) {t : Trace os} (r : Result Bytes ProcessError)
    → Run (run command args) t r
    → RunEnds (run_command command args) t r
run-RunEnds command args (ok out) q = run-ok command args q
run-RunEnds command args (err e) q = run-err command args q

-- The two ends of `eval`.
abbrev pub EvalEnds : Command → Bytes → Trace os → Result Bytes ProcessError → Type 0
EvalEnds command input t (ok out) = Evaluated command input t out
EvalEnds command input t (err e) = EvalFails command input t e

-- Every run of `eval` ends in one of these ways: a process is fed all of the input, which is then
-- closed, before it is waited for, and its output is read after it ended with success; or a call
-- fails, is the last one, and gives the error.
pub eval-EvalEnds :
    (command : String) (args : List String) (input : Bytes) {t : Trace os}
    (r : Result Bytes ProcessError)
    → Run (eval command args input) t r
    → EvalEnds (eval_command command args) input t r
eval-EvalEnds command args input (ok out) q = eval-ok command args input q
eval-EvalEnds command args input (err e) q = eval-err command args input q
