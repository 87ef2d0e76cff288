-- ===== src/Process/Outcomes.antt =====
-- The runs of a child process (`eval`, `run` and `probe` of main/src/process.rs).
use Prim.Native.String.{String}
use tansa.Prelude.{◌≡◌, refl, ap, Bool, true, false, none, some, List, [], ◌∷◌, ok, err}
use tansa.Async.Runs.{Trace, Run, returns, replied}
use tansa.Protocol.{Bytes, IoError}
use tansa.Os.{
  os, null, piped, inherit, Command, Handle, spawn, take_stdin, take_stdout, write_all, close, wait,
  read_to_end,
}
use tansa.Process.{eval, run, probe, read_stdout, no_color}

-- The two calls that read the output of a process that has ended.
pub record Output (process : Handle) (t : Trace os) (out : Bytes) : Type 0 where
  pub stdout : Handle
  pub reading : t ≡ (take_stdout process, some stdout) ∷ (read_to_end stdout, ok out) ∷ []

read_stdout-ok :
    (process : Handle) {t : Trace os} {out : Bytes}
    → Run (read_stdout process) t (ok out)
    → Output process t out
unfolding read_stdout
read_stdout-ok process (replied _ (some stdout) (replied _ (ok out) (returns _))) = record {
  stdout = stdout;
  reading = refl;
}
read_stdout-ok process (replied _ none q) = elim q [ ]
read_stdout-ok process (replied _ (some stdout) (replied _ (err e) q)) = elim q [ ]

abbrev pub eval_command : String → List String → Command
eval_command command args = record {
  program = command;
  args = args;
  env = no_color;
  stdin = piped;
  stdout = piped;
  stderr = inherit;
}

abbrev pub run_command : String → List String → Command
run_command command args = record {
  program = command;
  args = args;
  env = no_color;
  stdin = null;
  stdout = piped;
  stderr = inherit;
}

-- A process that was fed `input` and ended with success, after which its output was read. Its
-- input is closed before it is waited for.
pub record Evaluated (command : Command) (input : Bytes) (t : Trace os) (out : Bytes) : Type 0 where
  pub process : Handle
  pub stdin : Handle
  pub stdout : Handle
  pub history :
      t
      ≡ (spawn command, ok process)
        ∷ (take_stdin process, some stdin)
        ∷ (write_all stdin input, ok tt)
        ∷ (close stdin, tt)
        ∷ (wait process, ok true)
        ∷ (take_stdout process, some stdout)
        ∷ (read_to_end stdout, ok out)
        ∷ []

evaluated :
    (command : Command) (input : Bytes) (process stdin : Handle) {t : Trace os} {out : Bytes}
    → Output process t out
    → Evaluated command input
        ((spawn command, ok process)
          ∷ (take_stdin process, some stdin)
          ∷ (write_all stdin input, ok tt)
          ∷ (close stdin, tt)
          ∷ (wait process, ok true)
          ∷ t)
        out
evaluated command input process stdin o = record {
  process = process;
  stdin = stdin;
  stdout = o.stdout;
  history =
      ap
        (λ u.
          (spawn command, ok process)
          ∷ (take_stdin process, some stdin)
          ∷ (write_all stdin input, ok tt)
          ∷ (close stdin, tt)
          ∷ (wait process, ok true)
          ∷ u)
        o.reading;
}

-- `eval` returns an output only of a process that was fed all of the input and ended with success.
pub eval-ok :
    (command : String) (args : List String) (input : Bytes) {t : Trace os} {out : Bytes}
    → Run (eval command args input) t (ok out)
    → Evaluated (eval_command command args) input t out
unfolding eval
eval-ok command args input
      (replied _
        (ok p)
        (replied _ (some i) (replied _ (ok u) (replied _ v (replied _ (ok true) q))))) =
    evaluated (eval_command command args) input p i (read_stdout-ok p q)
eval-ok command args input
      (replied _
        (ok p)
        (replied _ (some i) (replied _ (ok u) (replied _ v (replied _ (ok false) q))))) =
    elim q [ ]
eval-ok command args input
      (replied _
        (ok p)
        (replied _ (some i) (replied _ (ok u) (replied _ v (replied _ (err e) q))))) =
    elim q [ ]
eval-ok command args input (replied _ (ok p) (replied _ (some i) (replied _ (err e) q))) =
    elim q [ ]
eval-ok command args input (replied _ (ok p) (replied _ none q)) = elim q [ ]
eval-ok command args input (replied _ (err e) q) = elim q [ ]

-- A process that ended with success, after which its output was read.
pub record Ran (command : Command) (t : Trace os) (out : Bytes) : Type 0 where
  pub process : Handle
  pub stdout : Handle
  pub history :
      t
      ≡ (spawn command, ok process)
        ∷ (wait process, ok true)
        ∷ (take_stdout process, some stdout)
        ∷ (read_to_end stdout, ok out)
        ∷ []

ran :
    (command : Command) (process : Handle) {t : Trace os} {out : Bytes}
    → Output process t out
    → Ran command ((spawn command, ok process) ∷ (wait process, ok true) ∷ t) out
ran command process o = record {
  process = process;
  stdout = o.stdout;
  history = ap (λ u. (spawn command, ok process) ∷ (wait process, ok true) ∷ u) o.reading;
}

-- `run` returns an output only of a process that ended with success.
pub run-ok :
    (command : String) (args : List String) {t : Trace os} {out : Bytes}
    → Run (run command args) t (ok out)
    → Ran (run_command command args) t out
unfolding run
run-ok command args (replied _ (ok p) (replied _ (ok true) q)) =
    ran (run_command command args) p (read_stdout-ok p q)
run-ok command args (replied _ (ok p) (replied _ (ok false) q)) = elim q [ ]
run-ok command args (replied _ (ok p) (replied _ (err e) q)) = elim q [ ]
run-ok command args (replied _ (err e) q) = elim q [ ]

-- A process that could not be run to success: it was not spawned, or waiting for it failed, or it
-- ended with a failure.
pub data ProbeFails (command : Command) : Trace os → Type 0 where
  not_spawned : (e : IoError) → ProbeFails command ((spawn command, err e) ∷ [])
  not_waited :
      (p : Handle) (e : IoError) → ProbeFails command ((spawn command, ok p) ∷ (wait p, err e) ∷ [])
  unsuccessful : (p : Handle) → ProbeFails command ((spawn command, ok p) ∷ (wait p, ok false) ∷ [])

abbrev pub probe_command : String → List String → Command
probe_command command args = record {
  program = command;
  args = args;
  env = [];
  stdin = null;
  stdout = null;
  stderr = inherit;
}

abbrev Probed : Command → Trace os → Bool → Type 0
Probed command t true = (p : Handle) × (t ≡ (spawn command, ok p) ∷ (wait p, ok true) ∷ [])
Probed command t false = ProbeFails command t

-- `probe` says whether the command was spawned and ended with success, and never fails.
pub probe_lem :
    (command : String) (args : List String) {t : Trace os} {answer : Bool}
    → Run (probe command args) t answer
    → Probed (probe_command command args) t answer
unfolding probe
probe_lem command args (replied _ (ok p) (replied _ (ok true) (returns _))) = (p, refl)
probe_lem command args (replied _ (ok p) (replied _ (ok false) (returns _))) = unsuccessful p
probe_lem command args (replied _ (ok p) (replied _ (err e) (returns _))) = not_waited p e
probe_lem command args (replied _ (err e) (returns _)) = not_spawned e
