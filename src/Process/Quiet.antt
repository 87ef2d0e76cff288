-- ===== src/Process/Quiet.antt =====
-- The child processes of main/src/process.rs send no datagram through a socket of the program.
use Prim.Native.String.{String}
use tansa.Prelude.{◌≡◌, refl, Bool, true, false, Option, none, List, Result, ok_or}
use tansa.Async.{Async, done, call}
use tansa.Protocol.{Bytes, IoError}
use tansa.Process.{
  eval, run, read_stdout, read_if_success, checked, redirected, child_process_creation,
  redirect_std_io,
}
use tansa.Network.Datagrams.{
  sent, IsQuiet, quiet_done, quiet_call, bind-IsQuiet, try-IsQuiet, with_error-IsQuiet,
}
use tansa.Async.Try.{◌>>=◌}
use tansa.Process.Outcomes.{run_command, eval_command}
use tansa.Os.{
  spawn, take_stdin, take_stdout, write_all, close, wait, read_to_end, os, OsCall, OsReply, Handle,
}

once-IsQuiet : (c : OsCall) → ((r : OsReply c) → sent c r ≡ none) → IsQuiet (call c done)
once-IsQuiet c n = quiet_call c n quiet_done

checked-IsQuiet : {A : Type 0} {m : Async os (Result A IoError)} → IsQuiet m → IsQuiet (checked m)
checked-IsQuiet h = with_error-IsQuiet child_process_creation h

redirected-IsQuiet : {m : Async os (Option Handle)} → IsQuiet m → IsQuiet (redirected m)
redirected-IsQuiet h = bind-IsQuiet h (λ pipe. quiet_done (ok_or pipe redirect_std_io))

read_if_success-IsQuiet : (p : Handle) (b : Bool) → IsQuiet (read_if_success p b)
unfolding read_stdout
read_if_success-IsQuiet p true =
    try-IsQuiet (redirected-IsQuiet (once-IsQuiet (take_stdout p) (λ r. refl)))
      (λ h. checked-IsQuiet (once-IsQuiet (read_to_end h) (λ r. refl)))
read_if_success-IsQuiet p false = quiet_done _

waited-IsQuiet : (p : Handle) → IsQuiet (checked (call (wait p) done) >>= read_if_success p)
waited-IsQuiet p =
    try-IsQuiet (checked-IsQuiet (once-IsQuiet (wait p) (λ r. refl))) (read_if_success-IsQuiet p)

pub run-IsQuiet : (command : String) (args : List String) → IsQuiet (run command args)
unfolding run
run-IsQuiet command args =
    try-IsQuiet (checked-IsQuiet (once-IsQuiet (spawn (run_command command args)) (λ r. refl)))
      waited-IsQuiet

pub eval-IsQuiet :
    (command : String) (args : List String) (input : Bytes) → IsQuiet (eval command args input)
unfolding eval
eval-IsQuiet command args input =
    try-IsQuiet (checked-IsQuiet (once-IsQuiet (spawn (eval_command command args)) (λ r. refl)))
      (λ p. try-IsQuiet (redirected-IsQuiet (once-IsQuiet (take_stdin p) (λ r. refl))) (λ i.
        try-IsQuiet (checked-IsQuiet (once-IsQuiet (write_all i input) (λ r. refl)))
          (λ w. quiet_call (close i) (λ r. refl) (λ r. waited-IsQuiet p))))
