-- ===== src/UnitTests/Processes.antt =====
-- The tests of main/src/process.rs, on systems whose commands end with a status that the test expects.
use Prim.Native.String.{String}
use tansa.Prelude.{
  ℕ, ◌≡◌, refl, Bool, true, false, Option, none, some, [], ◌∷◌, Result, ok, err, ◌==◌, ltb, ◌&&◌,
  ◌||◌, if◌then◌else◌,
}
use tansa.Async.Execute.{Answer, execute}
use tansa.Net.Display.{Text, chars}
use tansa.Protocol.{Bytes, IoError}
use tansa.Process.{
  eval, run, probe, read_stdout, ProcessError, child_process_creation, redirect_std_io,
  external_command,
}
use tansa.Os.{
  os, spawn, take_stdin, take_stdout, write_all, close, wait, read_to_end, udp_bind, local_addr,
  join_multicast_v6, set_multicast_loop_v6, send_to, tcp_bind, tcp_local_addr, health_set_serving,
  grpc_connect, grpc_submit_response, print_discovered,
}

abbrev lost : IoError
lost = record { code = 2 }

-- `str::trim` for ASCII, of what has no white space in front.
abbrev is_space : ℕ → Bool
is_space c = c == 32 || (ltb 8 c && ltb c 14)

abbrev without_end : ℕ → Text → Text
without_end c [] = if is_space c then [] else c ∷ []
without_end c (d ∷ l) = c ∷ d ∷ l

abbrev trim_end : Text → Text
trim_end [] = []
trim_end (c ∷ l) = without_end c (trim_end l)

abbrev trimmed : Result Bytes ProcessError → Option Text
trimmed (ok output) = some (trim_end output)
trimmed (err e) = none

-- `ProcessError::to_string`
abbrev to_string : ProcessError → String
to_string (child_process_creation e) = "Failed in create a child process"
to_string redirect_std_io = "Failed to redirect standard I/O"
to_string external_command = "External command failed"

abbrev error_string : Result Bytes ProcessError → Option String
error_string (ok output) = none
error_string (err e) = some (to_string e)

module _ (answer : Answer os) where
  abbrev eval_output : Option Text
  eval_output =
      trimmed
        ((execute answer [] (eval "pwsh" ("-Command" ∷ "-" ∷ []) (chars "Write-Output 123"))).1)

  abbrev eval_failure : Option String
  eval_failure =
      error_string
        ((execute answer [] (eval "pwsh" ("-Command" ∷ "-" ∷ []) (chars "Some-Unknown-Command"))).1)

  abbrev run_output : Option Text
  run_output = trimmed ((execute answer [] (run "pwsh" ("-Command" ∷ "Write-Output 123" ∷ []))).1)

  abbrev run_failure : Option String
  run_failure =
      error_string ((execute answer [] (run "pwsh" ("-Command" ∷ "Some-Unknown-Command" ∷ []))).1)

  abbrev probe_output : Bool
  probe_output = (execute answer [] (probe "pwsh" ("-Help" ∷ []))).1

  abbrev probe_non_existing_command : Bool
  probe_non_existing_command =
      (execute answer [] (probe "__some_unknown_command__" ("--version" ∷ []))).1

  abbrev probe_invalid_argument : Bool
  probe_invalid_argument = (execute answer [] (probe "pwsh" ("--some-invalid-argument" ∷ []))).1

-- A system on which the command starts, ends with this status, and prints this.
abbrev shell : Bool → Bytes → Answer os
shell success output past (spawn c) = ok 1
shell success output past (take_stdin p) = some 2
shell success output past (take_stdout p) = some 3
shell success output past (write_all h b) = ok tt
shell success output past (close h) = tt
shell success output past (wait p) = ok success
shell success output past (read_to_end h) = ok output
shell success output past (udp_bind a) = err lost
shell success output past (local_addr h) = err lost
shell success output past (join_multicast_v6 h a i) = err lost
shell success output past (set_multicast_loop_v6 h b) = err lost
shell success output past (send_to h b a) = err lost
shell success output past (tcp_bind a) = err lost
shell success output past (tcp_local_addr h) = err lost
shell success output past health_set_serving = tt
shell success output past (grpc_connect u) = err (record { code = 0 })
shell success output past (grpc_submit_response h r) = ok tt
shell success output past (print_discovered a) = tt

-- One without the command.
abbrev without_command : Answer os
without_command past (spawn c) = err lost
without_command past c = shell false [] past c

-- `Write-Output 123` prints `123` and a new line.
eval_passes : eval_output (shell true (chars "123\n")) ≡ some (chars "123")
unfolding execute eval read_stdout
eval_passes = refl

run_passes : run_output (shell true (chars "123\n")) ≡ some (chars "123")
unfolding execute run read_stdout
run_passes = refl

-- PowerShell fails at a command that it does not know, whatever it printed.
eval_fails : (output : Bytes) → eval_failure (shell false output) ≡ some "External command failed"
unfolding execute eval
eval_fails output = refl

run_fails : (output : Bytes) → run_failure (shell false output) ≡ some "External command failed"
unfolding execute run
run_fails output = refl

probe_passes : (output : Bytes) → probe_output (shell true output) ≡ true
unfolding execute probe
probe_passes output = refl

probe_non_existing_fails : probe_non_existing_command without_command ≡ false
unfolding execute probe
probe_non_existing_fails = refl

probe_invalid_argument_fails :
    (output : Bytes) → probe_invalid_argument (shell false output) ≡ false
unfolding execute probe
probe_invalid_argument_fails output = refl
