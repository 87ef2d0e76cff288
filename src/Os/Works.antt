-- ===== src/Os/Works.antt =====
-- The replies of a system on which sockets and child processes work.
use tansa.Prelude.{◌≡◌, Bool, true, false, Option, none, some, Result, ok, err}
use tansa.Protocol.{Bytes, IoError}
use tansa.Os.{
  OsCall, OsReply, Command, Handle, spawn, take_stdin, take_stdout, write_all, wait, read_to_end,
  udp_bind, tcp_bind, tcp_local_addr, local_addr, join_multicast_v6, set_multicast_loop_v6, send_to,
}

abbrev pub IsOk : {A E : Type 0} → Result A E → Type 0
IsOk (ok a) = Unit {0}
IsOk (err e) = ⊥

abbrev pub IsGiven : {A : Type 0} → Option A → Type 0
IsGiven (some a) = Unit {0}
IsGiven none = ⊥

abbrev pub IsSuccess : {E : Type 0} → Result Bool E → Type 0
IsSuccess (ok true) = Unit {0}
IsSuccess (ok false) = ⊥
IsSuccess (err e) = ⊥

-- What the child processes of a run print, where a handle stands for one process: `prints` gives, by its handle, the output of a process, which is
-- also what its pipe holds, and `fits` tells which outputs a command may have.
pub record Outputs : Type 1 where
  pub prints : Handle → Bytes
  pub fits : Command → Bytes → Type 0

module _ (W : Outputs) where
  abbrev IsSpawned : Command → Result Handle IoError → Type 0
  IsSpawned c (ok p) = W.fits c (W.prints p)
  IsSpawned c (err e) = ⊥

  abbrev IsPipeOf : Handle → Option Handle → Type 0
  IsPipeOf p (some h) = W.prints h ≡ W.prints p
  IsPipeOf p none = ⊥

  abbrev IsReadFrom : Handle → Result Bytes IoError → Type 0
  IsReadFrom h (ok output) = output ≡ W.prints h
  IsReadFrom h (err e) = ⊥

  -- The calls for sockets and processes succeed, pipes are there, and processes end with success. A
  -- process prints what fits its command, and its pipe gives what it prints. Of the other calls it
  -- says nothing.
  abbrev pub Works : (c : OsCall) → OsReply c → Type 0
  Works (spawn c) r = IsSpawned c r
  Works (take_stdin p) r = IsGiven r
  Works (take_stdout p) r = IsPipeOf p r
  Works (write_all h b) r = IsOk r
  Works (wait p) r = IsSuccess r
  Works (read_to_end h) r = IsReadFrom h r
  Works (udp_bind a) r = IsOk r
  Works (local_addr h) r = IsOk r
  Works (join_multicast_v6 h a i) r = IsOk r
  Works (set_multicast_loop_v6 h b) r = IsOk r
  Works (send_to h b a) r = IsOk r
  Works (tcp_bind a) r = IsOk r
  Works (tcp_local_addr h) r = IsOk r
  Works _ r = Unit {0}
