-- ===== src/Tests/Systems.antt =====
-- A system that works, with a concrete output of every child process.
use text.Mathlib.Text.{◌==◌ as str_eq}
use Prim.Native.String.{String}
use tansa.Prelude.{refl, sym, subst, true, some, List, [], ◌∷◌, ok, if◌then◌else◌, ◌==◌}
use tansa.Async.Runs.{Trace}
use tansa.Async.Execute.{Answer}
use tansa.Net.{v6}
use tansa.Protocol.{Bytes}
use tansa.Network.IpNeighbor.{collect_results}
use tansa.Network.IpNeighbor.Robust.{IsParsable, parsable}
use tansa.Os.{
  os, Command, Handle, OsCall, spawn, take_stdin, take_stdout, write_all, close, wait, read_to_end,
  udp_bind, local_addr, join_multicast_v6, set_multicast_loop_v6, send_to, tcp_bind, tcp_local_addr,
  health_set_serving, grpc_connect, grpc_submit_response, print_discovered,
}
use tansa.Os.Works.{Works, IsOk}
use tansa.Tests.{remote, read_rows, readers}

-- `ip -json link` is process 7, `ip -family inet6 neighbor` is process 8, and PowerShell process 1.
abbrev is_json : List String → Handle
is_json [] = 8
is_json (a ∷ l) = if str_eq a "-json" then 7 else 8

abbrev started : Command → Handle
started c = if str_eq c.program "ip" then is_json c.args else 1

abbrev pub prints : Handle → Bytes
prints h = (if h == 7 then 91 else if h == 8 then 102 else 34) ∷ []

pub started-IsParsable : (c : Command) → IsParsable read_rows readers c (prints (started c))
started-IsParsable c = record {
  ip_link = λ e. subst (λ (c : Command). IsOk (readers.read_links (prints (started c)))) (sym e) tt;
  ip_neighbor = λ e.
      subst (λ (c : Command). IsOk (collect_results (readers.read_neighbors (prints (started c)))))
        (sym e) tt;
  power_shell = λ e.
      subst (λ (c : Command). IsOk (collect_results (read_rows (prints (started c))))) (sym e) tt;
}

abbrev pub working : Answer os
working past (spawn c) = ok (started c)
working past (take_stdin p) = some 2
working past (take_stdout p) = some p
working past (write_all h b) = ok tt
working past (close h) = tt
working past (wait p) = ok true
working past (read_to_end h) = ok (prints h)
working past (udp_bind a) = ok 4
working past (local_addr h) = ok (v6 remote)
working past (join_multicast_v6 h a i) = ok tt
working past (set_multicast_loop_v6 h b) = ok tt
working past (send_to h b a) = ok 2
working past (tcp_bind a) = ok 5
working past (tcp_local_addr h) = ok (v6 remote)
working past health_set_serving = tt
working past (grpc_connect u) = ok 6
working past (grpc_submit_response h r) = ok tt
working past (print_discovered a) = tt

pub working-Works :
    (past : Trace os) (c : OsCall) → Works (parsable read_rows readers prints) c (working past c)
working-Works past (spawn c) = started-IsParsable c
working-Works past (take_stdin p) = tt
working-Works past (take_stdout p) = refl
working-Works past (write_all h b) = tt
working-Works past (close h) = tt
working-Works past (wait p) = tt
working-Works past (read_to_end h) = refl
working-Works past (udp_bind a) = tt
working-Works past (local_addr h) = tt
working-Works past (join_multicast_v6 h a i) = tt
working-Works past (set_multicast_loop_v6 h b) = tt
working-Works past (send_to h b a) = tt
working-Works past (tcp_bind a) = tt
working-Works past (tcp_local_addr h) = tt
working-Works past health_set_serving = tt
working-Works past (grpc_connect u) = tt
working-Works past (grpc_submit_response h r) = tt
working-Works past (print_discovered a) = tt
