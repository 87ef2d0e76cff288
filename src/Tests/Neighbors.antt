-- ===== src/Tests/Neighbors.antt =====
-- main/src/network/ip_neighbor at concrete inputs, some of them those of the tests of the source.
use Prim.Native.String.{String}
use mathlib.Core.List.{filter_map}
use tansa.Prelude.{◌≡◌, refl, true, some, List, [], ◌∷◌, Result, ok, err}
use tansa.Async.Runs.{Trace, Run, returns, replied}
use tansa.Net.{Ipv6Addr, ipv6}
use tansa.Protocol.{Bytes}
use tansa.Process.{eval, run, read_stdout, probe}
use tansa.Process.Outcomes.{eval_command, run_command, probe_command}
use tansa.Network.IpNeighbor.{is_valid_ip, CsvError, dummy_scanner}
use tansa.Network.IpNeighbor.Linux
use tansa.Network.IpNeighbor.Linux.{Neighbor, Link, Readers, ip_route2_scanner}
use tansa.Network.IpNeighbor.Linux.Useful.{neighbor_of, useful_lem}
use tansa.Network.IpNeighbor.Windows
use tansa.Network.IpNeighbor.Windows.{NetNeighbor, print_ip_neighbors}
use tansa.Network.IpNeighbor.Scans.{net_neighbor_of, useful-net_neighbor_of}
use tansa.Network.IpNeighbor.Select.{ip_neighbor_scanner, first_supported, scanners}
use tansa.Network.IpNeighbor.Selected.{Chosen, ip_neighbor_scanner-Chosen}
use tansa.Os.{os, spawn, take_stdin, take_stdout, write_all, close, wait, read_to_end}
use tansa.Network.IpNeighbor.Failures.{LinuxEnds, scan-LinuxEnds, WindowsEnds, scan-WindowsEnds}
use tansa.Tests.{lost, futures, lawful, near, neighbor, lost}

abbrev row : String → Ipv6Addr → Neighbor
row state ip = record {
  ip = ip;
  dev = "dev";
  ifname = "eth0";
  lladdr = "lladdr";
  mac = "mac";
  router = "";
  state = state;
}

abbrev rows : List Neighbor
rows = row "REACHABLE" near ∷ row "FAILED" near ∷ row "STALE" (ipv6 0 0 0 0 0 0 0 1) ∷ []

abbrev links : List Link
links = record { ifindex = 1; ifname = "lo" } ∷ record { ifindex = 1000; ifname = "eth0" } ∷ []

useful_lem_example : Linux.useful rows links ≡ filter_map (neighbor_of links) rows
useful_lem_example = useful_lem rows links

one_useful : Linux.useful rows links ≡ neighbor ∷ []
unfolding Linux.useful is_valid_ip
one_useful = refl

abbrev net_rows : List NetNeighbor
net_rows =
    record { interface_index = 1000; ip_address = near; state = "Reachable" }
    ∷ record { interface_index = 1000; ip_address = near; state = "Unreachable" }
    ∷ []

useful-net_neighbor_of_example : Windows.useful net_rows ≡ filter_map net_neighbor_of net_rows
useful-net_neighbor_of_example = useful-net_neighbor_of net_rows

-- The outputs are read as one row and the links above, whatever they are.
abbrev readers : Readers
readers = record {
  read_neighbors = λ output. ok (row "REACHABLE" near) ∷ [];
  read_links = λ output. ok links;
}

abbrev linux_trace : Trace os
linux_trace =
    (spawn (run_command "ip" ("-json" ∷ "link" ∷ [])), ok 1)
    ∷ (wait 1, ok true)
    ∷ (take_stdout 1, some 2)
    ∷ (read_to_end 2, ok [])
    ∷ (spawn (run_command "ip" ("-family" ∷ "inet6" ∷ "neighbor" ∷ [])), ok 3)
    ∷ (wait 3, ok true)
    ∷ (take_stdout 3, some 4)
    ∷ (read_to_end 4, ok [])
    ∷ []

linux_run : Run (Linux.scan readers) linux_trace (ok (neighbor ∷ []))
unfolding Linux.scan Linux.parse_output Linux.useful is_valid_ip run read_stdout
linux_run = replied _ (ok 1) (
    replied _ (ok true) (
      replied _ (some 2) (
        replied _ (ok []) (
          replied _ (ok 3)
            (replied _ (ok true) (replied _ (some 4) (replied _ (ok []) (returns _))))))))

scan-LinuxEnds_example : LinuxEnds readers linux_trace (ok (neighbor ∷ []))
scan-LinuxEnds_example = scan-LinuxEnds readers (ok (neighbor ∷ [])) linux_run

abbrev read_rows : Bytes → List (Result NetNeighbor CsvError)
read_rows output =
    ok (record { interface_index = 1000; ip_address = near; state = "Reachable" }) ∷ []

abbrev windows_trace : Trace os
windows_trace =
    (spawn (eval_command "pwsh" ("-Command" ∷ "-" ∷ [])), ok 1)
    ∷ (take_stdin 1, some 2)
    ∷ (write_all 2 print_ip_neighbors, ok tt)
    ∷ (close 2, tt)
    ∷ (wait 1, ok true)
    ∷ (take_stdout 1, some 3)
    ∷ (read_to_end 3, ok [])
    ∷ []

windows_run : Run (Windows.scan read_rows) windows_trace (ok (neighbor ∷ []))
unfolding Windows.scan Windows.parse_output Windows.useful is_valid_ip eval read_stdout
windows_run = replied _ (ok 1) (
    replied _ (some 2) (
      replied _ (ok tt)
        (replied _ tt (replied _ (ok true) (replied _ (some 3) (replied _ (ok []) (returns _)))))))

scan-WindowsEnds_example : WindowsEnds read_rows windows_trace (ok (neighbor ∷ []))
scan-WindowsEnds_example = scan-WindowsEnds read_rows (ok (neighbor ∷ [])) windows_run

-- Neither command can be spawned.
abbrev unsupported : Trace os
unsupported =
    (spawn (probe_command "pwsh" ("-Command" ∷ "Get-Command Get-NetNeighbor" ∷ [])), err lost)
    ∷ (spawn (probe_command "ip" ("-Version" ∷ [])), err lost)
    ∷ []

chosen_run : Run (ip_neighbor_scanner futures read_rows readers) unsupported dummy_scanner
unfolding ip_neighbor_scanner first_supported Linux.ip_route2_scanner Windows.power_shell_scanner
    probe
chosen_run = replied _ (err lost) (replied _ (err lost) (returns _))

ip_neighbor_scanner-Chosen_example : Chosen (scanners read_rows readers) unsupported dummy_scanner
ip_neighbor_scanner-Chosen_example =
    ip_neighbor_scanner-Chosen futures lawful read_rows readers unsupported dummy_scanner chosen_run
