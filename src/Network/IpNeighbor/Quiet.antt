-- ===== src/Network/IpNeighbor/Quiet.antt =====
-- The scanners for neighbors of main/src/network/ip_neighbor send no datagram.
use tansa.Prelude.{List, [], ◌∷◌, Result, ok}
use tansa.Async.Runs.{Trace}
use tansa.Protocol.{Bytes}
use tansa.Process.Quiet.{run-IsQuiet, eval-IsQuiet}
use tansa.Network.Datagrams.{IsQuiet, quiet_done, try-IsQuiet, with_error-IsQuiet}
use tansa.Network.IpNeighbor.Defs.{IpNeighborScanner, CsvError, child_process}
use tansa.Network.IpNeighbor.Linux
use tansa.Network.IpNeighbor.Linux.{Readers, ip_route2_scanner}
use tansa.Network.IpNeighbor.Windows
use tansa.Network.IpNeighbor.Windows.{NetNeighbor, print_ip_neighbors, power_shell_scanner}
use tansa.Network.IpNeighbor.Select.{scanners}
use tansa.Network.IpNeighbor.Selected.{Chosen, none_left, this_one, not_this_one}
use tansa.Os.{os}

pub ip_route2-IsQuiet : (R : Readers) → IsQuiet (ip_route2_scanner R).scan
unfolding ip_route2_scanner Linux.scan
ip_route2-IsQuiet R =
    try-IsQuiet (with_error-IsQuiet child_process (run-IsQuiet "ip" ("-json" ∷ "link" ∷ [])))
      (λ links.
        try-IsQuiet
          (with_error-IsQuiet child_process
            (run-IsQuiet "ip" ("-family" ∷ "inet6" ∷ "neighbor" ∷ [])))
          (λ neighbors. quiet_done _))

pub power_shell-IsQuiet :
    (read : Bytes → List (Result NetNeighbor CsvError)) → IsQuiet (power_shell_scanner read).scan
unfolding power_shell_scanner Windows.scan
power_shell-IsQuiet read =
    try-IsQuiet
      (with_error-IsQuiet child_process
        (eval-IsQuiet "pwsh" ("-Command" ∷ "-" ∷ []) print_ip_neighbors))
      (λ output. quiet_done _)

data AllQuiet : List (IpNeighborScanner os) → Type 0 where
  no_scanner : AllQuiet []
  quiet_scanner :
      {s : IpNeighborScanner os} {l : List (IpNeighborScanner os)}
      → IsQuiet s.scan
      → AllQuiet l
      → AllQuiet (s ∷ l)

IsQuiet-of :
    {l : List (IpNeighborScanner os)} {t : Trace os} {s : IpNeighborScanner os}
    → AllQuiet l
    → Chosen l t s
    → IsQuiet s.scan
IsQuiet-of no_scanner none_left = quiet_done (ok [])
IsQuiet-of (quiet_scanner q qs) (this_one _ _ _ asked) = q
IsQuiet-of (quiet_scanner q qs) (not_this_one _ _ _ _ _ _ _ _ c) = IsQuiet-of qs c

-- Whichever scanner is chosen, its scan sends no datagram.
pub Chosen-IsQuiet :
    (read : Bytes → List (Result NetNeighbor CsvError)) (R : Readers) {t : Trace os}
    {s : IpNeighborScanner os}
    → Chosen (scanners read R) t s
    → IsQuiet s.scan
Chosen-IsQuiet read R c =
    IsQuiet-of
      (quiet_scanner (power_shell-IsQuiet read) (quiet_scanner (ip_route2-IsQuiet R) no_scanner)) c
