-- ===== src/Network/IpNeighbor/Select.antt =====
-- `ip_neighbor_scanner` of main/src/network/ip_neighbor/mod.rs: the first scanner that works here.
use tansa.Prelude.{Option, none, some, Result, List, [], ◌∷◌}
use tansa.Async.{Signature, Async, done, ◌>>=◌}
use tansa.Async.Futures.{FuturesUtil}
use tansa.Network.IpNeighbor.Defs.{IpNeighborScanner, dummy_scanner, CsvError}
use tansa.Network.IpNeighbor.Linux.{Readers, ip_route2_scanner}
use tansa.Network.IpNeighbor.Windows.{NetNeighbor, power_shell_scanner}
use tansa.Protocol.{Bytes}
use tansa.Os.{os}

abbrev pub or_dummy : {S : Signature} → Option (IpNeighborScanner S) → IpNeighborScanner S
or_dummy none = dummy_scanner
or_dummy (some supported_scanner) = supported_scanner

module _ {S : Signature} (F : FuturesUtil S) where
  -- The search through the boxed scanners.
  unfoldable pub first_supported : List (IpNeighborScanner S) → Async S (IpNeighborScanner S)
  first_supported scanners =
      F.next (F.filter (λ s. s.supports_current_operating_system) (F.iter scanners)) >>= λ found.
      done (or_dummy found)

-- The scanners of PowerShell and of `iproute2`, in this order, by the readers of their outputs.
abbrev pub scanners :
    (Bytes → List (Result NetNeighbor CsvError)) → Readers → List (IpNeighborScanner os)
scanners read_power_shell read_ip_route2 =
    power_shell_scanner read_power_shell ∷ ip_route2_scanner read_ip_route2 ∷ []

module _ (F : FuturesUtil os) where
  unfoldable pub ip_neighbor_scanner :
      (Bytes → List (Result NetNeighbor CsvError)) → Readers → Async os (IpNeighborScanner os)
  unfolding first_supported power_shell_scanner ip_route2_scanner
  ip_neighbor_scanner read_power_shell read_ip_route2 =
      first_supported F (scanners read_power_shell read_ip_route2)
