-- ===== src/Network/IpNeighbor/Windows.antt =====
-- main/src/network/ip_neighbor/windows.rs: neighbors by PowerShell. The reading of its output by the
-- crate `csv` is a parameter.
use Prim.Native.String.{String}
use text.Mathlib.Text.{◌==◌ as str_eq}
use tansa.Prelude.{ℕ, not, List, [], ◌∷◌, map, Result, ok, ◌and_then◌, map_error}
use tansa.Async.{Async, done}
use tansa.Async.Try.{◌>>=◌, with_error}
use tansa.Net.{Ipv6Addr}
use tansa.Net.Display.{chars}
use tansa.Process.{eval, probe}
use tansa.Protocol.{Bytes}
use tansa.Network.IpNeighbor.Defs.{
  IpNeighbor, is_valid_ip, IpNeighborScanError, child_process, parse_csv, CsvError,
  IpNeighborScanner, collect_results, keep,
}
use tansa.Os.{os}

pub record NetNeighbor : Type 0 where
  pub interface_index : ℕ
  pub ip_address : Ipv6Addr
  pub state : String

-- `From<NetNeighbor> for IpNeighbor`
abbrev pub from_net_neighbor : NetNeighbor → IpNeighbor
from_net_neighbor n = record { address = n.ip_address; network_interface_index = n.interface_index }

unfoldable pub useful : List NetNeighbor → List IpNeighbor
useful neighbors = map from_net_neighbor (
    keep (λ n. is_valid_ip n.ip_address) (keep (λ n. not (str_eq n.state "Unreachable")) neighbors))

-- main/src/network/ip_neighbor/Print-IpNeighbors.ps1
pub print_ip_neighbors : Bytes
print_ip_neighbors =
    chars
      "Get-NetNeighbor -AddressFamily IPv6 | Select-Object -Property InterfaceIndex, IPAddress, State | ConvertTo-Csv"

-- `csv::Reader::from_reader(output).deserialize()`
module _ (read_neighbors : Bytes → List (Result NetNeighbor CsvError)) where
  unfoldable pub parse_output : Bytes → Result (List IpNeighbor) CsvError
  parse_output output =
      collect_results (read_neighbors output) and_then λ neighbors. ok (useful neighbors)

  unfoldable pub scan : Async os (Result (List IpNeighbor) IpNeighborScanError)
  scan = do
    stdout ← with_error child_process (eval "pwsh" ("-Command" ∷ "-" ∷ []) print_ip_neighbors)
    done (map_error parse_csv (parse_output stdout))

  unfoldable pub power_shell_scanner : IpNeighborScanner os
  power_shell_scanner = record {
    supports_current_operating_system =
        probe "pwsh" ("-Command" ∷ "Get-Command Get-NetNeighbor" ∷ []);
    scan = scan;
  }
