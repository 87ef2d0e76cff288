-- ===== src/Cli.antt =====
-- cli/src/main.rs: the command line. The reading of the arguments by `clap` is left out: a command
-- is its result.
pub mod Printed
pub mod Stopped
pub mod Served
use tansa.Prelude.{List, ℕ, Bool, Result, ok}
use tansa.Async.{Async, done, call}
use tansa.Async.Try.{with_error}
use tansa.Async.Stream.{Stream}
use tansa.Async.Futures.{FuturesUtil}
use tansa.Protocol.{DiscoveryPacket, Prost, Bytes}
use tansa.Network.UdpReceiver.{UdpFramed}
use tansa.Network.IpNeighbor.{IpNeighborScanner, CsvError}
use tansa.ResponseCollector.{Router}
use tansa.Service.{Service}
use tansa.Server
use tansa.Server.{ServeError}
use tansa.Scanner
use tansa.Scanner.{ScanError}
use tansa.Network.IpNeighbor.Windows.{NetNeighbor}
use tansa.Network.IpNeighbor.Linux.{Readers}
use tansa.Os.{os, print_discovered}

pub data Command : Type 0 where
  serve : ℕ → ℕ → Command
  scan : ℕ → Command

-- `anyhow::Error`, from the two errors of the crate.
pub data CliError : Type 0 where
  serve_error : ServeError → CliError
  scan_error : ScanError → CliError

-- The closure that prints a service.
unfoldable pub print_service : Service → Async os (Result (Unit {0}) ScanError)
print_service service = call (print_discovered service.address) (λ _. done (ok tt))

module _ (F : FuturesUtil os) (P : Prost DiscoveryPacket) (framed : UdpFramed) (debug : Bool)
    (grpc : Router) (response_receiver : Stream os Service)
    (read_power_shell : Bytes → List (Result NetNeighbor CsvError)) (read_ip_route2 : Readers) where
  unfoldable pub main : Command → Async os (Result (Unit {0}) CliError)
  unfolding print_service
  main (serve discovery_port service_port) =
      with_error serve_error
        (Server.serve F P framed debug read_power_shell read_ip_route2 discovery_port service_port)
  main (scan discovery_port) = with_error scan_error (
      F.try_for_each print_service (
        Scanner.scan F P framed debug grpc response_receiver read_power_shell read_ip_route2
          discovery_port))
