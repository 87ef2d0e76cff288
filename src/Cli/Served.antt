-- ===== src/Cli/Served.antt =====
-- The command `serve` of cli/src/main.rs.
use tansa.Prelude.{ℕ, ◌≡◌, Bool, List, Result, ok, err}
use tansa.Async.Runs.{Trace, Run}
use tansa.Async.Stream.{Stream}
use tansa.Async.Try.{with_error_ok, with_error_err}
use tansa.Async.Futures.{FuturesUtil, IsLawful}
use tansa.Protocol.{DiscoveryPacket, Prost, Bytes}
use tansa.Network.UdpReceiver.{UdpFramed}
use tansa.Network.IpNeighbor.{CsvError}
use tansa.Network.IpNeighbor.Windows.{NetNeighbor}
use tansa.Network.IpNeighbor.Linux.{Readers}
use tansa.ResponseCollector.{Router}
use tansa.Service.{Service}
use tansa.Server.{ServeError}
use tansa.Server.Whole.{Serving, serve-Serving}
use tansa.Cli.{main, serve, CliError, serve_error}
use tansa.Os.{os}

module _ (F : FuturesUtil os) (L : IsLawful F) (P : Prost DiscoveryPacket) (framed : UdpFramed)
    (debug : Bool) (grpc : Router) (responses : Stream os Service)
    (read_power_shell : Bytes → List (Result NetNeighbor CsvError)) (read_ip_route2 : Readers)
    (discovery_port service_port : ℕ) where
  abbrev Serves : Trace os → Result (Unit {0}) ServeError → Type 0
  Serves t r =
      Serving F L P framed debug read_power_shell read_ip_route2 discovery_port service_port t r

  abbrev pub ServesAs : Trace os → Result (Unit {0}) CliError → Type 0
  ServesAs t (ok u) = Serves t (ok tt)
  ServesAs t (err e) = (x : ServeError) × (e ≡ serve_error x) × Serves t (err x)

  -- Every run of the command `serve` is one of serving over the network, as `serve-Serving` says, and
  -- its error is that one.
  pub main-ServesAs :
      {t : Trace os} (r : Result (Unit {0}) CliError)
      → Run
          (main F P framed debug grpc responses read_power_shell read_ip_route2
            (serve discovery_port service_port))
          t
          r
      → ServesAs t r
  unfolding main
  main-ServesAs (ok tt) q =
      serve-Serving F L P framed debug read_power_shell read_ip_route2 discovery_port service_port
        (with_error_ok serve_error _ q)
  main-ServesAs (err e) q =
      let (x, is, run) = with_error_err serve_error _ q in
      (
        x,
        is,
        serve-Serving F L P framed debug read_power_shell read_ip_route2 discovery_port service_port
            run,
      )
