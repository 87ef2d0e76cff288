-- ===== src/Cli/Stopped.antt =====
-- The commands of cli/src/main.rs that fail: what `scan` printed before its first error.
use tansa.Prelude.{
  ℕ, ◌≡◌, refl, sym, ap, subst, ◌∙◌, Bool, List, [], ◌∷◌, ◌++◌, map, Result, ok, err,
}
use tansa.Async.{Async, call}
use tansa.Async.Runs.{Trace, Run, returns, replied, done_inv}
use tansa.Async.Try.{tried, Tried, failed, passed, with_error_err}
use tansa.Async.ForEach.{Breaks, breaks, gives_ok, waits}
use tansa.Async.Stream.{Stream, Sight, called, item, items, yields, finished, awaits}
use tansa.Async.Futures.{FuturesUtil, IsLawful}
use tansa.Protocol.{DiscoveryPacket, Prost, Bytes}
use tansa.Network.UdpReceiver.{UdpFramed}
use tansa.Network.IpNeighbor.{CsvError}
use tansa.Network.IpNeighbor.Windows.{NetNeighbor}
use tansa.Network.IpNeighbor.Linux.{Readers}
use tansa.ResponseCollector.{Router}
use tansa.Service.{Service}
use tansa.Scanner
use tansa.Scanner.{ScanError}
use tansa.Cli.{main, scan, scan_error, CliError, print_service}
use tansa.Cli.Printed.{printed}
use tansa.Os.{os, print_discovered}

-- The stream `s` came as far as the error `e`. Before it there were services only, each of which was
-- printed when it came, between the calls of the stream; and after it nothing was done.
pub record PrintedUntil (s : Stream os (Result Service ScanError)) (e : ScanError) (t : Trace os)
    : Type 0 where
  pub sights : List (Sight os (Result Service ScanError))
  pub flow : Breaks e s sights
  pub services : List Service
  pub no_errors : items sights ≡ map ok services
  pub all_printed : t ≡ printed sights

module _ (F : FuturesUtil os) (L : IsLawful F) where
  print_each : Stream os (Result Service ScanError) → Async os (Result (Unit {0}) ScanError)
  print_each s = F.try_for_each print_service s

  print_lem :
      (a : Service) {t : Trace os} {r : Result (Unit {0}) ScanError}
      → Run (print_service a) t r
      → (t ≡ (print_discovered a.address, tt) ∷ []) × (r ≡ ok tt)
  unfolding print_service
  print_lem a (replied _ tt (returns _)) = (refl, refl)

  until_later :
      (a : Service) (s : Stream os (Result Service ScanError)) (e : ScanError)
      → ((u : Trace os) → Run (print_each s) u (err e) → PrintedUntil s e u)
      → {t : Trace os} → Tried (print_service a) (λ _. print_each s) t (err e)
      → PrintedUntil (yields (ok a) s) e t
  until_later a s e ih (failed y is q) = cc ((print_lem a q).1)
  until_later a s e ih (passed u t₁ t₂ whole q r) =
      let w = ih t₂ r in
      record {
        sights = item (ok a) ∷ w.sights;
        flow = gives_ok a w.flow;
        services = a ∷ w.services;
        no_errors = ap (λ l. ok a ∷ l) w.no_errors;
        all_printed =
            whole
            ∙ ap (λ u. u ++ t₂) ((print_lem a q).0)
            ∙ ap (λ u. (print_discovered a.address, tt) ∷ u) w.all_printed;
      }

  until_reply :
      (c : os.Call) (k : os.Reply c → Stream os (Result Service ScanError)) (e : ScanError)
      → ((r : os.Reply c) (u : Trace os)
          → Run (print_each (k r)) u (err e)
          → PrintedUntil (k r) e u)
      → {t : Trace os} → Run (call c (λ r. print_each (k r))) t (err e)
      → PrintedUntil (awaits c k) e t
  until_reply c k e ih (replied _ r p) =
      let w = ih r _ p in
      record {
        sights = called (c, r) ∷ w.sights;
        flow = waits c r w.flow;
        services = w.services;
        no_errors = w.no_errors;
        all_printed = ap (λ u. (c, r) ∷ u) w.all_printed;
      }

  until :
      (s : Stream os (Result Service ScanError)) (e : ScanError) (t : Trace os)
      → Run (print_each s) t (err e)
      → PrintedUntil s e t
  unfolding print_each
  until finished e t q =
      cc ((done_inv (subst (λ m. Run m t (err e)) (L.try_for_each_finished print_service) q)).1)
  until (yields (ok a) s) e t q =
      until_later a s e (λ u p. until s e u p)
        (tried _ _ (subst (λ m. Run m t (err e)) (L.try_for_each_ok print_service a s) q))
  until (yields (err x) s) e t q =
      let d = done_inv (subst (λ m. Run m t (err e)) (L.try_for_each_err print_service x s) q) in
      let same : x ≡ e = cc (d.1) in
      record {
        sights = [];
        flow = subst (λ y. Breaks e (yields (err y) s) []) (sym same) breaks;
        services = [];
        no_errors = refl;
        all_printed = d.0;
      }
  until (awaits c k) e t q =
      until_reply c k e (λ r u p. until (k r) e u p)
        (subst (λ m. Run m t (err e)) (L.try_for_each_awaits print_service c k) q)

module _ (F : FuturesUtil os) (L : IsLawful F) (P : Prost DiscoveryPacket) (framed : UdpFramed)
    (debug : Bool) (grpc : Router) (responses : Stream os Service)
    (read_power_shell : Bytes → List (Result NetNeighbor CsvError)) (read_ip_route2 : Readers) where
  -- The command `scan` failed with the error `e`: it is the first one of the scan, up to which all
  -- services were printed.
  pub record ScanStopped (port : ℕ) (e : CliError) (t : Trace os) : Type 0 where
    pub error : ScanError
    pub is_error : e ≡ scan_error error
    pub until_error :
        PrintedUntil
          (Scanner.scan F P framed debug grpc responses read_power_shell read_ip_route2 port)
          error
          t

  -- Whenever the command `scan` fails, its error is the first one of the scan. Before that the scan
  -- showed services only, each was printed when it came, between the calls of the scan, and after it
  -- nothing was done.
  pub main-ScanStopped :
      (port : ℕ) {t : Trace os} {e : CliError}
      → Run
          (main F P framed debug grpc responses read_power_shell read_ip_route2 (scan port))
          t
          (err e)
      → ScanStopped port e t
  unfolding main print_each
  main-ScanStopped port {t} q =
      let (x, is, run) = with_error_err scan_error _ q in
      record { error = x; is_error = is; until_error = until F L _ x t run }
