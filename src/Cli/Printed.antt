-- ===== src/Cli/Printed.antt =====
-- The command `scan` of cli/src/main.rs: what it prints.
use tansa.Prelude.{
  ℕ, ◌≡◌, ◌≢◌, refl, ap, sym, subst, ◌∙◌, Bool, List, [], ◌∷◌, ◌++◌, map, Result, ok, err,
}
use tansa.Async.{Async, call}
use tansa.Async.Runs.{Trace, Run, returns, replied, done_inv}
use tansa.Async.Try.{both, with_error_ok}
use tansa.Async.Stream.{
  Stream, Sight, called, item, items, Flows, ends, gives, waited, yields, finished, awaits,
  items_behind,
}
use tansa.Async.Futures.{FuturesUtil, IsLawful}
use tansa.Protocol.{DiscoveryPacket, Prost, Bytes}
use tansa.Network.UdpReceiver.{UdpFramed}
use tansa.ResponseCollector.{Router}
use tansa.Service.{Service}
use tansa.Scanner
use tansa.Scanner.{ScanError, send_request, invalid_discovery_port}
use tansa.Scanner.Whole.{Scanned, started, not_started, scan-Scanned}
use tansa.Scanner.Discovered.{rejected, discovered}
use tansa.Cli.{main, scan, scan_error, print_service}
use tansa.Network.IpNeighbor.{CsvError}
use tansa.Network.IpNeighbor.Windows.{NetNeighbor}
use tansa.Network.IpNeighbor.Linux.{Readers}
use tansa.Os.{os, print_discovered}

-- The calls of a scan whose services are printed as they come.
abbrev pub printed : List (Sight os (Result Service ScanError)) → Trace os
printed [] = []
printed (called e ∷ l) = e ∷ printed l
printed (item (ok s) ∷ l) = (print_discovered s.address, tt) ∷ printed l
printed (item (err e) ∷ l) = printed l

module _ (F : FuturesUtil os) (L : IsLawful F) where
  -- A stream that ended without an error, and whose services were printed as they came.
  record PrintedAll (s : Stream os (Result Service ScanError)) (t : Trace os) : Type 0 where
    sights : List (Sight os (Result Service ScanError))
    flow : Flows s sights
    services : List Service
    no_errors : items sights ≡ map ok services
    all_printed : t ≡ printed sights

  print_all : Stream os (Result Service ScanError) → Async os (Result (Unit {0}) ScanError)
  print_all s = F.try_for_each print_service s

  one_printed :
      (a : Service) {t : Trace os}
      → Run (print_service a) t (ok tt)
      → t ≡ (print_discovered a.address, tt) ∷ []
  unfolding print_service
  one_printed a (replied _ tt (returns _)) = refl

  after_service :
      (a : Service) (s : Stream os (Result Service ScanError)) {t t₁ t₂ : Trace os}
      → t ≡ t₁ ++ t₂
      → Run (print_service a) t₁ (ok tt)
      → PrintedAll s t₂
      → PrintedAll (yields (ok a) s) t
  after_service a s {t₂} whole q w = record {
    sights = item (ok a) ∷ w.sights;
    flow = gives (ok a) w.flow;
    services = a ∷ w.services;
    no_errors = ap (λ l. ok a ∷ l) w.no_errors;
    all_printed =
        whole
        ∙ ap (λ u. u ++ t₂) (one_printed a q)
        ∙ ap (λ u. (print_discovered a.address, tt) ∷ u) w.all_printed;
  }

  all_of :
      (s : Stream os (Result Service ScanError)) {t : Trace os}
      → Run (print_all s) t (ok tt)
      → PrintedAll s t
  unfolding print_all
  all_of finished {t} q =
      let d = done_inv (subst (λ m. Run m t (ok tt)) (L.try_for_each_finished print_service) q) in
      record { sights = []; flow = ends; services = []; no_errors = refl; all_printed = d.0 }
  all_of (yields (ok a) s) {t} q =
      let b = both _ _ (subst (λ m. Run m t (ok tt)) (L.try_for_each_ok print_service a s) q) in
      after_service a s b.whole b.first (all_of s b.rest)
  all_of (yields (err e) s) {t} q =
      cc ((done_inv (subst (λ m. Run m t (ok tt)) (L.try_for_each_err print_service e s) q)).1)
  all_of (awaits c k) {t} q =
      waited_for c k (λ r u p. all_of (k r) {t = u} p)
        (subst (λ m. Run m t (ok tt)) (L.try_for_each_awaits print_service c k) q)
    where
      waited_for :
          (c : os.Call) (k : os.Reply c → Stream os (Result Service ScanError))
          → ((r : os.Reply c) (u : Trace os) → Run (print_all (k r)) u (ok tt) → PrintedAll (k r) u)
          → {t : Trace os} → Run (call c (λ r. print_all (k r))) t (ok tt)
          → PrintedAll (awaits c k) t
      waited_for c k ih (replied _ r p) =
          let w = ih r _ p in
          record {
            sights = called (c, r) ∷ w.sights;
            flow = waited c r w.flow;
            services = w.services;
            no_errors = w.no_errors;
            all_printed = ap (λ u. (c, r) ∷ u) w.all_printed;
          }

module _ (F : FuturesUtil os) (L : IsLawful F) (P : Prost DiscoveryPacket) (framed : UdpFramed)
    (debug : Bool) (grpc : Router) (responses : Stream os Service)
    (read_power_shell : Bytes → List (Result NetNeighbor CsvError)) (read_ip_route2 : Readers) where
  -- A scan of a port other than 0 that went as `Scanned` says and showed services only, each printed
  -- when it came, between the calls of the scan.
  pub record ScanPrinted (port : ℕ) (t : Trace os) : Type 0 where
    pub sights : List (Sight os (Result Service ScanError))
    pub port_given : port ≢ 0
    pub scanned :
        Scanned F L P framed debug grpc responses read_power_shell read_ip_route2 port sights
    pub services : List Service
    pub no_errors : items sights ≡ map ok services
    pub all_printed : t ≡ printed sights

  first_error :
      (e : ScanError) (l : List (Result Service ScanError)) (services : List Service)
      → err e ∷ l ≢ map ok services
  first_error e l [] same = cc
  first_error e l (s ∷ services) same = cc

  -- At port 0, and without a collector, a scan shows an error.
  given_port :
      (port : ℕ) (l : List (Sight os (Result Service ScanError))) (services : List Service)
      → items l ≡ map ok services
      → Scanned F L P framed debug grpc responses read_power_shell read_ip_route2 port l
      → port ≢ 0
  given_port port l services clean (started c s t u v rest _ _ _ whole (discovered n d)) = n
  given_port port l services clean (started c s t u v rest _ _ _ whole (rejected z one none)) =
      absurd (
        first_error invalid_discovery_port [] services
          (sym (ap items whole ∙ items_behind v rest ∙ one) ∙ clean))
  given_port port l services clean (not_started e t u v _ _ _ whole) =
      absurd
        (first_error (send_request e) [] services (sym (ap items whole ∙ items_behind v _) ∙ clean))

  -- The command `scan` ends with no error only if its port is not 0, and the scan went as
  -- `scan-Scanned` says, showed services only, and each was printed when it came, between the calls
  -- of the scan.
  pub main-ScanPrinted :
      (port : ℕ) {t : Trace os}
      → Run
          (main F P framed debug grpc responses read_power_shell read_ip_route2 (scan port))
          t
          (ok tt)
      → ScanPrinted port t
  unfolding main print_all
  main-ScanPrinted port q =
      let w =
        all_of F L
          (Scanner.scan F P framed debug grpc responses read_power_shell read_ip_route2 port)
          (with_error_ok scan_error _ q) in
      let scanned =
        scan-Scanned F L P framed debug grpc responses read_power_shell read_ip_route2 port
          w.flow in
      record {
        sights = w.sights;
        port_given = given_port port w.sights w.services w.no_errors scanned;
        scanned = scanned;
        services = w.services;
        no_errors = w.no_errors;
        all_printed = w.all_printed;
      }
