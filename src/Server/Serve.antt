-- ===== src/Server/Serve.antt =====
-- `serve_internal` of main/src/server.rs: the announcement, and then the loop over the packets.
use tansa.Prelude.{
  ℕ, ◌≡◌, ◌≢◌, subst, [], ◌++◌, Result, ok, err, ◌==◌, ==_iff, false, Bool-cases, inl, inr,
}
use tansa.Async.{Signature, Async, done}
use tansa.Async.Runs.{Trace, Run, done_inv}
use tansa.Async.Try.{
  ◌>>=◌, with_error, both, Both, tried, Tried, failed, passed, with_error_ok, with_error_err,
}
use tansa.Async.Stream.{Stream}
use tansa.Async.ForEach.{Served, Broken, ForEach-ok, ForEach-err}
use tansa.Async.Futures.{FuturesUtil, IsLawful}
use tansa.Net.{SocketAddrV6, socket_addr_v6, get_discovery_ip}
use tansa.Protocol.{DiscoveryPacket, Prost, IoError}
use tansa.Network.UdpSender.{UdpSender}
use tansa.Network.IpNeighbor.{IpNeighborScanner}
use tansa.Packet.{DiscoveryPacketReceiver}
use tansa.ResponseSender.{ResponseSender}
use tansa.Server.{serve_internal, announce, handle, ServeError, network_io, invalid_discovery_port}
use tansa.Server.Handle.{handle-NeverFails}
use tansa.Server.Announce.{Announced, AnnounceFails, announce-ok, announce-err}

module _ {S : Signature} (F : FuturesUtil S) (L : IsLawful F) (P : Prost DiscoveryPacket)
    (discovery_port service_port : ℕ) (receiver : DiscoveryPacketReceiver S)
    (responder : ResponseSender S) (sender : UdpSender S) (scanner : IpNeighborScanner S) where
  abbrev serving : Async S (Result (Unit {0}) ServeError)
  serving = serve_internal F P discovery_port service_port receiver responder sender scanner

  abbrev address : SocketAddrV6
  address = socket_addr_v6 get_discovery_ip discovery_port 0 0

  abbrev packets : Stream S (Result (DiscoveryPacket × SocketAddrV6) IoError)
  packets = receiver.receive get_discovery_ip discovery_port

  abbrev answer : DiscoveryPacket × SocketAddrV6 → Async S (Result (Unit {0}) IoError)
  answer = handle F service_port responder

  abbrev loop : Async S (Result (Unit {0}) ServeError)
  loop = with_error network_io (F.try_for_each_concurrent 0 answer packets)

  abbrev announcing : Async S (Result (Unit {0}) ServeError)
  announcing = announce F P address service_port sender scanner

  -- The announcement succeeded, and then every packet that arrived was handled to the end.
  pub record ServedAll (t : Trace S) : Type 0 where
    pub port_given : discovery_port ≢ 0
    pub announcement : Trace S
    pub looping : Trace S
    pub whole : t ≡ announcement ++ looping
    pub announced : Announced F L sender P address service_port scanner announcement
    pub served : Served answer packets [] looping

  -- How serving fails with `e`: the port is 0, and nothing was done; or the announcement failed; or
  -- the stream of packets failed, and until then every packet was being handled.
  pub data ServeFails (t : Trace S) (e : ServeError) : Type 0 where
    bad_port : discovery_port ≡ 0 → t ≡ [] → e ≡ invalid_discovery_port → ServeFails t e
    announce_failed :
        discovery_port ≢ 0
        → AnnounceFails F L sender P address service_port scanner t e
        → ServeFails t e
    packets_failed :
        (announcement looping : Trace S) (x : IoError)
        → discovery_port ≢ 0
        → e ≡ network_io x
        → t ≡ announcement ++ looping
        → Announced F L sender P address service_port scanner announcement
        → Broken answer x packets [] looping
        → ServeFails t e

  at_zero : discovery_port ≡ 0 → serving ≡ done (err invalid_discovery_port)
  unfolding serve_internal
  at_zero z = rw ((==_iff discovery_port 0).1 z)

  past_zero : (discovery_port == 0) ≡ false → serving ≡ (announcing >>= λ _. loop)
  unfolding serve_internal
  past_zero n = rw n

  nonzero : (discovery_port == 0) ≡ false → discovery_port ≢ 0
  nonzero n z = cc (n, (==_iff discovery_port 0).1 z)

  served_from :
      {t : Trace S} → (discovery_port == 0) ≡ false → Both announcing (λ _. loop) t tt → ServedAll t
  served_from n b = record {
    port_given = nonzero n;
    announcement = b.before;
    looping = b.after;
    whole = b.whole;
    announced = announce-ok F L sender P address service_port scanner b.first;
    served = ForEach-ok answer (
        L.try_for_each_concurrent_lem answer packets
          (with_error_ok network_io (F.try_for_each_concurrent 0 answer packets) b.rest));
  }

  -- Serving that ends with no error was given a port other than 0, announced the service, and then
  -- handled every packet of the stream to the end.
  pub serve_internal-ok : {t : Trace S} → Run serving t (ok tt) → ServedAll t
  serve_internal-ok {t} q = elim (Bool-cases (discovery_port == 0)) [
    | inl z ↦
        cc ((done_inv (subst (λ m. Run m t (ok tt)) (at_zero ((==_iff discovery_port 0).0 z)) q)).1)
    | inr n ↦
        served_from n (both announcing (λ _. loop) (subst (λ m. Run m t (ok tt)) (past_zero n) q))
  ]

  broken_loop :
      {t t₁ t₂ : Trace S} {e : ServeError}
      → discovery_port ≢ 0
      → t ≡ t₁ ++ t₂
      → Run announcing t₁ (ok tt)
      → (x : IoError) × (e ≡ network_io x)
        × Run (F.try_for_each_concurrent 0 answer packets) t₂ (err x)
      → ServeFails t e
  broken_loop {t₁} {t₂} n whole q (x, is, s) =
      packets_failed t₁ t₂ x n is whole (announce-ok F L sender P address service_port scanner q) (
        ForEach-err answer (λ p. handle-NeverFails F L service_port responder p)
          (L.try_for_each_concurrent_lem answer packets s))

  failed_from :
      {t : Trace S} {e : ServeError}
      → discovery_port ≢ 0
      → Tried announcing (λ _. loop) t (err e)
      → ServeFails t e
  failed_from {t} n (failed y is q) = announce_failed n (
      announce-err F L sender P address service_port scanner
        (let same : y ≡ _ = cc in subst (λ z. Run announcing t (err z)) same q))
  failed_from n (passed u t₁ t₂ whole q s) =
      broken_loop n whole q
        (with_error_err network_io (F.try_for_each_concurrent 0 answer packets) s)

  -- Serving that ends with an error was given port 0, and made no call; or the announcement
  -- failed; or the stream of packets failed, and until then every packet was being handled. No
  -- packet ends it, whatever it holds and whether or not it can be answered.
  pub serve_internal-err : {t : Trace S} {e : ServeError} → Run serving t (err e) → ServeFails t e
  serve_internal-err {t} {e} q = elim (Bool-cases (discovery_port == 0)) [
    | inl z ↦
        let zero_port = (==_iff discovery_port 0).0 z in
        let w = done_inv (subst (λ m. Run m t (err e)) (at_zero zero_port) q) in
        bad_port zero_port w.0 (cc (w.1))
    | inr n ↦
        failed_from (nonzero n)
          (tried announcing (λ _. loop) (subst (λ m. Run m t (err e)) (past_zero n) q))
  ]

  -- Both ends of serving.
  pub data ServeEnds (t : Trace S) : Result (Unit {0}) ServeError → Type 0 where
    served_all : ServedAll t → ServeEnds t (ok tt)
    serving_failed : (e : ServeError) → ServeFails t e → ServeEnds t (err e)

  -- Serving that ends with no error was given a port other than 0, announced the service, and then
  -- handled every packet of the stream to the end. Serving that ends with an error was given port 0,
  -- and made no call; or the announcement failed; or the stream of packets failed, and until then
  -- every packet was being handled. No packet ends it, whatever it holds and whether or not it can be
  -- answered.
  pub serve_internal-ServeEnds :
      {t : Trace S} (r : Result (Unit {0}) ServeError) → Run serving t r → ServeEnds t r
  serve_internal-ServeEnds (ok u) q = served_all (serve_internal-ok q)
  serve_internal-ServeEnds (err e) q = serving_failed e (serve_internal-err q)
