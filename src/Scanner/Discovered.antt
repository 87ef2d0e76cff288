-- ===== src/Scanner/Discovered.antt =====
-- `scan_internal` of main/src/scanner.rs: everything that a scan shows.
use mathlib.Core.List.{filter_map, filter_map-eq-map}
use tansa.Prelude.{
  ℕ, ◌≡◌, ◌≢◌, refl, sym, ap, subst, ◌∙◌, List, [], ◌∷◌, map, Result, ok, err, map_error, ◌==◌,
  ==_iff, true, false, Bool-cases, inl, inr,
}
use tansa.Async.{Signature, Async, done}
use tansa.Async.Runs.{Trace, Run, done_inv}
use tansa.Async.Stream.{Stream, Sight, items, calls, Flows}
use tansa.Async.Shuffle.{Merges, Merges-along}
use tansa.Async.Futures.{FuturesUtil, IsLawful}
use tansa.Async.Adaptors.{map_err-Sifted, once-Awaited, Merges-items, Merges-calls}
use tansa.Net.{SocketAddrV6, get_discovery_ip}
use tansa.Protocol.{Request, DiscoveryPacket, Prost, IoError}
use tansa.Network.UdpSender.{UdpSender}
use tansa.Network.IpNeighbor.{IpNeighborScanner}
use tansa.Packet.{DiscoveryPacketReceiver}
use tansa.ResponseCollector.{ResponseCollector}
use tansa.Service.{Service}
use tansa.StreamJoin.{join}
use tansa.StreamJoin.Items.{Beside, join-Beside, error_item}
use tansa.Os.{TransportError}
use tansa.Scanner.{
  scan_internal, send_requests, receive_announcements, ScanError, collect_response,
  invalid_discovery_port,
}
use tansa.Scanner.Extract.{announced, receive_announcements-Sifted}

module _ {S : Signature} (F : FuturesUtil S) (L : IsLawful F) (P : Prost DiscoveryPacket) (port : ℕ)
    (collector : ResponseCollector S) (sender : UdpSender S) (receiver : DiscoveryPacketReceiver S)
    (scanner : IpNeighborScanner S) where
  abbrev scanning : Stream S (Result Service ScanError)
  scanning = scan_internal F P port collector sender receiver scanner

  abbrev request : Request
  request = record { response_collector_port = collector.get_port }

  abbrev requests : Async S (Result (Unit {0}) ScanError)
  requests = send_requests P sender scanner request port

  abbrev services : Stream S (Result Service ScanError)
  services =
      F.select (F.map_err collect_response collector.collect)
        (receive_announcements F receiver get_discovery_ip port)

  -- The requests were sent, with the port of the response collector, while the responses and the
  -- packets came in. The items are, interleaved: the responses; what is learned of each packet; and
  -- the error of sending the requests, if there was one. The calls are those of the three.
  pub record Discovered (l : List (Sight S (Result Service ScanError))) : Type 0 where
    pub trace : Trace S
    pub result : Result (Unit {0}) ScanError
    pub requested : Run requests trace result
    pub responses : List (Sight S (Result Service TransportError))
    pub collected : Flows collector.collect responses
    pub packets : List (Sight S (Result (DiscoveryPacket × SocketAddrV6) IoError))
    pub received : Flows (receiver.receive get_discovery_ip port) packets
    pub found : List (Result Service ScanError)
    pub found_merged :
        Merges
          (map (map_error collect_response) (items responses))
          (filter_map announced (items packets))
          found
    pub items_merged : Merges found (error_item (λ e. e) result) (items l)
    pub incoming : Trace S
    pub incoming_merged : Merges (calls responses) (calls packets) incoming
    pub calls_merged : Merges incoming trace (calls l)

  same_errors : (l : List (Result Service ScanError)) → map (map_error (λ e. e)) l ≡ l
  same_errors [] = refl
  same_errors (ok s ∷ l) = ap (λ m. ok s ∷ m) (same_errors l)
  same_errors (err e ∷ l) = ap (λ m. err e ∷ m) (same_errors l)

  from_join :
      {l : List (Sight S (Result Service ScanError))}
      → Beside F L (λ e. e) (λ e. e) requests services l
      → Discovered l
  from_join b =
      let s = L.select_lem _ _ b.flow in
      let c = map_err-Sifted F L collect_response collector.collect s.of_first s.first in
      let a =
        receive_announcements-Sifted F L receiver get_discovery_ip port s.of_second s.second in
      record {
        trace = b.trace;
        result = b.result;
        requested = b.run;
        responses = c.sights;
        collected = c.flow;
        packets = a.sights;
        received = a.flow;
        found = items b.sights;
        found_merged =
            Merges-along
              (c.same_items ∙ filter_map-eq-map (map_error collect_response) (items c.sights))
              a.same_items refl (Merges-items s.merged);
        items_merged = Merges-along (same_errors (items b.sights)) refl refl b.items_merged;
        incoming = calls b.sights;
        incoming_merged = Merges-along c.same_calls a.same_calls refl (Merges-calls s.merged);
        calls_merged = b.calls_merged;
      }

  at_zero : (port == 0) ≡ true → scanning ≡ F.once (done (err invalid_discovery_port))
  unfolding scan_internal
  at_zero z = rw z

  past_zero : (port == 0) ≡ false → scanning ≡ join F (λ e. e) (λ e. e) requests services
  unfolding scan_internal
  past_zero n = rw n

  -- Whatever a scan of a port other than 0 shows, it is so.
  pub scan_internal-Discovered :
      port ≢ 0 → {l : List (Sight S (Result Service ScanError))} → Flows scanning l → Discovered l
  scan_internal-Discovered n {l} q = elim (Bool-cases (port == 0)) [
    | inl z ↦ absurd (n ((==_iff port 0).0 z))
    | inr p ↦ from_join (
        join-Beside F L (λ e. e) (λ e. e) requests services
          (subst (λ s. Flows s l) (past_zero p) q))
  ]

  -- A scan of port 0 makes no call and shows one item, an error.
  pub scan_internal-zero :
      port ≡ 0
      → {l : List (Sight S (Result Service ScanError))} → Flows scanning l
      → (items l ≡ err invalid_discovery_port ∷ []) × (calls l ≡ [])
  scan_internal-zero z {l} q =
      let w =
        once-Awaited F L (done (err invalid_discovery_port))
          (subst (λ s. Flows s l) (at_zero ((==_iff port 0).1 z)) q) in
      let d = done_inv w.run in (w.one_item ∙ ap (λ x. x ∷ []) (sym d.1), d.0)

  -- What a scan shows: of port 0, one item, the error, with no call; of any other port, what it
  -- discovers.
  pub data Shows (l : List (Sight S (Result Service ScanError))) : Type 0 where
    rejected : port ≡ 0 → items l ≡ err invalid_discovery_port ∷ [] → calls l ≡ [] → Shows l
    discovered : port ≢ 0 → Discovered l → Shows l

  -- Whatever a scan shows, if the port is 0 it made no call and showed one item, the error. If not,
  -- the requests were sent, with the port of the response collector, while the responses and the
  -- packets came in. The items are, interleaved: the responses; what is learned of each packet; and
  -- the error of sending the requests, if there was one. The calls are those of the three.
  pub scan_internal-Shows :
      {l : List (Sight S (Result Service ScanError))} → Flows scanning l → Shows l
  scan_internal-Shows q = elim (Bool-cases (port == 0)) [
    | inl z ↦
        let zero_port = (==_iff port 0).0 z in
        let w = scan_internal-zero zero_port q in rejected zero_port w.0 w.1
    | inr p ↦
        let given : port ≢ 0 = λ e. cc (p, (==_iff port 0).1 e) in
        discovered given (scan_internal-Discovered given q)
  ]
