-- ===== src/Scanner/Sources.antt =====
-- Where the services come from that a scan of main/src/scanner.rs shows.
use mathlib.Core.List.{filter_map, Mem, Mem-prop, mem-cons, mem-map, mem-filter_map, not-mem-nil}
use mathlib.Core.Logic.{∥∥₁_elim, ∥∥₁_map, ∥∥₁_prop, ◌∨₁◌}
use mathlib.Core.Logic.Or
use mathlib.Core.HLevel.{⊥_prop}
use tansa.Prelude.{
  ℕ, ◌<◌, ◌≡◌, ◌≢◌, refl, sym, ap, subst, ◌∙◌, Option, none, some, List, map, Result, ok, err,
  map_error, ltb, ltb→lt, lt→ltb, ◌↔◌, Bool-cases, inl, inr,
}
use tansa.Async.{Signature}
use tansa.Async.Stream.{Sight, items, Flows}
use tansa.Async.Shuffle.{mem_merged}
use tansa.Async.Futures.{FuturesUtil, IsLawful}
use tansa.Net.{SocketAddrV6, set_port, get_discovery_ip}
use tansa.Protocol.{
  DiscoveryPacket, Payload, request, announcement, unwrap_response, Prost, IoError,
}
use tansa.Network.UdpSender.{UdpSender}
use tansa.Network.IpNeighbor.{IpNeighborScanner}
use tansa.Packet.{DiscoveryPacketReceiver}
use tansa.ResponseCollector.{ResponseCollector}
use tansa.Service.{Service}
use tansa.StreamJoin.Items.{error_item}
use tansa.Os.{TransportError}
use tansa.Scanner.{scan_internal, ScanError, collect_response}
use tansa.Scanner.Extract.{announced, announced_service, as_item}
use tansa.Scanner.Discovered.{scan_internal-Discovered}

-- A packet is the announcement of a port in range, which makes the service with its source.
pub record Announces (packet : DiscoveryPacket) (source : SocketAddrV6) (s : Service) : Type 0 where
  pub port : ℕ
  pub is_announcement : unwrap_response packet ≡ some (record { service_port = port })
  pub in_range : port < 65536
  pub service : s ≡ record { address = set_port source port }

-- Where a service comes from: it is a response that the collector gave, or was announced by a packet
-- that was received.
pub data Source (s : Service) (responses : List (Result Service TransportError))
    (packets : List (Result (DiscoveryPacket × SocketAddrV6) IoError)) : Type 0 where
  response : Mem (ok s) responses → Source s responses packets
  announcing :
      (packet : DiscoveryPacket) (source : SocketAddrV6)
      → Mem (ok (packet, source)) packets
      → Announces packet source s
      → Source s responses packets

announced_by :
    (payload : Option Payload) (a : SocketAddrV6) (s : Service)
    → announced_service payload a ≡ some s
    → Announces (record { payload = payload }) a s
unfolding announced_service unwrap_response
announced_by (some (announcement r)) a s e = elim (Bool-cases (ltb r.service_port 65536)) [
  | inl lt ↦
      let same : some (record { address = set_port a r.service_port }) ≡ some s = rw lt at e in
      record {
        port = r.service_port;
        is_announcement = refl;
        in_range = ltb→lt _ _ lt;
        service = sym (cc same);
      }
  | inr ge ↦ let no : none ≡ some s = rw ge at e in cc no
]
announced_by (some (request r)) a s e = cc
announced_by none a s e = cc

heard_service :
    (r : Result (DiscoveryPacket × SocketAddrV6) IoError) (s : Service)
    → announced r ≡ some (ok s)
    → (packet : DiscoveryPacket) × (source : SocketAddrV6) × (r ≡ ok (packet, source))
      × Announces packet source s
unfolding announced
heard_service (ok (packet, a)) s e = from_payload (announced_service packet.payload a) refl e
  where
    from_payload :
        (o : Option Service)
        → announced_service packet.payload a ≡ o
        → as_item o ≡ some (ok s)
        → (p : DiscoveryPacket) × (source : SocketAddrV6) × ◌≡◌
            {A = Result (DiscoveryPacket × SocketAddrV6) IoError}
            (ok (packet, a))
            (ok (p, source))
          × Announces p source s
    from_payload none f g = cc
    from_payload (some x) f g =
        let same : x ≡ s = cc in
        (packet, a, refl, announced_by packet.payload a s (f ∙ ap some same))
heard_service (err x) s e = cc

announced_service_of :
    (payload : Option Payload) (a : SocketAddrV6) (s : Service)
    → Announces (record { payload = payload }) a s
    → announced_service payload a ≡ some s
unfolding announced_service unwrap_response
announced_service_of (some (announcement r)) a s h =
    let same : r.service_port ≡ h.port = cc (h.is_announcement) in
    let small : r.service_port < 65536 = subst (λ p. p < 65536) (sym same) h.in_range in
    rw (lt→ltb r.service_port 65536 small)
      (ap some (ap (λ p. record { address = set_port a p }) same ∙ sym h.service))
announced_service_of (some (request r)) a s h = cc (h.is_announcement)
announced_service_of none a s h = cc (h.is_announcement)

announced_of :
    (packet : DiscoveryPacket) (a : SocketAddrV6) (s : Service)
    → Announces packet a s
    → announced (ok (packet, a)) ≡ some (ok s)
unfolding announced
announced_of packet a s h = ap as_item (announced_service_of packet.payload a s h)

no_error_item :
    {s : Service} (r : Result (Unit {0}) ScanError) → ¬ Mem (ok s) (error_item (λ e. e) r)
no_error_item (ok v) i = not-mem-nil i
no_error_item (err e) i = Or.elim ⊥_prop (mem-cons.0 i) (λ p. cc p) not-mem-nil

response_of :
    (r : Result Service TransportError) (s : Service)
    → map_error collect_response r ≡ ok s
    → r ≡ ok s
response_of (ok x) s e = cc
response_of (err x) s e = cc

module _ (responses : List (Result Service TransportError))
    (packets : List (Result (DiscoveryPacket × SocketAddrV6) IoError)) (s : Service) where
  abbrev Shown : Type 0
  Shown =
      Mem (ok s) (map (map_error collect_response) responses)
      ∨₁ Mem (ok s) (filter_map announced packets)

  of_response :
      (r : Result Service TransportError) × Mem r responses × (map_error collect_response r ≡ ok s)
      → Source s responses packets
  of_response (r, m, e) = response (subst (λ x. Mem x responses) (response_of r s e) m)

  of_packet :
      (r : Result (DiscoveryPacket × SocketAddrV6) IoError) × Mem r packets
        × (announced r ≡ some (ok s))
      → Source s responses packets
  of_packet (r, m, e) =
      let (packet, source, is, a) = heard_service r s e in
      announcing packet source (subst (λ x. Mem x packets) is m) a

  source_of : Shown → ∥ Source s responses packets ∥₁
  source_of h =
      Or.elim ∥∥₁_prop h (λ m. ∥∥₁_map (mem-map.0 m) of_response)
        (λ m. ∥∥₁_map ((mem-filter_map announced packets).0 m) of_packet)

  shown_of : Source s responses packets → Shown
  shown_of (response m) = Or.inl (mem-map.1 ∣ (ok s, m, refl) ∣₁)
  shown_of (announcing packet source m a) = Or.inr (
      (mem-filter_map announced packets).1
        ∣ (ok (packet, source), m, announced_of packet source s a) ∣₁)

module _ {S : Signature} (F : FuturesUtil S) (L : IsLawful F) (P : Prost DiscoveryPacket) (port : ℕ)
    (collector : ResponseCollector S) (sender : UdpSender S) (receiver : DiscoveryPacketReceiver S)
    (scanner : IpNeighborScanner S) where
  -- What the collector and the receiver showed: the services of the items are those that come from
  -- there.
  pub record Sourced (l : List (Sight S (Result Service ScanError))) : Type 0 where
    pub responses : List (Sight S (Result Service TransportError))
    pub collected : Flows collector.collect responses
    pub packets : List (Sight S (Result (DiscoveryPacket × SocketAddrV6) IoError))
    pub received : Flows (receiver.receive get_discovery_ip port) packets
    pub services :
        (s : Service) → Mem (ok s) (items l) ↔ ∥ Source s (items responses) (items packets) ∥₁

  -- A scan of a port other than 0 shows exactly the services that are responses of the collector, or
  -- were announced, with a port below 65536, by a packet that was received: these are the source of
  -- the packet with this port.
  pub scan_internal-Sourced :
      port ≢ 0
      → {l : List (Sight S (Result Service ScanError))}
      → Flows (scan_internal F P port collector sender receiver scanner) l
      → Sourced l
  scan_internal-Sourced nonzero q =
      let d = scan_internal-Discovered F L P port collector sender receiver scanner nonzero q in
      record {
        responses = d.responses;
        collected = d.collected;
        packets = d.packets;
        received = d.received;
        services = λ s. (
          λ m. source_of (items d.responses) (items d.packets) s (
              (mem_merged d.found_merged).0 (
                Or.elim Mem-prop ((mem_merged d.items_merged).0 m) (λ i. i)
                  (λ i. absurd (no_error_item d.result i)))),
          λ h. ∥∥₁_elim h Mem-prop (λ w. (mem_merged d.items_merged).1 (
              Or.inl (
                (mem_merged d.found_merged).1
                  (shown_of (items d.responses) (items d.packets) s w)))),
        );
      }
