-- ===== src/Scanner/Extract.antt =====
-- `extract_service` and `receive_announcements` of main/src/scanner.rs.
use mathlib.Core.Option.{bind}
use tansa.Prelude.{
  ℕ, ◌≤◌, ◌<◌, ◌≡◌, refl, Option, none, some, List, Result, ok, err, ltb, if◌then◌else◌, map_error,
  map_result, transpose, ok_value, Bool-cases, inl, inr,
}
use tansa.Async.{Signature}
use tansa.Async.Stream.{Sight, Flows}
use tansa.Async.Futures.{FuturesUtil, IsLawful}
use tansa.Async.Adaptors.{
  Sifted, filter_map-Sifted, map_ok-Sifted, map_err-Sifted, Sifted_trans, Sifted_ext,
}
use tansa.Net.{Ipv6Addr, SocketAddrV6, set_port, try_into_u16-eq_some, try_into_u16-eq_none}
use tansa.Protocol.{
  DiscoveryPacket, from_response, unwrap_response, request, announcement, Payload, IoError,
}
use tansa.Packet.{DiscoveryPacketReceiver}
use tansa.ResponseSender.{message}
use tansa.Service.{Service}
use tansa.Scanner.{extract_service, receive_announcements, ScanError, send_request}

module _ (address : SocketAddrV6) where
  -- An announcement of a port in range gives the service at that port of the address that it came
  -- from, also for the port 0. A port out of range and any other packet give an error.
  pub extract_service_lem :
      ((port : ℕ)
        → port < 65536
        → extract_service (from_response (record { service_port = port })) address
          ≡ ok (record { address = set_port address port }))
      × ((port : ℕ)
          → 65536 ≤ port
          → extract_service (from_response (record { service_port = port })) address
            ≡ err (message "Port out of range"))
      × ((packet : DiscoveryPacket)
          → unwrap_response packet ≡ none
          → extract_service packet address ≡ err (message "Not an `Announcement`"))
  unfolding extract_service unwrap_response
  extract_service_lem = (
    λ port h. rw (try_into_u16-eq_some port h),
    λ port h. rw (try_into_u16-eq_none port h),
    λ packet h. rw h,
  )

-- What a scanner learns from the payload of a packet and its source address.
unfoldable pub announced_service : Option Payload → SocketAddrV6 → Option Service
announced_service (some (announcement r)) a =
    if ltb r.service_port 65536 then some (record { address = set_port a r.service_port }) else none
announced_service (some (request r)) a = none
announced_service none a = none

abbrev pub as_item : Option Service → Option (Result Service ScanError)
as_item none = none
as_item (some s) = some (ok s)

unfoldable pub announced :
    Result (DiscoveryPacket × SocketAddrV6) IoError → Option (Result Service ScanError)
unfolding announced_service
announced (ok (packet, a)) = as_item (announced_service packet.payload a)
announced (err e) = some (err (send_request e))

abbrev extracted : DiscoveryPacket × SocketAddrV6 → Option Service
extracted received = ok_value (extract_service received.0 received.1)

transposed :
    (payload : Option Payload) (a : SocketAddrV6)
    → transpose (map_result extracted (ok (record { payload = payload }, a)))
      ≡ announced (ok (record { payload = payload }, a))
unfolding announced extract_service unwrap_response
transposed (some (announcement r)) a = elim (Bool-cases (ltb r.service_port 65536)) [
  | inl lt ↦ rw lt
  | inr ge ↦ rw ge
]
transposed (some (request r)) a = refl
transposed none a = refl

steps :
    (r : Result (DiscoveryPacket × SocketAddrV6) IoError)
    → bind (bind (some (map_error send_request r)) (λ x. some (map_result extracted x))) transpose
      ≡ announced r
unfolding bind
steps (ok (packet, a)) = transposed packet.payload a
steps (err e) = unfold announced in refl

module _ {S : Signature} (F : FuturesUtil S) (L : IsLawful F)
    (receiver : DiscoveryPacketReceiver S) where
  -- The announcements that are received show, in order, what is learned of each packet, and the
  -- errors of the socket; other packets show nothing.
  pub receive_announcements-Sifted :
      (ip : Ipv6Addr) (port : ℕ) (l : List (Sight S (Result Service ScanError)))
      → Flows (receive_announcements F receiver ip port) l
      → Sifted announced (receiver.receive ip port) l
  unfolding receive_announcements
  receive_announcements-Sifted ip port l q = Sifted_ext _ announced steps (
      Sifted_trans _ transpose
        (λ m r.
          Sifted_trans _ _ (λ k. map_err-Sifted F L send_request (receiver.receive ip port) k)
            (map_ok-Sifted F L extracted _ m r))
        (filter_map-Sifted F L transpose _ l q))
