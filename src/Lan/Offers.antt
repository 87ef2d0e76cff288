-- ===== src/Lan/Offers.antt =====
-- What a scanner takes from a datagram or a submission of one of the hosts of a network is the
-- service of this host.
use mathlib.Core.List.{Memᴰ}
use tansa.Prelude.{
  All, All-append, ℕ, ◌≤◌, ◌<◌, ◌≡◌, sym, ap, subst, ◌∙◌, some, List, [], ◌∷◌, ◌++◌, Result, ok,
  err, arith, ltb, ltb→lt, Bool-cases, inl, inr,
}
use tansa.Net.{SocketAddrV6, set_port, v6}
use tansa.Os.{Status}
use tansa.Protocol.{
  Bytes, DiscoveryPacket, Prost, IsWireFormat, WritesPayload, from_request, from_response,
}
use tansa.Protocol.Decoder.{decode, decode-encode_to_vec}
use tansa.ResponseCollector.Interleaved.{
  Entry, accepted_services, accepted_services-append, service_of,
}
use tansa.Scanner.{extract_service}
use tansa.Scanner.Extract.{extract_service_lem}
use tansa.Service.{Service}
use tansa.Lan.{Host, service_of_host}

-- The service of one of the hosts.
pub record IsOffered (hosts : List Host) (s : Service) : Type 0 where
  pub host : Host
  pub present : Memᴰ host hosts
  pub service : s ≡ service_of_host host

module _ (hosts : List Host) where
  offered_entry :
      (host : Host) (source_port port : ℕ) (r : Result (Unit {0}) Status)
      → Memᴰ host hosts
      → port ≡ host.service_port
      → All (IsOffered hosts) (service_of (some (v6 (set_port host.address source_port))) port r)
  offered_entry host q port (ok u) m e =
      let service : record { address = set_port host.address port } ≡ service_of_host host =
        ap (λ (p : ℕ). record { address = set_port host.address p }) e in
      (record { host = host; present = m; service = service }, tt)
  offered_entry host q port (err x) m e = tt

  pub accepted_more :
      (log : List Entry) (host : Host) (source_port port : ℕ) (r : Result (Unit {0}) Status)
      → Memᴰ host hosts
      → port ≡ host.service_port
      → All (IsOffered hosts) (accepted_services log)
      → All (IsOffered hosts) (
          accepted_services (
            log
            ++ record {
              from = some (v6 (set_port host.address source_port));
              port = port;
              answer = r;
            }
              ∷ []))
  accepted_more log host q port r m e h =
      subst (All (IsOffered hosts)) (sym (accepted_services-append log _)) (
        All-append _ (accepted_services log) _ h (
          All-append _ (service_of (some (v6 (set_port host.address q))) port r) []
            (offered_entry host q port r m e) tt))

module _ (P : Prost DiscoveryPacket) (w : IsWireFormat P) (written : WritesPayload P) where
  pub decoded_request :
      (port : ℕ) (bytes : Bytes) (packet : DiscoveryPacket) (left : Bytes)
      → bytes ≡ P.encode_to_vec (from_request (record { response_collector_port = port }))
      → decode P bytes ≡ (ok (some packet), left)
      → packet ≡ from_request (record { response_collector_port = port })
  decoded_request port bytes packet left is decoded =
      let whole =
        (decode-encode_to_vec P w written).0 (record { response_collector_port = port }) in
      cc (sym decoded ∙ ap (decode P) is ∙ whole)

  pub decoded_announcement :
      (port : ℕ) (bytes : Bytes) (packet : DiscoveryPacket) (left : Bytes)
      → bytes ≡ P.encode_to_vec (from_response (record { service_port = port }))
      → decode P bytes ≡ (ok (some packet), left)
      → packet ≡ from_response (record { service_port = port })
  decoded_announcement port bytes packet left is decoded =
      let whole = (decode-encode_to_vec P w written).1 (record { service_port = port }) in
      cc (sym decoded ∙ ap (decode P) is ∙ whole)

-- What a scanner learns from an announcement is the service, at a port below 65536.
pub extracted :
    (port : ℕ) (packet : DiscoveryPacket) (source : SocketAddrV6) (s : Service)
    → packet ≡ from_response (record { service_port = port })
    → extract_service packet source ≡ ok s
    → (port < 65536) × (s ≡ record { address = set_port source port })
extracted port packet source s is e =
    let same = sym (ap (λ p. extract_service p source) is) ∙ e in
    elim (Bool-cases (ltb port 65536)) [
      | inl lt ↦
          let small : port < 65536 = ltb→lt port 65536 lt in
          (small, cc (sym same ∙ (extract_service_lem source).0 port small))
      | inr ge ↦
          let large : 65536 ≤ port = ground arith in
          cc (sym same ∙ (extract_service_lem source).1 port large)
    ]
