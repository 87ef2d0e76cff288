-- ===== src/Scanner/RoundTrip.antt =====
-- An announcement from end to end: main/src/scanner.rs over protocol/rust/src/lib.rs.
use tansa.Prelude.{ℕ, ◌<◌, ◌≡◌, some, [], ok}
use tansa.Net.{SocketAddrV6, set_port}
use tansa.Protocol.{DiscoveryPacket, from_response, Prost, IsWireFormat, WritesPayload}
use tansa.Protocol.Decoder.{decode, decode-encode_to_vec}
use tansa.Scanner.{extract_service}
use tansa.Scanner.Extract.{extract_service_lem}

module _ (P : Prost DiscoveryPacket) (w : IsWireFormat P) (h : WritesPayload P) where
  -- What a scanner decodes from the bytes that a server announces gives the service: the server's
  -- address with the service port.
  pub announcement-extract_service :
      (service_port : ℕ) (source : SocketAddrV6)
      → service_port < 65536
      → (packet : DiscoveryPacket) × (decode P
            (P.encode_to_vec (from_response (record { service_port = service_port })))
          ≡ (ok (some packet), []))
        × (extract_service packet source ≡ ok (record { address = set_port source service_port }))
  announcement-extract_service service_port source small = (
    from_response (record { service_port = service_port }),
    (decode-encode_to_vec P w h).1 (record { service_port = service_port }),
    (extract_service_lem source).0 service_port small,
  )
