-- ===== src/Protocol.antt =====
-- protocol/grpc (the messages) and protocol/rust/src/lib.rs. The code that `prost` generates and
-- its wire format are the parameter `Prost`.
pub mod Decoder
use tansa.Prelude.{ℕ, ◌≡◌, ◌≢◌, Option, none, some, List, [], Result, ok}

-- Bytes, each below 256.
abbrev pub Bytes : Type 0
Bytes = List ℕ

pub record Request : Type 0 where
  pub response_collector_port : ℕ

pub record Response : Type 0 where
  pub service_port : ℕ

pub data Payload : Type 0 where
  request : Request → Payload
  announcement : Response → Payload

pub record DiscoveryPacket : Type 0 where
  pub payload : Option Payload

request_of : Option Payload → Option Request
request_of (some (request r)) = some r
request_of _ = none

unfoldable pub unwrap_request : DiscoveryPacket → Option Request
unfolding request_of
unwrap_request p = request_of p.payload

response_of : Option Payload → Option Response
response_of (some (announcement r)) = some r
response_of _ = none

unfoldable pub unwrap_response : DiscoveryPacket → Option Response
unfolding response_of
unwrap_response p = response_of p.payload

-- `From<Request> for DiscoveryPacket` and `From<Response> for DiscoveryPacket`
abbrev pub from_request : Request → DiscoveryPacket
from_request r = record { payload = some (request r) }

abbrev pub from_response : Response → DiscoveryPacket
from_response r = record { payload = some (announcement r) }

-- Errors of the standard library and of the crates. The code passes them on and never looks inside.
pub record IoError : Type 0 where
  pub code : ℕ

pub record ProstError : Type 0 where
  pub code : ℕ

pub data DecodeError : Type 0 where
  io : IoError → DecodeError
  protobuf : ProstError → DecodeError

-- `prost::Message` for `M`. `decode` also returns what it left in the buffer.
pub record Prost (M : Type 0) : Type 0 where
  pub encode_to_vec : M → Bytes
  pub decode : Bytes → Result M ProstError × Bytes

pub record IsWireFormat {M : Type 0} (P : Prost M) : Type 0 where
  -- Decoding an encoded message gives the message, and takes the whole buffer.
  pub decode-encode_to_vec : (m : M) → P.decode (P.encode_to_vec m) ≡ (ok m, [])

-- A field of a `oneof` is written to the wire also when its message is empty.
abbrev pub WritesPayload : Prost DiscoveryPacket → Type 0
WritesPayload P = (p : Payload) → P.encode_to_vec (record { payload = some p }) ≢ []
