-- ===== src/UnitTests/Protocols.antt =====
-- The tests of protocol/rust/src/lib.rs.
use tansa.Prelude.{◌≡◌, ◌≢◌, refl, ap, Option, none, some, [], Result, ok}
use tansa.Protocol.{Request, DecodeError, Prost, IsWireFormat}
use tansa.Protocol.Decoder.{decode, decode-nonempty}

-- prost for requests.
module _ (P : Prost Request) where
  abbrev request : Request
  request = record { response_collector_port = 1 }

  abbrev decode_request : Result (Option Request) DecodeError
  decode_request = (decode P (P.encode_to_vec request)).0

  abbrev decode_empty_request : Result (Option Request) DecodeError
  decode_empty_request = (decode P []).0

  -- A field that is not 0 is written.
  actual_request :
      IsWireFormat P → P.encode_to_vec request ≢ [] → decode_request ≡ ok (some request)
  actual_request w written =
      ap (λ x. x.0) (decode-nonempty P w request (P.encode_to_vec request) refl written)

  actual_empty_request : decode_empty_request ≡ ok none
  unfolding decode
  actual_empty_request = refl
