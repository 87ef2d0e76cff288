-- ===== src/Protocol/Decoder.antt =====
-- `ProtobufDecoder` of protocol/rust/src/lib.rs: the decoder of the frames on a UDP socket.
use tansa.Prelude.{◌≡◌, ◌≢◌, refl, Option, none, some, [], ◌∷◌, Result, ok, map_result, map_error}
use tansa.Protocol.{
  Bytes, DiscoveryPacket, DecodeError, protobuf, Prost, IsWireFormat, WritesPayload, from_request,
  from_response, request, announcement, Request, Response,
}

-- `tokio_util::codec::Decoder`: the result, and the buffer after the call. No item means that the
-- buffer holds no whole frame.
abbrev pub Decoder : Type 0 → Type 0 → Type 0
Decoder T E = Bytes → Result (Option T) E × Bytes

module _ {M : Type 0} (P : Prost M) where
  unfoldable pub decode : Decoder M DecodeError
  decode [] = (ok none, [])
  decode (b ∷ src) =
      let (result, left) = P.decode (b ∷ src) in (map_result some (map_error protobuf result), left)

  pub decode-nonempty :
      IsWireFormat P
      → (m : M) (l : Bytes) → P.encode_to_vec m ≡ l
      → l ≢ []
      → decode l ≡ (ok (some m), [])
  unfolding decode
  decode-nonempty w m [] e h = absurd (h refl)
  decode-nonempty w m (b ∷ l) e h = rw (← e, w.decode-encode_to_vec)

module _ (P : Prost DiscoveryPacket) (w : IsWireFormat P) (h : WritesPayload P) where
  -- What a peer sends as a request or an announcement comes out of the decoder as that message,
  -- and the buffer is used up.
  pub decode-encode_to_vec :
      ((r : Request)
        → decode P (P.encode_to_vec (from_request r)) ≡ (ok (some (from_request r)), []))
      × ((r : Response)
          → decode P (P.encode_to_vec (from_response r)) ≡ (ok (some (from_response r)), []))
  decode-encode_to_vec = (
    λ r.
        decode-nonempty P w (from_request r) (P.encode_to_vec (from_request r)) refl
          (h (request r)),
    λ r.
        decode-nonempty P w (from_response r) (P.encode_to_vec (from_response r)) refl
          (h (announcement r)),
  )
