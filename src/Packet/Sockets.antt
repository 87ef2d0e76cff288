-- ===== src/Packet/Sockets.antt =====
-- The packets of main/src/packet.rs over the socket of main/src/network/udp_receiver.rs, on a system
-- that works.
use mathlib.Core.List.{Mem, mem-filter_map}
use mathlib.Core.Logic.{∥∥₁_elim}
use mathlib.Core.HLevel.{⊥_prop}
use tansa.Prelude.{ℕ, ◌≡◌, subst, some, List, Result, ok, err}
use tansa.Async.Stream.{Sight, items, calls, Flows}
use tansa.Async.Futures.{FuturesUtil, IsLawful}
use tansa.Async.Execute.{AllGood, good_event}
use tansa.Net.{Ipv6Addr, SocketAddr, v4, v6}
use tansa.Protocol.{DiscoveryPacket, Prost, IoError, DecodeError, io, protobuf}
use tansa.Protocol.Decoder.{decode}
use tansa.Network.UdpReceiver.{UdpFramed, tokio_udp_receiver}
use tansa.Network.UdpReceiver.Listens.{
  Listens, listening, not_bound, not_joined, loop_not_set, tokio_receive-Listens,
}
use tansa.Packet.{packet_receiver}
use tansa.Packet.Receive.{heard, receive-Sifted}
use tansa.Os.{os, Handle}
use tansa.Os.Reliable.{ShowsNoErrors}
use tansa.Os.Works.{Outputs, Works}

heard_error :
    (r : Result (DiscoveryPacket × SocketAddr) DecodeError)
    (l : List (Result (DiscoveryPacket × SocketAddr) DecodeError)) (e : IoError)
    → heard r ≡ some (err e)
    → Mem r l
    → Mem (err (io e)) l
unfolding heard
heard_error (ok (packet, v6 a)) l e p m = cc
heard_error (ok (packet, v4 a)) l e p m = cc
heard_error (err (io x)) l e p m = let same : x ≡ e = cc in subst (λ y. Mem (err (io y)) l) same m
heard_error (err (protobuf x)) l e p m = cc

module _ (W : Outputs) (F : FuturesUtil os) (L : IsLawful F) (P : Prost DiscoveryPacket)
    (framed : UdpFramed) where
  -- While the calls succeed the socket shows no error of the network. It may show datagrams that
  -- cannot be decoded.
  abbrev pub FramesWell : Type 0
  FramesWell =
      (socket : Handle) (l : List (Sight os (Result (DiscoveryPacket × SocketAddr) DecodeError)))
      → Flows (framed.frames io socket (decode P)) l
      → AllGood (Works W) (calls l)
      → (e : IoError) → ¬ Mem (err (io e)) (items l)

  framed_well :
      (ip : Ipv6Addr) (port : ℕ)
      → FramesWell
      → {l : List (Sight os (Result (DiscoveryPacket × SocketAddr) DecodeError))}
      → Listens framed io ip port (decode P) l
      → AllGood (Works W) (calls l)
      → (e : IoError) → ¬ Mem (err (io e)) (items l)
  framed_well ip port well (listening s l q)
        (good_event _ _ _ (good_event _ _ _ (good_event _ _ _ g))) e m =
      well s l q g e m
  framed_well ip port well (not_bound x) (good_event _ _ bad _) e m = bad
  framed_well ip port well (not_joined s x) (good_event _ _ _ (good_event _ _ bad _)) e m = bad
  framed_well ip port well (loop_not_set s x)
        (good_event _ _ _ (good_event _ _ _ (good_event _ _ bad _))) e m =
      bad

  -- Then the packets show no error.
  pub packet_receiver-ShowsNoErrors :
      (ip : Ipv6Addr) (port : ℕ)
      → FramesWell
      → ShowsNoErrors W ((packet_receiver F P (tokio_udp_receiver F framed)).receive ip port)
  unfolding packet_receiver tokio_udp_receiver
  packet_receiver-ShowsNoErrors ip port well l q g e m =
      let s = receive-Sifted F L P (tokio_udp_receiver F framed) ip port l q in
      let h = tokio_receive-Listens F L framed io ip port (decode P) s.flow in
      ∥∥₁_elim ((mem-filter_map heard (items s.sights)).0 (subst (Mem (err e)) s.same_items m))
        ⊥_prop
        (λ w.
          framed_well ip port well h (subst (AllGood (Works W)) s.same_calls g) e
            (heard_error w.0 (items s.sights) e w.2 w.1))
