-- ===== src/Server/Delivery.antt =====
-- The datagrams of an announcement: `announce` of main/src/server.rs over the sender of
-- main/src/network/udp_sender.rs and the scanners of main/src/network/ip_neighbor.
use mathlib.Core.List.{Perm, filter_map}
use mathlib.Core.List.Perm
use tansa.Prelude.{ℕ, ◌≡◌, refl, sym, ap, subst, ◌∙◌, Bool, List, [], ◌∷◌, ◌++◌, Result, ok}
use tansa.Async.Runs.{Trace, Run}
use tansa.Async.Concurrent.{Each, no_more, each, Succeeds}
use tansa.Async.Futures.{FuturesUtil, IsLawful}
use tansa.Async.Execute.{
  Answer, execute, execute-ok, IsRobust, bind-IsRobust, with_error-IsRobust, AllRobust, no_future,
  robust_future, Joined-robust,
}
use tansa.Net.{SocketAddrV6}
use tansa.Protocol.{Bytes, from_response, DiscoveryPacket, Prost}
use tansa.Network.UdpSender.{UdpSender, tokio_udp_sender}
use tansa.Network.UdpSender.Robust.{unicast-IsRobust, multicast-IsRobust}
use tansa.Network.Datagrams.{
  Datagram, datagram, datagrams, datagrams-append, datagrams-perm, to_neighbors, concat,
  Shuffle-perm, IsQuiet, IsQuiet-datagrams, unicast-datagrams, multicast-datagrams,
}
use tansa.Network.IpNeighbor.{IpNeighbor, get_socket_address, IpNeighborScanner, CsvError}
use tansa.Network.IpNeighbor.Address.{neighbor_address, get_socket_address_lem}
use tansa.Network.IpNeighbor.Linux.{Readers}
use tansa.Network.IpNeighbor.Windows.{NetNeighbor}
use tansa.Network.IpNeighbor.Select.{scanners}
use tansa.Network.IpNeighbor.Selected.{Chosen}
use tansa.Network.IpNeighbor.Quiet.{Chosen-IsQuiet}
use tansa.Network.IpNeighbor.Robust.{parsable, Chosen-IsRobust}
use tansa.Server.{announce, network_io, ip_neighbor}
use tansa.Server.Announce.{Announced, unicasts, announce_to_ip_neighbors-Joined, announce-ok}
use tansa.Os.{os, Handle}
use tansa.Os.Works.{Outputs, Works}

module _ (F : FuturesUtil os) (L : IsLawful F) (debug : Bool) where
  abbrev sender : UdpSender os
  sender = tokio_udp_sender debug

  unicasts-datagrams :
      (port : ℕ) (neighbors : List IpNeighbor) (bytes : Bytes) {ts : List (Trace os)}
      → Each Succeeds (unicasts F L sender port neighbors bytes) ts
      → datagrams (concat ts) ≡ to_neighbors port neighbors bytes
  unfolding datagrams filter_map tokio_udp_sender
  unicasts-datagrams port [] bytes no_more = refl
  unicasts-datagrams port (n ∷ neighbors) bytes (each {t} {ts} (tt, q) rest) =
      datagrams-append t (concat ts)
      ∙ ap (λ l. l ++ datagrams (concat ts))
          (unicast-datagrams (get_socket_address n port) bytes debug q)
      ∙ ap (λ a. datagram bytes a ∷ datagrams (concat ts)) (get_socket_address_lem n port)
      ∙ ap (λ l. datagram bytes (neighbor_address n port) ∷ l)
          (unicasts-datagrams port neighbors bytes rest)

  module _ (P : Prost DiscoveryPacket) (address : SocketAddrV6) (service_port : ℕ)
      (scanner : IpNeighborScanner os) where
    abbrev pub announcement_bytes : Bytes
    announcement_bytes = P.encode_to_vec (from_response (record { service_port = service_port }))

    -- The neighbors were found, and the datagrams of the run are one with the announcement to the
    -- multicast address and one to each neighbor, in some order, and no others.
    pub record Delivered (t : Trace os) : Type 0 where
      pub neighbors : List IpNeighbor
      pub scanning : Trace os
      pub found : Run scanner.scan scanning (ok neighbors)
      pub sent : Perm (datagrams t) (
          datagram announcement_bytes address
          ∷ to_neighbors address.port neighbors announcement_bytes)

    same_datagrams :
        (t u v w : Trace os) {d : Datagram}
        → t ≡ u ++ (v ++ w)
        → datagrams u ≡ []
        → datagrams v ≡ d ∷ []
        → datagrams t ≡ d ∷ datagrams w
    same_datagrams t u v w whole scan multi =
        ap datagrams whole
        ∙ datagrams-append u (v ++ w)
        ∙ ap (λ x. x ++ datagrams (v ++ w)) scan
        ∙ datagrams-append v w
        ∙ ap (λ x. x ++ datagrams w) multi

    -- The datagram to the multicast address is the first one.
    pub Announced-datagrams :
        IsQuiet scanner.scan
        → {t : Trace os} (a : Announced F L sender P address service_port scanner t)
        → datagrams t ≡ datagram announcement_bytes address ∷ datagrams a.neighborly
    unfolding tokio_udp_sender
    Announced-datagrams quiet {t} a =
        same_datagrams t a.scanning a.sending a.neighborly a.whole
          (IsQuiet-datagrams quiet a.scanned)
          (multicast-datagrams address announcement_bytes debug a.multicast)

    -- An announcement whose scan for neighbors sends nothing sent these datagrams.
    pub Announced-Delivered :
        IsQuiet scanner.scan
        → {t : Trace os} → Announced F L sender P address service_port scanner t
        → Delivered t
    Announced-Delivered quiet a =
        let u = a.unicast in
        let others =
          subst (Perm (datagrams a.neighborly))
            (unicasts-datagrams address.port a.neighbors announcement_bytes u.all)
            (datagrams-perm (Shuffle-perm u.shuffled)) in
        record {
          neighbors = a.neighbors;
          scanning = a.scanning;
          found = a.scanned;
          sent =
              subst
                (λ l. Perm l (
                  datagram announcement_bytes address
                  ∷ to_neighbors address.port a.neighbors announcement_bytes))
                (sym (Announced-datagrams quiet a)) (Perm.cons _ others);
        }

    unicasts-AllRobust :
        (W : Outputs) (port : ℕ) (neighbors : List IpNeighbor) (bytes : Bytes)
        → AllRobust (Works W) (unicasts F L sender port neighbors bytes)
    unfolding tokio_udp_sender
    unicasts-AllRobust W port [] bytes = no_future
    unicasts-AllRobust W port (n ∷ neighbors) bytes =
        robust_future (unicast-IsRobust W debug (get_socket_address n port) bytes)
          (unicasts-AllRobust W port neighbors bytes)

    pub announce-IsRobust :
        (W : Outputs)
        → IsRobust (Works W) scanner.scan
        → IsRobust (Works W) (announce F P address service_port sender scanner)
    unfolding announce tokio_udp_sender
    announce-IsRobust W robust =
        bind-IsRobust (Works W) _ _ (with_error-IsRobust (Works W) ip_neighbor _ robust)
          (λ neighbors.
            bind-IsRobust (Works W) _ _
              (with_error-IsRobust (Works W) network_io _
                (multicast-IsRobust W debug address announcement_bytes))
              (λ _. with_error-IsRobust (Works W) network_io _ (λ t e g q.
                Joined-robust (Works W)
                  (unicasts-AllRobust W address.port neighbors announcement_bytes) g
                  (announce_to_ip_neighbors-Joined F L sender address.port neighbors
                    announcement_bytes q))))

  -- On a system that works, where the commands of the scanners for neighbors print what can be
  -- parsed, an announcement with the chosen scanner for neighbors ends with no error. The neighbors
  -- were found, and its datagrams are the announcement to the multicast address and to the
  -- neighbors, each at its own address with the port, and with the index of its network interface
  -- as the scope if the address lies in fe80::/16, 0 otherwise, in some order, and no others.
  pub announce-delivers :
      (read : Bytes → List (Result NetNeighbor CsvError)) (R : Readers) (prints : Handle → Bytes)
      (scanner : IpNeighborScanner os) (choosing : Trace os)
      → Chosen (scanners read R) choosing scanner
      → (P : Prost DiscoveryPacket) (address : SocketAddrV6) (service_port : ℕ)
      → (answer : Answer os)
      → ((past : Trace os) (c : os.Call) → Works (parsable read R prints) c (answer past c))
      → ((execute answer [] (announce F P address service_port sender scanner)).1 ≡ ok tt)
        × Delivered P address service_port scanner
            (execute answer [] (announce F P address service_port sender scanner)).0
  announce-delivers read R prints scanner choosing c P address service_port answer works =
      let w =
        execute-ok (Works (parsable read R prints))
          (announce F P address service_port sender scanner)
          (announce-IsRobust P address service_port scanner (parsable read R prints)
            (Chosen-IsRobust read R prints c))
          answer works [] in
      (
        w.0,
        Announced-Delivered P address service_port scanner (Chosen-IsQuiet read R c)
            (announce-ok F L sender P address service_port scanner w.1),
      )
