-- ===== src/Scanner/Delivery.antt =====
-- The datagrams of the requests: `send_requests` of main/src/scanner.rs over the sender of
-- main/src/network/udp_sender.rs and the scanners of main/src/network/ip_neighbor.
use mathlib.Core.List.{filter_map}
use tansa.Prelude.{ℕ, ◌≡◌, refl, ap, ◌∙◌, Bool, List, [], ◌∷◌, ◌++◌, Result, ok}
use tansa.Async.Runs.{Trace, Run}
use tansa.Async.Execute.{
  Answer, execute, execute-ok, IsRobust, bind-IsRobust, with_error-IsRobust, value-IsRobust,
}
use tansa.Net.{SocketAddrV6}
use tansa.Protocol.{Bytes, Request, DiscoveryPacket, Prost}
use tansa.Network.UdpSender.{UdpSender, tokio_udp_sender}
use tansa.Network.UdpSender.Robust.{unicast-IsRobust, multicast-IsRobust}
use tansa.Network.Datagrams.{
  datagram, datagrams, datagrams-append, to_neighbors, IsQuiet, IsQuiet-datagrams,
  unicast-datagrams, multicast-datagrams,
}
use tansa.Network.IpNeighbor.{IpNeighbor, get_socket_address, IpNeighborScanner, CsvError}
use tansa.Network.IpNeighbor.Address.{neighbor_address, get_socket_address_lem}
use tansa.Network.IpNeighbor.Linux.{Readers}
use tansa.Network.IpNeighbor.Windows.{NetNeighbor}
use tansa.Network.IpNeighbor.Select.{scanners}
use tansa.Network.IpNeighbor.Selected.{Chosen}
use tansa.Network.IpNeighbor.Quiet.{Chosen-IsQuiet}
use tansa.Network.IpNeighbor.Robust.{parsable, Chosen-IsRobust}
use tansa.Scanner.{send_requests, send_to_neighbors, send_request, scan_ip_neighbor}
use tansa.Scanner.Requests.{
  InOrder, no_neighbor, next_neighbor, request_bytes, multicast_address, send_requests-ok,
}
use tansa.Os.{os, Handle}
use tansa.Os.Works.{Outputs, Works}

module _ (debug : Bool) where
  abbrev sender : UdpSender os
  sender = tokio_udp_sender debug

  InOrder-datagrams :
      (port : ℕ) (bytes : Bytes) (neighbors : List IpNeighbor) {t : Trace os}
      → InOrder sender port bytes neighbors t
      → datagrams t ≡ to_neighbors port neighbors bytes
  unfolding datagrams filter_map tokio_udp_sender
  InOrder-datagrams port bytes [] no_neighbor = refl
  InOrder-datagrams port bytes (n ∷ neighbors) (next_neighbor _ _ t t₁ t₂ whole q rest) =
      ap datagrams whole
      ∙ datagrams-append t₁ t₂
      ∙ ap (λ l. l ++ datagrams t₂) (unicast-datagrams (get_socket_address n port) bytes debug q)
      ∙ ap (λ a. datagram bytes a ∷ datagrams t₂) (get_socket_address_lem n port)
      ∙ ap (λ l. datagram bytes (neighbor_address n port) ∷ l)
          (InOrder-datagrams port bytes neighbors rest)

  send_to_neighbors-IsRobust :
      (W : Outputs) (port : ℕ) (bytes : Bytes) (neighbors : List IpNeighbor)
      → IsRobust (Works W) (send_to_neighbors sender port bytes neighbors)
  unfolding send_to_neighbors tokio_udp_sender
  send_to_neighbors-IsRobust W port bytes [] = value-IsRobust (Works W) tt
  send_to_neighbors-IsRobust W port bytes (n ∷ neighbors) =
      bind-IsRobust (Works W) _ _
        (with_error-IsRobust (Works W) send_request _
          (unicast-IsRobust W debug (get_socket_address n port) bytes))
        (λ _. send_to_neighbors-IsRobust W port bytes neighbors)

  module _ (P : Prost DiscoveryPacket) (request : Request) (port : ℕ)
      (scanner : IpNeighborScanner os) where
    abbrev bytes : Bytes
    bytes = request_bytes P sender scanner request port

    abbrev group : SocketAddrV6
    group = multicast_address P sender scanner request port

    -- The neighbors were found, and the datagrams of the run are one with the request to the
    -- multicast address, and then one to each neighbor in the order of the scan, and no others.
    pub record Delivered (t : Trace os) : Type 0 where
      pub neighbors : List IpNeighbor
      pub scanning : Trace os
      pub found : Run scanner.scan scanning (ok neighbors)
      pub sent : datagrams t ≡ datagram bytes group ∷ to_neighbors port neighbors bytes

    -- Requests that were sent with no error, while the scan for neighbors sends nothing, went so.
    pub send_requests-Delivered :
        IsQuiet scanner.scan
        → {t : Trace os} → Run (send_requests P sender scanner request port) t (ok tt)
        → Delivered t
    unfolding tokio_udp_sender
    send_requests-Delivered quiet q =
        let w = send_requests-ok P sender scanner request port q in
        record {
          neighbors = w.neighbors;
          scanning = w.scanning;
          found = w.scanned;
          sent =
              ap datagrams w.whole
              ∙ datagrams-append w.sending (w.scanning ++ w.neighborly)
              ∙ ap (λ x. x ++ datagrams (w.scanning ++ w.neighborly))
                  (multicast-datagrams group bytes debug w.multicast)
              ∙ ap (λ x. datagram bytes group ∷ x)
                  (datagrams-append w.scanning w.neighborly
                    ∙ ap (λ x. x ++ datagrams w.neighborly) (IsQuiet-datagrams quiet w.scanned)
                    ∙ InOrder-datagrams port bytes w.neighbors w.unicast);
        }

    pub send_requests-IsRobust :
        (W : Outputs)
        → IsRobust (Works W) scanner.scan
        → IsRobust (Works W) (send_requests P sender scanner request port)
    unfolding send_requests tokio_udp_sender
    send_requests-IsRobust W robust =
        bind-IsRobust (Works W) _ _
          (with_error-IsRobust (Works W) send_request _ (multicast-IsRobust W debug group bytes))
          (λ _.
            bind-IsRobust (Works W) _ _ (with_error-IsRobust (Works W) scan_ip_neighbor _ robust)
              (λ neighbors. send_to_neighbors-IsRobust W port bytes neighbors))

  -- On a system that works, where the commands of the scanners for neighbors print what can be
  -- parsed, sending the requests with the chosen scanner for neighbors ends with no error. The
  -- neighbors were found, and its datagrams are the request to the multicast address, and then to
  -- the neighbors in the order of the scan, each at its own address with the port, and with the
  -- index of its network interface as the scope if the address lies in fe80::/16, 0 otherwise, and
  -- no others.
  pub send_requests-delivers :
      (read : Bytes → List (Result NetNeighbor CsvError)) (R : Readers) (prints : Handle → Bytes)
      (scanner : IpNeighborScanner os) (choosing : Trace os)
      → Chosen (scanners read R) choosing scanner
      → (P : Prost DiscoveryPacket) (request : Request) (port : ℕ) → (answer : Answer os)
      → ((past : Trace os) (c : os.Call) → Works (parsable read R prints) c (answer past c))
      → ((execute answer [] (send_requests P sender scanner request port)).1 ≡ ok tt)
        × Delivered P request port scanner
            (execute answer [] (send_requests P sender scanner request port)).0
  send_requests-delivers read R prints scanner choosing c P request port answer works =
      let w =
        execute-ok (Works (parsable read R prints)) (send_requests P sender scanner request port)
          (send_requests-IsRobust P request port scanner (parsable read R prints)
            (Chosen-IsRobust read R prints c))
          answer works [] in
      (w.0, send_requests-Delivered P request port scanner (Chosen-IsQuiet read R c) w.1)
