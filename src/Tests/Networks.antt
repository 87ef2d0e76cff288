-- ===== src/Tests/Networks.antt =====
-- A network of a scanner and a server, at concrete inputs.
use mathlib.Core.List.{Memᴰ, filter_map}
use tansa.Prelude.{◌≡◌, map, All, Result, err, refl, false, [], ◌∷◌, ok, arith}
use tansa.Async.Runs.{Trace, Run, replied, returns}
use tansa.Net.{get_discovery_ip, ipv6, socket_addr_v6, SocketAddrV6}
use tansa.Protocol.{unwrap_response, from_response}
use tansa.Protocol.Decoder.{decode}
use tansa.Network.UdpSender.{unspecified, tokio_udp_sender}
use tansa.Network.Datagrams.{Datagram, datagrams, quiet_done}
use tansa.Scanner.{extract_service, send_requests, ScanError}
use tansa.Server.{ServeError, announce, announce_to_ip_neighbors, network_io}
use tansa.Lan.{Host, service_of_host, Lan, start, announces, hears, Reach, here, next}
use tansa.Lan.Honest.{IsHonest, Reach-IsHonest}
use tansa.Lan.Targets.{IsSent, requests, Sending-AllSent}
use tansa.Async.{Async}
use tansa.Async.Execute.{execute, execute-Run}
use tansa.Lan.Hearing.{Reach-hears}
use tansa.Lan.Discovery.{Reach-discovers}
use tansa.Os.{os, udp_bind, join_multicast_v6, send_to}
use tansa.Network.IpNeighbor.{get_socket_address}
use tansa.Service.{Service}
use tansa.Tests.{
  lost, scanner, futures, lawful, wire, wire-IsWireFormat, wire-WritesPayload, channel,
  channel-IsChannel, read_rows, readers,
}
use tansa.Tests.Systems.{prints, working, working-Works}
use tansa.Tests.Working.{choosing, chosen, chosen_first, group}

-- `[fe80::b]` and `[fe80::c]`
abbrev host : Host
host = record { address = socket_addr_v6 (ipv6 0xfe80 0 0 0 0 0 0 0xb) 0 0 0; service_port = 10 }

abbrev home : SocketAddrV6
home = socket_addr_v6 (ipv6 0xfe80 0 0 0 0 0 0 0xc) 0 0 0

abbrev Network : Type 0
Network = Lan futures wire channel false (host ∷ []) home 3 50000

abbrev begun : Network
begun = start futures wire channel false (host ∷ []) home 3 50000 (false, [])

abbrev Leads : Network → Network → Type 0
Leads = Reach futures wire channel false (host ∷ []) home 3 50000

-- The socket for the neighbor cannot be bound, after the datagram to the group is sent.
abbrev announced : Trace os
announced =
    (udp_bind (socket_addr_v6 unspecified 0 0 0), ok 1)
    ∷ (join_multicast_v6 1 (ipv6 0xff05 0 0 0 0 0 0xf329 0x58af) 0, ok tt)
    ∷ (send_to 1 (1 ∷ 10 ∷ []) group, ok 2)
    ∷ (udp_bind (socket_addr_v6 unspecified 0 0 0), err lost)
    ∷ []

announced_run :
    Run
      (announce futures wire group 10 (tokio_udp_sender false) scanner)
      announced
      (err (network_io lost))
unfolding announce announce_to_ip_neighbors tokio_udp_sender get_socket_address
announced_run =
    replied _ (ok 1) (replied _ (ok tt) (replied _ (ok 2) (replied _ (err lost) (returns _))))

-- `[fe80::b]:10`
abbrev found : Service
found = record { address = socket_addr_v6 (ipv6 0xfe80 0 0 0 0 0 0 0xb) 10 0 0 }

abbrev d : Datagram
d = record { bytes = 1 ∷ 10 ∷ []; address = group }

abbrev after : Network
after = record begun { announcements = (host, d) ∷ []; heard = found ∷ [] }

-- The server fails to announce its service to its neighbors, but the scanner hears of it.
heard : Leads begun after
unfolding decode extract_service unwrap_response get_discovery_ip datagrams filter_map
heard =
    let one : Leads begun (record begun { announcements = (host, d) ∷ [] }) = next here (
      announces host scanner (err (network_io lost)) (Memᴰ.head refl) (quiet_done _)
        announced_run) in
    next one (
      hears host d (from_response (record { service_port = 10 })) [] 7 found (Memᴰ.head refl) refl
        refl)

Reach-IsHonest_example :
    IsHonest futures lawful wire wire-IsWireFormat wire-WritesPayload channel channel-IsChannel
      false
      (host ∷ [])
      home
      3
      50000
      after
Reach-IsHonest_example =
    Reach-IsHonest futures lawful wire wire-IsWireFormat wire-WritesPayload channel
      channel-IsChannel false (host ∷ []) home 3 50000 (false, []) refl refl heard

abbrev asking : Async os (Result (Unit {0}) ScanError)
asking =
    send_requests wire (tokio_udp_sender false) chosen (record { response_collector_port = 3 })
      50000

abbrev announcing : Async os (Result (Unit {0}) ServeError)
announcing = announce futures wire group 10 (tokio_udp_sender false) chosen

Reach-discovers_example :
    (y : Network) × Leads after y
    × Memᴰ (service_of_host host) y.collecting.given
    × (y.requests ≡ datagrams (execute working [] asking).0)
Reach-discovers_example =
    Reach-discovers futures lawful wire wire-IsWireFormat wire-WritesPayload channel
      channel-IsChannel false (host ∷ []) home 3 50000 read_rows readers prints chosen choosing
      chosen_first working working-Works (omega arith) host (Memᴰ.head refl)
      ((λ e. omega arith), omega arith) (false, []) refl refl after heard refl

Reach-hears_example :
    (y : Network) × Leads after y
    × Memᴰ (service_of_host host) y.heard
    × (y.announcements
        ≡ (host, d) ∷ map (λ d. (host, d)) (datagrams (execute working [] announcing).0))
unfolding get_discovery_ip
Reach-hears_example =
    Reach-hears futures lawful wire wire-IsWireFormat wire-WritesPayload channel false (host ∷ [])
      home 3 50000 read_rows readers prints chosen choosing chosen_first working working-Works host
      (Memᴰ.head refl) (omega arith) after

Sending-AllSent_example :
    All
      (IsSent chosen.scan (execute working [] asking).0 (0 ∷ 3 ∷ []) 50000)
      (datagrams (execute working [] asking).0)
Sending-AllSent_example =
    Sending-AllSent futures lawful wire false chosen 50000 read_rows readers choosing chosen_first
      (0 ∷ 3 ∷ []) (execute working [] asking).0
      (requests (record { response_collector_port = 3 }) (execute-Run working [] asking))
