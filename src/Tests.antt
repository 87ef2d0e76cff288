-- ===== src/Tests.antt =====
-- Data for the examples: addresses, a toy wire format, a channel and a small network. The theorems
-- at concrete inputs, and tests against those of the source, are in the children.
use tansa.Prelude.{
  ℕ, zero, suc, ◌≡◌, ◌≢◌, refl, Bool, true, false, Option, none, some, List, [], ◌∷◌, ◌++◌, Result,
  ok, err, ap, if◌then◌else◌, ◌==◌,
}
use tansa.Async.{Async, done}
use tansa.Async.Stream.{Stream, finished, yields}
use tansa.Async.Futures.{FuturesUtil, IsLawful}
use tansa.Async.Sequential.{sequential}
use tansa.Async.Sequential.Lawful.{sequential-IsLawful}
use tansa.Net.{Ipv6Addr, ipv6, SocketAddr, v4, v6, SocketAddrV6, socket_addr_v6}
use tansa.Protocol.{
  Bytes, Request, Response, Payload, request, announcement, DiscoveryPacket, from_request,
  from_response, Prost, ProstError, IsWireFormat, WritesPayload, IoError,
}
use tansa.Network.UdpReceiver.{UdpReceiver, UdpFramed}
use tansa.Network.IpNeighbor.{IpNeighbor, IpNeighborScanner, CsvError, JsonError}
use tansa.Packet.{DiscoveryPacketReceiver}
use tansa.ResponseCollector.{Channel, IsChannel, ResponseCollector}
use tansa.Service.{Service}
use tansa.Os.{os, TransportError}
use tansa.Network.IpNeighbor.Windows.{NetNeighbor}
use tansa.Network.IpNeighbor.Linux.{Readers, Neighbor, Link}
mod Servers
mod Scanners
mod Collectors
mod Neighbors
mod Scans
mod Sockets
mod Systems
mod Working
mod Networks
mod WorkingScans
mod Urls

abbrev pub futures : FuturesUtil os
futures = sequential

pub lawful : IsLawful futures
lawful = sequential-IsLawful

-- `[::123%456]:2`
abbrev pub remote : SocketAddrV6
remote = socket_addr_v6 (ipv6 0 0 0 0 0 0 0 0x123) 2 0 456

-- `fe80::a`
abbrev pub near : Ipv6Addr
near = ipv6 0xfe80 0 0 0 0 0 0 0xa

abbrev pub neighbor : IpNeighbor
neighbor = record { address = near; network_interface_index = 1000 }

-- A message is a tag and its port.
abbrev encode : Option Payload → Bytes
encode none = []
encode (some (request r)) = 0 ∷ r.response_collector_port ∷ []
encode (some (announcement r)) = 1 ∷ r.service_port ∷ []

abbrev decoded : Bytes → Result DiscoveryPacket ProstError × Bytes
decoded [] = (ok (record { payload = none }), [])
decoded (tag ∷ []) = (err (record { code = 1 }), [])
decoded (zero ∷ port ∷ left) = (ok (from_request (record { response_collector_port = port })), left)
decoded (suc tag ∷ port ∷ left) = (ok (from_response (record { service_port = port })), left)

abbrev pub wire : Prost DiscoveryPacket
wire = record { encode_to_vec = λ m. encode m.payload; decode = decoded }

decoded-encode : (p : Option Payload) → decoded (encode p) ≡ (ok (record { payload = p }), [])
decoded-encode none = refl
decoded-encode (some (request r)) = refl
decoded-encode (some (announcement r)) = refl

pub wire-IsWireFormat : IsWireFormat wire
wire-IsWireFormat = record { decode-encode_to_vec = λ m. decoded-encode m.payload }

pub wire-WritesPayload : WritesPayload wire
wire-WritesPayload (request r) = λ e. cc
wire-WritesPayload (announcement r) = λ e. cc

abbrev pub lost : IoError
lost = record { code = 5 }

-- A request, and then a failure of the socket.
abbrev pub receiver : DiscoveryPacketReceiver os
receiver = record {
  receive = λ ip port.
      yields (ok (from_request (record { response_collector_port = 3 }), remote))
        (yields (err lost) finished);
}

abbrev pub scanner : IpNeighborScanner os
scanner = record { supports_current_operating_system = done true; scan = done (ok (neighbor ∷ [])) }

-- A channel is whether it is closed, and what it holds.
abbrev submitted :
    Service → Bool × List Service → Result (Unit {0}) (Unit {0}) × (Bool × List Service)
submitted a (true, l) = (err tt, (true, l))
submitted a (false, l) = (ok tt, (false, l ++ a ∷ []))

abbrev polled : Bool × List Service → Option Service × (Bool × List Service)
polled (c, []) = (none, (c, []))
polled (c, a ∷ l) = (some a, (c, l))

abbrev pub channel : Channel Service
channel = record {
  State = Bool × List Service;
  is_closed = λ s. s.0;
  queued = λ s. s.1;
  unbounded_send = submitted;
  poll_next = polled;
  drop_receiver = λ s. (true, []);
}

sent : (a : Service) (s : Bool × List Service) → s.0 ≡ false → (submitted a s).0 ≡ ok tt
sent a (true, l) e = cc
sent a (false, l) e = refl

queued_last :
    (a : Service) (s : Bool × List Service) → s.0 ≡ false → (submitted a s).1.1 ≡ s.1 ++ a ∷ []
queued_last a (true, l) e = cc
queued_last a (false, l) e = refl

refused : (a : Service) (s : Bool × List Service) → s.0 ≡ true → submitted a s ≡ (err tt, s)
refused a (true, l) e = refl
refused a (false, l) e = cc

still_open : (a : Service) (s : Bool × List Service) → (submitted a s).1.0 ≡ s.0
still_open a (true, l) = refl
still_open a (false, l) = refl

polled_first :
    (a : Service) (l : List Service) (s : Bool × List Service)
    → s.1 ≡ a ∷ l
    → ((polled s).0 ≡ some a) × ((polled s).1.1 ≡ l) × ((polled s).1.0 ≡ s.0)
polled_first a l (c, []) e = cc
polled_first a l (c, b ∷ m) e = (ap some (cc e), cc e, refl)

polled_empty : (s : Bool × List Service) → s.1 ≡ [] → polled s ≡ (none, s)
polled_empty (c, []) e = refl
polled_empty (c, b ∷ m) e = cc

pub channel-IsChannel : IsChannel channel
channel-IsChannel = record {
  sent = sent;
  queued_last = queued_last;
  refused = refused;
  still_open = still_open;
  polled_first = polled_first;
  polled_empty = polled_empty;
  dropped = λ s. refl;
}

abbrev frame :
    {T E : Type 0}
    → Result (Option T) E
    → SocketAddr
    → Stream os (Result (T × SocketAddr) E)
    → Stream os (Result (T × SocketAddr) E)
frame (ok none) a rest = rest
frame (ok (some t)) a rest = yields (ok (t, a)) rest
frame (err e) a rest = yields (err e) rest

-- An announcement, a datagram that cannot be decoded, and a request over IPv4.
abbrev pub framed : UdpFramed
framed = record {
  frames = λ from socket decoder. frame (decoder (1 ∷ 8 ∷ [])).0 (v6 remote) (
      frame (decoder (1 ∷ [])).0 (v6 remote)
        (frame (decoder (0 ∷ 3 ∷ [])).0 (v4 (record { ip = 0; port = 1 })) finished));
}

-- Readers of the outputs of PowerShell and of `iproute2`: what starts with `"`, with `f` or with `[`
-- is a table of the one, a table of the other, or a list of links, and any other bytes are an error,
-- but an empty table has no rows.
abbrev pub read_rows : Bytes → List (Result NetNeighbor CsvError)
read_rows [] = []
read_rows (b ∷ l) =
    (if b == 34
      then ok (record { interface_index = 1000; ip_address = near; state = "Reachable" })
      else err (record { code = 3 }))
    ∷ []

abbrev read_table : Bytes → List (Result Neighbor CsvError)
read_table [] = []
read_table (b ∷ l) =
    (if b == 102
      then ok (record {
        ip = near;
        dev = "dev";
        ifname = "eth0";
        lladdr = "lladdr";
        mac = "";
        router = "";
        state = "REACHABLE";
      })
      else err (record { code = 3 }))
    ∷ []

abbrev read_list : Bytes → Result (List Link) JsonError
read_list [] = err (record { code = 4 })
read_list (b ∷ l) =
    if b == 91 then ok (record { ifindex = 2; ifname = "eth0" } ∷ []) else err (record { code = 4 })

abbrev pub readers : Readers
readers = record { read_neighbors = read_table; read_links = read_list }
