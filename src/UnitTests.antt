-- ===== src/UnitTests.antt =====
-- The unit tests of main/src and protocol/rust/src, with their inputs, run on the
-- model. A mock of `mockall` is a call that is recorded with its arguments; a test that expects
-- arguments compares the calls. prost is a parameter, as everywhere.
mod Servers
mod Scanners
mod Collectors
mod Neighbors
mod Protocols
mod Processes
mod Senders
mod Ports
use tansa.Prelude.{ℕ, true, List, [], ◌∷◌, Result, ok}
use tansa.Async.{Signature, Async, done, call}
use tansa.Async.Stream.{Stream, finished, yields, awaits}
use tansa.Async.Runs.{Trace}
use tansa.Async.Execute.{Answer}
use tansa.Net.{Ipv6Addr, ipv6, SocketAddrV6}
use tansa.Net.Display.{Text}
use tansa.Protocol.{Bytes, Response, DiscoveryPacket, IoError}
use tansa.Network.UdpSender.{UdpSender}
use tansa.Network.IpNeighbor.{IpNeighbor, IpNeighborScanner}
use tansa.Packet.{DiscoveryPacketReceiver}
use tansa.ResponseSender.{AnyhowError, ResponseSender}

-- The calls of the mocks.
pub data MockCall : Type 0 where
  send_multicast send_unicast : SocketAddrV6 → Bytes → MockCall
  send : Response → Text → MockCall
  receive : Ipv6Addr → ℕ → MockCall

abbrev pub MockReply : MockCall → Type 0
MockReply (send_multicast a b) = Result (Unit {0}) IoError
MockReply (send_unicast a b) = Result (Unit {0}) IoError
MockReply (send r u) = Result (Unit {0}) AnyhowError
MockReply (receive ip port) = Unit {0}

abbrev pub mocks : Signature
mocks = record { Call = MockCall; Reply = MockReply }

-- The replies of mocks that succeed, but for what the sender of responses replies.
abbrev pub replying : Result (Unit {0}) AnyhowError → Answer mocks
replying r past (send_multicast a b) = ok tt
replying r past (send_unicast a b) = ok tt
replying r past (send response url) = r
replying r past (receive ip port) = tt

-- `MockUdpSender`, `MockResponseSender`
abbrev pub mock_udp_sender : UdpSender mocks
mock_udp_sender = record {
  send_multicast = λ a b. call (send_multicast a b) done;
  send_unicast = λ a b. call (send_unicast a b) done;
}

abbrev pub mock_response_sender : ResponseSender mocks
mock_response_sender = record { send = λ r u. call (send r u) done }

-- `futures_util::stream::iter`
abbrev pub iter : {A : Type 0} → List A → Stream mocks A
iter [] = finished
iter (a ∷ l) = yields a (iter l)

-- `MockDiscoveryPacketReceiver` that gives these packets.
abbrev pub mock_receiver :
    List (Result (DiscoveryPacket × SocketAddrV6) IoError) → DiscoveryPacketReceiver mocks
mock_receiver packets = record { receive = λ ip port. awaits (receive ip port) (λ _. iter packets) }

-- `MockIpNeighborScanner` that finds these neighbors.
abbrev pub mock_scanner : List IpNeighbor → IpNeighborScanner mocks
mock_scanner neighbors = record {
  supports_current_operating_system = done true;
  scan = done (ok neighbors);
}

-- `std::io::ErrorKind::Other`
abbrev pub other : IoError
other = record { code = 0 }
