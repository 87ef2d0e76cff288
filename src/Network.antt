-- ===== src/Network.antt =====
-- main/src/network: sockets and IP neighbors.
pub mod UdpSender
pub mod UdpReceiver
pub mod IpNeighbor
pub mod Datagrams
pub mod Carries
