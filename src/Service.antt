-- ===== src/Service.antt =====
-- `Service` of main/src/scanner.rs: what a scan discovers.
use tansa.Net.{SocketAddrV6}

pub record Service : Type 0 where
  pub address : SocketAddrV6
