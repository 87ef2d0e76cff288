-- ===== src/Network/IpNeighbor.antt =====
-- main/src/network/ip_neighbor/mod.rs: devices that are connected to the host directly.
mod Defs
pub mod Linux
pub mod Windows
pub mod Select
pub mod Address
pub mod Selected
pub mod Scans
pub mod Quiet
pub mod Valid
pub mod Robust
pub mod Failures
pub use Defs.{
  IpNeighborScanError, child_process, parse_csv, parse_json, CsvError, JsonError, IpNeighbor,
  IpNeighborScanner, dummy_scanner, collect_results, keep,
}
unfoldable pub use Defs.{is_link_local, get_socket_address, is_valid_ip}
