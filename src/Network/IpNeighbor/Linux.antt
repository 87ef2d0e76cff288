-- ===== src/Network/IpNeighbor/Linux.antt =====
-- main/src/network/ip_neighbor/linux.rs: neighbors by `iproute2`. The reading of the two outputs by
-- the crates `csv` and `serde_json` is the parameter `Readers`.
pub mod Useful
use mathlib.Core.List.{filter_map}
use Prim.Native.String.{String}
use text.Mathlib.Text.{◌==◌ as str_eq}
use tansa.Prelude.{
  ℕ, Bool, not, Option, none, some, List, [], ◌∷◌, ◌++◌, Result, ok, err, ◌and_then◌, map_error,
  if◌then◌else◌,
}
use tansa.Async.{Async, done}
use tansa.Async.Try.{◌>>=◌, with_error}
use tansa.Net.{Ipv6Addr}
use tansa.Process.{run, probe}
use tansa.Protocol.{Bytes}
use tansa.Network.IpNeighbor.Defs.{
  IpNeighbor, is_valid_ip, IpNeighborScanError, child_process, parse_csv, parse_json, CsvError,
  JsonError, IpNeighborScanner, collect_results, keep,
}
use tansa.Os.{os}

pub record Neighbor : Type 0 where
  pub ip : Ipv6Addr
  pub dev : String
  pub ifname : String
  pub lladdr : String
  pub mac : String
  pub router : String
  pub state : String

pub record Link : Type 0 where
  pub ifindex : ℕ
  pub ifname : String

-- `csv::ReaderBuilder` without headers and with spaces between the fields; `serde_json::from_reader`.
pub record Readers : Type 0 where
  pub read_neighbors : Bytes → List (Result Neighbor CsvError)
  pub read_links : Bytes → Result (List Link) JsonError

-- `HashMap<String, Link>`
abbrev Links : Type 0
Links = List (String × Link)

insert : String → Link → Links → Links
insert k v [] = (k, v) ∷ []
insert k v ((j, w) ∷ m) = if str_eq j k then (k, v) ∷ m else (j, w) ∷ insert k v m

get : String → Links → Option Link
get k [] = none
get k ((j, v) ∷ m) = if str_eq j k then some v else get k m

-- `.collect::<HashMap<_, _>>()`
insert_all : List Link → Links → Links
insert_all [] m = m
insert_all (l ∷ links) m = insert_all links (insert l.ifname l m)

abbrev pub with_index : Neighbor → Option Link → Option IpNeighbor
with_index n none = none
with_index n (some l) = some (record { address = n.ip; network_interface_index = l.ifindex })

-- The neighbors that are not `FAILED`, have a valid address and a known link.
unfoldable pub useful : List Neighbor → List Link → List IpNeighbor
unfolding insert_all get insert filter_map
useful neighbors links =
    let map = insert_all links [] in
    filter_map (λ n. with_index n (get n.ifname map))
      (keep (λ n. is_valid_ip n.ip) (keep (λ n. not (str_eq n.state "FAILED")) neighbors))

module _ (R : Readers) where
  unfoldable pub parse_output : Bytes → Bytes → Result (List IpNeighbor) IpNeighborScanError
  parse_output ip_link_output ip_neighbor_output =
      map_error parse_csv (collect_results (R.read_neighbors ip_neighbor_output))
      and_then λ neighbors. map_error parse_json (R.read_links ip_link_output) and_then λ links.
          ok (useful neighbors links)

  unfoldable pub scan : Async os (Result (List IpNeighbor) IpNeighborScanError)
  scan = do
    ip_links ← with_error child_process (run "ip" ("-json" ∷ "link" ∷ []))
    ip_neighbors ← with_error child_process (run "ip" ("-family" ∷ "inet6" ∷ "neighbor" ∷ []))
    done (parse_output ip_links ip_neighbors)

  unfoldable pub ip_route2_scanner : IpNeighborScanner os
  ip_route2_scanner = record {
    supports_current_operating_system = probe "ip" ("-Version" ∷ []);
    scan = scan;
  }
