-- ===== src/Network/IpNeighbor/Valid.antt =====
-- Whichever scanner is chosen, the neighbors that it finds have valid addresses: the filters of
-- main/src/network/ip_neighbor/linux.rs and windows.rs.
use mathlib.Core.List.{filter_map}
use mathlib.Core.Option.{Option-elim}
use text.Mathlib.Text.{◌==◌ as str_eq}
use tansa.Prelude.{
  All, ◌≡◌, refl, sym, subst, ◌∙◌, Bool, true, false, Option, some, none, List, [], ◌∷◌, Result, ok,
  err, map_error, ◌and_then◌, if◌then◌else◌,
}
use tansa.Async.Runs.{Trace, Run, done_inv}
use tansa.Os.{os}
use tansa.Protocol.{Bytes}
use tansa.Network.IpNeighbor.Defs.{
  IpNeighbor, IpNeighborScanner, dummy_scanner, is_valid_ip, CsvError, JsonError, parse_csv,
  parse_json,
}
use tansa.Network.IpNeighbor.Linux
use tansa.Network.IpNeighbor.Linux.{Readers, Neighbor, Link, with_index, ip_route2_scanner}
use tansa.Network.IpNeighbor.Linux.Useful.{neighbor_of, last_link, useful_lem}
use tansa.Network.IpNeighbor.Windows.{NetNeighbor, from_net_neighbor, power_shell_scanner}
use tansa.Network.IpNeighbor.Scans.{scan-LinuxScan, scan-WindowsScan, net_neighbor_of}
use tansa.Network.IpNeighbor.Select.{scanners}
use tansa.Network.IpNeighbor.Selected.{Chosen, none_left, this_one, not_this_one}

abbrev pub IsValid : IpNeighbor → Type 0
IsValid n = is_valid_ip n.address ≡ true

filter_map-All :
    {A : Type 0} (f : A → Option IpNeighbor)
    → ((a : A) (n : IpNeighbor) → f a ≡ some n → IsValid n)
    → (l : List A) → All IsValid (filter_map f l)
unfolding filter_map
filter_map-All f h [] = tt
filter_map-All f h (a ∷ l) = at_option (f a) (h a) (filter_map-All f h l)
  where
    at_option :
        (o : Option IpNeighbor)
        → ((n : IpNeighbor) → o ≡ some n → IsValid n)
        → All IsValid (filter_map f l)
        → All IsValid (Option-elim o (filter_map f l) (λ n. n ∷ filter_map f l))
    at_option none g rest = rest
    at_option (some n) g rest = (g n refl, rest)

-- What two tests let through.
let_through :
    (a b : Bool) (x : Option IpNeighbor) (n : IpNeighbor)
    → (if a then none else if b then x else none) ≡ some n
    → (b ≡ true) × (x ≡ some n)
let_through true b x n e = cc
let_through false true x n e = (refl, e)
let_through false false x n e = cc

with_index-IsValid :
    (n : Neighbor) (o : Option Link) (found : IpNeighbor)
    → is_valid_ip n.ip ≡ true
    → with_index n o ≡ some found
    → IsValid found
with_index-IsValid n none found v e = cc
with_index-IsValid n (some l) found v e =
    let same : record { address = n.ip; network_interface_index = l.ifindex } ≡ found = cc in
    subst IsValid same v

neighbor_of-IsValid :
    (links : List Link) (n : Neighbor) (found : IpNeighbor)
    → neighbor_of links n ≡ some found
    → IsValid found
unfolding neighbor_of
neighbor_of-IsValid links n found e =
    let w =
      let_through (str_eq n.state "FAILED") (is_valid_ip n.ip)
        (with_index n (last_link n.ifname links)) found e in
    with_index-IsValid n (last_link n.ifname links) found w.0 w.1

net_neighbor_of-IsValid :
    (n : NetNeighbor) (found : IpNeighbor) → net_neighbor_of n ≡ some found → IsValid found
unfolding net_neighbor_of
net_neighbor_of-IsValid n found e =
    let w =
      let_through (str_eq n.state "Unreachable") (is_valid_ip n.ip_address)
        (some (from_net_neighbor n)) found e in
    let same : from_net_neighbor n ≡ found = cc (w.1) in subst IsValid same w.0

module _ (read : Bytes → List (Result NetNeighbor CsvError)) (R : Readers) where
  links-IsValid :
      (rows : List Neighbor) (l : Result (List Link) JsonError) (found : List IpNeighbor)
      → (map_error parse_json l and_then λ links. ok (Linux.useful rows links)) ≡ ok found
      → All IsValid found
  links-IsValid rows (ok links) found e =
      let same : Linux.useful rows links ≡ found = cc in
      subst (All IsValid) (sym (useful_lem rows links) ∙ same)
        (filter_map-All (neighbor_of links) (neighbor_of-IsValid links) rows)
  links-IsValid rows (err x) found e = cc

  rows-IsValid :
      (c : Result (List Neighbor) CsvError) (l : Result (List Link) JsonError)
      (found : List IpNeighbor)
      → (map_error parse_csv c and_then λ rows.
          map_error parse_json l and_then λ links. ok (Linux.useful rows links))
        ≡ ok found
      → All IsValid found
  rows-IsValid (ok rows) l found e = links-IsValid rows l found e
  rows-IsValid (err x) l found e = cc

  abbrev Finds : IpNeighborScanner os → Type 0
  Finds s = (t : Trace os) (found : List IpNeighbor) → Run s.scan t (ok found) → All IsValid found

  ip_route2-Finds : Finds (ip_route2_scanner R)
  unfolding ip_route2_scanner Linux.parse_output
  ip_route2-Finds t found q = let w = scan-LinuxScan R q in rows-IsValid _ _ found w.parsed

  power_shell-Finds : Finds (power_shell_scanner read)
  unfolding power_shell_scanner
  power_shell-Finds t found q =
      let w = scan-WindowsScan read q in
      subst (All IsValid) (sym w.kept)
        (filter_map-All net_neighbor_of net_neighbor_of-IsValid w.rows)

  data AllFind : List (IpNeighborScanner os) → Type 0 where
    no_scanner : AllFind []
    next_scanner :
        {s : IpNeighborScanner os} {l : List (IpNeighborScanner os)}
        → Finds s
        → AllFind l
        → AllFind (s ∷ l)

  dummy-Finds : Finds dummy_scanner
  dummy-Finds t found q = let same : [] ≡ found = cc ((done_inv q).1) in subst (All IsValid) same tt

  Finds-of :
      {l : List (IpNeighborScanner os)} {t : Trace os} {s : IpNeighborScanner os}
      → AllFind l
      → Chosen l t s
      → Finds s
  Finds-of no_scanner none_left = dummy-Finds
  Finds-of (next_scanner f fs) (this_one _ _ _ asked) = f
  Finds-of (next_scanner f fs) (not_this_one _ _ _ _ _ _ _ _ c) = Finds-of fs c

  -- The neighbors that a chosen scanner finds have valid addresses.
  pub Chosen-AllValid :
      {choosing : Trace os} {s : IpNeighborScanner os}
      → Chosen (scanners read R) choosing s
      → (t : Trace os) (found : List IpNeighbor) → Run s.scan t (ok found)
      → All IsValid found
  Chosen-AllValid c t found q =
      Finds-of (next_scanner power_shell-Finds (next_scanner ip_route2-Finds no_scanner)) c t found
        q
