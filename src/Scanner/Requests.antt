-- ===== src/Scanner/Requests.antt =====
-- `send_requests` of main/src/scanner.rs: the multicast, and the neighbors one after another.
use tansa.Prelude.{ℕ, ◌≡◌, ap, ◌∙◌, List, [], ◌∷◌, ◌++◌, Result, ok, err}
use tansa.Async.{Signature, Async}
use tansa.Async.Runs.{Trace, Run, returns, done_inv}
use tansa.Async.Try.{
  ◌>>=◌, with_error, both, tried, Tried, failed, passed, with_error_ok, with_error_err,
}
use tansa.Net.{SocketAddrV6, socket_addr_v6, get_discovery_ip}
use tansa.Protocol.{Bytes, Request, from_request, DiscoveryPacket, Prost, IoError}
use tansa.Network.UdpSender.{UdpSender}
use tansa.Network.IpNeighbor.{
  IpNeighbor, get_socket_address, IpNeighborScanner, IpNeighborScanError,
}
use tansa.Scanner.{send_requests, send_to_neighbors, ScanError, send_request, scan_ip_neighbor}

module _ {S : Signature} (sender : UdpSender S) (port : ℕ) (bytes : Bytes) where
  -- Every neighbor of the list was sent the bytes, in the order of the list.
  pub data InOrder : List IpNeighbor → Trace S → Type 0 where
    no_neighbor : InOrder [] []
    next_neighbor :
        (n : IpNeighbor) (rest : List IpNeighbor) (t t₁ t₂ : Trace S)
        → t ≡ t₁ ++ t₂
        → Run (sender.send_unicast (get_socket_address n port) bytes) t₁ (ok tt)
        → InOrder rest t₂
        → InOrder (n ∷ rest) t

  -- The neighbors in front of one were sent the bytes in order, and for that one this failed with
  -- `x`; those behind it were sent nothing.
  pub data StopsAt (x : IoError) : List IpNeighbor → Trace S → Type 0 where
    this_neighbor :
        (n : IpNeighbor) (rest : List IpNeighbor) (t : Trace S)
        → Run (sender.send_unicast (get_socket_address n port) bytes) t (err x)
        → StopsAt x (n ∷ rest) t
    later_neighbor :
        (n : IpNeighbor) (rest : List IpNeighbor) (t t₁ t₂ : Trace S)
        → t ≡ t₁ ++ t₂
        → Run (sender.send_unicast (get_socket_address n port) bytes) t₁ (ok tt)
        → StopsAt x rest t₂
        → StopsAt x (n ∷ rest) t

  send_to_neighbors-ok :
      (neighbors : List IpNeighbor) {t : Trace S}
      → Run (send_to_neighbors sender port bytes neighbors) t (ok tt)
      → InOrder neighbors t
  unfolding send_to_neighbors
  send_to_neighbors-ok [] (returns _) = no_neighbor
  send_to_neighbors-ok (n ∷ rest) {t} q =
      let b = both _ _ q in
      next_neighbor n rest t b.before b.after b.whole (with_error_ok send_request _ b.first)
        (send_to_neighbors-ok rest b.rest)

  abbrev Stopped : List IpNeighbor → Trace S → ScanError → Type 0
  Stopped neighbors t e = (x : IoError) × (e ≡ send_request x) × StopsAt x neighbors t

  stops_later :
      (n : IpNeighbor) (rest : List IpNeighbor) (t t₁ t₂ : Trace S) (e : ScanError)
      → t ≡ t₁ ++ t₂
      → Run (sender.send_unicast (get_socket_address n port) bytes) t₁ (ok tt)
      → Stopped rest t₂ e
      → Stopped (n ∷ rest) t e
  stops_later n rest t t₁ t₂ e whole q (x, is, s) = (x, is, later_neighbor n rest t t₁ t₂ whole q s)

  stops_at :
      (n : IpNeighbor) (rest : List IpNeighbor) (t : Trace S) (e : ScanError)
      (f : Async S (Result (Unit {0}) ScanError))
      → ((u : Trace S) → Run f u (err e) → Stopped rest u e)
      → Tried
          (with_error send_request (sender.send_unicast (get_socket_address n port) bytes))
          (λ _. f)
          t
          (err e)
      → Stopped (n ∷ rest) t e
  stops_at n rest t e f ih (failed y is q) =
      let (x, is_x, run) =
        with_error_err send_request (sender.send_unicast (get_socket_address n port) bytes) q in
      let same : e ≡ send_request x = cc in (x, same, this_neighbor n rest t run)
  stops_at n rest t e f ih (passed u t₁ t₂ whole q s) =
      stops_later n rest t t₁ t₂ e whole
        (with_error_ok send_request (sender.send_unicast (get_socket_address n port) bytes) q)
        (ih t₂ s)

  send_to_neighbors-err :
      (neighbors : List IpNeighbor) (t : Trace S) (e : ScanError)
      → Run (send_to_neighbors sender port bytes neighbors) t (err e)
      → Stopped neighbors t e
  unfolding send_to_neighbors
  send_to_neighbors-err [] t e q = cc ((done_inv q).1)
  send_to_neighbors-err (n ∷ rest) t e q =
      stops_at n rest t e _ (λ u r. send_to_neighbors-err rest u e r) (tried _ _ q)

module _ {S : Signature} (P : Prost DiscoveryPacket) (sender : UdpSender S)
    (scanner : IpNeighborScanner S) (request : Request) (port : ℕ) where
  abbrev pub request_bytes : Bytes
  request_bytes = P.encode_to_vec (from_request request)

  abbrev pub multicast_address : SocketAddrV6
  multicast_address = socket_addr_v6 get_discovery_ip port 0 0

  -- The request was sent to the multicast address, then the neighbors were scanned, and then each
  -- was sent the request, in the order of the scan.
  pub record Requested (t : Trace S) : Type 0 where
    pub neighbors : List IpNeighbor
    pub sending : Trace S
    pub scanning : Trace S
    pub neighborly : Trace S
    pub whole : t ≡ sending ++ (scanning ++ neighborly)
    pub multicast : Run (sender.send_multicast multicast_address request_bytes) sending (ok tt)
    pub scanned : Run scanner.scan scanning (ok neighbors)
    pub unicast : InOrder sender port request_bytes neighbors neighborly

  -- Requests that were sent with no error went to the multicast address; then the neighbors were
  -- scanned, and each was sent the request, in the order of the scan.
  pub send_requests-ok :
      {t : Trace S} → Run (send_requests P sender scanner request port) t (ok tt) → Requested t
  unfolding send_requests
  send_requests-ok q =
      let a = both _ _ q in
      let b = both _ _ a.rest in
      record {
        neighbors = b.value;
        sending = a.before;
        scanning = b.before;
        neighborly = b.after;
        whole = a.whole ∙ ap (λ u. a.before ++ u) b.whole;
        multicast = with_error_ok send_request _ a.first;
        scanned = with_error_ok scan_ip_neighbor scanner.scan b.first;
        unicast = send_to_neighbors-ok sender port request_bytes b.value b.rest;
      }

  -- How sending the requests fails with `e`: the multicast failed, and no neighbor was scanned or
  -- sent anything; or the scan failed, and only the multicast was sent; or a neighbor could not be
  -- sent the request.
  pub data RequestFails (t : Trace S) (e : ScanError) : Type 0 where
    multicast_failed :
        (x : IoError)
        → e ≡ send_request x
        → Run (sender.send_multicast multicast_address request_bytes) t (err x)
        → RequestFails t e
    scan_failed :
        (sending scanning : Trace S) (x : IpNeighborScanError)
        → e ≡ scan_ip_neighbor x
        → t ≡ sending ++ scanning
        → Run (sender.send_multicast multicast_address request_bytes) sending (ok tt)
        → Run scanner.scan scanning (err x)
        → RequestFails t e
    unicast_failed :
        (neighbors : List IpNeighbor) (sending scanning neighborly : Trace S) (x : IoError)
        → e ≡ send_request x
        → t ≡ sending ++ (scanning ++ neighborly)
        → Run (sender.send_multicast multicast_address request_bytes) sending (ok tt)
        → Run scanner.scan scanning (ok neighbors)
        → StopsAt sender port request_bytes x neighbors neighborly
        → RequestFails t e

  abbrev to_neighbors : List IpNeighbor → Async S (Result (Unit {0}) ScanError)
  to_neighbors neighbors = send_to_neighbors sender port request_bytes neighbors

  failed_unicast :
      (neighbors : List IpNeighbor) (t sending scanning rest : Trace S) (e : ScanError)
      → t ≡ sending ++ (scanning ++ rest)
      → Run (sender.send_multicast multicast_address request_bytes) sending (ok tt)
      → Run scanner.scan scanning (ok neighbors)
      → Stopped sender port request_bytes neighbors rest e
      → RequestFails t e
  failed_unicast neighbors t sending scanning rest e whole multicast scanned (x, is, stops) =
      unicast_failed neighbors sending scanning rest x is whole multicast scanned stops

  failed_scan :
      (t sending rest : Trace S) (e : ScanError)
      → t ≡ sending ++ rest
      → Run (sender.send_multicast multicast_address request_bytes) sending (ok tt)
      → Tried (with_error scan_ip_neighbor scanner.scan) to_neighbors rest (err e)
      → RequestFails t e
  failed_scan t sending rest e whole multicast (failed y is q) =
      let (x, is_x, run) = with_error_err scan_ip_neighbor scanner.scan q in
      let same : e ≡ scan_ip_neighbor x = cc in scan_failed sending rest x same whole multicast run
  failed_scan t sending rest e whole multicast (passed neighbors t₁ t₂ split q s) =
      failed_unicast neighbors t sending t₁ t₂ e (whole ∙ ap (λ u. sending ++ u) split) multicast
        (with_error_ok scan_ip_neighbor scanner.scan q)
        (send_to_neighbors-err sender port request_bytes neighbors t₂ e s)

  abbrev after_multicast : Async S (Result (Unit {0}) ScanError)
  after_multicast = with_error scan_ip_neighbor scanner.scan >>= to_neighbors

  failed_request :
      (t : Trace S) (e : ScanError)
      → Tried
          (with_error send_request (sender.send_multicast multicast_address request_bytes))
          (λ _. after_multicast)
          t
          (err e)
      → RequestFails t e
  failed_request t e (failed y is q) =
      let (x, is_x, run) =
        with_error_err send_request (sender.send_multicast multicast_address request_bytes) q in
      let same : e ≡ send_request x = cc in multicast_failed x same run
  failed_request t e (passed u t₁ t₂ split q s) =
      failed_scan t t₁ t₂ e split (with_error_ok send_request _ q) (tried _ to_neighbors s)

  -- Requests that were sent with an error failed in the multicast, or in the scan after it, or at
  -- one neighbor, after those in front of it and before those behind it.
  pub send_requests-err :
      {t : Trace S} {e : ScanError}
      → Run (send_requests P sender scanner request port) t (err e)
      → RequestFails t e
  unfolding send_requests
  send_requests-err {t} {e} q = failed_request t e (tried _ (λ _. after_multicast) q)

  -- Both ends of the requests.
  pub data RequestEnds (t : Trace S) : Result (Unit {0}) ScanError → Type 0 where
    requested : Requested t → RequestEnds t (ok tt)
    not_requested : (e : ScanError) → RequestFails t e → RequestEnds t (err e)

  -- Requests that were sent with no error went to the multicast address; then the neighbors were
  -- scanned, and each was sent the request, in the order of the scan. Those that were sent with an
  -- error failed in the multicast, or in the scan after it, or at one neighbor, after those in front
  -- of it and before those behind it.
  pub send_requests-RequestEnds :
      {t : Trace S} (r : Result (Unit {0}) ScanError)
      → Run (send_requests P sender scanner request port) t r
      → RequestEnds t r
  send_requests-RequestEnds (ok u) q = requested (send_requests-ok q)
  send_requests-RequestEnds (err e) q = not_requested e (send_requests-err q)
