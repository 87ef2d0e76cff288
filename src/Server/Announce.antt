-- ===== src/Server/Announce.antt =====
-- `announce` and `announce_to_ip_neighbors` of main/src/server.rs.
use tansa.Prelude.{ℕ, ◌≡◌, sym, ap, ◌∙◌, subst, List, map, ◌++◌, Result, ok, err, map_result}
use tansa.Async.{Signature, Async}
use tansa.Async.Runs.{Trace, Run, mapped}
use tansa.Async.Try.{
  ◌>>=◌, with_error, both, tried, Tried, failed, passed, with_error_ok, with_error_err,
}
use tansa.Async.Concurrent.{Joined, Succeeds, Partial}
use tansa.Async.Joining.{Together, AnyFails, Joined-ok, Joined-err, Joined-Partial}
use tansa.Async.Futures.{FuturesUtil, IsLawful}
use tansa.Net.{SocketAddrV6}
use tansa.Protocol.{Bytes, from_response, DiscoveryPacket, Prost, IoError}
use tansa.Network.UdpSender.{UdpSender}
use tansa.Network.IpNeighbor.{
  IpNeighbor, get_socket_address, IpNeighborScanner, IpNeighborScanError,
}
use tansa.Server.{announce, announce_to_ip_neighbors, ServeError, network_io, ip_neighbor}

module _ {S : Signature} (F : FuturesUtil S) (L : IsLawful F) (sender : UdpSender S) where
  -- One future for each neighbor, which sends it the bytes.
  abbrev pub unicasts : ℕ → List IpNeighbor → Bytes → List (Async S (Result (Unit {0}) IoError))
  unicasts port neighbors bytes =
      map (λ a. sender.send_unicast a bytes) (map (λ n. get_socket_address n port) neighbors)

  Joined-from :
      (ms : List (Async S (Result (Unit {0}) IoError))) (t : Trace S)
      (r : Result (Unit {0}) IoError) (x : Result (List (Unit {0})) IoError)
      → r ≡ map_result (λ _. tt) x
      → Run (F.try_join_all ms) t x
      → Joined ms t r
  Joined-from ms t r x e q = subst (λ y. Joined ms t y) (sym e) (L.try_join_all_lem ms q)

  pub announce_to_ip_neighbors-Joined :
      (port : ℕ) (neighbors : List IpNeighbor) (bytes : Bytes) {t : Trace S}
      {r : Result (Unit {0}) IoError}
      → Run (announce_to_ip_neighbors F port neighbors bytes sender) t r
      → Joined (unicasts port neighbors bytes) t r
  unfolding announce_to_ip_neighbors
  announce_to_ip_neighbors-Joined port neighbors bytes {t} {r} q =
      let ms = unicasts port neighbors bytes in
      let w =
        mapped (F.try_join_all ms) (map_result (λ _. tt))
          (subst (λ m. Run m t r) (L.map_ok_future_lem (λ _. tt) (F.try_join_all ms)) q) in
      Joined-from ms t r w.value w.mapped w.inner

  module _ (P : Prost DiscoveryPacket) (address : SocketAddrV6) (service_port : ℕ)
      (scanner : IpNeighborScanner S) where
    abbrev bytes : Bytes
    bytes = P.encode_to_vec (from_response (record { service_port = service_port }))

    -- The neighbors were scanned, then the announcement was sent to the multicast address, and then
    -- to every neighbor, each by a future of its own that ran to its end.
    pub record Announced (t : Trace S) : Type 0 where
      pub neighbors : List IpNeighbor
      pub scanning : Trace S
      pub sending : Trace S
      pub neighborly : Trace S
      pub whole : t ≡ scanning ++ (sending ++ neighborly)
      pub scanned : Run scanner.scan scanning (ok neighbors)
      pub multicast : Run (sender.send_multicast address bytes) sending (ok tt)
      pub unicast : Together Succeeds (unicasts address.port neighbors bytes) neighborly

    -- An announcement that returns with no error scanned the neighbors, then sent the packet to
    -- the multicast address, and then to every neighbor, each by a future that ran to its end,
    -- interleaved.
    pub announce-ok :
        {t : Trace S}
        → Run (announce F P address service_port sender scanner) t (ok tt)
        → Announced t
    unfolding announce
    announce-ok q =
        let a = both _ _ q in
        let b = both _ _ a.rest in
        record {
          neighbors = a.value;
          scanning = a.before;
          sending = b.before;
          neighborly = b.after;
          whole = a.whole ∙ ap (λ u. a.before ++ u) b.whole;
          scanned = with_error_ok ip_neighbor scanner.scan a.first;
          multicast = with_error_ok network_io (sender.send_multicast address bytes) b.first;
          unicast = Joined-ok (
              announce_to_ip_neighbors-Joined address.port a.value bytes
                (with_error_ok network_io _ b.rest));
        }

    -- How an announcement fails with the error `e`: the scan for neighbors failed and nothing was
    -- sent; or the multicast failed, and no neighbor was sent anything; or a unicast failed.
    pub data AnnounceFails (t : Trace S) (e : ServeError) : Type 0 where
      scan_failed :
          (x : IpNeighborScanError)
          → e ≡ ip_neighbor x
          → Run scanner.scan t (err x)
          → AnnounceFails t e
      multicast_failed :
          (neighbors : List IpNeighbor) (scanning sending : Trace S) (x : IoError)
          → e ≡ network_io x
          → t ≡ scanning ++ sending
          → Run scanner.scan scanning (ok neighbors)
          → Run (sender.send_multicast address bytes) sending (err x)
          → AnnounceFails t e
      unicast_failed :
          (neighbors : List IpNeighbor) (scanning sending neighborly : Trace S) (x : IoError)
          → e ≡ network_io x
          → t ≡ scanning ++ (sending ++ neighborly)
          → Run scanner.scan scanning (ok neighbors)
          → Run (sender.send_multicast address bytes) sending (ok tt)
          → AnyFails x (unicasts address.port neighbors bytes)
          → Together Partial (unicasts address.port neighbors bytes) neighborly
          → AnnounceFails t e

    -- The steps after the scan.
    abbrev sent_to : List IpNeighbor → Async S (Result (Unit {0}) ServeError)
    sent_to neighbors = with_error network_io (sender.send_multicast address bytes) >>= λ _.
        with_error network_io (announce_to_ip_neighbors F address.port neighbors bytes sender)

    failed_unicast :
        (neighbors : List IpNeighbor) (t scanning sending rest : Trace S) (e : ServeError)
        → t ≡ scanning ++ (sending ++ rest)
        → Run scanner.scan scanning (ok neighbors)
        → Run (sender.send_multicast address bytes) sending (ok tt)
        → (x : IoError) × (e ≡ network_io x)
          × Run (announce_to_ip_neighbors F address.port neighbors bytes sender) rest (err x)
        → AnnounceFails t e
    failed_unicast neighbors t scanning sending rest e whole scanned multicast (x, is, q) =
        let j = announce_to_ip_neighbors-Joined address.port neighbors bytes q in
        unicast_failed neighbors scanning sending rest x is whole scanned multicast (Joined-err j)
          (Joined-Partial j)

    failed_sending :
        (neighbors : List IpNeighbor) (t scanning rest : Trace S) (e : ServeError)
        → t ≡ scanning ++ rest
        → Run scanner.scan scanning (ok neighbors)
        → Tried
            (with_error network_io (sender.send_multicast address bytes))
            (λ _.
              with_error network_io
                (announce_to_ip_neighbors F address.port neighbors bytes sender))
            rest
            (err e)
        → AnnounceFails t e
    failed_sending neighbors t scanning rest e whole scanned (failed y is q) =
        let (x, is_x, run) = with_error_err network_io (sender.send_multicast address bytes) q in
        let same : e ≡ network_io x = cc in
        multicast_failed neighbors scanning rest x same whole scanned run
    failed_sending neighbors t scanning rest e whole scanned (passed u t₁ t₂ split q s) =
        failed_unicast neighbors t scanning t₁ t₂ e (whole ∙ ap (λ v. scanning ++ v) split) scanned
          (with_error_ok network_io (sender.send_multicast address bytes) q)
          (with_error_err network_io
            (announce_to_ip_neighbors F address.port neighbors bytes sender) s)

    failed_announce :
        (t : Trace S) (e : ServeError)
        → Tried (with_error ip_neighbor scanner.scan) sent_to t (err e)
        → AnnounceFails t e
    failed_announce t e (failed y is q) =
        let (x, is_x, run) = with_error_err ip_neighbor scanner.scan q in
        let same : e ≡ ip_neighbor x = cc in scan_failed x same run
    failed_announce t e (passed neighbors t₁ t₂ split q s) =
        failed_sending neighbors t t₁ t₂ e split (with_error_ok ip_neighbor scanner.scan q)
          (tried _ _ s)

    -- An announcement that returns an error failed in the scan, with nothing sent; or in the
    -- multicast after it, with no neighbor sent to; or in a unicast after both.
    pub announce-err :
        {t : Trace S} {e : ServeError}
        → Run (announce F P address service_port sender scanner) t (err e)
        → AnnounceFails t e
    unfolding announce
    announce-err {t} {e} q = failed_announce t e (tried _ sent_to q)

    -- Both ends of an announcement.
    pub data AnnounceEnds (t : Trace S) : Result (Unit {0}) ServeError → Type 0 where
      announced : Announced t → AnnounceEnds t (ok tt)
      not_announced : (e : ServeError) → AnnounceFails t e → AnnounceEnds t (err e)

    -- An announcement that returns with no error scanned the neighbors, then sent the packet to
    -- the multicast address, and then to every neighbor, each by a future that ran to its end,
    -- interleaved. One that returns an error failed in the scan, with nothing sent; or in the
    -- multicast after it, with no neighbor sent to; or in a unicast after both.
    pub announce-AnnounceEnds :
        {t : Trace S} (r : Result (Unit {0}) ServeError)
        → Run (announce F P address service_port sender scanner) t r
        → AnnounceEnds t r
    announce-AnnounceEnds (ok u) q = announced (announce-ok q)
    announce-AnnounceEnds (err e) q = not_announced e (announce-err q)
