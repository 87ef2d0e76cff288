-- ===== src/Lan/Honest.antt =====
-- What a scanner finds in a network is there: an invariant of all that the parts of the network can
-- do, in any order.
use mathlib.Core.List.{Memᴰ}
use tansa.Prelude.{
  All, All-append, All-front, All-lookup, All-weaken, All-both, All-map, ℕ, ◌<◌, ◌≡◌, refl, sym, ap,
  subst, Bool, false, List, [], map,
}
use tansa.Async.Futures.{FuturesUtil, IsLawful}
use tansa.Net.{SocketAddrV6, set_port}
use tansa.Os
use tansa.Os.{Status}
use tansa.Protocol
use tansa.Protocol.{
  Bytes, DiscoveryPacket, Prost, IsWireFormat, WritesPayload, from_request, from_response,
}
use tansa.Network.Datagrams.{Datagram, datagrams}
use tansa.ResponseCollector.{Channel, IsChannel}
use tansa.ResponseCollector.Interleaved as Collector
use tansa.ResponseCollector.Interleaved.{
  Entry, Collecting, accepted_services, accepted_services-append, service_of, IsSound, AllPorts,
}
use tansa.ResponseCollector.Interleaved.Invariant.{Reach-IsSound}
use tansa.ResponseCollector.Submit.{IsServicePort}
use tansa.Scanner.EndToEnd.{submission_of}
use tansa.Server.Answers.{handle_packet-Answered}
use tansa.Service.{Service}
use tansa.Lan.{
  Host, Submission, Lan, start, Step, asks, announces, answers, collects, polls, drops, hears,
  Reach, here, next,
}
use tansa.Lan.Payloads.{
  request_bytes, announcement_bytes, send_requests-CarryAll, announce-CarryAll,
}
use tansa.Lan.Offers.{IsOffered, accepted_more, decoded_request, decoded_announcement, extracted}

module _ (F : FuturesUtil Os.os) (L : IsLawful F) (P : Prost DiscoveryPacket) (w : IsWireFormat P)
    (written : WritesPayload P) (C : Channel Service) (H : IsChannel C) (debug : Bool)
    (hosts : List Host) (home : SocketAddrV6) (collector_port discovery_port : ℕ) where
  abbrev Network : Type 0
  Network = Lan F P C debug hosts home collector_port discovery_port

  abbrev begun : C.State → Network
  begun s = start F P C debug hosts home collector_port discovery_port s

  abbrev IsHeard : Service → Type 0
  IsHeard s = IsOffered hosts s × (s.address.port < 65536)

  abbrev IsAnnounced : Host × Datagram → Type 0
  IsAnnounced a = (a.1.bytes ≡ announcement_bytes debug P a.0.service_port) × Memᴰ a.0 hosts

  abbrev IsResponse : Submission → Type 0
  IsResponse s = Memᴰ s.from hosts × (s.response.service_port ≡ s.from.service_port)

  -- Whatever is on its way was sent by the scanner or one of the hosts, and what was accepted or
  -- learned is offered.
  record IsTrue (s : C.State) (x : Network) : Type 0 where
    requests : All (λ (d : Datagram). d.bytes ≡ request_bytes debug P collector_port) x.requests
    announcements : All IsAnnounced x.announcements
    submissions : All IsResponse x.submissions
    reached : Collector.Reach C (Collector.started C s) x.collecting
    accepted : All (IsOffered hosts) (accepted_services x.collecting.log)
    heard : All IsHeard x.heard

  datagrams_of :
      (host : Host) (l : List Datagram)
      → Memᴰ host hosts
      → All (λ (d : Datagram). d.bytes ≡ announcement_bytes debug P host.service_port) l
      → All IsAnnounced (map (λ d. (host, d)) l)
  datagrams_of host l m h =
      All-map IsAnnounced (λ d. (host, d)) l (All-weaken _ _ l (λ d e. (e, m)) h)

  Step-IsTrue :
      (s : C.State) {x y : Network}
      → Step F P C debug hosts home collector_port discovery_port x y
      → IsTrue s x
      → IsTrue s y
  Step-IsTrue s {x} (asks scanner {t} r quiet q) h = record {
    requests =
        All-append _ x.requests (datagrams t) h.requests
          (send_requests-CarryAll debug P scanner quiet collector_port discovery_port q);
    announcements = h.announcements;
    submissions = h.submissions;
    reached = h.reached;
    accepted = h.accepted;
    heard = h.heard;
  }
  Step-IsTrue s {x} (announces host scanner {t} r m quiet q) h = record {
    announcements =
        All-append _ x.announcements (map (λ d. (host, d)) (datagrams t)) h.announcements (
          datagrams_of host (datagrams t) m
            (announce-CarryAll debug P scanner quiet F L _ host.service_port q));
    requests = h.requests;
    submissions = h.submissions;
    reached = h.reached;
    accepted = h.accepted;
    heard = h.heard;
  }
  Step-IsTrue s {x} (answers host d packet left q u hd response reply r m md decoded run) h =
      let is =
        decoded_request P w written collector_port d.bytes packet left (All-lookup _ md h.requests)
          decoded in
      let same =
        submission_of host.service_port collector_port packet (set_port home q) u hd response reply
          is refl (handle_packet-Answered host.service_port packet (set_port home q) run) in
      record {
        submissions =
            All-append _ x.submissions _ h.submissions
              ((m, ap (λ (r : Protocol.Response). r.service_port) same.1), tt);
        requests = h.requests;
        announcements = h.announcements;
        reached = h.reached;
        accepted = h.accepted;
        heard = h.heard;
      }
  Step-IsTrue s {x} (collects sub q m to_home) h =
      let r = All-lookup _ m h.submissions in
      record {
        requests = h.requests;
        announcements = h.announcements;
        submissions = h.submissions;
        reached = Collector.next h.reached (Collector.submits _ _ _);
        accepted =
            accepted_more hosts x.collecting.log sub.from q sub.response.service_port _ r.0 r.1
              h.accepted;
        heard = h.heard;
      }
  Step-IsTrue s (polls still) h = record {
    reached = Collector.next h.reached (Collector.polls _ still);
    requests = h.requests;
    announcements = h.announcements;
    submissions = h.submissions;
    accepted = h.accepted;
    heard = h.heard;
  }
  Step-IsTrue s (drops) h = record {
    reached = Collector.next h.reached (Collector.drops _);
    requests = h.requests;
    announcements = h.announcements;
    submissions = h.submissions;
    accepted = h.accepted;
    heard = h.heard;
  }
  Step-IsTrue s {x} (hears host d packet left q service m decoded e) h =
      let a = All-lookup _ m h.announcements in
      let is = decoded_announcement P w written host.service_port d.bytes packet left a.0 decoded in
      let found = extracted host.service_port packet (set_port host.address q) service is e in
      record {
        heard = All-append _ x.heard _ h.heard (
          (
            record { host = host; present = a.1; service = found.1 },
            subst (λ (s : Service). s.address.port < 65536) (sym found.1) found.0,
          ),
          tt,
        );
        requests = h.requests;
        announcements = h.announcements;
        submissions = h.submissions;
        reached = h.reached;
        accepted = h.accepted;
      }

  Reach-IsTrue :
      (s : C.State) {x : Network}
      → Reach F P C debug hosts home collector_port discovery_port (begun s) x
      → IsTrue s x
  Reach-IsTrue s here = record {
    requests = tt;
    announcements = tt;
    submissions = tt;
    reached = Collector.here;
    accepted = tt;
    heard = tt;
  }
  Reach-IsTrue s (next r step) = Step-IsTrue s step (Reach-IsTrue s r)

  -- What the stream of the collector gave, and what was learned from announcements, are services of
  -- the hosts, at their addresses with their service ports: the first from 1 to 65535, the others
  -- below 65536. What the stream gave, and what it has still to give, are the accepted ones in order.
  pub record IsHonest (x : Network) : Type 0 where
    pub given :
        All (λ (s : Service). IsOffered hosts s × IsServicePort s.address.port) x.collecting.given
    pub heard : All (λ (s : Service). IsOffered hosts s × (s.address.port < 65536)) x.heard
    pub collected : IsSound C x.collecting

  -- In a network of a scanner and some servers that began with an open empty collector, of which
  -- nobody else is part, whatever is lost, repeated, delayed or reordered, and whichever of their
  -- calls fail: all that the scanner finds is a service of one of the servers, at the address of its
  -- host with its service port. What the stream of its collector gave has a port from 1 to 65535, and
  -- what it gave and still holds are the accepted submissions in order; what it learned from
  -- announcements has a port below 65536.
  pub Reach-IsHonest :
      (s : C.State)
      → C.queued s ≡ []
      → C.is_closed s ≡ false
      → {x : Network} → Reach F P C debug hosts home collector_port discovery_port (begun s) x
      → IsHonest x
  Reach-IsHonest s empty opened {x} r =
      let h = Reach-IsTrue s r in
      let sound = Reach-IsSound C H s empty opened h.reached in
      record {
        given = All-front _ x.collecting.given sound.pending (
            subst (All _) (sym sound.exact)
              (All-both _ _ (accepted_services x.collecting.log) h.accepted sound.ports));
        heard = h.heard;
        collected = sound;
      }
