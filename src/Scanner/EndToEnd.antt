-- ===== src/Scanner/EndToEnd.antt =====
-- A request and its answer, from end to end: main/src/scanner.rs asks, main/src/server.rs and
-- main/src/response_sender.rs answer, and main/src/response_collector.rs takes the answer.
use tansa.Prelude.{
  ℕ, ◌≡◌, refl, sym, ap, subst, ◌∙◌, false, Option, some, List, [], ◌∷◌, ◌++◌, Result, ok, arith,
}
use tansa.Async.Runs.{Trace, Run}
use tansa.Net.{SocketAddr, v6, SocketAddrV6, set_port}
use tansa.Net.Display.{Text}
use tansa.Protocol.{
  Response, DiscoveryPacket, from_request, unwrap_request, Prost, IsWireFormat, WritesPayload,
}
use tansa.Protocol.Decoder.{decode, decode-encode_to_vec}
use tansa.ResponseCollector.{Channel, IsChannel, submit_response}
use tansa.ResponseCollector.Submit.{
  IsServicePort, Outcome, out_of_range, zero_port, from_ipv4, from_nowhere, too_late, accepted,
  submit_response-Outcome,
}
use tansa.ResponseSender.{AnyhowError, grpc_response_sender}
use tansa.Server.{handle_packet}
use tansa.Server.Answers.{
  Answered, answered, no_request, Submits, submitted, not_connected, collector_url,
  handle_packet-Answered,
}
use tansa.Service.{Service}
use tansa.Os.{os, Handle, Status, grpc_connect, grpc_submit_response}

module _ (C : Channel Service) (H : IsChannel C) where
  -- The channel has the service in addition, behind the others, and the submission was accepted.
  pub record Added (service : Service) (s : C.State) (x : Result (Unit {0}) Status × C.State)
      : Type 0 where
    pub success : x.0 ≡ ok tt
    pub added : C.queued x.1 ≡ C.queued s ++ service ∷ []

  added_by :
      (a : SocketAddrV6) (from : Option SocketAddr) (port : ℕ) (s : C.State)
      (x : Result (Unit {0}) Status × C.State)
      → from ≡ some (v6 a)
      → IsServicePort port
      → C.is_closed s ≡ false
      → Outcome C H from port s x
      → Added (record { address = set_port a port }) s x
  added_by a from port s _ is p opened (out_of_range g) = absurd (omega (arith, p.1))
  added_by a from port s _ is p opened (zero_port z) = absurd (p.0 z)
  added_by a from port s _ is p opened (from_ipv4 b g e) = cc
  added_by a from port s _ is p opened (from_nowhere g e) = cc
  added_by a from port s _ is p opened (too_late b g e closed) = cc
  added_by a from port s _ is p opened (accepted b s' g e before queued after) =
      let same : b ≡ a = cc in
      record {
        success = refl;
        added =
            queued
            ∙ ap (λ (c : SocketAddrV6). C.queued s ++ record { address = set_port c port } ∷ [])
                same;
      }

  -- An open channel takes the submission of a service port over IPv6.
  pub submit_response-Added :
      (a : SocketAddrV6) (port : ℕ) (s : C.State)
      → IsServicePort port
      → C.is_closed s ≡ false
      → Added
          (record { address = set_port a port })
          s
          (submit_response C (some (v6 a)) (record { service_port = port }) s)
  submit_response-Added a port s p opened =
      added_by a (some (v6 a)) port s _ refl p opened
        (submit_response-Outcome C H (some (v6 a)) port s)

-- The call at the end of a trace of two calls.
module _ (response : Response) (url u : Text) (h : Handle) (r : Response)
    (reply : Result (Unit {0}) Status) where
  -- One submission, to the given address with the given response.
  same_calls :
      {t : Trace os}
      → Submits response url t
      → t ≡ (grpc_connect u, ok h) ∷ (grpc_submit_response h r, reply) ∷ []
      → (u ≡ url) × (r ≡ response)
  same_calls (submitted h' reply' e) f = (cc (sym f ∙ e), cc (sym f ∙ e))
  same_calls (not_connected x e) f = cc (sym f ∙ e)

pub submission_of :
    (service_port collector_port : ℕ) (packet : DiscoveryPacket) (remote : SocketAddrV6) (u : Text)
    (h : Handle) (r : Response) (reply : Result (Unit {0}) Status) {t : Trace os}
    → packet ≡ from_request (record { response_collector_port = collector_port })
    → t ≡ (grpc_connect u, ok h) ∷ (grpc_submit_response h r, reply) ∷ []
    → Answered service_port packet remote t
    → (u ≡ collector_url remote collector_port) × (r ≡ record { service_port = service_port })
unfolding unwrap_request
submission_of service_port collector_port packet remote u h r reply is e (answered port p small s) =
    let w =
      same_calls (record { service_port = service_port }) (collector_url remote port) u h r reply s
        e in
    let same : port ≡ collector_port = cc (sym p ∙ ap unwrap_request is) in
    (w.0 ∙ ap (collector_url remote) same, w.1)
submission_of service_port collector_port packet remote u h r reply is e
      (Answered.out_of_range port p large f) =
    cc (sym f ∙ e)
submission_of service_port collector_port packet remote u h r reply is e (no_request p f) =
    cc (sym f ∙ e)

module _ (P : Prost DiscoveryPacket) (w : IsWireFormat P) (written : WritesPayload P)
    (C : Channel Service) (H : IsChannel C) where
  -- The submission went to the collector of the scanner, and there it adds the service.
  pub record Discovers (server : SocketAddrV6) (service_port : ℕ) (url u : Text) (r : Response)
      (s : C.State) : Type 0 where
    pub to_collector : u ≡ url
    pub added :
        Added C H
          (record { address = set_port server service_port })
          s
          (submit_response C (some (v6 server)) r s)

  -- A server that decodes the request of a scanner and reaches its collector makes a submission to
  -- the scanner's address with the collector's port; and when the collector of a scanner that still
  -- listens handles this submission, coming from the server's address, it adds the service at that
  -- address with the service port.
  pub request-Discovers :
      (scanner server : SocketAddrV6) (collector_port service_port : ℕ)
      → IsServicePort service_port
      → (packet : DiscoveryPacket) (left : List ℕ)
      → decode P
          (P.encode_to_vec (from_request (record { response_collector_port = collector_port })))
        ≡ (ok (some packet), left)
      → (u : Text) (h : Handle) (r : Response) (reply : Result (Unit {0}) Status)
        (x : Result (Unit {0}) AnyhowError)
      → Run
          (handle_packet packet scanner service_port grpc_response_sender)
          ((grpc_connect u, ok h) ∷ (grpc_submit_response h r, reply) ∷ [])
          x
      → (s : C.State) → C.is_closed s ≡ false
      → Discovers server service_port (collector_url scanner collector_port) u r s
  request-Discovers scanner server collector_port service_port p packet left decoded u h r reply x q
        s opened =
      let whole =
        (decode-encode_to_vec P w written).0
          (record { response_collector_port = collector_port }) in
      let is : packet ≡ from_request (record { response_collector_port = collector_port }) =
        cc (sym decoded ∙ whole) in
      let same =
        submission_of service_port collector_port packet scanner u h r reply is refl
          (handle_packet-Answered service_port packet scanner q) in
      record {
        to_collector = same.0;
        added =
            subst
              (λ y.
                Added C H (record { address = set_port server service_port }) s
                  (submit_response C (some (v6 server)) y s))
              (sym same.1) (submit_response-Added C H server service_port s p opened);
      }
