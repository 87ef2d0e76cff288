-- ===== src/Server/Handle.antt =====
-- `handle_packet` and the closure `handle` of main/src/server.rs: how a packet is answered.
use tansa.Prelude.{ℕ, ◌≤◌, ◌<◌, ◌≡◌, refl, subst, none, Result, ok, err, ◌++◌}
use tansa.Async.{Signature, Async, done, call, ◌>>=◌}
use tansa.Async.Runs.{Trace, Run, returns, replied}
use tansa.Async.ForEach.{NeverFails}
use tansa.Async.Futures.{FuturesUtil, IsLawful, handled}
use tansa.Net.{SocketAddrV6, set_port, try_into_u16-eq_some, try_into_u16-eq_none}
use tansa.Net.Display.{chars, print_socket_addr}
use tansa.Protocol.{DiscoveryPacket, from_request, unwrap_request, IoError}
use tansa.ResponseSender.{AnyhowError, message, ResponseSender}
use tansa.Server.{handle_packet, handle, get_response_collector_address}

module _ {S : Signature} (service_port : ℕ) (sender : ResponseSender S)
    (remote : SocketAddrV6) where
  -- What `handle_packet` does: a request with a port in range makes the sender send the service
  -- port to that port of the address that the request came from, and the outcome is the sender's.
  -- A request with a port out of range, and a packet that is no request, fail and send nothing.
  pub handle_packet_lem :
      ((port : ℕ)
        → port < 65536
        → handle_packet
            (from_request (record { response_collector_port = port }))
            remote
            service_port
            sender
          ≡ sender.send
              (record { service_port = service_port })
              (chars "http://" ++ print_socket_addr (set_port remote port)))
      × ((port : ℕ)
          → 65536 ≤ port
          → handle_packet
              (from_request (record { response_collector_port = port }))
              remote
              service_port
              sender
            ≡ done (err (message "Port out of range")))
      × ((packet : DiscoveryPacket)
          → unwrap_request packet ≡ none
          → handle_packet packet remote service_port sender
            ≡ done (err (message "Not a `Request`")))
  unfolding handle_packet get_response_collector_address unwrap_request
  handle_packet_lem = (
    λ port h. rw (try_into_u16-eq_some port h),
    λ port h. rw (try_into_u16-eq_none port h),
    λ packet h. rw h,
  )

module _ {S : Signature} (F : FuturesUtil S) (L : IsLawful F) (service_port : ℕ)
    (sender : ResponseSender S) where
  swallowed :
      (m : Async S (Result (Unit {0}) AnyhowError)) {t : Trace S} {r : Result (Unit {0}) IoError}
      → Run (m >>= handled (λ _. done (ok tt))) t r
      → (x : Result (Unit {0}) AnyhowError) × Run m t x × (r ≡ ok tt)
  swallowed (done (ok tt)) (returns _) = (ok tt, returns _, refl)
  swallowed (done (err e)) (returns _) = (err e, returns _, refl)
  swallowed (call c k) (replied _ reply q) =
      let w = swallowed (k reply) q in (w.0, replied c reply w.1, w.2)

  -- Whatever the packet and the replies, `handle` makes the calls of `handle_packet` and returns no
  -- error.
  pub handle_lem :
      (packet : DiscoveryPacket) (remote : SocketAddrV6) {t : Trace S}
      {r : Result (Unit {0}) IoError}
      → Run (handle F service_port sender (packet, remote)) t r
      → (x : Result (Unit {0}) AnyhowError) × Run
          (handle_packet packet remote service_port sender)
          t
          x
        × (r ≡ ok tt)
  unfolding handle
  handle_lem packet remote {t} {r} q =
      swallowed (handle_packet packet remote service_port sender)
        (subst (λ m. Run m t r) (L.or_else_lem _ _) q)

  pub handle-NeverFails :
      (p : DiscoveryPacket × SocketAddrV6) → NeverFails (handle F service_port sender p)
  handle-NeverFails (packet, remote) t e q = let w = handle_lem packet remote q in cc (w.2)
