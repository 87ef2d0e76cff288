-- ===== src/ResponseCollector/Submit.antt =====
-- `submit_response` of main/src/response_collector.rs: every outcome, and what is collected.
use tansa.Prelude.{
  ℕ, ◌≤◌, ◌<◌, ◌≡◌, ◌≢◌, refl, ◌∙◌, true, false, Option, none, some, [], ◌∷◌, ◌++◌, Result, ok, err,
  arith, Bool-cases, inl, inr, ltb, ltb→lt, ◌==◌, ==_iff,
}
use tansa.Net.{
  SocketAddr, v4, v6, SocketAddrV4, SocketAddrV6, set_port, try_into_u16-eq_some,
  try_into_u16-eq_none,
}
use tansa.Os.{Status, invalid_argument, unimplemented, unavailable}
use tansa.Service.{Service}
use tansa.ResponseCollector.{
  Channel, IsChannel, submit_response, submit_port, send_service, answer, source_address,
}

-- A port that a service can have.
abbrev pub IsServicePort : ℕ → Type 0
IsServicePort p = (p ≢ 0) × (p < 65536)

module _ (C : Channel Service) (H : IsChannel C) where
  -- How a submission ends: with the status for the first test that fails and the channel as it was,
  -- or with success and one more service in the channel, at the address that the response came from
  -- and the port that it names.
  pub data Outcome (from : Option SocketAddr) (port : ℕ) (s : C.State)
      : Result (Unit {0}) Status × C.State → Type 0 where
    out_of_range :
        65536 ≤ port → Outcome from port s (err (invalid_argument "Port out of range"), s)
    zero_port : port ≡ 0 → Outcome from port s (err (invalid_argument "Port must not be 0"), s)
    from_ipv4 :
        (a : SocketAddrV4)
        → IsServicePort port
        → from ≡ some (v4 a)
        → Outcome from port s (err (unimplemented "IPv4 unsupported"), s)
    from_nowhere :
        IsServicePort port
        → from ≡ none
        → Outcome from port s (err (unimplemented "Remote address unavailable"), s)
    too_late :
        (a : SocketAddrV6)
        → IsServicePort port
        → from ≡ some (v6 a)
        → C.is_closed s ≡ true
        → Outcome from port s (err (unavailable "No longer accepting responses"), s)
    accepted :
        (a : SocketAddrV6) (s' : C.State)
        → IsServicePort port
        → from ≡ some (v6 a)
        → C.is_closed s ≡ false
        → C.queued s' ≡ C.queued s ++ record { address = set_port a port } ∷ []
        → C.is_closed s' ≡ false
        → Outcome from port s (ok tt, s')

  answer_ok : (x : Result (Unit {0}) (Unit {0}) × C.State) → x.0 ≡ ok tt → answer C x ≡ (ok tt, x.1)
  answer_ok (ok u, s) e = refl
  answer_ok (err u, s) e = cc

  sending :
      (a : SocketAddrV6) (port : ℕ) (s : C.State)
      → IsServicePort port
      → Outcome
          (some (v6 a))
          port
          s
          (answer C (C.unbounded_send (record { address = set_port a port }) s))
  sending a port s p =
      let service : Service = record { address = set_port a port } in
      elim (Bool-cases (C.is_closed s)) [
        | inl closed ↦ rw (H.refused service s closed) (too_late a p refl closed)
        | inr open_still ↦
            rw (answer_ok (C.unbounded_send service s) (H.sent service s open_still)) (
              accepted a (C.unbounded_send service s).1 p refl open_still
                (H.queued_last service s open_still) (H.still_open service s ∙ open_still))
      ]

  from_source :
      (from : Option SocketAddr) (port : ℕ) (s : C.State)
      → IsServicePort port
      → Outcome from port s (send_service C port (source_address from) s)
  unfolding source_address
  from_source (some (v6 a)) port s p = sending a port s p
  from_source (some (v4 a)) port s p = from_ipv4 a p refl
  from_source none port s p = from_nowhere p refl

  past_range :
      (from : Option SocketAddr) (port : ℕ) (s : C.State)
      → port < 65536
      → Outcome from port s (submit_port C (some port) from s)
  past_range from port s h = elim (Bool-cases (port == 0)) [
    | inl z ↦ rw z (zero_port ((==_iff port 0).0 z))
    | inr n ↦ rw n (from_source from port s ((λ z. cc (n, (==_iff port 0).1 z)), h))
  ]

  -- Every submission ends in one of six ways: the port is out of range, or 0; or it is in range,
  -- and the address is one of IPv4, or there is none, or the channel is closed, each with its
  -- status and the channel as it was; or it succeeds and the channel has the service, at the
  -- address with the port, in addition.
  pub submit_response-Outcome :
      (from : Option SocketAddr) (port : ℕ) (s : C.State)
      → Outcome from port s (submit_response C from (record { service_port = port }) s)
  unfolding submit_response
  submit_response-Outcome from port s = elim (Bool-cases (ltb port 65536)) [
    | inl lt ↦
        rw (try_into_u16-eq_some port (ltb→lt port 65536 lt))
          (past_range from port s (ltb→lt port 65536 lt))
    | inr ge ↦
        let large : 65536 ≤ port = ground arith in
        rw (try_into_u16-eq_none port large) (out_of_range large)
  ]
