-- ===== src/ResponseCollector/Interleaved.antt =====
-- The channel of main/src/response_collector.rs between the handler `submit_response` and the stream
-- `collect`: the two take turns in any order, until the stream is dropped.
use mathlib.Core.List.{append-nil, append_assoc}
use tansa.Prelude.{
  All, ℕ, ◌≡◌, refl, sym, ap, ◌∙◌, subst, Bool, true, false, Option, none, some, List, [], ◌∷◌,
  ◌++◌, Result, ok, err, not,
}
use tansa.Net.{SocketAddr, v4, v6, SocketAddrV6, set_port}
use tansa.Os.{Status}
use tansa.Service.{Service}
use tansa.ResponseCollector.{Channel, IsChannel, submit_response}
use tansa.ResponseCollector.Submit.{
  Outcome, out_of_range, zero_port, from_ipv4, from_nowhere, too_late, accepted,
  submit_response-Outcome, IsServicePort,
}
pub mod Invariant

-- A submission that was answered.
pub record Entry : Type 0 where
  pub from : Option SocketAddr
  pub port : ℕ
  pub answer : Result (Unit {0}) Status

-- The service that an accepted submission stands for.
abbrev pub service_of : Option SocketAddr → ℕ → Result (Unit {0}) Status → List Service
service_of (some (v6 a)) port (ok _) = record { address = set_port a port } ∷ []
service_of (some (v6 a)) port (err _) = []
service_of (some (v4 a)) port r = []
service_of none port r = []

abbrev pub accepted_services : List Entry → List Service
accepted_services [] = []
accepted_services (e ∷ l) = service_of e.from e.port e.answer ++ accepted_services l

abbrev pub AllPorts : List Service → Type 0
AllPorts l = All (λ (s : Service). IsServicePort s.address.port) l

pub accepted_services-append :
    (l m : List Entry) → accepted_services (l ++ m) ≡ accepted_services l ++ accepted_services m
accepted_services-append [] m = refl
accepted_services-append (e ∷ l) m =
    ap (λ x. service_of e.from e.port e.answer ++ x) (accepted_services-append l m)
    ∙ sym (
        append_assoc (service_of e.from e.port e.answer) (accepted_services l)
          (accepted_services m))

-- What the channel holds, as long as the stream is there.
abbrev pub Holds : Bool → List Service → List Service → Type 0
Holds true queued pending = queued ≡ pending
Holds false queued pending = Unit {0}

module _ (C : Channel Service) where
  -- The channel, what the stream has given so far, whether the stream is still there, and what was
  -- answered so far.
  pub record Collecting : Type 0 where
    pub channel : C.State
    pub given : List Service
    pub open_still : Bool
    pub log : List Entry

  abbrev pub started : C.State → Collecting
  started s = record { channel = s; given = []; open_still = true; log = [] }

  -- One call of the handler.
  abbrev pub submitted : Option SocketAddr → ℕ → Collecting → Collecting
  submitted from port x =
      let done = submit_response C from (record { service_port = port }) x.channel in
      record x {
        channel = done.1;
        log = x.log ++ record { from = from; port = port; answer = done.0 } ∷ [];
      }

  abbrev pub give : List Service → Option Service → List Service
  give l none = l
  give l (some s) = l ++ s ∷ []

  -- One poll of the stream.
  abbrev pub polled : Collecting → Collecting
  polled x =
      let next = C.poll_next x.channel in record x { channel = next.1; given = give x.given next.0 }

  pub data Step : Collecting → Collecting → Type 0 where
    submits :
        (from : Option SocketAddr) (port : ℕ) (x : Collecting) → Step x (submitted from port x)
    polls : (x : Collecting) → x.open_still ≡ true → Step x (polled x)
    drops :
        (x : Collecting)
        → Step x (record x { channel = C.drop_receiver x.channel; open_still = false })

  pub data Reach (x : Collecting) : Collecting → Type 0 where
    here : Reach x x
    next : {y z : Collecting} → Reach x y → Step y z → Reach x z

  -- What the stream has given, and what it will still give, are the services of the accepted
  -- submissions, each once and in order, with ports from 1 to 65535. While the stream is there the
  -- channel holds the rest; after that the channel is closed.
  pub record IsSound (x : Collecting) : Type 0 where
    pub pending : List Service
    pub exact : x.given ++ pending ≡ accepted_services x.log
    pub ports : AllPorts (accepted_services x.log)
    pub closed_with : C.is_closed x.channel ≡ not x.open_still
    pub held : Holds x.open_still (C.queued x.channel) pending
