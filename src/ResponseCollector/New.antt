-- ===== src/ResponseCollector/New.antt =====
-- `GrpcResponseCollector::new` of main/src/response_collector.rs.
use tansa.Prelude.{◌≡◌, refl, [], ◌∷◌, ok, err, Result}
use tansa.Async.Runs.{Trace, Run, returns, replied}
use tansa.Async.Stream.{Stream}
use tansa.Net.{SocketAddr, port_of, socket_addr_v6}
use tansa.Network.UdpSender.{unspecified}
use tansa.Service.{Service}
use tansa.Protocol.{IoError}
use tansa.Os.{os, Handle, tcp_bind, tcp_local_addr, health_set_serving}
use tansa.ResponseCollector.{new, GrpcResponseCollector, Router}

-- The collector listens on a free port of every address, and knows that port.
pub record Listening (grpc : Router) (responses : Stream os Service) (t : Trace os)
    (c : GrpcResponseCollector) : Type 0 where
  pub listener : Handle
  pub bound : SocketAddr
  pub history :
      t
      ≡ (tcp_bind (socket_addr_v6 unspecified 0 0 0), ok listener)
        ∷ (tcp_local_addr listener, ok bound)
        ∷ (health_set_serving, tt)
        ∷ []
  pub made :
      c
      ≡ record { tcp = listener; port = port_of bound; grpc = grpc; response_receiver = responses }

-- A new collector is made only after it listens on a free port of every address, and it knows that
-- port.
pub new-Listening :
    (grpc : Router) (responses : Stream os Service) {t : Trace os} {c : GrpcResponseCollector}
    → Run (new grpc responses) t (ok c)
    → Listening grpc responses t c
unfolding new
new-Listening grpc responses (replied _ (ok l) (replied _ (ok a) (replied _ u (returns _)))) =
    record { listener = l; bound = a; history = refl; made = refl }
new-Listening grpc responses (replied _ (ok l) (replied _ (err e) q)) = elim q [ ]
new-Listening grpc responses (replied _ (err e) q) = elim q [ ]

-- No socket for the port was bound, or its address is not known.
pub data NotListening : Trace os → IoError → Type 0 where
  not_bound :
      (e : IoError) → NotListening ((tcp_bind (socket_addr_v6 unspecified 0 0 0), err e) ∷ []) e
  no_address :
      (l : Handle) (e : IoError)
      → NotListening
          ((tcp_bind (socket_addr_v6 unspecified 0 0 0), ok l) ∷ (tcp_local_addr l, err e) ∷ [])
          e

new-NotListening :
    (grpc : Router) (responses : Stream os Service) {t : Trace os} {e : IoError}
    → Run (new grpc responses) t (err e)
    → NotListening t e
unfolding new
new-NotListening grpc responses (replied _ (err e) (returns _)) = not_bound e
new-NotListening grpc responses (replied _ (ok l) (replied _ (err e) (returns _))) = no_address l e
new-NotListening grpc responses (replied _ (ok l) (replied _ (ok a) (replied _ u q))) = elim q [ ]

abbrev pub NewEnds :
    Router → Stream os Service → Trace os → Result GrpcResponseCollector IoError → Type 0
NewEnds grpc responses t (ok c) = Listening grpc responses t c
NewEnds grpc responses t (err e) = NotListening t e

-- Every new collector listens on a free port of every address, knows that port, and then the health
-- service is told so; or the socket is not bound, or its address is not known, and then that error is
-- the result and no other call is made.
pub new-NewEnds :
    (grpc : Router) (responses : Stream os Service) {t : Trace os}
    (r : Result GrpcResponseCollector IoError)
    → Run (new grpc responses) t r
    → NewEnds grpc responses t r
new-NewEnds grpc responses (ok c) q = new-Listening grpc responses q
new-NewEnds grpc responses (err e) q = new-NotListening grpc responses q
