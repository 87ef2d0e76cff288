-- ===== src/ResponseCollector/Interleaved/Invariant.antt =====
-- What always holds between the handler and the stream of main/src/response_collector.rs.
use mathlib.Core.List.{append-nil, append_assoc}
use tansa.Prelude.{
  All-append, ℕ, ◌≡◌, refl, sym, ap, ◌∙◌, subst, Bool, true, false, Option, none, some, List, [],
  ◌∷◌, ◌++◌, Result, ok, err,
}
use tansa.Net.{SocketAddr, v4, v6, SocketAddrV6, set_port}
use tansa.Os.{Status}
use tansa.Service.{Service}
use tansa.ResponseCollector.{Channel, IsChannel}
use tansa.ResponseCollector.Submit.{
  Outcome, out_of_range, zero_port, from_ipv4, from_nowhere, too_late, accepted,
  submit_response-Outcome, IsServicePort,
}
use tansa.ResponseCollector.Interleaved.{
  Entry, service_of, accepted_services, AllPorts, Holds, Collecting, started, give, polled, Step,
  submits, polls, drops, Reach, here, next, IsSound, accepted_services-append,
}

no_service : (from : Option SocketAddr) (port : ℕ) (e : Status) → service_of from port (err e) ≡ []
no_service (some (v6 a)) port e = refl
no_service (some (v4 a)) port e = refl
no_service none port e = refl

module _ (C : Channel Service) (H : IsChannel C) where
  one_more :
      (log : List Entry) (e : Entry)
      → accepted_services (log ++ e ∷ [])
        ≡ accepted_services log ++ service_of e.from e.port e.answer
  one_more log e =
      accepted_services-append log (e ∷ [])
      ∙ ap (λ l. accepted_services log ++ l) (append-nil (service_of e.from e.port e.answer))

  abbrev answered :
      Collecting C → Option SocketAddr → ℕ → Result (Unit {0}) Status × C.State → Collecting C
  answered x from port p = record x {
    channel = p.1;
    log = x.log ++ record { from = from; port = port; answer = p.0 } ∷ [];
  }

  rejecting :
      (x : Collecting C) (from : Option SocketAddr) (port : ℕ) (e : Status)
      → IsSound C x
      → IsSound C (answered x from port (err e, x.channel))
  rejecting x from port e h =
      let entry : Entry = record { from = from; port = port; answer = err e } in
      let same : accepted_services x.log ≡ accepted_services (x.log ++ entry ∷ []) = sym (
        one_more x.log entry
        ∙ ap (λ l. accepted_services x.log ++ l) (no_service from port e)
        ∙ append-nil (accepted_services x.log)) in
      record {
        pending = h.pending;
        exact = h.exact ∙ same;
        ports = subst AllPorts same h.ports;
        closed_with = h.closed_with;
        held = h.held;
      }

  held_more :
      (b : Bool) (q q' p : List Service) (a : Service)
      → q' ≡ q ++ a ∷ []
      → Holds b q p
      → Holds b q' (p ++ a ∷ [])
  held_more true q q' p a e h = e ∙ ap (λ l. l ++ a ∷ []) h
  held_more false q q' p a e h = tt

  accepting :
      (x : Collecting C) (a : SocketAddrV6) (port : ℕ) (s' : C.State)
      → IsServicePort port
      → C.is_closed x.channel ≡ false
      → C.queued s' ≡ C.queued x.channel ++ record { address = set_port a port } ∷ []
      → C.is_closed s' ≡ false
      → IsSound C x
      → IsSound C (answered x (some (v6 a)) port (ok tt, s'))
  accepting x a port s' p before queued after h =
      let service : Service = record { address = set_port a port } in
      let entry : Entry = record { from = some (v6 a); port = port; answer = ok tt } in
      record {
        pending = h.pending ++ service ∷ [];
        exact =
            sym (append_assoc x.given h.pending (service ∷ []))
            ∙ ap (λ l. l ++ service ∷ []) h.exact
            ∙ sym (one_more x.log entry);
        ports =
            subst AllPorts (sym (one_more x.log entry))
              (All-append _ (accepted_services x.log) (service ∷ []) h.ports (p, tt));
        closed_with = after ∙ sym before ∙ h.closed_with;
        held =
            held_more x.open_still (C.queued x.channel) (C.queued s') h.pending service queued
              h.held;
      }

  answering :
      (x : Collecting C) (from : Option SocketAddr) (port : ℕ)
      (p : Result (Unit {0}) Status × C.State)
      → IsSound C x
      → Outcome C H from port x.channel p
      → IsSound C (answered x from port p)
  answering x from port _ h (out_of_range g) = rejecting x from port _ h
  answering x from port _ h (zero_port z) = rejecting x from port _ h
  answering x from port _ h (from_ipv4 a g is) = rejecting x from port _ h
  answering x from port _ h (from_nowhere g is) = rejecting x from port _ h
  answering x from port _ h (too_late a g is closed) = rejecting x from port _ h
  answering x from port _ h (accepted a s' g is before queued after) =
      subst (λ f. IsSound C (answered x f port (ok tt, s'))) (sym is)
        (accepting x a port s' g before queued after h)

  -- A poll takes the first of what is pending, if there is any.
  polling :
      (x : Collecting C) (l : List Service)
      → C.queued x.channel ≡ l
      → x.open_still ≡ true
      → IsSound C x
      → IsSound C (polled C x)
  polling x [] e still h =
      let nothing = H.polled_empty x.channel e in
      subst (λ n. IsSound C (record x { channel = n.1; given = give C x.given n.0 })) (sym nothing)
        h
  polling x (a ∷ l) e still h =
      let n = H.polled_first a l x.channel e in
      let rest : h.pending ≡ a ∷ l =
        sym (subst (λ b. Holds b (C.queued x.channel) h.pending) still h.held) ∙ e in
      record {
        pending = l;
        exact =
            ap (λ g. give C x.given g ++ l) n.0
            ∙ append_assoc x.given (a ∷ []) l
            ∙ ap (λ g. x.given ++ g) (sym rest)
            ∙ h.exact;
        ports = h.ports;
        closed_with = n.2 ∙ h.closed_with;
        held = subst (λ b. Holds b (C.queued (C.poll_next x.channel).1) l) (sym still) n.1;
      }

  Step-IsSound : {x y : Collecting C} → Step C x y → IsSound C x → IsSound C y
  Step-IsSound (submits from port x) h =
      answering x from port _ h (submit_response-Outcome C H from port x.channel)
  Step-IsSound (polls x still) h = polling x (C.queued x.channel) refl still h
  Step-IsSound (drops x) h = record {
    pending = h.pending;
    exact = h.exact;
    ports = h.ports;
    closed_with = H.dropped x.channel;
    held = tt;
  }

  -- Starting with an empty and open channel, whatever order the handler's calls, the polls of the
  -- stream and its drop come in: what the stream has given, and what is pending, are the services of
  -- the accepted submissions, each once and in order, with ports from 1 to 65535. While the stream
  -- is there the channel is open and holds what is pending; after that it is closed.
  pub Reach-IsSound :
      (s : C.State)
      → C.queued s ≡ []
      → C.is_closed s ≡ false
      → {x : Collecting C} → Reach C (started C s) x
      → IsSound C x
  Reach-IsSound s empty opened here = record {
    pending = [];
    exact = refl;
    ports = tt;
    closed_with = opened;
    held = empty;
  }
  Reach-IsSound s empty opened (next r step) = Step-IsSound step (Reach-IsSound s empty opened r)
