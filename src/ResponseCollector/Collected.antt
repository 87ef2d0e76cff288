-- ===== src/ResponseCollector/Collected.antt =====
-- What a series of submissions leaves in the channel of main/src/response_collector.rs.
use mathlib.Core.List.{append-nil, append_assoc}
use tansa.Prelude.{
  ℕ, ◌≡◌, refl, sym, ap, ◌∙◌, false, Option, none, some, List, [], ◌∷◌, ◌++◌, Result, arith, ltb,
  ◌==◌, ==_iff, ltb→lt, lt→ltb, Bool-cases, inl, inr, subst, if◌then◌else◌,
}
use tansa.Net.{SocketAddr, v4, v6, SocketAddrV6, set_port}
use tansa.Os.{Status}
use tansa.Service.{Service}
use tansa.ResponseCollector.{Channel, IsChannel, submit_response}
use tansa.ResponseCollector.Submit.{
  Outcome, out_of_range, zero_port, from_ipv4, from_nowhere, too_late, accepted,
  submit_response-Outcome, IsServicePort,
}

-- A submission: where it came from, and the port that it names.
abbrev pub Submission : Type 0
Submission = Option SocketAddr × ℕ

-- The services that a submission adds: one, if it came over IPv6 and names a port that a service
-- can have.
abbrev pub added : Submission → List Service
added (some (v6 a), port) =
    if port == 0
    then []
    else if ltb port 65536
    then record { address = set_port a port } ∷ []
    else []
added (some (v4 a), port) = []
added (none, port) = []

abbrev pub all_added : List Submission → List Service
all_added [] = []
all_added (x ∷ l) = added x ++ all_added l

module _ (C : Channel Service) where
  -- The submissions that arrive, one after another.
  unfoldable pub submit_all : List Submission → C.State → C.State
  submit_all [] s = s
  submit_all ((from, port) ∷ l) s =
      submit_all l (submit_response C from (record { service_port = port }) s).1

module _ (C : Channel Service) (H : IsChannel C) where
  record Grown (s s' : C.State) (more : List Service) : Type 0 where
    grown : C.queued s' ≡ C.queued s ++ more
    still_open : C.is_closed s' ≡ false

  unchanged : (s : C.State) → C.is_closed s ≡ false → Grown s s []
  unchanged s e = record { grown = sym (append-nil (C.queued s)); still_open = e }

  added-eq-nil :
      (from : Option SocketAddr) (port : ℕ) → ¬ IsServicePort port → added (from, port) ≡ []
  added-eq-nil (some (v6 a)) port h = elim (Bool-cases (port == 0)) [
    | inl z ↦ rw z
    | inr n ↦ elim (Bool-cases (ltb port 65536)) [
      | inl lt ↦ absurd (h ((λ z. cc (n, (==_iff port 0).1 z)), ltb→lt port 65536 lt))
      | inr ge ↦ rw (n, ge)
    ]
  ]
  added-eq-nil (some (v4 a)) port h = refl
  added-eq-nil none port h = refl

  added_service :
      (a : SocketAddrV6) (port : ℕ)
      → IsServicePort port
      → added (some (v6 a), port) ≡ record { address = set_port a port } ∷ []
  added_service a port (n, lt) = elim (Bool-cases (port == 0)) [
    | inl z ↦ absurd (n ((==_iff port 0).0 z))
    | inr m ↦ rw (m, lt→ltb port 65536 lt)
  ]

  same : (s : C.State) (x : Submission) → C.is_closed s ≡ false → added x ≡ [] → Grown s s (added x)
  same s x e nothing = subst (λ m. Grown s s m) (sym nothing) (unchanged s e)

  Grown-by :
      (from : Option SocketAddr) (port : ℕ) (s : C.State) (x : Result (Unit {0}) Status × C.State)
      → C.is_closed s ≡ false
      → Outcome C H from port s x
      → Grown s x.1 (added (from, port))
  Grown-by from port s _ e (out_of_range h) =
      same s (from, port) e (added-eq-nil from port (λ p. omega (arith, p.1)))
  Grown-by from port s _ e (zero_port z) =
      same s (from, port) e (added-eq-nil from port (λ p. p.0 z))
  Grown-by from port s _ e (from_ipv4 a p is) = same s (from, port) e (ap (λ f. added (f, port)) is)
  Grown-by from port s _ e (from_nowhere p is) =
      same s (from, port) e (ap (λ f. added (f, port)) is)
  Grown-by from port s _ e (too_late a p is closed) = cc
  Grown-by from port s _ e (accepted a s' p is open_before queued open_after) =
      subst (λ m. Grown s s' m) (sym (ap (λ f. added (f, port)) is ∙ added_service a port p))
        (record { grown = queued; still_open = open_after })

  -- While the receiver is there, a series of submissions adds to the channel, in order, exactly the
  -- services of the submissions that came over IPv6 with a port from 1 to 65535.
  pub queued-submit_all :
      (l : List Submission) (s : C.State)
      → C.is_closed s ≡ false
      → C.queued (submit_all C l s) ≡ C.queued s ++ all_added l
  unfolding submit_all
  queued-submit_all [] s e = sym (append-nil (C.queued s))
  queued-submit_all ((from, port) ∷ l) s e =
      let next = submit_response C from (record { service_port = port }) s in
      let g = Grown-by from port s next e (submit_response-Outcome C H from port s) in
      queued-submit_all l next.1 g.still_open
      ∙ ap (λ q. q ++ all_added l) g.grown
      ∙ append_assoc (C.queued s) (added (from, port)) (all_added l)
