-- ===== src/Network/Carries.antt =====
-- Futures whose datagrams all have a property, whatever the replies: the sender of
-- main/src/network/udp_sender.rs, and what is built from it.
use mathlib.Core.List.{filter_map}
use mathlib.Core.Option.{Option-elim}
use tansa.Prelude.{
  ◌++◌, All, All-append, ◌∙◌, ap, sym, ◌≡◌, refl, subst, Bool, true, false, Option, none, some,
  List, [], ◌∷◌, Result, ok, err, map_error,
}
use tansa.Async
use tansa.Async.{Async, done, call}
use tansa.Async.Concurrent.{Joined, all_done, one_failed, one_step}
use tansa.Async.Runs.{Trace, Run, returns, replied, split, done_inv}
use tansa.Async.Shuffle.{Picks, here, there}
use tansa.Async.Try.{◌>>=◌, propagate, with_error}
use tansa.Net.{SocketAddrV6, socket_addr_v6}
use tansa.Protocol.{Bytes}
use tansa.Network.UdpSender.{new_socket, tokio_send_unicast, tokio_send_multicast, unspecified}
use tansa.Network.Datagrams.{
  Datagram, datagram, datagrams, datagrams-append, sent, sent_by, IsQuiet, quiet_done, quiet_call,
}
use tansa.Os.{udp_bind, local_addr, join_multicast_v6, send_to, Handle, os, OsCall, OsReply}

module _ (Q : Datagram → Type 0) where
  pub data Carries {A : Type 0} : Async os A → Type 0 where
    carries_done : (a : A) → Carries (done a)
    carries_call :
        (c : OsCall) {k : OsReply c → Async os A}
        → ((r : OsReply c) (d : Datagram) → sent c r ≡ some d → Q d)
        → ((r : OsReply c) → Carries (k r))
        → Carries (call c k)

  abbrev pub AllCarry : List Datagram → Type 0
  AllCarry l = All Q l

  -- One event more.
  AllCarry-event :
      (c : OsCall) (r : OsReply c) (t : Trace os)
      → ((d : Datagram) → sent c r ≡ some d → Q d)
      → AllCarry (datagrams t)
      → AllCarry (datagrams ((c, r) ∷ t))
  unfolding datagrams filter_map
  AllCarry-event c r t h rest = at_option (sent c r) h
    where
      at_option :
          (o : Option Datagram)
          → ((d : Datagram) → o ≡ some d → Q d)
          → AllCarry (Option-elim o (filter_map sent_by t) (λ d. d ∷ filter_map sent_by t))
      at_option none g = rest
      at_option (some d) g = (g d refl, rest)

  module _ {A : Type 0} where
    -- Every datagram of every run has the property.
    pub Carries-datagrams :
        {m : Async os A} → Carries m → {t : Trace os} {a : A} → Run m t a → AllCarry (datagrams t)
    unfolding datagrams filter_map
    Carries-datagrams (carries_done a) (returns _) = tt
    Carries-datagrams (carries_call c h g) (replied _ r {t} q) =
        AllCarry-event c r t (h r) (Carries-datagrams (g r) q)

    pub IsQuiet-Carries : {m : Async os A} → IsQuiet m → Carries m
    IsQuiet-Carries (quiet_done a) = carries_done a
    IsQuiet-Carries (quiet_call c n h) =
        carries_call c (λ r d e. cc (n r, e)) (λ r. IsQuiet-Carries (h r))

    pub bind-Carries :
        {B : Type 0} {m : Async os A} {f : A → Async os B}
        → Carries m
        → ((a : A) → Carries (f a))
        → Carries (Async.◌>>=◌ m f)
    bind-Carries (carries_done a) g = g a
    bind-Carries (carries_call c n h) g = carries_call c n (λ r. bind-Carries (h r) g)

  module _ {A B E : Type 0} where
    propagate-Carries :
        (f : A → Async os (Result B E))
        → ((a : A) → Carries (f a))
        → (r : Result A E) → Carries (propagate f r)
    propagate-Carries f g (ok a) = g a
    propagate-Carries f g (err e) = carries_done (err e)

    pub try-Carries :
        {m : Async os (Result A E)} {f : A → Async os (Result B E)}
        → Carries m
        → ((a : A) → Carries (f a))
        → Carries (m >>= f)
    try-Carries {f} h g = bind-Carries h (propagate-Carries f g)

  pub with_error-Carries :
      {A E F : Type 0} {m : Async os (Result A E)} (into : E → F)
      → Carries m
      → Carries (with_error into m)
  with_error-Carries into h = bind-Carries h (λ r. carries_done (map_error into r))

  -- Futures that are joined.
  module _ {A E : Type 0} where
    pub data AllCarries : List (Async os (Result A E)) → Type 0 where
      no_future : AllCarries []
      next_future :
          {m : Async os (Result A E)} {ms : List (Async os (Result A E))}
          → Carries m
          → AllCarries ms
          → AllCarries (m ∷ ms)

    Carries-reply :
        (c : OsCall) (k : OsReply c → Async os (Result A E)) (r : OsReply c)
        → Carries (call c k)
        → ((d : Datagram) → sent c r ≡ some d → Q d) × Carries (k r)
    Carries-reply c k r (carries_call _ h g) = (h r, g r)

    AllCarries-step :
        {x y : Async os (Result A E)} {X : Type 0}
        → (Carries x → X × Carries y)
        → {ms ns : List (Async os (Result A E))} → Picks ms x y ns
        → AllCarries ms
        → X × AllCarries ns
    AllCarries-step step here (next_future h hs) = let w = step h in (w.0, next_future w.1 hs)
    AllCarries-step step (there p) (next_future h hs) =
        let w = AllCarries-step step p hs in (w.0, next_future h w.1)

    pub Joined-datagrams :
        {ms : List (Async os (Result A E))} {t : Trace os} {r : Result (Unit {0}) E}
        → AllCarries ms
        → Joined ms t r
        → AllCarry (datagrams t)
    unfolding datagrams filter_map
    Joined-datagrams hs (all_done d) = tt
    Joined-datagrams hs (one_failed e f) = tt
    Joined-datagrams hs (one_step c {k} r {t} p j) =
        let w = AllCarries-step (Carries-reply c k r) p hs in
        AllCarry-event c r t w.0 (Joined-datagrams w.1 j)

module _ (Q : Datagram → Type 0) {A B E : Type 0} where
  -- The datagrams of a run in two parts.
  after_first :
      (m : Async os (Result A E)) (f : A → Async os (Result B E)) (x : Result A E)
      {v u t : Trace os} {r : Result B E}
      → ((a : A) (u t : Trace os) (r : Result B E)
          → v ≡ u ++ t
          → Run m u (ok a)
          → Run (f a) t r
          → AllCarry Q (datagrams t))
      → v ≡ u ++ t
      → Run m u x
      → Run (propagate f x) t r
      → AllCarry Q (datagrams t)
  unfolding datagrams filter_map
  after_first m f (ok a) h whole p q = h a _ _ _ whole p q
  after_first m f (err e) h whole p q =
      subst (λ t. AllCarry Q (datagrams t)) (sym ((done_inv q).0)) tt

  pub in_two_parts :
      (m : Async os (Result A E)) (f : A → Async os (Result B E)) {v : Trace os} {r : Result B E}
      → Carries Q m
      → ((a : A) (u t : Trace os) (r : Result B E)
          → v ≡ u ++ t
          → Run m u (ok a)
          → Run (f a) t r
          → AllCarry Q (datagrams t))
      → Run (m >>= f) v r
      → AllCarry Q (datagrams v)
  in_two_parts m f first h q =
      let s = split m (propagate f) q in
      subst (AllCarry Q) (sym (ap datagrams s.whole ∙ datagrams-append s.before s.after)) (
        All-append Q (datagrams s.before) (datagrams s.after) (Carries-datagrams Q first s.first)
          (after_first m f s.value h s.whole s.first s.rest))

module _ (Q : Datagram → Type 0) (address : SocketAddrV6) (b : Bytes)
    (this : Q (datagram b address)) where
  once_sending :
      (h : Handle) (r : OsReply (send_to h b address)) (d : Datagram)
      → sent (send_to h b address) r ≡ some d
      → Q d
  once_sending h (ok n) d e = let same : datagram b address ≡ d = cc in subst Q same this
  once_sending h (err x) d e = cc

  once_silent-Carries : (c : OsCall) → ((r : OsReply c) → sent c r ≡ none) → Carries Q (call c done)
  once_silent-Carries c n = carries_call c (λ r d e. cc (n r, e)) (λ r. carries_done r)

  sending-Carries : (h : Handle) → Carries Q (call (send_to h b address) done)
  sending-Carries h = carries_call (send_to h b address) (once_sending h) (λ r. carries_done r)

  abbrev binding : OsCall
  binding = udp_bind (socket_addr_v6 unspecified 0 0 0)

  new_socket-Carries : (debug : Bool) → Carries Q (new_socket debug)
  unfolding new_socket
  new_socket-Carries true = try-Carries Q (once_silent-Carries binding (λ r. refl)) (λ s.
      try-Carries Q
        (try-Carries Q (once_silent-Carries (local_addr s) (λ r. refl)) (λ a. carries_done (ok tt)))
        (λ u. carries_done (ok s)))
  new_socket-Carries false =
      try-Carries Q (once_silent-Carries binding (λ r. refl)) (λ s. carries_done (ok s))

  -- A unicast and a multicast, whether or not they succeed.
  pub unicast-Carries : (debug : Bool) → Carries Q (tokio_send_unicast debug address b)
  unfolding tokio_send_unicast new_socket
  unicast-Carries debug =
      try-Carries Q (new_socket-Carries debug)
        (λ s. try-Carries Q (sending-Carries s) (λ n. carries_done (ok tt)))

  pub multicast-Carries : (debug : Bool) → Carries Q (tokio_send_multicast debug address b)
  unfolding tokio_send_multicast new_socket
  multicast-Carries debug = try-Carries Q (new_socket-Carries debug) (λ s.
      try-Carries Q (once_silent-Carries (join_multicast_v6 s address.ip 0) (λ r. refl))
        (λ u. try-Carries Q (sending-Carries s) (λ n. carries_done (ok tt))))
