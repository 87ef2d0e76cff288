-- ===== src/Network/Datagrams.antt =====
-- The datagrams that a run sends (the calls of `UdpSocket::send_to` that succeed), and the futures
-- that send none.
use mathlib.Core.List.{filter_map, filter_map-append, Perm, perm_middle}
use mathlib.Core.List.Perm
use tansa.Prelude.{
  ℕ, ◌≡◌, refl, ap, ◌∙◌, Bool, Option, none, some, List, [], ◌∷◌, ◌++◌, map, Result, ok, err,
  map_error,
}
use tansa.Async
use tansa.Async.{Async, done, call}
use tansa.Async.Runs.{Event, Trace, Run, returns, replied}
use tansa.Async.Try.{◌>>=◌, propagate, with_error}
use tansa.Async.Shuffle.{Picks, here, there, AllEmpty, empty, also, Shuffle, over, take}
use tansa.Net.{SocketAddrV6}
use tansa.Protocol.{Bytes}
use tansa.Network.UdpSender.{tokio_send_unicast, tokio_send_multicast}
use tansa.Network.UdpSender.Sends.{
  Logged, silent, asked, tokio_send_unicast-ok, tokio_send_multicast-ok,
}
use tansa.Network.IpNeighbor.{IpNeighbor}
use tansa.Network.IpNeighbor.Address.{neighbor_address}
use tansa.Os.{os, OsCall, OsReply, Handle, send_to, join_multicast_v6}

pub record Datagram : Type 0 where
  pub bytes : Bytes
  pub address : SocketAddrV6

abbrev pub datagram : Bytes → SocketAddrV6 → Datagram
datagram b a = record { bytes = b; address = a }

-- The datagrams to the neighbors, by an address that does not depend on the code.
abbrev pub to_neighbors : ℕ → List IpNeighbor → Bytes → List Datagram
to_neighbors port neighbors bytes = map (λ n. datagram bytes (neighbor_address n port)) neighbors

abbrev pub sent : (c : OsCall) → OsReply c → Option Datagram
sent (send_to h b a) (ok n) = some (datagram b a)
sent (send_to h b a) (err e) = none
sent _ r = none

abbrev pub sent_by : Event os → Option Datagram
sent_by (c, r) = sent c r

unfoldable pub datagrams : Trace os → List Datagram
datagrams t = filter_map sent_by t

pub datagrams-append : (t u : Trace os) → datagrams (t ++ u) ≡ datagrams t ++ datagrams u
unfolding datagrams
datagrams-append t u = filter_map-append sent_by t u

-- The datagrams of an interleaving.
abbrev pub concat : {A : Type 0} → List (List A) → List A
concat [] = []
concat (l ∷ ls) = l ++ concat ls

Picks-perm :
    {A : Type 0} {x : A} {l : List A} {ls ms : List (List A)}
    → Picks ls (x ∷ l) l ms
    → Perm (concat ls) (x ∷ concat ms)
Picks-perm here = Perm.refl _
Picks-perm {x} (there {z = z} {m = m} p) =
    Perm.trans (Perm.append_left z (Picks-perm p)) (perm_middle z (concat m))

concat-empty : {A : Type 0} {ls : List (List A)} → AllEmpty ls → concat ls ≡ []
concat-empty empty = refl
concat-empty (also e) = concat-empty e

pub Shuffle-perm :
    {A : Type 0} {ls : List (List A)} {t : List A} → Shuffle ls t → Perm t (concat ls)
Shuffle-perm (over e) = rw (concat-empty e) (Perm.refl [])
Shuffle-perm (take {x = x} p s) =
    Perm.trans (Perm.cons x (Shuffle-perm s)) (Perm.symm (Picks-perm p))

pub datagrams-perm : {t u : Trace os} → Perm t u → Perm (datagrams t) (datagrams u)
unfolding datagrams
datagrams-perm p = Perm.filter_map sent_by p

-- A future that sends no datagram, whatever the replies.
pub data IsQuiet {A : Type 0} : Async os A → Type 0 where
  quiet_done : (a : A) → IsQuiet (done a)
  quiet_call :
      (c : OsCall) {k : OsReply c → Async os A}
      → ((r : OsReply c) → sent c r ≡ none)
      → ((r : OsReply c) → IsQuiet (k r))
      → IsQuiet (call c k)

module _ {A : Type 0} where
  pub IsQuiet-datagrams :
      {m : Async os A} → IsQuiet m → {t : Trace os} {a : A} → Run m t a → datagrams t ≡ []
  unfolding datagrams filter_map
  IsQuiet-datagrams (quiet_done a) (returns _) = refl
  IsQuiet-datagrams (quiet_call c n h) (replied _ r q) = rw (n r) (IsQuiet-datagrams (h r) q)

  pub bind-IsQuiet :
      {B : Type 0} {m : Async os A} {f : A → Async os B}
      → IsQuiet m
      → ((a : A) → IsQuiet (f a))
      → IsQuiet (Async.◌>>=◌ m f)
  bind-IsQuiet (quiet_done a) g = g a
  bind-IsQuiet (quiet_call c n h) g = quiet_call c n (λ r. bind-IsQuiet (h r) g)

module _ {A B E : Type 0} where
  propagate-IsQuiet :
      (f : A → Async os (Result B E))
      → ((a : A) → IsQuiet (f a))
      → (r : Result A E) → IsQuiet (propagate f r)
  propagate-IsQuiet f g (ok a) = g a
  propagate-IsQuiet f g (err e) = quiet_done (err e)

  pub try-IsQuiet :
      {m : Async os (Result A E)} {f : A → Async os (Result B E)}
      → IsQuiet m
      → ((a : A) → IsQuiet (f a))
      → IsQuiet (m >>= f)
  try-IsQuiet {f} h g = bind-IsQuiet h (propagate-IsQuiet f g)

module _ {A E F : Type 0} where
  pub with_error-IsQuiet :
      {m : Async os (Result A E)} (into : E → F) → IsQuiet m → IsQuiet (with_error into m)
  with_error-IsQuiet into h = bind-IsQuiet h (λ r. quiet_done (map_error into r))

module _ (address : SocketAddrV6) (bytes : Bytes) where
  after_logging :
      (debug : Bool) (socket : Handle) (logging rest : Trace os)
      → Logged socket debug logging
      → datagrams (logging ++ rest) ≡ datagrams rest
  unfolding datagrams filter_map
  after_logging debug socket _ rest silent = refl
  after_logging debug socket _ rest (asked a) = refl

  -- A unicast that returns with no error sent one datagram.
  pub unicast-datagrams :
      (debug : Bool) {t : Trace os}
      → Run (tokio_send_unicast debug address bytes) t (ok tt)
      → datagrams t ≡ datagram bytes address ∷ []
  unfolding datagrams filter_map
  unicast-datagrams debug q =
      let w = tokio_send_unicast-ok debug address bytes q in
      ap datagrams w.history
      ∙ after_logging debug w.socket w.logging ((send_to w.socket bytes address, ok w.sent) ∷ [])
          w.logged

  -- So did a multicast.
  pub multicast-datagrams :
      (debug : Bool) {t : Trace os}
      → Run (tokio_send_multicast debug address bytes) t (ok tt)
      → datagrams t ≡ datagram bytes address ∷ []
  unfolding datagrams filter_map
  multicast-datagrams debug q =
      let w = tokio_send_multicast-ok debug address bytes q in
      ap datagrams w.history
      ∙ after_logging debug w.socket w.logging
          ((join_multicast_v6 w.socket address.ip 0, ok tt)
            ∷ (send_to w.socket bytes address, ok w.sent)
            ∷ [])
          w.logged
