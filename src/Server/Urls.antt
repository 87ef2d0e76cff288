-- ===== src/Server/Urls.antt =====
-- The URL that main/src/server.rs sends its response to: it names the collector.
use tansa.Prelude.{
  ℕ, ◌<◌, ◌≡◌, ◌≢◌, sym, ap, ◌∙◌, List, [], ◌∷◌, ◌++◌, All-append, inl, inr, Bool-cases, arith,
  ◌==◌, ==_iff, if◌then◌else◌,
}
use mathlib.Core.List.{append_assoc, append-nil}
use tansa.Net.{Ipv6Addr, segments, SocketAddrV6}
use tansa.Net.Texts.{Lacks, until, until-append, until-Lacks}
use tansa.Net.Display.{
  Text, chars, decimal, read_digits, read-decimal, print_ip, print_scope, print_socket_addr,
  drop_first,
}
use tansa.Net.Display.Digits.{IsMark, decimal-Lacks}
use tansa.Net.Display.Reader.{read_ip}
use tansa.Net.Display.Addresses.{IsInRange, read_ip-print_ip, print_ip-Lacks}
use tansa.Server.{get_response_collector_address}

-- What a URL of a collector says: `http://[ip%scope]:port`, with 0 for a scope that is left out.
pub record Collector : Type 0 where
  pub ip : List ℕ
  pub scope_id : ℕ
  pub port : ℕ

abbrev host_of : List ℕ → ℕ → ℕ → Collector
host_of ip scope_id port = record { ip = ip; scope_id = scope_id; port = port }

unfoldable pub read_host : Text → ℕ → Collector
unfolding until read_ip
read_host host port =
    let (ip, scope_id) = until b'%' host in host_of (read_ip ip) (read_digits 10 0 scope_id) port

unfoldable pub read_url : Text → Collector
unfolding until drop_first read_host
read_url url =
    let (host, behind) = until b']' (drop_first 8 url) in
    read_host host (read_digits 10 0 (drop_first 1 behind))

-- The characters that end the parts are not in them.
percent : IsMark b'%'
percent = record { low = omega arith; outside = inl (omega arith) }

bracket : IsMark b']'
bracket = record { low = omega arith; outside = inr (omega arith) }

abbrev scope_digits : ℕ → Text
scope_digits scope_id = if scope_id == 0 then [] else decimal scope_id

until-scoped :
    (ip : Text) (scope_id : ℕ)
    → Lacks b'%' ip
    → until b'%' (ip ++ print_scope scope_id) ≡ (ip, scope_digits scope_id)
until-scoped ip scope_id h = elim (Bool-cases (scope_id == 0)) [
  | inl z ↦ rw z (ap (until b'%') (append-nil ip) ∙ until-Lacks b'%' ip h)
  | inr n ↦ rw n (until-append b'%' ip (decimal scope_id) h)
]

read-scope_digits :
    (scope_id : ℕ) → scope_id < 4294967296 → read_digits 10 0 (scope_digits scope_id) ≡ scope_id
unfolding read_digits
read-scope_digits scope_id h = elim (Bool-cases (scope_id == 0)) [
  | inl z ↦ rw z (sym ((==_iff scope_id 0).0 z))
  | inr n ↦ rw n (read-decimal scope_id h)
]

read_host-scoped :
    (a : Ipv6Addr) (scope_id port : ℕ)
    → IsInRange a
    → scope_id < 4294967296
    → read_host (print_ip a ++ print_scope scope_id) port
      ≡ record { ip = segments a; scope_id = scope_id; port = port }
unfolding read_host
read_host-scoped a scope_id port h small =
    let no_percent = print_ip-Lacks b'%' percent (λ e. omega arith) (λ e. omega arith) a in
    let read = λ (parts : Text × Text). host_of (read_ip parts.0) (read_digits 10 0 parts.1) port in
    ap read (until-scoped (print_ip a) scope_id no_percent)
    ∙ ap (λ ip. host_of ip (read_digits 10 0 (scope_digits scope_id)) port) (read_ip-print_ip a h)
    ∙ ap (λ s. host_of (segments a) s port) (read-scope_digits scope_id small)

host_without_bracket :
    (a : Ipv6Addr) (scope_id : ℕ) → Lacks b']' (print_ip a ++ print_scope scope_id)
host_without_bracket a scope_id =
    let ip_lacks = print_ip-Lacks b']' bracket (λ e. omega arith) (λ e. omega arith) a in
    All-append (λ x. x ≢ b']') (print_ip a) (print_scope scope_id) ip_lacks
      (elim (Bool-cases (scope_id == 0)) [
        | inl z ↦ rw z tt
        | inr n ↦ rw n ((λ e. omega arith), decimal-Lacks b']' scope_id bracket)
      ])

-- The URL that a server answers at is read as the address of the source, with its scope, and the
-- port of the request, if the segments of the address and the port are below 65536 and the scope
-- below 2^32.
pub read_url-get_response_collector_address :
    (source : SocketAddrV6) (port : ℕ)
    → IsInRange source.ip
    → source.scope_id < 4294967296
    → port < 65536
    → read_url (get_response_collector_address source port)
      ≡ record { ip = segments source.ip; scope_id = source.scope_id; port = port }
unfolding get_response_collector_address print_socket_addr read_url drop_first
read_url-get_response_collector_address source port h scoped small =
    let host = print_ip source.ip ++ print_scope source.scope_id in
    let parts : until b']' (host ++ chars "]:" ++ decimal port) ≡ (host, b':' ∷ decimal port) =
      ap (until b']') (append_assoc host (chars "]:") (decimal port))
      ∙ until-append b']' host (b':' ∷ decimal port)
          (host_without_bracket source.ip source.scope_id) in
    let read = λ (p : Text × Text). read_host p.0 (read_digits 10 0 (drop_first 1 p.1)) in
    ap read parts
    ∙ ap (read_host host) (read-decimal port (omega arith))
    ∙ read_host-scoped source.ip source.scope_id port h scoped
