-- ===== src/Network/IpNeighbor/Scans.antt =====
-- The scans for neighbors of main/src/network/ip_neighbor/linux.rs and windows.rs as a whole: the
-- commands that they run, and what they make of the outputs.
use mathlib.Core.List.{filter_map, append-nil}
use text.Mathlib.Text.{◌==◌ as str_eq}
use tansa.Prelude.{
  ◌≡◌, refl, sym, ap, subst, ◌∙◌, Option, none, some, List, [], ◌∷◌, ◌++◌, Result, ok, err,
  map_error, Bool-cases, inl, inr, if◌then◌else◌, ◌and_then◌,
}
use tansa.Async.{Async}
use tansa.Async.Runs.{Trace, Run, done_inv}
use tansa.Async.Try.{both, with_error_ok}
use tansa.Process.Outcomes.{Ran, run_command, run-ok, Evaluated, eval_command, eval-ok}
use tansa.Protocol.{Bytes}
use tansa.Os.{os}
use tansa.Network.IpNeighbor.Defs.{
  IpNeighbor, IpNeighborScanError, is_valid_ip, CsvError, child_process, parse_csv, collect_results,
}
use tansa.Network.IpNeighbor.Linux
use tansa.Network.IpNeighbor.Linux.{Readers}
use tansa.Network.IpNeighbor.Windows
use tansa.Network.IpNeighbor.Windows.{NetNeighbor, from_net_neighbor, print_ip_neighbors}

-- A scan that found neighbors, as a part of a longer run.
pub record FoundWithin (scan : Async os (Result (List IpNeighbor) IpNeighborScanError))
    (t : Trace os) (found : List IpNeighbor) : Type 0 where
  pub before : Trace os
  pub during : Trace os
  pub after : Trace os
  pub whole : t ≡ before ++ (during ++ after)
  pub run : Run scan during (ok found)

module _ (R : Readers) where
  -- `ip link` and then `ip neighbor` ran with success, and their outputs were parsed.
  pub record LinuxScan (t : Trace os) (found : List IpNeighbor) : Type 0 where
    pub links : Bytes
    pub neighbors : Bytes
    pub link_trace : Trace os
    pub neighbor_trace : Trace os
    pub whole : t ≡ link_trace ++ neighbor_trace
    pub link_command : Ran (run_command "ip" ("-json" ∷ "link" ∷ [])) link_trace links
    pub neighbor_command :
        Ran (run_command "ip" ("-family" ∷ "inet6" ∷ "neighbor" ∷ [])) neighbor_trace neighbors
    pub parsed : Linux.parse_output R links neighbors ≡ ok found

  -- A scan by `iproute2` finds neighbors only so.
  pub scan-LinuxScan :
      {t : Trace os} {found : List IpNeighbor} → Run (Linux.scan R) t (ok found) → LinuxScan t found
  unfolding Linux.scan
  scan-LinuxScan q =
      let a = both _ _ q in
      let b = both _ _ a.rest in
      let d = done_inv b.rest in
      record {
        links = a.value;
        neighbors = b.value;
        link_trace = a.before;
        neighbor_trace = b.before;
        whole =
            a.whole
            ∙ ap (λ u. a.before ++ u) (b.whole ∙ ap (λ u. b.before ++ u) d.0 ∙ append-nil b.before);
        link_command = run-ok "ip" _ (with_error_ok child_process _ a.first);
        neighbor_command = run-ok "ip" _ (with_error_ok child_process _ b.first);
        parsed = d.1;
      }

-- The neighbor that a row of PowerShell gives: none if it is unreachable or its address no valid one.
unfoldable pub net_neighbor_of : NetNeighbor → Option IpNeighbor
net_neighbor_of n =
    if str_eq n.state "Unreachable"
    then none
    else if is_valid_ip n.ip_address
    then some (from_net_neighbor n)
    else none

-- The useful neighbors are, in order, what the rows give.
pub useful-net_neighbor_of :
    (neighbors : List NetNeighbor) → Windows.useful neighbors ≡ filter_map net_neighbor_of neighbors
unfolding Windows.useful filter_map net_neighbor_of
useful-net_neighbor_of [] = refl
useful-net_neighbor_of (n ∷ neighbors) = elim (Bool-cases (str_eq n.state "Unreachable")) [
  | inl lost ↦ rw lost (useful-net_neighbor_of neighbors)
  | inr alive ↦ elim (Bool-cases (is_valid_ip n.ip_address)) [
    | inl valid ↦
        rw (alive, valid) (ap (λ l. from_net_neighbor n ∷ l) (useful-net_neighbor_of neighbors))
    | inr invalid ↦ rw (alive, invalid) (useful-net_neighbor_of neighbors)
  ]
]

module _ (read_neighbors : Bytes → List (Result NetNeighbor CsvError)) where
  -- The script ran in PowerShell with success, and the rows of its output gave the neighbors.
  pub record WindowsScan (t : Trace os) (found : List IpNeighbor) : Type 0 where
    pub output : Bytes
    pub rows : List NetNeighbor
    pub command :
        Evaluated (eval_command "pwsh" ("-Command" ∷ "-" ∷ [])) print_ip_neighbors t output
    pub read : collect_results (read_neighbors output) ≡ ok rows
    pub kept : found ≡ filter_map net_neighbor_of rows

  record ParsedRows (output : Bytes) (found : List IpNeighbor) : Type 0 where
    rows : List NetNeighbor
    read : collect_results (read_neighbors output) ≡ ok rows
    kept : found ≡ filter_map net_neighbor_of rows

  parsed_rows :
      (output : Bytes) (found : List IpNeighbor) (c : Result (List NetNeighbor) CsvError)
      → collect_results (read_neighbors output) ≡ c
      → map_error parse_csv (c and_then λ neighbors. ok (Windows.useful neighbors)) ≡ ok found
      → ParsedRows output found
  parsed_rows output found (ok rows) e p =
      let same : found ≡ Windows.useful rows = cc in
      record { rows = rows; read = e; kept = same ∙ useful-net_neighbor_of rows }
  parsed_rows output found (err x) e p = cc

  -- A scan by PowerShell finds neighbors only so.
  pub scan-WindowsScan :
      {t : Trace os} {found : List IpNeighbor}
      → Run (Windows.scan read_neighbors) t (ok found)
      → WindowsScan t found
  unfolding Windows.scan Windows.parse_output
  scan-WindowsScan {t} {found} q =
      let a = both _ _ q in
      let d = done_inv a.rest in
      let p = parsed_rows a.value found (collect_results (read_neighbors a.value)) refl d.1 in
      record {
        output = a.value;
        rows = p.rows;
        command =
            subst
              (λ u.
                Evaluated (eval_command "pwsh" ("-Command" ∷ "-" ∷ [])) print_ip_neighbors u
                  a.value)
              (sym (a.whole ∙ ap (λ u. a.before ++ u) d.0 ∙ append-nil a.before))
              (eval-ok "pwsh" _ print_ip_neighbors (with_error_ok child_process _ a.first));
        read = p.read;
        kept = p.kept;
      }
