-- ===== src/Network/IpNeighbor/Failures.antt =====
-- How the scans for neighbors of main/src/network/ip_neighbor/linux.rs and windows.rs fail.
use mathlib.Core.List.{append-nil}
use tansa.Prelude.{
  ◌≡◌, refl, sym, ap, subst, ◌∙◌, List, [], ◌∷◌, ◌++◌, Result, ok, err, map_error, ◌and_then◌,
}
use tansa.Async.{Async, done}
use tansa.Async.Runs.{Trace, Run, done_inv}
use tansa.Async.Try.{with_error, tried, Tried, failed, passed, with_error_ok, with_error_err, ◌>>=◌}
use tansa.Process.{run, eval, ProcessError}
use tansa.Process.Outcomes.{Ran, run_command, run-ok, Evaluated, eval_command, eval-ok}
use tansa.Process.Failures.{RunFails, run-err, EvalFails, eval-err}
use tansa.Protocol.{Bytes}
use tansa.Os.{os}
use tansa.Network.IpNeighbor.Defs.{
  IpNeighbor, CsvError, JsonError, IpNeighborScanError, child_process, parse_csv, parse_json,
  collect_results,
}
use tansa.Network.IpNeighbor.Scans.{LinuxScan, scan-LinuxScan, WindowsScan, scan-WindowsScan}
use tansa.Network.IpNeighbor.Linux
use tansa.Network.IpNeighbor.Linux.{Readers, Neighbor}
use tansa.Network.IpNeighbor.Windows
use tansa.Network.IpNeighbor.Windows.{NetNeighbor, print_ip_neighbors}

module _ (R : Readers) where
  -- The error of a row of the table, the first one; or, if all rows can be read, of the list of links.
  pub data ParseFails (links neighbors : Bytes) (e : IpNeighborScanError) : Type 0 where
    csv :
        (x : CsvError)
        → e ≡ parse_csv x
        → collect_results (R.read_neighbors neighbors) ≡ err x
        → ParseFails links neighbors e
    json :
        (rows : List Neighbor) (x : JsonError)
        → e ≡ parse_json x
        → collect_results (R.read_neighbors neighbors) ≡ ok rows
        → R.read_links links ≡ err x
        → ParseFails links neighbors e

  -- `ip link` failed, and `ip neighbor` was not run; or `ip neighbor` failed after it; or both ran
  -- with success and their outputs could not be parsed.
  pub data LinuxFails (t : Trace os) (e : IpNeighborScanError) : Type 0 where
    link_failed :
        (x : ProcessError)
        → e ≡ child_process x
        → RunFails (run_command "ip" ("-json" ∷ "link" ∷ [])) t x
        → LinuxFails t e
    neighbor_failed :
        (links : Bytes) (t₁ t₂ : Trace os) (x : ProcessError)
        → e ≡ child_process x
        → t ≡ t₁ ++ t₂
        → Ran (run_command "ip" ("-json" ∷ "link" ∷ [])) t₁ links
        → RunFails (run_command "ip" ("-family" ∷ "inet6" ∷ "neighbor" ∷ [])) t₂ x
        → LinuxFails t e
    not_parsed :
        (links neighbors : Bytes) (t₁ t₂ : Trace os)
        → t ≡ t₁ ++ t₂
        → Ran (run_command "ip" ("-json" ∷ "link" ∷ [])) t₁ links
        → Ran (run_command "ip" ("-family" ∷ "inet6" ∷ "neighbor" ∷ [])) t₂ neighbors
        → ParseFails links neighbors e
        → LinuxFails t e

  json_fails :
      (links neighbors : Bytes) (rows : List Neighbor) (e : IpNeighborScanError)
      (l : Result (List Linux.Link) JsonError)
      → collect_results (R.read_neighbors neighbors) ≡ ok rows
      → R.read_links links ≡ l
      → (map_error parse_json l and_then λ m. ok (Linux.useful rows m)) ≡ err e
      → ParseFails links neighbors e
  json_fails links neighbors rows e (ok m) c j h = cc
  json_fails links neighbors rows e (err x) c j h =
      let same : e ≡ parse_json x = cc in json rows x same c j

  parse_fails :
      (links neighbors : Bytes) (e : IpNeighborScanError) (c : Result (List Neighbor) CsvError)
      → collect_results (R.read_neighbors neighbors) ≡ c
      → (map_error parse_csv c and_then λ rows.
          map_error parse_json (R.read_links links) and_then λ l. ok (Linux.useful rows l))
        ≡ err e
      → ParseFails links neighbors e
  parse_fails links neighbors e (ok rows) p h =
      json_fails links neighbors rows e (R.read_links links) p refl h
  parse_fails links neighbors e (err x) p h = let same : e ≡ parse_csv x = cc in csv x same p

  abbrev linked : Async os (Result Bytes IpNeighborScanError)
  linked = with_error child_process (run "ip" ("-json" ∷ "link" ∷ []))

  abbrev neighbored : Async os (Result Bytes IpNeighborScanError)
  neighbored = with_error child_process (run "ip" ("-family" ∷ "inet6" ∷ "neighbor" ∷ []))

  neighbors_fail :
      (links : Bytes) (t t₁ rest : Trace os) (e : IpNeighborScanError)
      → t ≡ t₁ ++ rest
      → Ran (run_command "ip" ("-json" ∷ "link" ∷ [])) t₁ links
      → Tried neighbored (λ neighbors. done (Linux.parse_output R links neighbors)) rest (err e)
      → LinuxFails t e
  unfolding Linux.parse_output
  neighbors_fail links t t₁ rest e whole ran (failed y is q) =
      let (x, is_x, run) = with_error_err child_process _ q in
      let same : e ≡ child_process x = cc in
      neighbor_failed links t₁ rest x same whole ran (run-err "ip" _ run)
  neighbors_fail links t t₁ rest e whole ran (passed neighbors u₁ u₂ split q s) =
      let d = done_inv s in
      not_parsed links neighbors t₁ u₁
        (whole ∙ ap (λ u. t₁ ++ u) (split ∙ ap (λ u. u₁ ++ u) d.0 ∙ append-nil u₁)) ran
        (run-ok "ip" _ (with_error_ok child_process _ q))
        (parse_fails links neighbors e (collect_results (R.read_neighbors neighbors)) refl d.1)

  links_fail :
      (t : Trace os) (e : IpNeighborScanError)
      → Tried linked
          (λ links. neighbored >>= λ neighbors. done (Linux.parse_output R links neighbors))
          t
          (err e)
      → LinuxFails t e
  links_fail t e (failed y is q) =
      let (x, is_x, run) = with_error_err child_process _ q in
      let same : e ≡ child_process x = cc in link_failed x same (run-err "ip" _ run)
  links_fail t e (passed links t₁ t₂ split q s) =
      neighbors_fail links t t₁ t₂ e split (run-ok "ip" _ (with_error_ok child_process _ q))
        (tried _ _ s)

  -- A scan by `iproute2` that returns an error failed in one of these ways.
  pub scan-LinuxFails :
      {t : Trace os} {e : IpNeighborScanError} → Run (Linux.scan R) t (err e) → LinuxFails t e
  unfolding Linux.scan
  scan-LinuxFails {t} {e} q = links_fail t e (tried _ _ q)

module _ (read : Bytes → List (Result NetNeighbor CsvError)) where
  -- PowerShell failed; or it ended with success, and a row of its output could not be read.
  pub data WindowsFails (t : Trace os) (e : IpNeighborScanError) : Type 0 where
    shell_failed :
        (x : ProcessError)
        → e ≡ child_process x
        → EvalFails (eval_command "pwsh" ("-Command" ∷ "-" ∷ [])) print_ip_neighbors t x
        → WindowsFails t e
    not_read :
        (output : Bytes) (x : CsvError)
        → e ≡ parse_csv x
        → Evaluated (eval_command "pwsh" ("-Command" ∷ "-" ∷ [])) print_ip_neighbors t output
        → collect_results (read output) ≡ err x
        → WindowsFails t e

  rows_fail :
      (output : Bytes) (t : Trace os) (e : IpNeighborScanError)
      (c : Result (List NetNeighbor) CsvError)
      → collect_results (read output) ≡ c
      → Evaluated (eval_command "pwsh" ("-Command" ∷ "-" ∷ [])) print_ip_neighbors t output
      → map_error parse_csv (c and_then λ neighbors. ok (Windows.useful neighbors)) ≡ err e
      → WindowsFails t e
  rows_fail output t e (ok rows) p ran h = cc
  rows_fail output t e (err x) p ran h =
      let same : e ≡ parse_csv x = cc in not_read output x same ran p

  shell_fails :
      (t : Trace os) (e : IpNeighborScanError)
      → Tried
          (with_error child_process (eval "pwsh" ("-Command" ∷ "-" ∷ []) print_ip_neighbors))
          (λ output. done (map_error parse_csv (Windows.parse_output read output)))
          t
          (err e)
      → WindowsFails t e
  unfolding Windows.parse_output
  shell_fails t e (failed y is q) =
      let (x, is_x, run) = with_error_err child_process _ q in
      let same : e ≡ child_process x = cc in
      shell_failed x same (eval-err "pwsh" _ print_ip_neighbors run)
  shell_fails t e (passed output t₁ t₂ split q s) =
      let d = done_inv s in
      let same : t₁ ≡ t = sym (split ∙ ap (λ u. t₁ ++ u) d.0 ∙ append-nil t₁) in
      rows_fail output t e (collect_results (read output)) refl
        (subst
          (λ u. Evaluated (eval_command "pwsh" ("-Command" ∷ "-" ∷ [])) print_ip_neighbors u output)
          same (eval-ok "pwsh" _ print_ip_neighbors (with_error_ok child_process _ q)))
        d.1

  -- A scan by PowerShell that returns an error failed in one of these ways.
  pub scan-WindowsFails :
      {t : Trace os} {e : IpNeighborScanError}
      → Run (Windows.scan read) t (err e)
      → WindowsFails t e
  unfolding Windows.scan
  scan-WindowsFails {t} {e} q = shell_fails t e (tried _ _ q)

-- The two ends of a scan by `iproute2`.
abbrev pub LinuxEnds : Readers → Trace os → Result (List IpNeighbor) IpNeighborScanError → Type 0
LinuxEnds R t (ok found) = LinuxScan R t found
LinuxEnds R t (err e) = LinuxFails R t e

-- Every scan by `iproute2` ends in one of these ways: both commands ran with success, one after the
-- other, and the neighbors are what their outputs are parsed to; or the first step that failed gives
-- the error, and none was made after it.
pub scan-LinuxEnds :
    (R : Readers) {t : Trace os} (r : Result (List IpNeighbor) IpNeighborScanError)
    → Run (Linux.scan R) t r
    → LinuxEnds R t r
scan-LinuxEnds R (ok found) q = scan-LinuxScan R q
scan-LinuxEnds R (err e) q = scan-LinuxFails R q

-- The two ends of a scan by PowerShell.
abbrev pub WindowsEnds :
    (Bytes → List (Result NetNeighbor CsvError))
    → Trace os
    → Result (List IpNeighbor) IpNeighborScanError
    → Type 0
WindowsEnds read t (ok found) = WindowsScan read t found
WindowsEnds read t (err e) = WindowsFails read t e

-- Every scan by PowerShell ends in one of these ways: the script was fed to it and it ended with
-- success, and the neighbors are what the rows of its output give; or it failed; or a row could not
-- be read.
pub scan-WindowsEnds :
    (read : Bytes → List (Result NetNeighbor CsvError)) {t : Trace os}
    (r : Result (List IpNeighbor) IpNeighborScanError)
    → Run (Windows.scan read) t r
    → WindowsEnds read t r
scan-WindowsEnds read (ok found) q = scan-WindowsScan read q
scan-WindowsEnds read (err e) q = scan-WindowsFails read q
