-- ===== src/Network/IpNeighbor/Robust.antt =====
-- On a system that works, where their commands print what can be parsed, the scans for neighbors of
-- main/src/network/ip_neighbor do not fail.
use tansa.Prelude.{◌≡◌, refl, ◌and_then◌, List, [], ◌∷◌, Result, ok, err, map_error}
use tansa.Async.{done}
use tansa.Async.Runs.{Trace, done_inv}
use tansa.Async.Try.{with_error_ok}
use tansa.Async.Execute.{IsRobust, then-IsRobust, with_error-IsRobust}
use tansa.Protocol.{Bytes}
use tansa.Process.Outcomes.{run_command, run-ok, eval_command, eval-ok}
use tansa.Process.Robust.{run-IsRobust, eval-IsRobust, Ran-fits, Evaluated-fits}
use tansa.Network.IpNeighbor.Defs.{
  IpNeighbor, IpNeighborScanner, CsvError, JsonError, child_process, parse_csv, parse_json,
  collect_results,
}
use tansa.Network.IpNeighbor.Linux
use tansa.Network.IpNeighbor.Linux.{Readers, ip_route2_scanner}
use tansa.Network.IpNeighbor.Windows
use tansa.Network.IpNeighbor.Windows.{NetNeighbor, print_ip_neighbors, power_shell_scanner}
use tansa.Network.IpNeighbor.Select.{scanners}
use tansa.Network.IpNeighbor.Selected.{Chosen, none_left, this_one, not_this_one}
use tansa.Os.{os, Command, Handle}
use tansa.Os.Works.{Outputs, Works, IsOk}

-- What the scanners need of the output of a command, if it is one of theirs: that the crates can
-- parse it. Of any other output it says nothing.
pub record IsParsable (read : Bytes → List (Result NetNeighbor CsvError)) (R : Readers)
    (command : Command) (output : Bytes) : Type 0 where
  pub ip_link : command ≡ run_command "ip" ("-json" ∷ "link" ∷ []) → IsOk (R.read_links output)
  pub ip_neighbor :
      command ≡ run_command "ip" ("-family" ∷ "inet6" ∷ "neighbor" ∷ [])
      → IsOk (collect_results (R.read_neighbors output))
  pub power_shell :
      command ≡ eval_command "pwsh" ("-Command" ∷ "-" ∷ []) → IsOk (collect_results (read output))

-- Processes that print such outputs.
abbrev pub parsable :
    (Bytes → List (Result NetNeighbor CsvError)) → Readers → (Handle → Bytes) → Outputs
parsable read R prints = record { prints = prints; fits = IsParsable read R }

done-IsRobust : (W : Outputs) {A E : Type 0} (r : Result A E) → IsOk r → IsRobust (Works W) (done r)
done-IsRobust W (ok a) h t e g q = cc ((done_inv q).1)
done-IsRobust W (err x) h t e g q = h

map_error-IsOk : {A E F : Type 0} (into : E → F) (r : Result A E) → IsOk r → IsOk (map_error into r)
map_error-IsOk into (ok a) h = h
map_error-IsOk into (err e) h = h

neighbors_parsed :
    {N L : Type 0} (c : Result (List N) CsvError) (l : Result (List L) JsonError)
    (found : List N → List L → List IpNeighbor)
    → IsOk c
    → IsOk l
    → IsOk (
        map_error parse_csv c and_then λ rows.
        map_error parse_json l and_then λ links. ok (found rows links))
neighbors_parsed (ok rows) (ok links) found p q = tt
neighbors_parsed (ok rows) (err e) found p q = q
neighbors_parsed (err e) l found p q = p

rows_parsed :
    {N E : Type 0} (c : Result (List N) E) (found : List N → List IpNeighbor)
    → IsOk c
    → IsOk (c and_then λ rows. ok (found rows))
rows_parsed (ok rows) found p = tt
rows_parsed (err e) found p = p

module _ (read : Bytes → List (Result NetNeighbor CsvError)) (R : Readers)
    (prints : Handle → Bytes) where
  abbrev W : Outputs
  W = parsable read R prints

  ip_route2-IsRobust : IsRobust (Works W) (ip_route2_scanner R).scan
  unfolding ip_route2_scanner Linux.scan Linux.parse_output
  ip_route2-IsRobust =
      then-IsRobust (Works W) _ _
        (with_error-IsRobust (Works W) child_process _
          (run-IsRobust W "ip" ("-json" ∷ "link" ∷ [])))
        (λ links t q g.
          then-IsRobust (Works W) _ _
            (with_error-IsRobust (Works W) child_process _
              (run-IsRobust W "ip" ("-family" ∷ "inet6" ∷ "neighbor" ∷ [])))
            (λ neighbors u s h. done-IsRobust W _ (
              neighbors_parsed _ _ Linux.useful
                ((Ran-fits W (run-ok "ip" _ (with_error_ok child_process _ s)) h).ip_neighbor refl)
                ((Ran-fits W (run-ok "ip" _ (with_error_ok child_process _ q)) g).ip_link refl))))

  power_shell-IsRobust : IsRobust (Works W) (power_shell_scanner read).scan
  unfolding power_shell_scanner Windows.scan Windows.parse_output
  power_shell-IsRobust =
      then-IsRobust (Works W) _ _
        (with_error-IsRobust (Works W) child_process _
          (eval-IsRobust W "pwsh" ("-Command" ∷ "-" ∷ []) print_ip_neighbors))
        (λ output t q g. done-IsRobust W _ (
          map_error-IsOk parse_csv _ (
            rows_parsed (collect_results (read output)) Windows.useful (
              (Evaluated-fits W (eval-ok "pwsh" _ _ (with_error_ok child_process _ q))
                  g).power_shell
                refl))))

data AllRobustScans (W : Outputs) : List (IpNeighborScanner os) → Type 0 where
  no_scanner : AllRobustScans W []
  robust_scan :
      {s : IpNeighborScanner os} {l : List (IpNeighborScanner os)}
      → IsRobust (Works W) s.scan
      → AllRobustScans W l
      → AllRobustScans W (s ∷ l)

IsRobust-of :
    (W : Outputs) {l : List (IpNeighborScanner os)} {t : Trace os} {s : IpNeighborScanner os}
    → AllRobustScans W l
    → Chosen l t s
    → IsRobust (Works W) s.scan
IsRobust-of W no_scanner none_left = done-IsRobust W (ok []) tt
IsRobust-of W (robust_scan r rs) (this_one _ _ _ asked) = r
IsRobust-of W (robust_scan r rs) (not_this_one _ _ _ _ _ _ _ _ c) = IsRobust-of W rs c

-- Whichever scanner is chosen, its scan does not fail then.
pub Chosen-IsRobust :
    (read : Bytes → List (Result NetNeighbor CsvError)) (R : Readers) (prints : Handle → Bytes)
    {t : Trace os} {s : IpNeighborScanner os}
    → Chosen (scanners read R) t s
    → IsRobust (Works (parsable read R prints)) s.scan
Chosen-IsRobust read R prints c =
    IsRobust-of (parsable read R prints)
      (robust_scan (power_shell-IsRobust read R prints)
        (robust_scan (ip_route2-IsRobust read R prints) no_scanner))
      c
