-- ===== src/Network/IpNeighbor/Selected.antt =====
-- Which scanner `ip_neighbor_scanner` of main/src/network/ip_neighbor/mod.rs chooses.
use mathlib.Core.Path.{fun_ext}
use mathlib.Core.List.{append-nil}
use tansa.Prelude.{
  ◌≡◌, refl, sym, ap, subst, ◌∙◌, Bool, true, false, Option, List, [], ◌∷◌, ◌++◌, Result,
}
use tansa.Async.{Signature, Async, done, call, ◌>>=◌}
use tansa.Async.Runs.{Trace, Run, mapped, split, done_inv}
use tansa.Async.Stream.{Stream, wait_for}
use tansa.Async.Futures.{FuturesUtil, IsLawful, first_item, list_stream, keep_if}
use tansa.Network.IpNeighbor.Linux.{Readers}
use tansa.Network.IpNeighbor.Windows.{NetNeighbor}
use tansa.Protocol.{Bytes}
use tansa.Os.{os}
use tansa.Network.IpNeighbor.Defs.{CsvError, IpNeighborScanner, dummy_scanner}
use tansa.Network.IpNeighbor.Select.{scanners, first_supported, ip_neighbor_scanner, or_dummy}

module _ {S : Signature} where
  -- The scanners in front of the chosen one were asked, in order, and do not support this system;
  -- the chosen one does. If none does, the dummy is chosen. Those behind it are not asked.
  pub data Chosen : List (IpNeighborScanner S) → Trace S → IpNeighborScanner S → Type 0 where
    none_left : Chosen [] [] dummy_scanner
    this_one :
        (s : IpNeighborScanner S) (rest : List (IpNeighborScanner S)) (t : Trace S)
        → Run s.supports_current_operating_system t true
        → Chosen (s ∷ rest) t s
    not_this_one :
        (s chosen : IpNeighborScanner S) (rest : List (IpNeighborScanner S)) (t t₁ t₂ : Trace S)
        → t ≡ t₁ ++ t₂
        → Run s.supports_current_operating_system t₁ false
        → Chosen rest t₂ chosen
        → Chosen (s ∷ rest) t chosen

  first_item-wait_for :
      {A B : Type 0} (m : Async S A) (f : A → Stream S B)
      → first_item (wait_for m f) ≡ (m >>= λ a. first_item (f a))
  first_item-wait_for (done a) f = refl
  first_item-wait_for (call c k) f = ap (call c) (fun_ext (λ r. first_item-wait_for (k r) f))

module _ {S : Signature} (F : FuturesUtil S) (L : IsLawful F) where
  abbrev asks : IpNeighborScanner S → Async S Bool
  asks s = s.supports_current_operating_system

  abbrev search_all : List (IpNeighborScanner S) → Async S (Option (IpNeighborScanner S))
  search_all scanners = first_item (F.filter asks (list_stream scanners))

  -- The run of the search, with its outcome `o`.
  decided :
      (s : IpNeighborScanner S) (rest : List (IpNeighborScanner S)) (t t₁ t₂ : Trace S) (b : Bool)
      (o : Option (IpNeighborScanner S))
      → t ≡ t₁ ++ t₂
      → Run (asks s) t₁ b
      → ((u : Trace S) → Run (search_all rest) u o → Chosen rest u (or_dummy o))
      → Run (first_item (keep_if s (F.filter asks (list_stream rest)) b)) t₂ o
      → Chosen (s ∷ rest) t (or_dummy o)
  decided s rest t t₁ t₂ true o whole asked ih q =
      let d = done_inv q in
      subst (λ x. Chosen (s ∷ rest) t (or_dummy x)) d.1
        (this_one s rest t (
          subst (λ u. Run (asks s) u true) (sym (whole ∙ ap (λ u. t₁ ++ u) d.0 ∙ append-nil t₁))
            asked))
  decided s rest t t₁ t₂ false o whole asked ih q =
      not_this_one s (or_dummy o) rest t t₁ t₂ whole asked (ih t₂ q)

  searched :
      (scanners : List (IpNeighborScanner S)) (t : Trace S) (o : Option (IpNeighborScanner S))
      → Run (search_all scanners) t o
      → Chosen scanners t (or_dummy o)
  searched [] t o q =
      let d = done_inv (subst (λ s. Run (first_item s) t o) (L.filter_finished asks) q) in
      subst (λ x. Chosen [] t (or_dummy x)) d.1
        (subst (λ u. Chosen [] u dummy_scanner) (sym d.0) none_left)
  searched (s ∷ rest) t o q =
      let w = split (asks s) _ (
        subst (λ m. Run m t o)
          (first_item-wait_for (asks s) (keep_if s (F.filter asks (list_stream rest))))
          (subst (λ u. Run (first_item u) t o) (L.filter_yields asks s (list_stream rest)) q)) in
      decided s rest t w.before w.after w.value o w.whole w.first (λ u. searched rest u o) w.rest

  -- The first supported scanner is chosen.
  pub first_supported-Chosen :
      (scanners : List (IpNeighborScanner S)) (t : Trace S) (chosen : IpNeighborScanner S)
      → Run (first_supported F scanners) t chosen
      → Chosen scanners t chosen
  unfolding first_supported
  first_supported-Chosen scanners t chosen q =
      let w = mapped (F.next (F.filter asks (F.iter scanners))) or_dummy q in
      let run =
        subst (λ s. Run (first_item (F.filter asks s)) t w.value) (L.iter_lem scanners)
          (subst (λ m. Run m t w.value) (L.next_lem (F.filter asks (F.iter scanners))) w.inner) in
      subst (Chosen scanners t) (sym w.mapped) (searched scanners t w.value run)

module _ (F : FuturesUtil os) (L : IsLawful F) where
  -- Of the scanners of PowerShell and of `iproute2`, in this order, the first that supports the
  -- system is chosen and those behind it are not asked. Without one the dummy is chosen.
  pub ip_neighbor_scanner-Chosen :
      (read_power_shell : Bytes → List (Result NetNeighbor CsvError)) (read_ip_route2 : Readers)
      (t : Trace os) (chosen : IpNeighborScanner os)
      → Run (ip_neighbor_scanner F read_power_shell read_ip_route2) t chosen
      → Chosen (scanners read_power_shell read_ip_route2) t chosen
  unfolding ip_neighbor_scanner
  ip_neighbor_scanner-Chosen read_power_shell read_ip_route2 t chosen q =
      first_supported-Chosen F L (scanners read_power_shell read_ip_route2) t chosen q
