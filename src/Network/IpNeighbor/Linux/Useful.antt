-- ===== src/Network/IpNeighbor/Linux/Useful.antt =====
-- What main/src/network/ip_neighbor/linux.rs keeps of the neighbors of `iproute2`.
use mathlib.Core.List.{filter_map}
use mathlib.Core.Option.{Option-elim}
use Prim.Native.String.{String}
use text.Mathlib.Text.{◌==◌ as str_eq}
use text.Mathlib.TextEquality.{eq_iff}
use tansa.Prelude.{
  ◌≡◌, refl, ap, ◌∙◌, Bool, true, false, not, Option, none, some, List, [], ◌∷◌, ok, err, arith,
  if◌then◌else◌, Bool-cases, inl, inr,
}
use tansa.Protocol.{Bytes}
use tansa.Network.IpNeighbor.Defs.{
  IpNeighbor, is_valid_ip, keep, parse_csv, parse_json, CsvError, JsonError, collect_results,
}
use tansa.Network.IpNeighbor.Linux.{
  Neighbor, Link, Links, insert, get, insert_all, with_index, useful, Readers, parse_output,
}

abbrev pub or_earlier : Option Link → Option Link → Option Link
or_earlier none earlier = earlier
or_earlier (some l) earlier = some l

-- The last link of a name.
abbrev pub last_link : String → List Link → Option Link
last_link k [] = none
last_link k (l ∷ links) =
    or_earlier (last_link k links) (if str_eq l.ifname k then some l else none)

-- The neighbor that a row of the table gives: none if its state is `FAILED`, if its address is no
-- valid one, or if no link has its name; else its address, with the index of the last such link.
unfoldable pub neighbor_of : List Link → Neighbor → Option IpNeighbor
neighbor_of links n =
    if str_eq n.state "FAILED"
    then none
    else if is_valid_ip n.ip
    then with_index n (last_link n.ifname links)
    else none

get-insert :
    (k j : String) (v : Link) (m : Links)
    → get k (insert j v m) ≡ (if str_eq j k then some v else get k m)
unfolding insert get
get-insert k j v [] = refl
get-insert k j v ((i, w) ∷ m) =
    ground (arith, eq_iff i j, eq_iff i k, eq_iff j k, get-insert k j v m)

earlier_if :
    (o : Option Link) (b : Bool) (l : Link) (x : Option Link)
    → or_earlier o (if b then some l else x)
      ≡ or_earlier (or_earlier o (if b then some l else none)) x
earlier_if none true l x = refl
earlier_if none false l x = refl
earlier_if (some o) b l x = refl

get-insert_all :
    (k : String) (links : List Link) (m : Links)
    → get k (insert_all links m) ≡ or_earlier (last_link k links) (get k m)
unfolding insert_all
get-insert_all k [] m = refl
get-insert_all k (l ∷ links) m =
    get-insert_all k links (insert l.ifname l m)
    ∙ ap (or_earlier (last_link k links)) (get-insert k l.ifname l m)
    ∙ earlier_if (last_link k links) (str_eq l.ifname k) l (get k m)

or_earlier-none : (o : Option Link) → or_earlier o none ≡ o
or_earlier-none none = refl
or_earlier-none (some l) = refl

get_last : (k : String) (links : List Link) → get k (insert_all links []) ≡ last_link k links
unfolding get
get_last k links = get-insert_all k links [] ∙ or_earlier-none (last_link k links)

abbrev rows : Links → List Neighbor → List IpNeighbor
rows m neighbors =
    filter_map (λ n. with_index n (get n.ifname m))
      (keep (λ n. is_valid_ip n.ip) (keep (λ n. not (str_eq n.state "FAILED")) neighbors))

rows-neighbor_of :
    (m : Links) (links : List Link)
    → ((k : String) → get k m ≡ last_link k links)
    → (neighbors : List Neighbor) → rows m neighbors ≡ filter_map (neighbor_of links) neighbors
unfolding filter_map neighbor_of
rows-neighbor_of m links e [] = refl
rows-neighbor_of m links e (n ∷ neighbors) = elim (Bool-cases (str_eq n.state "FAILED")) [
  | inl yes_failed ↦ rw yes_failed (rows-neighbor_of m links e neighbors)
  | inr alive ↦ elim (Bool-cases (is_valid_ip n.ip)) [
    | inl valid ↦
        rw (alive, valid, e n.ifname)
          (ap (λ l. Option-elim (with_index n (last_link n.ifname links)) l (λ b. b ∷ l))
            (rows-neighbor_of m links e neighbors))
    | inr invalid ↦ rw (alive, invalid) (rows-neighbor_of m links e neighbors)
  ]
]

-- The filters over the rows and the map of links give, in order, each row that is not FAILED and
-- has a valid address, with the index of the last link of its name, if there is one.
pub useful_lem :
    (neighbors : List Neighbor) (links : List Link)
    → useful neighbors links ≡ filter_map (neighbor_of links) neighbors
unfolding useful
useful_lem neighbors links =
    rows-neighbor_of (insert_all links []) links (λ k. get_last k links) neighbors

module _ (R : Readers) (link_output neighbor_output : Bytes) where
  -- How the two outputs are parsed: an error in the table of neighbors comes first, then one in the
  -- list of links; without errors the rows give the neighbors.
  pub parse_output_lem :
      ((e : CsvError)
        → collect_results (R.read_neighbors neighbor_output) ≡ err e
        → parse_output R link_output neighbor_output ≡ err (parse_csv e))
      × ((rows : List Neighbor) (e : JsonError)
          → collect_results (R.read_neighbors neighbor_output) ≡ ok rows
          → R.read_links link_output ≡ err e
          → parse_output R link_output neighbor_output ≡ err (parse_json e))
      × ((rows : List Neighbor) (links : List Link)
          → collect_results (R.read_neighbors neighbor_output) ≡ ok rows
          → R.read_links link_output ≡ ok links
          → parse_output R link_output neighbor_output ≡ ok (filter_map (neighbor_of links) rows))
  unfolding parse_output
  parse_output_lem = (
    λ e c. rw c,
    λ rows e c j. rw (c, j),
    λ rows links c j. rw (c, j) (ap ok (useful_lem rows links)),
  )
