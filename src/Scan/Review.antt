-- ===== src/Scan/Review.antt =====
-- What a review scan of frontend/src/pages/NetworkScan/NetworkScanPage.tsx leaves on the page.
use iop.Base.{
  ◌≡◌, refl, ap, false, List, [], ◌∷◌, ◌++◌, map, Option, none, some, Text, text, filter, text_eq,
}
use mathlib.Core.Path.{subst}
use iop.Types.Subnet.{SubnetDetail}
use iop.Types.Scan.{ScanMode, ScanResult, DiscoveredHost}
use iop.Api.{resolved}
use iop.Scan.Lookup.{find_subnet_for_ip, LongestMatch, find_subnet_for_ip-LongestMatch}
use iop.Scan.Page.{
  Page, ScanRow, or_text, review_job, row_of, matched_id, matched_cidr, is_matched, key_of,
  all_hosts, settle_scan,
}

-- `value ?? fallback`
abbrev pub given : Option Text → Text → Text
given none fallback = fallback
given (some t) fallback = t

-- The row of a host: it has the host's address as its key and its own data, and it shows the subnet
-- of the longest prefix that contains the host's address, or none.
pub record IsRowOf (subnets : List SubnetDetail) (h : DiscoveredHost) (r : ScanRow) : Type 0 where
  pub address : r.ip_address ≡ h.ip_address
  pub key : r.key ≡ h.ip_address
  pub hostname : r.hostname ≡ given h.hostname []
  pub os_type : r.os_type ≡ given h.os_hint (text "Unknown")
  pub open_ports : r.open_ports ≡ h.open_ports
  pub power_state : r.power_state ≡ h.power_state
  pub place : Option SubnetDetail
  pub longest : LongestMatch h.ip_address subnets place
  pub id : r.subnet_id ≡ matched_id place
  pub cidr : r.subnet_cidr ≡ matched_cidr place

-- One row for each host, in their order.
abbrev pub IsRows : List SubnetDetail → List DiscoveredHost → List ScanRow → Type 0
IsRows subnets [] [] = Unit
IsRows subnets [] (r ∷ rs) = ⊥
IsRows subnets (h ∷ hs) [] = ⊥
IsRows subnets (h ∷ hs) (r ∷ rs) = IsRowOf subnets h r × IsRows subnets hs rs

or_text-given : (o : Option Text) (fallback : Text) → or_text o fallback ≡ given o fallback
or_text-given none fallback = refl
or_text-given (some t) fallback = refl

row_of-IsRowOf :
    (subnets : List SubnetDetail) (h : DiscoveredHost) → IsRowOf subnets h (row_of subnets h)
unfolding row_of
row_of-IsRowOf subnets h = record {
  address = refl;
  key = refl;
  hostname = or_text-given h.hostname [];
  os_type = or_text-given h.os_hint (text "Unknown");
  open_ports = refl;
  power_state = refl;
  place = find_subnet_for_ip h.ip_address subnets;
  longest = find_subnet_for_ip-LongestMatch h.ip_address subnets;
  id = refl;
  cidr = refl;
}

IsRows-map :
    (subnets : List SubnetDetail) (hs : List DiscoveredHost)
    → IsRows subnets hs (map (row_of subnets) hs)
IsRows-map subnets [] = tt
IsRows-map subnets (h ∷ hs) = (row_of-IsRowOf subnets h, IsRows-map subnets hs)

-- The hosts that the responses list, response by response.
unfoldable pub hosts_in : List ScanResult → List DiscoveredHost
hosts_in [] = []
hosts_in (r ∷ rs) = r.discovered ++ hosts_in rs

all_hosts-hosts_in : (rs : List ScanResult) → all_hosts rs ≡ hosts_in rs
unfolding all_hosts hosts_in
all_hosts-hosts_in [] = refl
all_hosts-hosts_in (r ∷ rs) = ap (λ hs. r.discovered ++ hs) (all_hosts-hosts_in rs)

-- The addresses of the rows that have a subnet, in order.
abbrev pub placed_ips : List ScanRow → List Text
placed_ips [] = []
placed_ips (r ∷ rs) = elim (r.subnet_id) [
  | none ↦ placed_ips rs
  | some id ↦ r.ip_address ∷ placed_ips rs
]

placed_ip :
    (o : Option Text) (subnets : List SubnetDetail) (h : DiscoveredHost) (hs : List DiscoveredHost)
    → (row_of subnets h).subnet_id ≡ o
    → map key_of (filter is_matched (map (row_of subnets) hs))
      ≡ placed_ips (map (row_of subnets) hs)
    → map key_of (filter is_matched (map (row_of subnets) (h ∷ hs)))
      ≡ placed_ips (map (row_of subnets) (h ∷ hs))
unfolding row_of
placed_ip none subnets h hs e rest = rw e rest
placed_ip (some id) subnets h hs e rest = rw e (ap (λ ks. h.ip_address ∷ ks) rest)

keys-placed_ips :
    (subnets : List SubnetDetail) (hs : List DiscoveredHost)
    → map key_of (filter is_matched (map (row_of subnets) hs))
      ≡ placed_ips (map (row_of subnets) hs)
keys-placed_ips subnets [] = refl
keys-placed_ips subnets (h ∷ hs) =
    placed_ip (row_of subnets h).subnet_id subnets h hs refl (keys-placed_ips subnets hs)

-- When every scan of a review has answered, the page shows one row for each host found, in the
-- order of the responses: it is keyed by the host's address, has the host's own data, and stands
-- under the most specific listed subnet that contains this address, or under none. The addresses of
-- the rows that have a subnet are selected; the scan is over and its progress timer is stopped.
pub settle_scan-review :
    (cidrs : List Text) (mode : ScanMode) (subnets : List SubnetDetail) (rs : List ScanResult)
    (p : Page)
    → let p' = settle_scan (review_job cidrs mode subnets) (resolved rs) p in
      IsRows subnets (hosts_in rs) p'.rows
      × (p'.selected_keys ≡ placed_ips p'.rows)
      × (p'.scanning ≡ false)
      × (p'.timer ≡ none)
unfolding settle_scan
settle_scan-review cidrs mode subnets rs p = (
  subst (λ hs. IsRows subnets hs (map (row_of subnets) (all_hosts rs))) (all_hosts-hosts_in rs)
      (IsRows-map subnets (all_hosts rs)),
  keys-placed_ips subnets (all_hosts rs),
  refl,
  refl,
)
