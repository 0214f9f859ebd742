-- ===== src/Integrations/PaloAlto/Rows.antt =====
-- The rows that `buildRows` of frontend/src/pages/Integrations/PaloAltoImportDrawer.tsx makes.
use mathlib.Core.List.{append_assoc, append-nil}
use mathlib.Core.Path.{subst}
use iop.Base.{
  ◌≡◌, refl, sym, ap, ap₂, ◌∙◌, inl, inr, true, false, not, List, [], ◌∷◌, ◌++◌, map, Text, text,
  text_eq, ◌==◌, includes, Distinct, dedup_from, dedup, filter, arith, Bool-cases, All, All-append,
  Distinct-dedup,
}
use iop.Text.Search.{is_empty}
use iop.Types.PaloAlto.{PaloAltoDiscoverResult}
use iop.Integrations.PaloAlto.{
  RowSource, address, interface, arp, SelectionRow, extract_ip_from_netmask, or_blank, address_row,
  interface_row, arp_row, push_rows, build_rows,
}

abbrev pub ip_of : SelectionRow → Text
ip_of r = r.ip_address

abbrev pub key_of : SelectionRow → Text
key_of r = r.key

-- The addresses that are not missing.
abbrev pub named : List Text → List Text
named ips = filter (λ ip. not (is_empty ip)) ips

-- The loops of `buildRows` one after the other are one loop.
push_rows-append :
    (xs ys : List SelectionRow) (seen : List Text) (out : List SelectionRow)
    → push_rows ys (push_rows xs (seen, out)) ≡ push_rows (xs ++ ys) (seen, out)
unfolding push_rows
push_rows-append [] ys seen out = refl
push_rows-append (r ∷ xs) ys seen out = elim (Bool-cases (is_empty r.ip_address)) [
  | inl missing ↦ rw missing (push_rows-append xs ys seen out)
  | inr there ↦ rw there (elim (Bool-cases (includes seen r.ip_address)) [
    | inl old ↦ rw old (push_rows-append xs ys seen out)
    | inr new ↦ rw new (push_rows-append xs ys (r.ip_address ∷ seen) (out ++ r ∷ []))
  ])
]

map-append {ℓ κ} :
    {A : Type ℓ} {B : Type κ} (f : A → B) (xs ys : List A) → map f (xs ++ ys) ≡ map f xs ++ map f ys
map-append f [] ys = refl
map-append f (x ∷ xs) ys = ap (λ r. f x ∷ r) (map-append f xs ys)

push_rows-dedup_from :
    (rs : List SelectionRow) (seen : List Text) (out : List SelectionRow)
    → map ip_of (push_rows rs (seen, out)).1
      ≡ map ip_of out ++ dedup_from seen (named (map ip_of rs))
unfolding push_rows dedup_from
push_rows-dedup_from [] seen out = sym (append-nil (map ip_of out))
push_rows-dedup_from (r ∷ rs) seen out = elim (Bool-cases (is_empty r.ip_address)) [
  | inl missing ↦ rw missing (push_rows-dedup_from rs seen out)
  | inr there ↦ rw there (elim (Bool-cases (includes seen r.ip_address)) [
    | inl old ↦ rw old (push_rows-dedup_from rs seen out)
    | inr new ↦ rw new (
        push_rows-dedup_from rs (r.ip_address ∷ seen) (out ++ r ∷ [])
        ∙ ap (λ (ips : List Text). ips ++ dedup_from (r.ip_address ∷ seen) (named (map ip_of rs)))
            (map-append ip_of out (r ∷ []))
        ∙ append_assoc (map ip_of out) (r.ip_address ∷ []) _)
  ])
]

-- The key that a row has.
abbrev keyed : RowSource → Text → Text
keyed address ip = text "addr-" ++ ip
keyed interface ip = text "iface-" ++ ip
keyed arp ip = text "arp-" ++ ip

abbrev IsKeyed : SelectionRow → Type 0
IsKeyed r = r.key ≡ keyed r.source r.ip_address

keyed_same : (a b : RowSource) (x y : Text) → (keyed a x == keyed b y) ≡ true → (x == y) ≡ true
keyed_same address address x y h = h
keyed_same interface interface x y h = h
keyed_same arp arp x y h = h
keyed_same address interface x y h = absurd (ground arith)
keyed_same address arp x y h = absurd (ground arith)
keyed_same interface address x y h = absurd (ground arith)
keyed_same interface arp x y h = absurd (ground arith)
keyed_same arp address x y h = absurd (ground arith)
keyed_same arp interface x y h = absurd (ground arith)

key_same :
    (r s : SelectionRow)
    → IsKeyed r
    → IsKeyed s
    → (r.key == s.key) ≡ true
    → (r.ip_address == s.ip_address) ≡ true
key_same r s kr ks h =
    keyed_same r.source s.source r.ip_address s.ip_address
      (ap₂ (λ (x y : Text). x == y) (sym kr) (sym ks) ∙ h)

includes-key :
    (rs : List SelectionRow) (r : SelectionRow)
    → IsKeyed r
    → All IsKeyed rs
    → includes (map ip_of rs) r.ip_address ≡ false
    → includes (map key_of rs) r.key ≡ false
includes-key [] r kr h new = refl
includes-key (s ∷ rs) r kr h new = elim (Bool-cases (s.key == r.key)) [
  | inl same ↦ absurd (ground (arith, key_same s r h.0 kr same))
  | inr other ↦ ground (arith, includes-key rs r kr h.1)
]

Distinct-key :
    (rs : List SelectionRow) → All IsKeyed rs → Distinct (map ip_of rs) → Distinct (map key_of rs)
Distinct-key [] h d = tt
Distinct-key (r ∷ rs) h d = (includes-key rs r h.0 h.1 d.0, Distinct-key rs h.1 d.1)

push_rows-IsKeyed :
    (rs : List SelectionRow) (seen : List Text) (out : List SelectionRow)
    → All IsKeyed rs
    → All IsKeyed out
    → All IsKeyed (push_rows rs (seen, out)).1
unfolding push_rows
push_rows-IsKeyed [] seen out h k = k
push_rows-IsKeyed (r ∷ rs) seen out h k = elim (Bool-cases (is_empty r.ip_address)) [
  | inl missing ↦ rw missing (push_rows-IsKeyed rs seen out h.1 k)
  | inr there ↦ rw there (elim (Bool-cases (includes seen r.ip_address)) [
    | inl old ↦ rw old (push_rows-IsKeyed rs seen out h.1 k)
    | inr new ↦ rw new (
        push_rows-IsKeyed rs (r.ip_address ∷ seen) (out ++ r ∷ []) h.1
          (All-append IsKeyed out (r ∷ []) k (h.0, tt)))
  ])
]

All-map-IsKeyed {ℓ} :
    {A : Type ℓ} (f : A → SelectionRow) (xs : List A)
    → ((x : A) → IsKeyed (f x))
    → All IsKeyed (map f xs)
All-map-IsKeyed f [] h = tt
All-map-IsKeyed f (x ∷ xs) h = (h x, All-map-IsKeyed f xs h)

-- All rows of a discovery, in the order of the loops.
abbrev all_rows : PaloAltoDiscoverResult → List SelectionRow
all_rows res =
    (map address_row res.addresses ++ map interface_row res.interfaces)
    ++ map arp_row res.arp_entries

-- The addresses of a discovery, in the order of the loops: those of the named objects, of the
-- interfaces and of the ARP tables.
abbrev pub discovered_ips : PaloAltoDiscoverResult → List Text
discovered_ips res =
    (map (λ a. extract_ip_from_netmask a.ip_netmask) res.addresses
      ++ map (λ i. or_blank i.ip_address) res.interfaces)
    ++ map (λ a. a.ip) res.arp_entries

map-map {ℓ} :
    {A : Type ℓ} (f : A → SelectionRow) (xs : List A)
    → map ip_of (map f xs) ≡ map (λ x. ip_of (f x)) xs
map-map f [] = refl
map-map f (x ∷ xs) = ap (λ (r : List Text). ip_of (f x) ∷ r) (map-map f xs)

all_rows-ips : (res : PaloAltoDiscoverResult) → map ip_of (all_rows res) ≡ discovered_ips res
all_rows-ips res =
    map-append ip_of (map address_row res.addresses ++ map interface_row res.interfaces) _
    ∙ ap₂ (λ (x y : List Text). x ++ y)
        (map-append ip_of (map address_row res.addresses) _
          ∙ ap₂ (λ (x y : List Text). x ++ y) (map-map address_row res.addresses)
              (map-map interface_row res.interfaces))
        (map-map arp_row res.arp_entries)

build_rows-all_rows :
    (res : PaloAltoDiscoverResult) → build_rows res ≡ (push_rows (all_rows res) ([], [])).1
unfolding build_rows
build_rows-all_rows res =
    ap (λ (p : List Text × List SelectionRow). (push_rows (map arp_row res.arp_entries) p).1)
      (push_rows-append (map address_row res.addresses) (map interface_row res.interfaces) [] [])
    ∙ ap (λ (p : List Text × List SelectionRow). p.1)
        (push_rows-append (map address_row res.addresses ++ map interface_row res.interfaces)
          (map arp_row res.arp_entries) [] [])

all_rows-IsKeyed : (res : PaloAltoDiscoverResult) → All IsKeyed (all_rows res)
all_rows-IsKeyed res =
    All-append IsKeyed (map address_row res.addresses ++ map interface_row res.interfaces) _
      (All-append IsKeyed (map address_row res.addresses) _
        (All-map-IsKeyed address_row res.addresses (λ a. refl))
        (All-map-IsKeyed interface_row res.interfaces (λ i. refl)))
      (All-map-IsKeyed arp_row res.arp_entries (λ a. refl))

-- The rows list each address that the firewalls know, whether from a named object, an interface or
-- an ARP table, exactly once, in the order in which they are first found, and leave out those that
-- are missing; and no two rows have the same key.
pub build_rows_lem :
    (res : PaloAltoDiscoverResult)
    → (map ip_of (build_rows res) ≡ dedup (named (discovered_ips res)))
      × Distinct (map key_of (build_rows res))
unfolding dedup
build_rows_lem res =
    let rs = all_rows res in
    let one = build_rows-all_rows res in
    let ips : map ip_of (build_rows res) ≡ dedup (named (discovered_ips res)) =
      ap (λ (r : List SelectionRow). map ip_of r) one
      ∙ push_rows-dedup_from rs [] []
      ∙ ap (λ (r : List Text). dedup_from [] (named r)) (all_rows-ips res) in
    (
      ips,
      rw one (
          Distinct-key (push_rows rs ([], [])).1
            (push_rows-IsKeyed rs [] [] (all_rows-IsKeyed res) tt)
            (subst Distinct (sym (push_rows-dedup_from rs [] []))
              (Distinct-dedup (named (map ip_of rs))))),
    )
