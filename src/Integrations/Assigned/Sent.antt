-- ===== src/Integrations/Assigned/Sent.antt =====
-- What the drawers of Device42 and Zabbix send.
use iop.Base.{
  ◌≤◌, ◌≡◌, inl, inr, true, false, List, Option, none, some, Text, text_eq, includes, length, arith,
  Bool-cases, All,
}
use iop.Text.Search.{is_empty}
use iop.Integrations.Chosen.{All-chosen_items, length-chosen_items}
use iop.Integrations.Assigned.{
  AssignedRow, Device42Ip, ZabbixHost, device42_key, device42_item, device42_to_import, zabbix_key,
  zabbix_item, zabbix_to_import,
}

-- A selected address with a subnet.
abbrev pub IsAssigned : List Text → Text → Text → Type 0
IsAssigned keys ip subnet = (includes keys ip ≡ true) × (is_empty subnet ≡ false)

device42_item-IsAssigned :
    (keys : List Text) (subnet : Option Text) (r : AssignedRow Device42Ip)
    → includes keys (device42_key r) ≡ true
    → All (λ i. IsAssigned keys i.ip_address i.subnet_id) (device42_item subnet r)
device42_item-IsAssigned keys none r h = tt
device42_item-IsAssigned keys (some subnet) r h = elim (Bool-cases (is_empty subnet)) [
  | inl blank ↦ rw blank tt
  | inr filled ↦ rw filled ((h, filled), tt)
]

length-device42_item :
    (subnet : Option Text) (r : AssignedRow Device42Ip) → length (device42_item subnet r) ≤ 1
length-device42_item none r = omega arith
length-device42_item (some subnet) r = elim (Bool-cases (is_empty subnet)) [
  | inl blank ↦ rw blank (omega arith)
  | inr filled ↦ rw filled (omega arith)
]

zabbix_item-IsAssigned :
    (keys : List Text) (subnet : Option Text) (r : AssignedRow ZabbixHost)
    → includes keys (zabbix_key r) ≡ true
    → All (λ i. IsAssigned keys i.ip_address i.subnet_id) (zabbix_item subnet r)
zabbix_item-IsAssigned keys none r h = tt
zabbix_item-IsAssigned keys (some subnet) r h = elim (Bool-cases (is_empty subnet)) [
  | inl blank ↦ rw blank tt
  | inr filled ↦ rw filled ((h, filled), tt)
]

length-zabbix_item :
    (subnet : Option Text) (r : AssignedRow ZabbixHost) → length (zabbix_item subnet r) ≤ 1
length-zabbix_item none r = omega arith
length-zabbix_item (some subnet) r = elim (Bool-cases (is_empty subnet)) [
  | inl blank ↦ rw blank (omega arith)
  | inr filled ↦ rw filled (omega arith)
]

-- Whatever the rows are, the Device42 and the Zabbix drawer send only selected addresses, each with
-- a subnet id that is not empty, and no more of them than keys are selected.
pub to_import-IsAssigned :
    (keys : List Text) (ips : List (AssignedRow Device42Ip)) (hosts : List (AssignedRow ZabbixHost))
    → All (λ i. IsAssigned keys i.ip_address i.subnet_id) (device42_to_import keys ips)
      × (length (device42_to_import keys ips) ≤ length keys)
      × All (λ i. IsAssigned keys i.ip_address i.subnet_id) (zabbix_to_import keys hosts)
      × (length (zabbix_to_import keys hosts) ≤ length keys)
unfolding device42_to_import zabbix_to_import
to_import-IsAssigned keys ips hosts =
    let d_item = λ (r : AssignedRow Device42Ip). device42_item r.subnet_id r in
    let z_item = λ (r : AssignedRow ZabbixHost). zabbix_item r.subnet_id r in
    (
      All-chosen_items device42_key d_item (λ i. IsAssigned keys i.ip_address i.subnet_id) keys ips
          (λ r h. device42_item-IsAssigned keys r.subnet_id r h),
      length-chosen_items device42_key d_item (λ r. length-device42_item r.subnet_id r) keys ips,
      All-chosen_items zabbix_key z_item (λ i. IsAssigned keys i.ip_address i.subnet_id) keys hosts
          (λ r h. zabbix_item-IsAssigned keys r.subnet_id r h),
      length-chosen_items zabbix_key z_item (λ r. length-zabbix_item r.subnet_id r) keys hosts,
    )
