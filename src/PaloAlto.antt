-- ===== src/PaloAlto.antt =====
-- frontend/src/pages/PaloAltoCheck/PaloAltoCheckPage.tsx: the tests on the addresses and networks
-- that the user types.
pub mod Accepted
mod Tests
pub mod Quad
pub mod Single
pub mod Bulk
pub mod Panels
use iop.Base.{
  ℕ, ◌-◌, ◌^◌, Bool, true, false, not, ◌&&◌, List, [], ◌∷◌, Option, none, some, Text, length, every,
  leb, ltb, nat_beq, if◌then◌else◌,
}
use iop.Text.Number.{is_digit, digits_value}
use iop.Text.Search.{is_empty}
use iop.Text.Split.{split, split_runs}
use iop.Text.Trim.{trim}

-- `/^\d{1,n}$/`
unfoldable pub is_decimal : ℕ → Text → Bool
unfolding is_digit
is_decimal n p = leb 1 (length p) && leb (length p) n && every is_digit p

-- `Number(p)` of digits.
unfoldable pub number : Text → ℕ
unfolding digits_value
number p = digits_value 0 p

-- `/^\d{1,3}$/.test(p) && Number(p) >= 0 && Number(p) <= 255`
unfoldable pub is_octet : Text → Bool
unfolding is_decimal number
is_octet p = is_decimal 3 p && leb 0 (number p) && leb (number p) 255

unfoldable pub is_valid_ipv4 : Text → Bool
unfolding is_octet split trim
is_valid_ipv4 ip =
    let parts = split b'.' (trim ip) in
    if not (nat_beq (length parts) 4) then false else every is_octet parts

-- `const [ip, prefix] = ...` and the tests; a missing prefix is `undefined`.
unfoldable pub valid_parts : List Text → Bool
unfolding is_decimal number is_valid_ipv4
valid_parts [] = false
valid_parts (ip ∷ []) = false
valid_parts (ip ∷ prefix ∷ rest) =
    if is_empty ip
    then false
    else if is_empty prefix
    then false
    else if not (is_decimal 2 prefix)
    then false
    else is_valid_ipv4 ip && leb 0 (number prefix) && leb (number prefix) 32

unfoldable pub is_valid_cidr : Text → Bool
unfolding valid_parts split trim
is_valid_cidr cidr = valid_parts (split b'/' (trim cidr))

-- `Math.max(0, 2 ** (32 - prefix) - 2)`, where subtraction stops at 0. A missing prefix is not
-- finite, and neither is one that is no number; the pages only have digits there.
unfoldable pub host_count : List Text → ℕ
unfolding number is_digit
host_count [] = 0
host_count (ip ∷ []) = 0
host_count (ip ∷ prefix ∷ rest) = if every is_digit prefix then 2 ^ (32 - number prefix) - 2 else 0

unfoldable pub cidr_host_count : Text → ℕ
unfolding host_count split trim
cidr_host_count cidr = host_count (split b'/' (trim cidr))

abbrev pub max_bulk_ips : ℕ
max_bulk_ips = 254

pub data BulkInputMode : Type 0 where
  cidr_mode list_mode : BulkInputMode

-- What the user has typed for a scan of many addresses.
pub record BulkInput : Type 0 where
  pub mode : BulkInputMode
  pub cidr : Text
  pub list : Text

unfoldable pub trimmed_entries : List Text → List Text
unfolding trim
trimmed_entries [] = []
trimmed_entries (s ∷ rest) =
    let t = trim s in let others = trimmed_entries rest in if is_empty t then others else t ∷ others

unfoldable pub bulk_ip_list : Text → List Text
unfolding trimmed_entries split_runs
bulk_ip_list list = trimmed_entries (split_runs list)

unfoldable pub cidr_too_large : BulkInputMode → Text → Bool
unfolding is_valid_cidr cidr_host_count trim
cidr_too_large cidr_mode cidr =
    is_valid_cidr (trim cidr) && ltb max_bulk_ips (cidr_host_count (trim cidr))
cidr_too_large list_mode cidr = false

unfoldable pub bulk_expected_total : BulkInputMode → Text → List Text → ℕ
unfolding is_valid_cidr cidr_host_count trim
bulk_expected_total cidr_mode cidr ips =
    if is_valid_cidr (trim cidr) then cidr_host_count (trim cidr) else 0
bulk_expected_total list_mode cidr ips = length ips

unfoldable pub bulk_input_valid : BulkInputMode → Text → List Text → Bool
unfolding is_valid_cidr cidr_too_large is_valid_ipv4 trim
bulk_input_valid cidr_mode cidr ips =
    is_valid_cidr (trim cidr) && not (cidr_too_large cidr_mode cidr)
bulk_input_valid list_mode cidr ips = ltb 0 (length ips) && every is_valid_ipv4 ips

-- The button, which is enabled where `!bulkInputValid || bulkIpList.length > MAX_BULK_IPS` fails.
unfoldable pub scan_enabled : BulkInput → Bool
unfolding bulk_input_valid bulk_ip_list
scan_enabled s =
    let ips = bulk_ip_list s.list in
    bulk_input_valid s.mode s.cidr ips && not (ltb max_bulk_ips (length ips))
