-- ===== src/IpRecords.antt =====
-- frontend/src/pages/IPRecords/IPRecordsPage.tsx: the checks of an address against a subnet. The
-- 32-bit arithmetic is that of the network scan page, written out a second time.
pub mod Suggested
pub mod Page
pub mod Submit
pub mod Bulk
pub mod History
mod Tests
use iop.Base.{
  ℕ, Bool, true, false, not, ◌&&◌, ◌||◌, List, [], ◌∷◌, ◌++◌, map, Option, none, some, Text, text,
  length, take, nat_beq, if◌then◌else◌,
}
use iop.Text.Search.{contains, is_empty}
use iop.Text.Split.{split, join}
use iop.Address.{is_ip_in_cidr, network_of}
use iop.Types.Subnet.{SubnetDetail}

-- `isIPv6`
unfoldable pub is_ipv6 : Text → Bool
unfolding contains
is_ipv6 ip = contains ip (text ":")

-- `isIPInCIDR`: an address or a network of version 6 is always accepted.
unfoldable pub fits_cidr : Text → Text → Bool
unfolding is_ipv6
fits_cidr ip cidr = if is_ipv6 ip || is_ipv6 (network_of cidr) then true else is_ip_in_cidr ip cidr

-- `g || "0"`
abbrev pub or_zero : Text → Text
or_zero [] = text "0"
or_zero (c ∷ cs) = c ∷ cs

abbrev pub suggest_v4 : Text → List Text → Text
suggest_v4 ip (a ∷ b ∷ c ∷ d ∷ []) = a ++ text "." ++ b ++ text "." ++ c ++ text ".0/24"
suggest_v4 ip parts = ip ++ text "/24"

-- `suggestCIDR`
unfoldable pub suggest_cidr : Text → Text
unfolding is_ipv6 split join
suggest_cidr ip =
    if is_ipv6 ip
    then join b':' (map or_zero (take 4 (split b':' ip))) ++ text "::/64"
    else suggest_v4 ip (split b'.' ip)

-- `ipOutsideSubnet`, over the address that the form holds and the subnet that it selects.
abbrev pub ip_outside_subnet : Option Text → Option SubnetDetail → Bool
ip_outside_subnet none subnet = false
ip_outside_subnet (some ip) none = false
ip_outside_subnet (some ip) (some subnet) = not (is_empty ip) && not (fits_cidr ip subnet.cidr)
