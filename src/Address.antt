-- ===== src/Address.antt =====
-- The IPv4 arithmetic that two pages write out: `ipToInt`/`ipv4ToInt` and `isIPInCIDR` of
-- frontend/src/pages/NetworkScan/NetworkScanPage.tsx and
-- frontend/src/pages/IPRecords/IPRecordsPage.tsx.
pub mod Range
pub mod Dotted
mod Tests
use Prim.Native.Nat.{bit_and}
use mathlib.Core.List.{foldl}
use iop.Base.{
  ℕ, suc, ◌+◌, ◌-◌, ◌*◌, ◌%◌, ◌^◌, Bool, true, List, [], ◌∷◌, Option, none, some, Text, nat_beq,
}
use iop.Base.Int.{ℤ, pos, negsuc}
use iop.Text.Split.{split}
use iop.Text.Number.{parse_int}

abbrev pub word : ℕ
word = 0x1_0000_0000

-- `(a + z) >>> 0` for a 32-bit pattern `a`: the sum modulo 2^32, whether `a` is read signed or
-- unsigned.
abbrev pub add_word : ℕ → ℤ → ℕ
add_word a (pos n) = (a + n) % word
add_word a (negsuc n) = (a + (word - 1 - n % word)) % word

-- `((acc << 8) + parseInt(octet, 10)) >>> 0`, where NaN becomes 0.
abbrev pub push_octet : ℕ → Option ℤ → ℕ
push_octet acc none = 0
push_octet acc (some z) = add_word (acc * 256 % word) z

abbrev pub octet_step : ℕ → Text → ℕ
octet_step acc octet = push_octet acc (parse_int octet)

-- `ip.split(".").reduce(…, 0)`
unfoldable pub ip_to_int : Text → ℕ
ip_to_int ip = foldl octet_step 0 (split b'.' ip)

-- `parseInt(parts[1], 10)`: a part that is missing is `undefined`, which reads as NaN.
abbrev pub second_int : List Text → Option ℤ
second_int [] = none
second_int (a ∷ []) = none
second_int (a ∷ b ∷ rest) = parse_int b

abbrev pub first_part : List Text → Text
first_part [] = []
first_part (a ∷ rest) = a

-- `parseInt(cidr.split("/")[1], 10)`
unfoldable pub prefix_of : Text → Option ℤ
prefix_of cidr = second_int (split b'/' cidr)

-- The network part, `cidr.split("/")[0]`.
unfoldable pub network_of : Text → Text
network_of cidr = first_part (split b'/' cidr)

-- The count by which `<< (32 - prefix)` shifts, which JavaScript takes modulo 32.
unfoldable pub shift_count : Option ℤ → ℕ
shift_count none = 0
shift_count (some (pos p)) = (32 - p % 32) % 32
shift_count (some (negsuc n)) = suc n % 32

-- `prefix === 0 ? 0 : (~0 << (32 - prefix)) >>> 0`
unfoldable pub mask_of : Option ℤ → ℕ
unfolding shift_count
mask_of (some (pos ℕ.zero)) = 0
mask_of prefix = word - 2 ^ shift_count prefix

-- `isIPInCIDR` of the network scan page.
unfoldable pub is_ip_in_cidr : Text → Text → Bool
is_ip_in_cidr ip cidr =
    let mask = mask_of (prefix_of cidr) in
    nat_beq (bit_and (ip_to_int ip) mask) (bit_and (ip_to_int (network_of cidr)) mask)
